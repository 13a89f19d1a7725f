-- ===== src/Codec/Assembler.antt =====
-- `RecipeAssembler` of backend/app/hostcomm/v2_contract/codec.py, with the messages `RecipeBegin` and
-- `RecipeChunk`. Base64 text is the bytes that it encodes, `sha256` is a parameter, and `validate_`
-- stands for `validate_recipe_bytes`: `none` is an exception.
use smd_web_hmi.Prelude.{
  ℕ, ◌+◌, ◌≤◌, ◌≡◌, ◌⊎◌, refl, sym, ap, ◌∙◌, inl, inr, Bool, true, false, not, ◌&&◌, ◌||◌, Option,
  none, some, List, [], ◌∷◌, ◌++◌, take, drop, max, ◌==◌, leb, ltb, Result, ok, err, if◌then◌else◌,
  arith, length, length-append, Bool-cases, Option-cases,
}
use mathlib.Core.Path.{subst}

pub record RecipeBegin : Type 0 where
  pub transfer_id : ℕ
  pub lease_id : ℕ
  pub recipe_digest : ℕ
  pub byte_length : ℕ

pub record RecipeChunk : Type 0 where
  pub transfer_id : ℕ
  pub offset : ℕ
  pub data_b64 : List ℕ

pub record RecipeAssembler : Type 0 where
  pub begin : RecipeBegin
  pub data_ : List ℕ
  pub aborted : Bool

unfoldable pub begin_valid : RecipeBegin → Bool
begin_valid b = ltb 0 b.byte_length && leb b.byte_length 65536

unfoldable pub offset_valid : RecipeChunk → Bool
offset_valid part = leb part.offset 65535

unfoldable pub chunk_length_ok : List ℕ → Bool
chunk_length_ok raw = leb 1 (length raw) && leb (length raw) 1536

-- `__init__` with a message that validates.
unfoldable pub new_assembler : RecipeBegin → RecipeAssembler
new_assembler b = record { begin = b; data_ = []; aborted = false }

unfoldable pub same_bytes : List ℕ → List ℕ → Bool
same_bytes [] [] = true
same_bytes (x ∷ xs) (y ∷ ys) = (x == y) && same_bytes xs ys
same_bytes _ _ = false

-- `bytes(self.data[offset:end]) == raw`, for a chunk inside what is there.
unfoldable pub retained : RecipeChunk → List ℕ → Bool
unfolding same_bytes
retained part data_ =
    leb (part.offset + length part.data_b64) (length data_)
    && same_bytes (take (length part.data_b64) (drop part.offset data_)) part.data_b64

-- The bytes after a chunk that is no conflict and leaves no gap.
unfoldable pub extend : RecipeChunk → List ℕ → Option (List ℕ)
unfolding retained
extend part data_ =
    if ltb part.offset (length data_)
    then (if retained part data_ then some data_ else none)
    else (if part.offset == length data_ then some (data_ ++ part.data_b64) else none)

module _ {ℓ} {R : Type ℓ} (sha256 : List ℕ → ℕ) (validate_ : List ℕ → Option R) where
  unfoldable pub validated : Option R → Option (Option R)
  validated none = none
  validated (some r) = some (some r)

  unfoldable pub finish : RecipeBegin → List ℕ → Option (Option R)
  unfolding validated
  finish b data_ =
      if length data_ == b.byte_length
      then (if sha256 data_ == b.recipe_digest then validated (validate_ data_) else none)
      else some none

  unfoldable pub extended : RecipeAssembler → Option (List ℕ) → List ℕ × Option (Option R)
  unfolding finish
  extended a none = (a.data_, none)
  extended a (some data_) = (data_, finish a.begin data_)

  -- `_add`: the bytes that it leaves, and its result.
  unfoldable pub add_part : RecipeChunk → RecipeAssembler → List ℕ × Option (Option R)
  unfolding extend extended offset_valid chunk_length_ok
  add_part part a =
      if not (offset_valid part)
        || not (part.transfer_id == a.begin.transfer_id)
        || not (chunk_length_ok part.data_b64)
        || ltb a.begin.byte_length (part.offset + length part.data_b64)
      then (a.data_, none)
      else extended a (extend part a.data_)

  unfoldable pub outcome :
      List ℕ × Option (Option R) → RecipeAssembler → Result (Unit {0}) (Option R) × RecipeAssembler
  outcome (data_, none) a = (err tt, record a { data_ = data_; aborted = true })
  outcome (data_, some r) a = (ok r, record a { data_ = data_ })

  unfoldable pub add :
      RecipeChunk → RecipeAssembler → Result (Unit {0}) (Option R) × RecipeAssembler
  unfolding outcome add_part
  add part a = if a.aborted then (err tt, a) else outcome (add_part part a) a

  finish-some :
      (b : RecipeBegin) (bytes : List ℕ) {r : R}
      → finish b bytes ≡ some (some r)
      → (length bytes ≡ b.byte_length)
        × (sha256 bytes ≡ b.recipe_digest)
        × (validate_ bytes ≡ some r)
  unfolding finish validated
  finish-some b bytes h = elim (Option-cases (validate_ bytes)) [
    | inl refused ↦ absurd (ground arith)
    | inr (other, accepted) ↦ (ground arith, ground arith, ground arith)
  ]

  add_part-some :
      (part : RecipeChunk) (a : RecipeAssembler) {r : Option R}
      → (add_part part a).1 ≡ some r
      → extend part a.data_ ≡ some (add_part part a).0
        × (finish a.begin (add_part part a).0 ≡ some r)
        × (length (add_part part a).0 ≤ max a.begin.byte_length (length a.data_))
  unfolding add_part extended extend
  add_part-some part a h = elim (Option-cases (extend part a.data_)) [
    | inl refused ↦ absurd (ground arith)
    | inr (bytes, grown) ↦
        (ground arith, ground arith, ground (arith, length-append a.data_ part.data_b64))
  ]

  extend-prefix :
      (part : RecipeChunk) (bytes : List ℕ) {more : List ℕ}
      → extend part bytes ≡ some more
      → (more ≡ bytes) ⊎ (more ≡ bytes ++ part.data_b64)
  unfolding extend
  extend-prefix part bytes h = elim (Bool-cases (ltb part.offset (length bytes))) [
    | inl before ↦ inl (ground arith)
    | inr after ↦ inr (ground arith)
  ]

  outcome-ok :
      (x : List ℕ × Option (Option R)) (a : RecipeAssembler) {result : Option R}
      → (outcome x a).0 ≡ ok result
      → (x.1 ≡ some result) × ((outcome x a).1.data_ ≡ x.0)
  unfolding outcome
  outcome-ok (bytes, none) a h = ground arith
  outcome-ok (bytes, some r) a h = (ground arith, refl)

  -- A chunk that is taken comes to an assembler that was not aborted.
  add-taken :
      (part : RecipeChunk) (a : RecipeAssembler) {result : Option R}
      → (add part a).0 ≡ ok result
      → add part a ≡ outcome (add_part part a) a
  unfolding add
  add-taken part a h = ground arith

  add-ok :
      (part : RecipeChunk) (a : RecipeAssembler) {result : Option R}
      → (add part a).0 ≡ ok result
      → ((add_part part a).1 ≡ some result) × ((add part a).1.data_ ≡ (add_part part a).0)
  add-ok part a h =
      let taken = add-taken part a h in
      let (result, bytes) = outcome-ok (add_part part a) a (sym (ap (λ o. o.0) taken) ∙ h) in
      (result, ap (λ o. o.1.data_) taken ∙ bytes)

  -- A chunk that is taken leaves the bytes there are, alone or with its own behind them. If it yields
  -- a recipe, they are all that was announced, with the digest announced, and the recipe is what they
  -- validate to.
  pub add-recipe :
      (part : RecipeChunk) (a : RecipeAssembler) {result : Option R}
      → (add part a).0 ≡ ok result
      → let bytes = (add part a).1.data_ in
        (bytes ≡ a.data_ ⊎ (bytes ≡ a.data_ ++ part.data_b64))
        × ((r : R)
            → result ≡ some r
            → (length bytes ≡ a.begin.byte_length)
              × (sha256 bytes ≡ a.begin.recipe_digest)
              × (validate_ bytes ≡ some r))
  add-recipe part a {result} h =
      let (taken, bytes) = add-ok part a h in
      let (grown, finished, _) = add_part-some part a taken in
      (
        subst (λ l. l ≡ a.data_ ⊎ (l ≡ a.data_ ++ part.data_b64)) (sym bytes)
            (extend-prefix part a.data_ grown),
        λ r is_recipe.
            subst
              (λ l.
                (length l ≡ a.begin.byte_length)
                × (sha256 l ≡ a.begin.recipe_digest)
                × (validate_ l ≡ some r))
              (sym bytes)
              (finish-some a.begin (add_part part a).0 (finished ∙ ap (λ o. some o) is_recipe)),
      )
