-- ===== src/Archive/Stored.antt =====
-- What the rows of the transfers in backend/app/services/v2_source_logs.py say of the chunks that are stored.
use smd_web_hmi.Prelude.{
  split_lines, put_byte, ℕ, ◌+◌, ◌≡◌, refl, sym, ap, ◌∙◌, inl, inr, true, false, Option, none, some,
  List, [], ◌∷◌, ◌++◌, ◌==◌, ==_eq, length, arith, Bool-cases, if-true, if-false, if◌then◌else◌,
  some_injective,
}
use mathlib.Core.Path.{subst}
use smd_web_hmi.Archive.Model.{TransferRow, ChunkRow, Db, find_transfer, put_transfer}

abbrev pub line_feeds : List ℕ → ℕ
line_feeds [] = 0
line_feeds (b ∷ bs) = let rest = line_feeds bs in if b == 10 then rest + 1 else rest

-- The bytes, and the complete lines, in the stored chunks of a transfer.
abbrev pub stored_bytes : ℕ → List ChunkRow → ℕ
stored_bytes id [] = 0
stored_bytes id (c ∷ cs) =
    let rest = stored_bytes id cs in
    if c.metadata.transfer_id == id then rest + length c.metadata.data_b64 else rest

abbrev pub stored_lines : ℕ → List ChunkRow → ℕ
stored_lines id [] = 0
stored_lines id (c ∷ cs) =
    let rest = stored_lines id cs in
    if c.metadata.transfer_id == id then rest + line_feeds c.metadata.data_b64 else rest

pub line_feeds-append : (xs ys : List ℕ) → line_feeds (xs ++ ys) ≡ line_feeds xs + line_feeds ys
line_feeds-append [] ys = omega arith
line_feeds-append (x ∷ xs) ys = ground (arith, line_feeds-append xs ys)

put_byte-line_feeds :
    (b : ℕ) (x : List (List ℕ) × List ℕ)
    → (b == 10) ≡ false
    → line_feeds x.1 ≡ 0
    → (length (put_byte b x).0 ≡ length x.0) × (line_feeds (put_byte b x).1 ≡ 0)
unfolding put_byte
put_byte-line_feeds b ([], rest) other h = (refl, ground arith)
put_byte-line_feeds b (line ∷ lines, rest) other h = (refl, h)

pub split_lines-line_feeds :
    (xs : List ℕ)
    → (length (split_lines xs).0 ≡ line_feeds xs) × (line_feeds (split_lines xs).1 ≡ 0)
unfolding split_lines
split_lines-line_feeds [] = (refl, refl)
split_lines-line_feeds (b ∷ bs) =
    let (count, free) = split_lines-line_feeds bs in
    elim (Bool-cases (b == 10)) [
      | inl lf ↦ ground (arith, count, free)
      | inr other ↦ ground (arith, count, free, put_byte-line_feeds b (split_lines bs) other free)
    ]

-- What the row of a transfer says of the stored chunks; without a row there are none.
abbrev pub IsTied : ℕ → Option TransferRow → List ChunkRow → Type 0
IsTied id none cs = (stored_bytes id cs ≡ 0) × (stored_lines id cs ≡ 0)
IsTied id (some r) cs =
    (r.next_offset ≡ stored_bytes id cs)
    × (r.record_count ≡ stored_lines id cs)
    × (line_feeds r.pending_bytes ≡ 0)

abbrev pub AllTied : Db → Type 0
AllTied db = (id : ℕ) → IsTied id (find_transfer id db.transfers) db.chunks

pub find_transfer-put_same :
    (id : ℕ) (f : TransferRow → TransferRow) (rs : List TransferRow) {r : TransferRow}
    → find_transfer id rs ≡ some r
    → (f r).transfer_id ≡ id
    → find_transfer id (put_transfer id f rs) ≡ some (f r)
unfolding find_transfer put_transfer
find_transfer-put_same id f [] h e = cc
find_transfer-put_same id f (s ∷ rs) {r} h e = elim (Bool-cases (s.transfer_id == id)) [
  | inl same_id ↦
      let same : s ≡ r = some_injective (sym (if-true _ _ same_id) ∙ h) in
      ap (find_transfer id) (if-true _ _ same_id)
      ∙ (if-true _ _ (subst (λ x. ((f x).transfer_id == id) ≡ true) (sym same) (ground (arith, e)))
          ∙ ap (λ x. some (f x)) same)
  | inr other ↦
      ap (find_transfer id) (if-false _ _ other)
      ∙ (if-false _ _ other
          ∙ find_transfer-put_same id f rs {r = r} (sym (if-false _ _ other) ∙ h) e)
]

pub find_transfer-put_other :
    (at id : ℕ) (f : TransferRow → TransferRow) (rs : List TransferRow)
    → (at == id) ≡ false
    → ((r : TransferRow) → r.transfer_id ≡ at → (f r).transfer_id ≡ at)
    → find_transfer id (put_transfer at f rs) ≡ find_transfer id rs
unfolding find_transfer put_transfer
find_transfer-put_other at id f [] n k = refl
find_transfer-put_other at id f (s ∷ rs) n k = elim (Bool-cases (s.transfer_id == at)) [
  | inl same ↦
      let is_at : s.transfer_id ≡ at = ==_eq s.transfer_id at same in
      ap (find_transfer id) (if-true _ _ same)
      ∙ (if-false _ _ (ap (λ x. x == id) (k s is_at) ∙ n)
          ∙ sym (if-false _ _ (ap (λ x. x == id) is_at ∙ n)))
  | inr other ↦
      ap (find_transfer id) (if-false _ _ other)
      ∙ ap (λ x. if s.transfer_id == id then some s else x) (find_transfer-put_other at id f rs n k)
]

pub find_transfer-id :
    (id : ℕ) (rs : List TransferRow) {r : TransferRow}
    → find_transfer id rs ≡ some r
    → r.transfer_id ≡ id
unfolding find_transfer
find_transfer-id id [] h = cc
find_transfer-id id (s ∷ rs) {r} h = elim (Bool-cases (s.transfer_id == id)) [
  | inl match ↦ ground arith
  | inr other ↦ find_transfer-id id rs {r = r} (sym (if-false _ _ other) ∙ h)
]

-- A chunk of another transfer changes nothing for this one.
pub other-IsTied :
    (id : ℕ) (o : Option TransferRow) (c : ChunkRow) (cs : List ChunkRow)
    → (c.metadata.transfer_id == id) ≡ false
    → IsTied id o cs
    → IsTied id o (c ∷ cs)
other-IsTied id none c cs n h = ground arith
other-IsTied id (some r) c cs n h = ground arith
