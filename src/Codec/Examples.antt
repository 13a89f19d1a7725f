-- ===== src/Codec/Examples.antt =====
-- The theorems on the byte streams at concrete bytes.
use smd_web_hmi.Prelude.{
  ℕ, ◌≤◌, ◌≡◌, ◌⊎◌, refl, Bool, true, false, Option, none, some, List, [], ◌∷◌, ◌++◌, arith, length,
  any, ◌==◌, ok, if◌then◌else◌,
}
use smd_web_hmi.Codec.Frames.{
  is_lf, is_cr, max_frame_bytes, new_decoder, feed, encode_messages, encode_message, send,
}
use smd_web_hmi.Codec.Decoding.{IsBounded, feed-IsBounded, decode-encode}
use smd_web_hmi.Codec.Assembler.{
  RecipeBegin, RecipeChunk, RecipeAssembler, new_assembler, add, add-recipe, add_part, extended,
  extend, finish, validated, outcome, offset_valid, chunk_length_ok,
}

-- A protocol of two messages, the letters t and f.
abbrev written : Bool → List ℕ
written true = 116 ∷ []
written false = 102 ∷ []

abbrev read : List ℕ → Option Bool
read (b ∷ []) = if b == 116 then some true else (if b == 102 then some false else none)
read _ = none

abbrev always : Bool → Bool
always m = true

abbrev garbage : List ℕ
garbage = 1 ∷ 13 ∷ 116 ∷ []

abbrev sent : List ℕ
sent = 116 ∷ 10 ∷ 102 ∷ 10 ∷ []

encodes : encode_messages written always (true ∷ false ∷ []) ≡ some sent
unfolding encode_messages encode_message send
encodes = refl

decode-encode_example : feed read ((garbage ++ (10 ∷ [])) ++ sent) new_decoder ≡ (
  (feed read (garbage ++ (10 ∷ [])) new_decoder).0 ++ (true ∷ false ∷ []),
  (feed read (garbage ++ (10 ∷ [])) new_decoder).1,
)
decode-encode_example =
    decode-encode read written always no_lf no_cr reads garbage (true ∷ false ∷ []) encodes
  where
    no_lf : (m : Bool) → any is_lf (written m) ≡ false
    no_lf true = refl
    no_lf false = refl

    no_cr : (m : Bool) → any is_cr (written m) ≡ false
    no_cr true = refl
    no_cr false = refl

    reads :
        (m : Bool)
        → always m ≡ true
        → length (written m) ≤ max_frame_bytes
        → read (written m) ≡ some m
    reads true valid fits = refl
    reads false valid fits = refl

feed-IsBounded_example : IsBounded (feed read garbage new_decoder).1
feed-IsBounded_example = feed-IsBounded read garbage new_decoder (omega arith, λ e. refl)

-- A recipe of two bytes in two chunks; its digest is its length.
abbrev announced : RecipeBegin
announced = record { transfer_id = 7; lease_id = 8; recipe_digest = 2; byte_length = 2 }

abbrev half_done : RecipeAssembler
half_done = record (new_assembler announced) { data_ = 65 ∷ [] }

abbrev second : RecipeChunk
second = record { transfer_id = 7; offset = 1; data_b64 = 66 ∷ [] }

abbrev as_is : List ℕ → Option (List ℕ)
as_is bytes = some bytes

completes : (add length as_is second half_done).0 ≡ ok (some (65 ∷ 66 ∷ []))
unfolding add add_part extended extend finish validated outcome offset_valid chunk_length_ok
    new_assembler
completes = refl

add-recipe_example :
    let bytes = (add length as_is second half_done).1.data_ in
    (bytes ≡ half_done.data_ ⊎ (bytes ≡ half_done.data_ ++ second.data_b64))
    × ((r : List ℕ)
        → some (65 ∷ 66 ∷ []) ≡ some r
        → (length bytes ≡ half_done.begin.byte_length)
          × (length bytes ≡ half_done.begin.recipe_digest)
          × (as_is bytes ≡ some r))
add-recipe_example = add-recipe length as_is second half_done completes
