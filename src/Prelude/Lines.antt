-- ===== src/Prelude/Lines.antt =====
-- Bytes cut at line feeds, in backend/app/services/v2_source_logs.py and backend/app/hostcomm/protocol.py.
use Prim.Native.Nat.{ℕ}
use mathlib.Core.Path.{◌≡◌, refl, sym, ap, ◌∙◌}
use mathlib.Core.Logic.{inl, inr}
use mathlib.Core.Bool.{true, false}
use mathlib.Core.List.{List, [], ◌∷◌, ◌++◌}
use smd_web_hmi.Prelude.Tests.{◌==◌, if◌then◌else◌, Bool-cases, if-true, if-false}

-- The complete lines of bytes, without their line feeds, and what is left behind the last of these.
unfoldable pub put_byte : ℕ → List (List ℕ) × List ℕ → List (List ℕ) × List ℕ
put_byte b ([], rest) = ([], b ∷ rest)
put_byte b (line ∷ lines, rest) = ((b ∷ line) ∷ lines, rest)

unfoldable pub split_lines : List ℕ → List (List ℕ) × List ℕ
unfolding put_byte
split_lines [] = ([], [])
split_lines (b ∷ bs) =
    let (lines, rest) = split_lines bs in
    if b == 10 then ([] ∷ lines, rest) else put_byte b (lines, rest)

-- The lines of a stream behind those of its first part.
abbrev pub join_lines : List (List ℕ) × List ℕ → List ℕ → List (List ℕ) × List ℕ
join_lines x ys = (x.0 ++ (split_lines (x.1 ++ ys)).0, (split_lines (x.1 ++ ys)).1)

split_lines_other :
    (b : ℕ) (bs : List ℕ) → (b == 10) ≡ false → split_lines (b ∷ bs) ≡ put_byte b (split_lines bs)
unfolding split_lines
split_lines_other b bs other = if-false _ _ other

split_lines_lf :
    (b : ℕ) (bs : List ℕ)
    → (b == 10) ≡ true
    → split_lines (b ∷ bs) ≡ ([] ∷ (split_lines bs).0, (split_lines bs).1)
unfolding split_lines
split_lines_lf b bs lf = if-true _ _ lf

put_byte-join_lines :
    (b : ℕ) (x : List (List ℕ) × List ℕ) (ys : List ℕ)
    → (b == 10) ≡ false
    → put_byte b (join_lines x ys) ≡ join_lines (put_byte b x) ys
unfolding put_byte
put_byte-join_lines b ([], rest) ys other = sym (split_lines_other b (rest ++ ys) other)
put_byte-join_lines b (line ∷ lines, rest) ys other = refl

-- Two parts of a stream, cut anywhere, have the lines of the whole.
pub split_lines-append : (xs ys : List ℕ) → split_lines (xs ++ ys) ≡ join_lines (split_lines xs) ys
split_lines-append [] ys = unfold split_lines in refl
split_lines-append (b ∷ bs) ys = elim (Bool-cases (b == 10)) [
  | inl lf ↦
      split_lines_lf b (bs ++ ys) lf
      ∙ (ap (λ x. ([] ∷ x.0, x.1)) (split_lines-append bs ys)
          ∙ ap (λ x. join_lines x ys) (sym (split_lines_lf b bs lf)))
  | inr other ↦
      split_lines_other b (bs ++ ys) other
      ∙ (ap (put_byte b) (split_lines-append bs ys)
          ∙ (put_byte-join_lines b (split_lines bs) ys other
              ∙ ap (λ x. join_lines x ys) (sym (split_lines_other b bs other))))
]
