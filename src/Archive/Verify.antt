-- ===== src/Archive/Verify.antt =====
-- `_advance_verified` of `V2SourceLogStore`, backend/app/services/v2_source_logs.py: the numbers of a log that
-- complete transfers have verified.
use smd_web_hmi.Prelude.{
  ℕ, ◌+◌, ◌≤◌, ◌≡◌, refl, inl, inr, ◌⊎◌, max, min, true, ◌&&◌, Option, none, some, List, [], ◌∷◌,
  leb, arith, Bool-cases, if-true, if-false, some_injective, if◌then◌else◌,
}
use mathlib.Core.Path.{subst, sym}
use smd_web_hmi.Transfer.Model.{LogRange, TransferStatus, is_complete}
use smd_web_hmi.Archive.Model.{Cursor}

-- What it reads of a terminal result.
pub record Terminal : Type 0 where
  pub requested : LogRange
  pub status : TransferStatus

unfoldable pub or_zero : Option ℕ → ℕ
or_zero none = 0
or_zero (some n) = n

-- The row of the log with the numbers that were scanned.
unfoldable pub scanned : Terminal → Option Cursor → Cursor
unfolding or_zero
scanned t none = record {
  log_id = t.requested.log_id;
  verified_from_seq = none;
  verified_through_seq = none;
  scanned_through_seq = some t.requested.last_record_seq;
}
scanned t (some c) = record c {
  scanned_through_seq = some (max t.requested.last_record_seq (or_zero c.scanned_through_seq));
}

-- The cut of a complete transfer joins the interval that it touches.
unfoldable pub verified : LogRange → Option ℕ → Option ℕ → Cursor → Cursor
verified r none through c = record c {
  verified_from_seq = some r.first_record_seq;
  verified_through_seq = some r.last_record_seq;
}
verified r (some from) none c = record c {
  verified_from_seq = some r.first_record_seq;
  verified_through_seq = some r.last_record_seq;
}
verified r (some from) (some through) c =
    if leb r.first_record_seq (through + 1) && leb from (r.last_record_seq + 1)
    then record c {
      verified_from_seq = some (min r.first_record_seq from);
      verified_through_seq = some (max r.last_record_seq through);
    }
    else c

-- `_advance_verified`
unfoldable pub advance_verified : Terminal → Option Cursor → Cursor
unfolding scanned verified
advance_verified t row =
    let c = scanned t row in
    if is_complete t.status
    then verified t.requested c.verified_from_seq c.verified_through_seq c
    else c

-- The row after the results of a log, the latest first.
unfoldable pub replay : List Terminal → Option Cursor
unfolding advance_verified
replay [] = none
replay (t ∷ before) = some (advance_verified t (replay before))

-- A complete transfer had the number in its cut.
pub data IsVerified (n : ℕ) : List Terminal → Type 0 where
  here :
      (t : Terminal) (before : List Terminal)
      → is_complete t.status ≡ true
      → t.requested.first_record_seq ≤ n
      → n ≤ t.requested.last_record_seq
      → IsVerified n (t ∷ before)
  there : (t : Terminal) (before : List Terminal) → IsVerified n before → IsVerified n (t ∷ before)

-- The interval of a row has only numbers that satisfy a predicate.
unfoldable pub Covers : (ℕ → Type 0) → Option ℕ → Option ℕ → Type 0
Covers P (some from) (some through) = (n : ℕ) → from ≤ n → n ≤ through → P n
Covers P _ _ = Unit

-- It holds for the interval of a row.
abbrev CoversRow : (ℕ → Type 0) → Cursor → Type 0
CoversRow P c = Covers P c.verified_from_seq c.verified_through_seq

in_union :
    (first last from through n : ℕ)
    → first ≤ through + 1
    → from ≤ last + 1
    → min first from ≤ n
    → n ≤ max last through
    → ((first ≤ n) × (n ≤ last)) ⊎ ((from ≤ n) × (n ≤ through))
in_union first last from through n touch touch' low high =
    elim (Bool-cases (leb first n && leb n last)) [
      | inl inside ↦ inl (ground arith, ground arith)
      | inr outside ↦ inr (ground arith, ground arith)
    ]

verified-Covers :
    (P : ℕ → Type 0) (r : LogRange) (from through : Option ℕ) (c : Cursor)
    → c.verified_from_seq ≡ from
    → c.verified_through_seq ≡ through
    → Covers P from through
    → ((n : ℕ) → r.first_record_seq ≤ n → n ≤ r.last_record_seq → P n)
    → CoversRow P (verified r from through c)
unfolding verified Covers
verified-Covers P r none through c is_from is_through old new = new
verified-Covers P r (some from) none c is_from is_through old new = new
verified-Covers P r (some from) (some through) c is_from is_through old new =
    elim (Bool-cases (leb r.first_record_seq (through + 1) && leb from (r.last_record_seq + 1))) [
      | inl touch ↦ subst (CoversRow P) (sym (if-true _ _ touch)) (λ n low high.
          elim (in_union r.first_record_seq r.last_record_seq from through n (ground arith)
            (ground arith) low high) [
              | inl (above, below) ↦ new n above below
              | inr (above, below) ↦ old n above below
            ])
      | inr apart ↦ subst (CoversRow P) (sym (if-false _ _ apart)) (
          subst (λ x. Covers P x c.verified_through_seq) (sym is_from)
            (subst (λ x. Covers P (some from) x) (sym is_through) old))
    ]

scanned-Covers :
    (P : ℕ → Type 0) (t : Terminal) (row : Option Cursor)
    → ((c : Cursor) → row ≡ some c → CoversRow P c)
    → CoversRow P (scanned t row)
unfolding scanned Covers
scanned-Covers P t none h = tt
scanned-Covers P t (some c) h = h c refl

Covers-map :
    {P Q : ℕ → Type 0} (from through : Option ℕ)
    → ((n : ℕ) → P n → Q n)
    → Covers P from through
    → Covers Q from through
unfolding Covers
Covers-map none through f h = tt
Covers-map (some from) none f h = tt
Covers-map (some from) (some through) f h = λ n low high. f n (h n low high)

advance_verified-Covers :
    (t : Terminal) (before : List Terminal) (row : Option Cursor)
    → ((c : Cursor) → row ≡ some c → CoversRow (λ n. IsVerified n before) c)
    → CoversRow (λ n. IsVerified n (t ∷ before)) (advance_verified t row)
unfolding advance_verified
advance_verified-Covers t before row h =
    let c = scanned t row in
    let old : CoversRow (λ n. IsVerified n (t ∷ before)) c =
      Covers-map c.verified_from_seq c.verified_through_seq (λ n v. there t before v)
        (scanned-Covers (λ n. IsVerified n before) t row h) in
    elim (Bool-cases (is_complete t.status)) [
      | inl complete ↦
          subst (CoversRow (λ n. IsVerified n (t ∷ before))) (sym (if-true _ _ complete)) (
            verified-Covers (λ n. IsVerified n (t ∷ before)) t.requested c.verified_from_seq
              c.verified_through_seq c refl refl old
              (λ n low high. here t before complete low high))
      | inr open_ ↦
          subst (CoversRow (λ n. IsVerified n (t ∷ before))) (sym (if-false _ _ open_)) old
    ]

replay-Covers :
    (ts : List Terminal) (c : Cursor) → replay ts ≡ some c → CoversRow (λ n. IsVerified n ts) c
unfolding replay
replay-Covers [] c h = cc
replay-Covers (t ∷ before) c h =
    subst (CoversRow (λ n. IsVerified n (t ∷ before))) (some_injective h)
      (advance_verified-Covers t before (replay before) (λ c' h'. replay-Covers before c' h'))

-- After any results of the transfers of a log, in any order: each number in the verified interval of its row
-- was in the cut of a complete transfer. A gap is never verified.
pub replay-IsVerified :
    (ts : List Terminal) {c : Cursor} {from through : ℕ} (n : ℕ)
    → replay ts ≡ some c
    → c.verified_from_seq ≡ some from
    → c.verified_through_seq ≡ some through
    → from ≤ n
    → n ≤ through
    → IsVerified n ts
unfolding Covers
replay-IsVerified ts {c} {from} {through} n is_c is_from is_through low high =
    let covers : Covers (λ n. IsVerified n ts) (some from) (some through) =
      subst (λ x. Covers (λ n. IsVerified n ts) x (some through)) is_from
        (subst (λ x. Covers (λ n. IsVerified n ts) c.verified_from_seq x) is_through
          (replay-Covers ts c is_c)) in
    covers n low high
