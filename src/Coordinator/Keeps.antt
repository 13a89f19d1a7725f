-- ===== src/Coordinator/Keeps.antt =====
-- What the transactions of backend/app/services/v2_operations.py keep of a row: its request always, and
-- its outcome once it is final.
use smd_web_hmi.Prelude.{
  ℕ, ◌≡◌, refl, sym, ap, ◌∙◌, inl, inr, Bool, true, false, some, List, [], ◌∷◌, ◌==◌, map, All,
  if-true, if-false, ok, if◌then◌else◌, arith, Bool-cases,
}
use mathlib.Core.Path.{subst}
use smd_web_hmi.Device.Model.{Operation}
use smd_web_hmi.Device.Command.{Command}
use smd_web_hmi.Coordinator.Equality.{same_result, same_result-eq}
use smd_web_hmi.Coordinator.Model.{
  Progress, pending, sent, reported, Note, Row, is_final, is_final_status, is_under_way, find_row,
  update_rows, put_row,
}
use smd_web_hmi.Coordinator.Intent.{
  interrupted_by_restart, lose_outcome, sending, lose_open, settled, settle,
}
use smd_web_hmi.Coordinator.Submit.{reconciled_row}

-- What was decided when the intent was stored.
pub record Core : Type 0 where
  pub operation_id : ℕ
  pub device_id : ℕ
  pub controller_epoch : ℕ
  pub command_seq : ℕ
  pub business_digest : ℕ
  pub request_digest : ℕ
  pub request : Command

abbrev pub core : Row → Core
core r = record {
  operation_id = r.operation_id;
  device_id = r.device_id;
  controller_epoch = r.controller_epoch;
  command_seq = r.command_seq;
  business_digest = r.business_digest;
  request_digest = r.request_digest;
  request = r.request;
}

pub some_injective {ℓ} : {A : Type ℓ} {a b : A} → some a ≡ some b → a ≡ b
some_injective h = ground arith

under_way-open : (s : Progress) → is_under_way s ≡ true → is_final s ≡ false
unfolding is_under_way is_final is_final_status
under_way-open pending h = refl
under_way-open sent h = refl
under_way-open (reported s) h = ground arith

pub find_row-id : (id : ℕ) (rs : List Row) {r : Row} → find_row id rs ≡ some r → r.operation_id ≡ id
unfolding find_row
find_row-id id [] h = cc
find_row-id id (s ∷ rs) {r} h = elim (Bool-cases (s.operation_id == id)) [
  | inl here ↦ ground arith
  | inr there ↦ find_row-id id rs {r = r} (ground arith)
]

-- The outcomes stay where `calm` holds: where no finished operation is marked as sent.
module _ (calm : Bool) where
  -- A final status is that of the result in the row.
  abbrev pub IsWell : Row → Type 0
  IsWell r =
      calm ≡ true
      → is_final r.status ≡ true
      → (o : Operation) × (r.result ≡ some o) × (r.status ≡ reported o.status)

  pub record Kept (r r' : Row) : Type 0 where
    pub same_core : core r' ≡ core r
    pub final :
        calm ≡ true → is_final r.status ≡ true → (r'.status ≡ r.status) × (r'.result ≡ r.result)
    pub well : IsWell r'

  pub Kept-refl : (r : Row) → IsWell r → Kept r r
  Kept-refl r w = record { same_core = refl; final = λ _ _. (refl, refl); well = w }

  Kept-open : (r r' : Row) → core r' ≡ core r → is_final r.status ≡ false → IsWell r' → Kept r r'
  Kept-open r r' c open_ w = record { same_core = c; final = λ _ f. ground arith; well = w }

  pub sending-Kept : (r : Row) → (calm ≡ true → is_final r.status ≡ false) → Kept r (sending r)
  unfolding sending is_final
  sending-Kept r open_ = record {
    same_core = refl;
    final = λ c f. let n = open_ c in ground arith;
    well = λ _ f. ground arith;
  }

  lose_outcome-IsWell : (note : Note) (r : Row) → IsWell (lose_outcome note r)
  unfolding lose_outcome is_final is_final_status
  lose_outcome-IsWell note r _ f = ground arith

  pub lose_open-Kept : (note : Note) (r : Row) → IsWell r → Kept r (lose_open note r)
  unfolding lose_open lose_outcome
  lose_open-Kept note r w = elim (Bool-cases (is_final r.status)) [
    | inl final ↦ subst (Kept r) (sym (if-true _ _ final)) (Kept-refl r w)
    | inr open_ ↦
        subst (Kept r) (sym (if-false _ _ open_))
          (Kept-open r (lose_outcome note r) refl open_ (lose_outcome-IsWell note r))
  ]

  pub reconciled_row-Kept : (r : Row) → IsWell r → Kept r (reconciled_row r)
  unfolding reconciled_row
  reconciled_row-Kept r w = record { same_core = refl; final = λ _ _. (refl, refl); well = w }

  pub recover-Kept :
      (device : ℕ) (note : Note) (r : Row)
      → IsWell r
      → Kept r (if interrupted_by_restart device r then lose_outcome note r else r)
  unfolding interrupted_by_restart lose_outcome
  recover-Kept device note r w = elim (Bool-cases (interrupted_by_restart device r)) [
    | inl lost ↦ subst (Kept r) (sym (if-true _ _ lost)) (
        Kept-open r (lose_outcome note r) refl (under_way-open r.status (ground arith))
          (lose_outcome-IsWell note r))
    | inr kept ↦ subst (Kept r) (sym (if-false _ _ kept)) (Kept-refl r w)
  ]

  settled-Kept : (o : Operation) (r : Row) → is_final r.status ≡ false → Kept r (settled o r)
  unfolding settled
  settled-Kept o r open_ = Kept-open r (settled o r) refl open_ (λ _ f. (o, refl, refl))

  settled-same : (o : Operation) (r : Row) → IsWell r → r.result ≡ some o → Kept r (settled o r)
  unfolding settled
  settled-same o r w same = record {
    same_core = refl;
    final = λ c f.
        let (o', is_result, is_status) = w c f in
        let one : o ≡ o' = some_injective (sym same ∙ is_result) in
        (ap (λ x. reported x.status) one ∙ sym is_status, sym same);
    well = λ _ f. (o, refl, refl);
  }

  pub settle-Kept : (o : Operation) (r : Row) {r' : Row} → IsWell r → settle o r ≡ ok r' → Kept r r'
  unfolding settle
  settle-Kept o r {r'} w h = elim (Bool-cases (is_final r.status)) [
    | inl final ↦ elim (Bool-cases (is_final_status o.status)) [
      | inl terminal ↦ elim (Bool-cases (same_result r.result o)) [
        | inl same ↦
            let is_settled : settled o r ≡ r' = ground arith in
            subst (Kept r) is_settled (settled-same o r w (same_result-eq r.result o same))
        | inr different ↦ absurd (ground arith)
      ]
      | inr late ↦ let unchanged : r ≡ r' = ground arith in subst (Kept r) unchanged (Kept-refl r w)
    ]
    | inr open_ ↦
        let is_settled : settled o r ≡ r' = ground arith in
        subst (Kept r) is_settled (settled-Kept o r open_)
  ]

  -- Two tables with the same rows, of which the second keeps what it must.
  abbrev pub AreKept : List Row → List Row → Type 0
  AreKept [] [] = Unit {0}
  AreKept (r ∷ rs) (r' ∷ rs') = Kept r r' × AreKept rs rs'
  AreKept _ _ = ◌≡◌ {A = Bool} true false

  pub AreKept-refl : (rs : List Row) → All IsWell rs → AreKept rs rs
  AreKept-refl [] w = tt
  AreKept-refl (r ∷ rs) (w, ws) = (Kept-refl r w, AreKept-refl rs ws)

  pub put_row-AreKept :
      (id : ℕ) (f : Row → Row) (rs : List Row)
      → All IsWell rs
      → ((r : Row) → IsWell r → find_row id rs ≡ some r → Kept r (f r))
      → AreKept rs (put_row id f rs)
  unfolding find_row put_row
  put_row-AreKept id f [] w k = tt
  put_row-AreKept id f (s ∷ rs) (w, ws) k = elim (Bool-cases (s.operation_id == id)) [
    | inl here ↦
        subst (AreKept (s ∷ rs)) (sym (if-true _ _ here)) (k s w (ground arith), AreKept-refl rs ws)
    | inr there ↦
        subst (AreKept (s ∷ rs)) (sym (if-false _ _ there))
          (Kept-refl s w, put_row-AreKept id f rs ws (λ r wr found. k r wr (ground arith)))
  ]

  pub update_rows-AreKept :
      (p : Row → Bool) (f : Row → Row) (rs : List Row)
      → All IsWell rs
      → ((r : Row) → IsWell r → Kept r (if p r then f r else r))
      → AreKept rs (update_rows p f rs)
  unfolding update_rows
  update_rows-AreKept p f [] w k = tt
  update_rows-AreKept p f (r ∷ rs) (w, ws) k = (k r w, update_rows-AreKept p f rs ws k)

  pub AreKept-IsWell : (rs rs' : List Row) → AreKept rs rs' → All IsWell rs'
  AreKept-IsWell [] [] k = tt
  AreKept-IsWell (r ∷ rs) (r' ∷ rs') (k, ks) = (k.well, AreKept-IsWell rs rs' ks)
  AreKept-IsWell [] (r' ∷ rs') k = cc
  AreKept-IsWell (r ∷ rs) [] k = cc

  pub AreKept-core : (rs rs' : List Row) → AreKept rs rs' → map core rs' ≡ map core rs
  AreKept-core [] [] k = refl
  AreKept-core (r ∷ rs) (r' ∷ rs') (k, ks) = cc (k.same_core, AreKept-core rs rs' ks)
  AreKept-core [] (r' ∷ rs') k = cc
  AreKept-core (r ∷ rs) [] k = cc

  pub AreKept-find_row :
      (id : ℕ) (rs rs' : List Row) {r : Row}
      → AreKept rs rs'
      → find_row id rs ≡ some r
      → (r' : Row) × (find_row id rs' ≡ some r') × Kept r r'
  unfolding find_row
  AreKept-find_row id [] [] k found = cc
  AreKept-find_row id (s ∷ rs) (s' ∷ rs') {r} (k, ks) found =
      let same_id : s'.operation_id ≡ s.operation_id = ap (λ c. c.operation_id) k.same_core in
      elim (Bool-cases (s.operation_id == id)) [
        | inl here ↦
            let same : s ≡ r = ground arith in (s', ground arith, subst (λ x. Kept x s') same k)
        | inr there ↦
            let (r', found', kept) = AreKept-find_row id rs rs' ks (ground arith) in
            (r', ground arith, kept)
      ]
  AreKept-find_row id [] (r' ∷ rs') k found = cc
  AreKept-find_row id (r ∷ rs) [] k found = cc

  pub find_row-IsWell :
      (id : ℕ) (rs : List Row) {r : Row} → All IsWell rs → find_row id rs ≡ some r → IsWell r
  unfolding find_row
  find_row-IsWell id [] w found = cc
  find_row-IsWell id (s ∷ rs) {r} (w, ws) found = elim (Bool-cases (s.operation_id == id)) [
    | inl here ↦
        let same : s ≡ r = some_injective (sym (if-true _ _ here) ∙ found) in subst IsWell same w
    | inr there ↦ find_row-IsWell id rs {r = r} ws (sym (if-false _ _ there) ∙ found)
  ]

-- Without a claim on the outcomes every table is well.
pub AllWell-false : (rs : List Row) → All (IsWell false) rs
AllWell-false [] = tt
AllWell-false (r ∷ rs) = (λ c. cc, AllWell-false rs)
