-- ===== src/Coordinator/Growth.antt =====
-- What each transaction of backend/app/services/v2_operations.py does to the tables: it keeps the rows, and at
-- most adds one with the next number.
use smd_web_hmi.Prelude.{
  ℕ, ◌≤◌, ◌<◌, ◌+◌, max, ◌≡◌, refl, sym, ap, ◌∙◌, inl, inr, Bool, true, false, not, ◌||◌, Option,
  none, some, List, ◌∷◌, ◌==◌, All, Result, ok, err, arith, Bool-cases, Option-cases, ltb,
}
use mathlib.Core.Path.{subst}
use smd_web_hmi.Prelude.{if-true, if-false}
use smd_web_hmi.Device.Model.{Operation}
use smd_web_hmi.Device.Command.{Request, Command}
use smd_web_hmi.Service.Ownership.{Role}
use smd_web_hmi.Coordinator.Model.{
  backend_restart, Identity, Row, Db, Coordinator, Session, Snapshot, OperationError, max_sequence,
  is_final, is_uncertain, command_valid, find_row, put_row,
}
use smd_web_hmi.Coordinator.Intent
use smd_web_hmi.Coordinator.Intent.{
  Submission, interrupted_by_restart, lose_outcome, sending, lose_open, settle, put_settled,
  settle_found, record_checked, mismatch, Response, ResponseType, known, admit, store_intent,
  own_identity, raise_highwater, differs, ensured, new_row, payload, refusal,
}
use smd_web_hmi.Coordinator.Submit
use smd_web_hmi.Coordinator.Submit.{reconciled_row, reconcile_row}
use smd_web_hmi.Coordinator.Keeps.{
  IsWell, Kept, Kept-refl, sending-Kept, lose_open-Kept, recover-Kept, reconciled_row-Kept,
  settle-Kept, AreKept, AreKept-refl, put_row-AreKept, update_rows-AreKept, AreKept-IsWell,
  AreKept-find_row, some_injective, find_row-id, find_row-IsWell,
}
use smd_web_hmi.Coordinator.Trace.{Step, IsOrderly}

-- The identity stays, and its last number does not fall nor pass 64 bits.
abbrev pub IsRaised : Option Identity → Option Identity → Type 0
IsRaised none none = Unit {0}
IsRaised none (some j) = j.last_seq ≡ 0
IsRaised (some i) none = ◌≡◌ {A = Bool} true false
IsRaised (some i) (some j) =
    (j.controller_epoch ≡ i.controller_epoch)
    × (i.last_seq ≤ j.last_seq)
    × (j.last_seq ≤ max i.last_seq max_sequence)

none_not_some : {A : Type 0} {a : A} → none ≡ some a → ⊥
none_not_some h = ground arith

second : {A : Type 0} {x y : A × Db} → x ≡ y → x.1 ≡ y.1
second e = ap (λ p. p.1) e

IsRaised-refl : (i : Option Identity) → IsRaised i i
IsRaised-refl none = tt
IsRaised-refl (some i) = (refl, omega arith, omega arith)

ensured-IsRaised :
    (k : Coordinator) (id epoch : ℕ) (i : Option Identity)
    → IsRaised i (some (ensured k id epoch i))
unfolding ensured
ensured-IsRaised k id epoch none = refl
ensured-IsRaised k id epoch (some i) = IsRaised-refl (some i)

own_identity-some :
    (k : Coordinator) (o : Option Identity) {i : Identity} → own_identity k o ≡ some i → o ≡ some i
unfolding own_identity
own_identity-some k none h = cc
own_identity-some k (some i) h = ground arith

find_row-new :
    (id : ℕ) (new : Row) (rs : List Row) {r : Row}
    → find_row new.operation_id rs ≡ none
    → find_row id rs ≡ some r
    → find_row id (new ∷ rs) ≡ some r
find_row-new id new rs {r} free found = elim (Bool-cases (new.operation_id == id)) [
  | inl same ↦
      let one : new.operation_id ≡ id = ground arith in
      let missing : find_row id rs ≡ none = subst (λ x. find_row x rs ≡ none) one free in
      absurd (none_not_some (sym missing ∙ found))
  | inr other ↦ unfold find_row in if-false _ _ other ∙ found
]

module _ (calm : Bool) where
  -- What a step does to the tables: it keeps the rows, or adds one with the next number.
  pub data Grown (db db' : Db) : Type 0 where
    kept :
        AreKept calm db.operations db'.operations → IsRaised db.identity db'.identity → Grown db db'
    added :
        (r : Row) (i : Identity)
        → find_row r.operation_id db.operations ≡ none
        → is_final r.status ≡ false
        → db.identity ≡ some i
        → r.controller_epoch ≡ i.controller_epoch
        → r.command_seq ≡ i.last_seq + 1
        → i.last_seq < max_sequence
        → db'.operations ≡ r ∷ db.operations
        → db'.identity ≡ some (record i { last_seq = i.last_seq + 1 })
        → Grown db db'

  abbrev pub AllWell : Db → Type 0
  AllWell db = All (IsWell calm) db.operations

  unchanged : (db : Db) → AllWell db → Grown db db
  unchanged db w = kept (AreKept-refl calm db.operations w) (IsRaised-refl db.identity)

  same_tables : (db db' : Db) → AllWell db → db' ≡ db → Grown db db'
  same_tables db db' w e = subst (Grown db) (sym e) (unchanged db w)

  ensure_identity-Grown :
      (k : Coordinator) (id epoch : ℕ) (db : Db)
      → AllWell db
      → Grown db (Intent.ensure_identity k id epoch db).1
  unfolding Intent.ensure_identity
  ensure_identity-Grown k id epoch db w =
      let i = ensured k id epoch db.identity in
      elim (Bool-cases (
        differs k.controller_id i.controller_id || differs k.controller_epoch i.controller_epoch)) [
          | inl conflict ↦ same_tables db _ w (second (if-true _ _ conflict))
          | inr agrees ↦
              subst (Grown db) (sym (second (if-false _ _ agrees)))
                (kept (AreKept-refl calm db.operations w) (ensured-IsRaised k id epoch db.identity))
        ]

  raise_highwater-Grown :
      (board : ℕ) (k : Coordinator) (db : Db)
      → AllWell db
      → board ≤ max_sequence
      → Grown db (raise_highwater board (own_identity k db.identity) db).1
  raise_highwater-Grown board k db w fits = elim (Option-cases (own_identity k db.identity)) [
    | inl nobody ↦ rw nobody (unfold raise_highwater in unchanged db w)
    | inr (i, owned) ↦
        let is_identity = own_identity-some k db.identity owned in
        rw owned (
          unfold raise_highwater in
          kept (AreKept-refl calm db.operations w) (
            subst (λ x. IsRaised x (some (record i { last_seq = max board i.last_seq })))
              (sym is_identity) (refl, omega arith, omega (arith, fits))))
  ]

  reconcile_highwater-Grown :
      (k : Coordinator) (board : ℕ) (db : Db)
      → AllWell db
      → Grown db (Intent.reconcile_highwater k board db).1
  unfolding Intent.reconcile_highwater
  reconcile_highwater-Grown k board db w = elim (Bool-cases (ltb max_sequence board)) [
    | inl large ↦ same_tables db _ w (second (if-true _ _ large))
    | inr fits ↦
        subst (Grown db) (sym (second (if-false _ _ fits)))
          (raise_highwater-Grown board k db w (ground arith))
  ]

  put_row-Grown :
      (id : ℕ) (f : Row → Row) (db db' : Db)
      → AllWell db
      → db'.operations ≡ put_row id f db.operations
      → db'.identity ≡ db.identity
      → ((r : Row) → IsWell calm r → find_row id db.operations ≡ some r → Kept calm r (f r))
      → Grown db db'
  put_row-Grown id f db db' w rows identity k =
      kept
        (subst (AreKept calm db.operations) (sym rows)
          (put_row-AreKept calm id f db.operations w k))
        (subst (IsRaised db.identity) (sym identity) (IsRaised-refl db.identity))

  put_settled-Grown :
      (r : Row) (settling : Result OperationError Row) (db : Db)
      → AllWell db
      → find_row r.operation_id db.operations ≡ some r
      → ((r' : Row) → settling ≡ ok r' → Kept calm r r')
      → Grown db (put_settled r.operation_id settling db).1
  unfolding put_settled
  put_settled-Grown r (err e) db w found k = unchanged db w
  put_settled-Grown r (ok r') db w found k =
      put_row-Grown r.operation_id (λ _. r') db _ w refl refl
        (λ s ws is_s. subst (λ x. Kept calm x r') (some_injective (sym found ∙ is_s)) (k r' refl))

  settle_found-Grown :
      (o : Operation) (id : ℕ) (db : Db) (found : Option Row)
      → AllWell db
      → find_row id db.operations ≡ found
      → Grown db (settle_found o found db).1
  unfolding settle_found
  settle_found-Grown o id db none w e = unchanged db w
  settle_found-Grown o id db (some r) w e =
      put_settled-Grown r (settle o r) db w
        (subst (λ x. find_row x db.operations ≡ some r) (sym (find_row-id id db.operations e)) e)
        (λ r' settling. settle-Kept calm o r (find_row-IsWell calm id db.operations w e) settling)

  record_checked-Grown :
      (stored : Row) (a : Response) (bad : Option OperationError) (db : Db)
      → AllWell db
      → Grown db (record_checked stored a bad db).1
  unfolding record_checked
  record_checked-Grown stored a (some e) db w = unchanged db w
  record_checked-Grown stored a none db w =
      settle_found-Grown a.payload stored.operation_id db
        (find_row stored.operation_id db.operations) w refl

  reconcile_row-Grown :
      (k : Coordinator) (id actor : ℕ) (s : Snapshot) (found : Option Row) (db : Db)
      → AllWell db
      → Grown db (reconcile_row k id actor s found db).1
  unfolding reconcile_row
  reconcile_row-Grown k id actor s none db w = unchanged db w
  reconcile_row-Grown k id actor s (some r) db w =
      elim (Bool-cases (not (r.device_id == k.device_id) || not (is_uncertain r.status))) [
        | inl bad ↦ same_tables db _ w (second (if-true _ _ bad))
        | inr good ↦ subst (Grown db) (sym (second (if-false _ _ good))) (
            put_row-Grown id reconciled_row db _ w refl refl
              (λ r w' found. reconciled_row-Kept calm r w'))
      ]

  module _ (business : Request → ℕ → Role → ℕ) (command_digest : Command → ℕ) where
    store_intent-Grown :
        (k : Coordinator) (t : Session) (a : Submission) (o : Option Identity) (db : Db)
        → AllWell db
        → find_row a.operation_id db.operations ≡ none
        → own_identity k db.identity ≡ o
        → Grown db (store_intent business command_digest k t a o db).1
    unfolding store_intent new_row payload
    store_intent-Grown k t a none db w free own = unchanged db w
    store_intent-Grown k t a (some i) db w free own =
        let p = payload business command_digest t a i.controller_epoch (i.last_seq + 1) in
        elim (Bool-cases (ltb max_sequence (i.last_seq + 1))) [
          | inl exhausted ↦ same_tables db _ w (second (if-true _ _ exhausted))
          | inr fits ↦ elim (Bool-cases (not (command_valid p))) [
            | inl bad ↦ same_tables db _ w (second (if-false _ _ fits ∙ if-true _ _ bad))
            | inr good ↦ subst (Grown db) (sym (second (if-false _ _ fits ∙ if-false _ _ good))) (
                added (new_row business command_digest k a p) i free (unfold is_final in refl)
                  (own_identity-some k db.identity own) refl refl (ground arith) refl refl)
          ]
        ]

    admit-Grown :
        (k : Coordinator) (t : Session) (a : Submission) (refused : Option OperationError) (db : Db)
        → AllWell db
        → find_row a.operation_id db.operations ≡ none
        → Grown db (admit business command_digest k t a refused db).1
    unfolding admit
    admit-Grown k t a (some e) db w free = unchanged db w
    admit-Grown k t a none db w free =
        store_intent-Grown k t a (own_identity k db.identity) db w free refl

    pub known-Grown :
        (k : Coordinator) (t : Session) (a : Submission) (found : Option Row) (db : Db)
        → AllWell db
        → find_row a.operation_id db.operations ≡ found
        → Grown db (known business command_digest k t a found db).1
    unfolding known
    known-Grown k t a none db w free = admit-Grown k t a (refusal k t a db) db w free
    known-Grown k t a (some r) db w there = same_tables db _ w (ground arith)

    pub Step-Grown :
        (k : Coordinator) {db db' : Db}
        → AllWell db
        → (s : Step business command_digest k db db')
        → (calm ≡ true → IsOrderly business command_digest k s)
        → Grown db db'
    unfolding Intent.intent Intent.recover Intent.mark_sent Intent.lose Intent.record_result
        Submit.record_reconciliation
    Step-Grown k {db} w (Step.ensure_identity id epoch) o = ensure_identity-Grown k id epoch db w
    Step-Grown k {db} w Step.recover o =
        kept
          (update_rows-AreKept calm (interrupted_by_restart k.device_id)
            (lose_outcome backend_restart) db.operations w
            (recover-Kept calm k.device_id backend_restart))
          (IsRaised-refl db.identity)
    Step-Grown k {db} w (Step.reconcile_highwater board) o = reconcile_highwater-Grown k board db w
    Step-Grown k {db} w (Step.intent t a) o =
        known-Grown k t a (find_row a.operation_id db.operations) db w refl
    Step-Grown k {db} w (Step.mark_sent id) o =
        put_row-Grown id sending db _ w refl refl
          (λ s ws is_s. sending-Kept calm s (λ c. o c s is_s))
    Step-Grown k {db} w (Step.lose id note error) o =
        put_row-Grown id (lose_open note) db _ w refl refl
          (λ s ws is_s. lose_open-Kept calm note s ws)
    Step-Grown k {db} w (Step.record_result stored a expected) o =
        record_checked-Grown stored a (mismatch stored expected a) db w
    Step-Grown k {db} w (Step.reconcile id actor s) o =
        reconcile_row-Grown k id actor s (find_row id db.operations) db w

  pub Grown-AllWell : {db db' : Db} → Grown db db' → AllWell db → AllWell db'
  Grown-AllWell {db} {db'} (kept k raised) w = AreKept-IsWell calm db.operations db'.operations k
  Grown-AllWell {db} {db'} (added r i free open_ is_i e n le rows identity) w =
      subst (All (IsWell calm)) (sym rows) (λ f. ground arith, w)

  pub Grown-find_row :
      {db db' : Db} (id : ℕ) {r : Row}
      → Grown db db'
      → AllWell db
      → find_row id db.operations ≡ some r
      → (r' : Row) × (find_row id db'.operations ≡ some r') × Kept calm r r'
  Grown-find_row {db} {db'} id (kept k raised) w found =
      AreKept-find_row calm id db.operations db'.operations k found
  Grown-find_row {db} {db'} id {r} (added new i free open_ is_i e n le rows identity) w found = (
    r,
    ap (find_row id) rows ∙ find_row-new id new db.operations free found,
    Kept-refl calm r (find_row-IsWell calm id db.operations w found),
  )
