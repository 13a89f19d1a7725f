-- ===== src/Coordinator/Safety.antt =====
-- What holds of the operation tables of backend/app/services/v2_operations.py after any history.
use smd_web_hmi.Prelude.{
  ℕ, ◌+◌, ◌≡◌, refl, sym, ap, ◌∙◌, Bool, true, false, Option, none, some, ◌∷◌, ok, arith,
}
use mathlib.Core.Path.{subst}
use smd_web_hmi.Device.Command.{Request, Command}
use smd_web_hmi.Service.Ownership.{Role}
use smd_web_hmi.Coordinator.Model.{
  Identity, Row, Db, Coordinator, Session, is_final, OperationError, find_row,
}
use smd_web_hmi.Coordinator.Intent
use smd_web_hmi.Coordinator.Intent.{
  Submission, known, own_identity, new_row, payload, store_intent, admit, refusal,
}
use smd_web_hmi.Coordinator.Keeps.{Kept, Kept-refl, find_row-IsWell, AllWell-false}
use smd_web_hmi.Coordinator.Trace.{Reach, here, next, AreOrderly}
use smd_web_hmi.Coordinator.Growth.{AllWell, Step-Grown, Grown-AllWell, Grown-find_row}

Kept-trans : {a b c : Row} (calm : Bool) → Kept calm a b → Kept calm b c → Kept calm a c
Kept-trans {a} {b} calm k l = record {
  same_core = l.same_core ∙ k.same_core;
  final = λ c f.
      let (status, result) = k.final c f in
      let (status', result') = l.final c (ap is_final status ∙ f) in
      (status' ∙ status, result' ∙ result);
  well = l.well;
}

module _ (business : Request → ℕ → Role → ℕ) (command_digest : Command → ℕ) (k : Coordinator) where
  abbrev pub Reachable : Db → Db → Type 0
  Reachable = Reach business command_digest k

  Reach-AllWell :
      {db db' : Db} (calm : Bool) (h : Reachable db db')
      → (calm ≡ true → AreOrderly business command_digest k h)
      → AllWell calm db
      → AllWell calm db'
  Reach-AllWell calm here o w = w
  Reach-AllWell calm (next h s) o w =
      let w' = Reach-AllWell calm h (λ c. (o c).0) w in
      Grown-AllWell calm (Step-Grown calm business command_digest k w' s (λ c. (o c).1)) w'

  Reach-find_row :
      {db db' : Db} (calm : Bool) (id : ℕ) {r : Row} (h : Reachable db db')
      → (calm ≡ true → AreOrderly business command_digest k h)
      → AllWell calm db
      → find_row id db.operations ≡ some r
      → (r' : Row) × (find_row id db'.operations ≡ some r') × Kept calm r r'
  Reach-find_row {db} calm id {r} here o w found =
      (r, found, Kept-refl calm r (find_row-IsWell calm id db.operations w found))
  Reach-find_row calm id (next h s) o w found =
      let w' = Reach-AllWell calm h (λ c. (o c).0) w in
      let (r1, found1, k1) = Reach-find_row calm id h (λ c. (o c).0) w found in
      let (r2, found2, k2) =
        Grown-find_row calm id (Step-Grown calm business command_digest k w' s (λ c. (o c).1)) w'
          found1 in
      (r2, found2, Kept-trans calm k1 k2)

  -- From tables in which each final status is that of the result, over any transactions of which none
  -- marks a finished operation as sent: a final outcome and its result stay as they are, and so does the
  -- request.
  pub Reach-final :
      {db db' : Db} (id : ℕ) {r : Row} (h : Reachable db db')
      → AreOrderly business command_digest k h
      → AllWell true db
      → find_row id db.operations ≡ some r
      → is_final r.status ≡ true
      → (r' : Row) × (find_row id db'.operations ≡ some r')
        × (r'.status ≡ r.status)
        × (r'.result ≡ r.result)
        × (r'.request ≡ r.request)
  Reach-final id h o w found final =
      let (r', found', k) = Reach-find_row true id h (λ _. o) w found in
      let (status, result) = k.final refl final in
      (r', found', status, result, ap (λ c. c.request) k.same_core)

  known-repeat :
      (t : Session) (a : Submission) (r : Row) (db : Db)
      → r.device_id ≡ k.device_id
      → r.business_digest ≡ business a.request a.actor a.role
      → known business command_digest k t a (some r) db ≡ (ok (r, false), db)
  unfolding known
  known-repeat t a r db d b = ground arith

  -- A row that an intent has added.
  pub record IsStored (a : Submission) (r : Row) (db db' : Db) : Type 0 where
    pub is_id : r.operation_id ≡ a.operation_id
    pub is_device : r.device_id ≡ k.device_id
    pub is_digest : r.business_digest ≡ business a.request a.actor a.role
    pub is_open : is_final r.status ≡ false
    pub rows : db'.operations ≡ r ∷ db.operations
    pub request_id : r.request.operation_id ≡ r.operation_id
    pub request_epoch : r.request.controller_epoch ≡ r.controller_epoch
    pub request_seq : r.request.command_seq ≡ r.command_seq
    pub request_digest : r.request.request_digest ≡ r.request_digest

  store_intent-IsStored :
      (t : Session) (a : Submission) (i : Option Identity) (db : Db) {r : Row}
      → (store_intent business command_digest k t a i db).0 ≡ ok (r, true)
      → IsStored a r db (store_intent business command_digest k t a i db).1
  unfolding store_intent new_row payload is_final
  store_intent-IsStored t a none db h = ground arith
  store_intent-IsStored t a (some i) db {r} h =
      let p = payload business command_digest t a i.controller_epoch (i.last_seq + 1) in
      let same : new_row business command_digest k a p ≡ r = ground arith in
      record {
        is_id = sym (ap (λ x. x.operation_id) same);
        is_device = sym (ap (λ x. x.device_id) same);
        is_digest = sym (ap (λ x. x.business_digest) same);
        is_open = ap (λ x. is_final x.status) (sym same);
        rows = ground arith;
        request_id = subst (λ x. x.request.operation_id ≡ x.operation_id) same refl;
        request_epoch = subst (λ x. x.request.controller_epoch ≡ x.controller_epoch) same refl;
        request_seq = subst (λ x. x.request.command_seq ≡ x.command_seq) same refl;
        request_digest = subst (λ x. x.request.request_digest ≡ x.request_digest) same refl;
      }

  admit-IsStored :
      (t : Session) (a : Submission) (refused : Option OperationError) (db : Db) {r : Row}
      → (admit business command_digest k t a refused db).0 ≡ ok (r, true)
      → IsStored a r db (admit business command_digest k t a refused db).1
  unfolding admit
  admit-IsStored t a (some e) db h = ground arith
  admit-IsStored t a none db h = store_intent-IsStored t a (own_identity k db.identity) db h

  pub known-IsStored :
      (t : Session) (a : Submission) (found : Option Row) (db : Db) {r : Row}
      → (known business command_digest k t a found db).0 ≡ ok (r, true)
      → IsStored a r db (known business command_digest k t a found db).1
  unfolding known
  known-IsStored t a none db h = admit-IsStored t a (refusal k t a db) db h
  known-IsStored t a (some s) db h = ground arith

  pub IsStored-find_row :
      (a : Submission) (r : Row) (db db' : Db)
      → IsStored a r db db'
      → find_row a.operation_id db'.operations ≡ some r
  unfolding find_row
  IsStored-find_row a r db db' s =
      subst (λ rs. find_row a.operation_id rs ≡ some r) (sym s.rows) (ground (arith, s.is_id))

  -- A submission is sent once: after its intent was stored, and after any transactions that follow, a
  -- repetition of it with the same request, actor and role, in any session, changes nothing, asks for
  -- no request, and returns its row with its request.
  pub intent-repeat :
      (db : Db) {db' : Db} (t u : Session) (a : Submission) {r : Row}
      → (Intent.intent business command_digest k t a db).0 ≡ ok (r, true)
      → Reachable (Intent.intent business command_digest k t a db).1 db'
      → (r' : Row) × (Intent.intent business command_digest k u a db' ≡ (ok (r', false), db'))
        × (r'.request ≡ r.request)
  unfolding Intent.intent
  intent-repeat db {db'} t u a {r} stored h =
      let is_stored = known-IsStored t a (find_row a.operation_id db.operations) db stored in
      let found = IsStored-find_row a r db _ is_stored in
      let (r', found', k') =
        Reach-find_row false a.operation_id h (λ c. cc) (AllWell-false _) found in
      (
        r',
        ap (λ o. known business command_digest k u a o db') found'
            ∙ known-repeat u a r' db' (ap (λ c. c.device_id) k'.same_core ∙ is_stored.is_device)
                (ap (λ c. c.business_digest) k'.same_core ∙ is_stored.is_digest),
        ap (λ c. c.request) k'.same_core,
      )
