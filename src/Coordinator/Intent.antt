-- ===== src/Coordinator/Intent.antt =====
-- The transactions on the operation rows in backend/app/services/v2_operations.py: `ensure_v2_identity`,
-- `initialize`, `reconcile_highwater`, `_intent`, `_mark_sent`, `_unknown` and `_record_result`. A
-- transaction that raises leaves the tables as they were.
use smd_web_hmi.Prelude.{
  ℕ, ◌+◌, max, Bool, true, false, not, ◌&&◌, ◌||◌, Option, none, some, List, [], ◌∷◌, ltb, ◌==◌,
  ◌==?◌, any, raise_first, Result, ok, err, if◌then◌else◌,
}
use smd_web_hmi.Device.Model.{Operation, unknown}
use smd_web_hmi.Device.Tests.{is_accepted}
use smd_web_hmi.Device.Command.{Request, Command}
use smd_web_hmi.Service.Ownership.{Role, may_operate, may_take_over}
use smd_web_hmi.Coordinator.Equality.{same_result}
use smd_web_hmi.Coordinator.Model.{
  Identity, pending, sent, reported, Note, intent_committed, outcome_pending, backend_restart,
  device_reason, Row, device_error_response, Review, Db, Coordinator, Session, OperationError,
  identity_conflict, operation_conflict, offline, permission_denied, operation_unresolved,
  sequence_exhausted, result_mismatch, result_conflict, invalid, no_row, max_sequence, is_stop,
  is_activation, command_valid, known_result, is_unresolved, is_final, is_under_way,
  is_final_status, find_row, update_rows, put_row,
}

-- `value is not None and row.value != value`
unfoldable pub differs : Option ℕ → ℕ → Bool
differs none v = false
differs (some wanted) v = not (v == wanted)

unfoldable pub or_fresh : Option ℕ → ℕ → ℕ
or_fresh none fresh = fresh
or_fresh (some v) fresh = v

-- The row that `on_conflict_do_nothing` keeps, or inserts with the identifiers of `uuid4`.
unfoldable pub ensured : Coordinator → ℕ → ℕ → Option Identity → Identity
unfolding or_fresh
ensured k id epoch none = record {
  controller_id = or_fresh k.controller_id id;
  controller_epoch = or_fresh k.controller_epoch epoch;
  last_seq = 0;
}
ensured k id epoch (some identity) = identity

-- `ensure_v2_identity`
unfoldable pub ensure_identity : Coordinator → ℕ → ℕ → Db → Result OperationError Identity × Db
unfolding differs ensured
ensure_identity k id epoch db =
    let row = ensured k id epoch db.identity in
    if differs k.controller_id row.controller_id || differs k.controller_epoch row.controller_epoch
    then (err identity_conflict, db)
    else (ok row, record db { identity = some row })

unfoldable pub interrupted_by_restart : ℕ → Row → Bool
interrupted_by_restart device r = (r.device_id == device) && is_under_way r.status

unfoldable pub lose_outcome : Note → Row → Row
lose_outcome note r = record r { status = reported unknown; reason = note; reconciled = false }

-- The recovery of `initialize`.
unfoldable pub recover : ℕ → Db → Db
unfolding interrupted_by_restart lose_outcome update_rows
recover device db = record db {
  operations =
      update_rows (interrupted_by_restart device) (lose_outcome backend_restart) db.operations;
}

-- The coordinator holds the identity of the row from then on.
unfoldable pub adopt : Coordinator → Identity → Coordinator
adopt k i = record k {
  controller_id = some i.controller_id;
  controller_epoch = some i.controller_epoch;
}

-- `row is None or row.controller_epoch != self.controller_epoch`
unfoldable pub own_identity : Coordinator → Option Identity → Option Identity
own_identity k none = none
own_identity k (some i) = if some i.controller_epoch ==? k.controller_epoch then some i else none

unfoldable pub raise_highwater : ℕ → Option Identity → Db → Result OperationError ℕ × Db
raise_highwater board none db = (err identity_conflict, db)
raise_highwater board (some i) db =
    let last = max board i.last_seq in
    (ok last, record db { identity = some (record i { last_seq = last }) })

-- `reconcile_highwater`; `TypeAdapter(U64)` refuses more than 64 bits.
unfoldable pub reconcile_highwater : Coordinator → ℕ → Db → Result OperationError ℕ × Db
unfolding own_identity raise_highwater
reconcile_highwater k board db =
    if ltb max_sequence board
    then (err invalid, db)
    else raise_highwater board (own_identity k db.identity) db

unfoldable pub with_board : Coordinator → Option ℕ → Db → Result OperationError ℕ × Db
unfolding reconcile_highwater
with_board k none db = (ok 0, db)
with_board k (some board) db = reconcile_highwater k board db

unfoldable pub initialize_with :
    Coordinator
    → Bool
    → Option ℕ
    → Result OperationError Identity × Db
    → Result OperationError Coordinator × Db
unfolding adopt recover with_board
initialize_with k wanted board (err e, db) = (err e, db)
initialize_with k wanted board (ok i, db) =
    let k' = adopt k i in
    let db' = if wanted then recover k.device_id db else db in
    initialized k' (with_board k' board db')
  where
    initialized :
        Coordinator → Result OperationError ℕ × Db → Result OperationError Coordinator × Db
    initialized k (err e, db) = (err e, db)
    initialized k (ok last, db) = (ok k, db)

-- `initialize`
unfoldable pub initialize :
    Coordinator → ℕ → ℕ → Bool → Option ℕ → Db → Result OperationError Coordinator × Db
unfolding initialize_with ensure_identity
initialize k id epoch wanted board db =
    initialize_with k wanted board (ensure_identity k id epoch db)

-- The arguments of `submit`.
pub record Submission : Type 0 where
  pub request : Request
  pub actor : ℕ
  pub role : Role
  pub operation_id : ℕ
  pub lease_id : Option ℕ
  pub state_revision : Option ℕ

unfoldable pub outstanding : ℕ → Row → Bool
outstanding device r = (r.device_id == device) && is_unresolved r.status && not r.reconciled

-- The refusals of an operation that is not in the table.
unfoldable pub refusal : Coordinator → Session → Submission → Db → Option OperationError
unfolding outstanding
refusal k t a db = raise_first (
    (not t.is_online, offline)
    ∷ (not (may_operate a.role), permission_denied)
    ∷ (is_activation a.request && not (may_take_over a.role), permission_denied)
    ∷ (not (is_stop a.request) && any (outstanding k.device_id) db.operations, operation_unresolved)
    ∷ [])

module _ (business : Request → ℕ → Role → ℕ) (command_digest : Command → ℕ) where
  -- The payload, first with the placeholder of its digest.
  unfoldable pub payload : Session → Submission → ℕ → ℕ → Command
  payload t a epoch seq =
      let p : Command = record {
        operation_id = a.operation_id;
        controller_epoch = epoch;
        command_seq = seq;
        lease_id = a.lease_id;
        expected_boot_id = t.boot_id;
        expected_state_revision = a.state_revision;
        request_digest = 0;
        request = a.request;
      } in
      record p { request_digest = command_digest p }

  unfoldable pub new_row : Coordinator → Submission → Command → Row
  new_row k a p = record {
    operation_id = a.operation_id;
    device_id = k.device_id;
    controller_epoch = p.controller_epoch;
    command_seq = p.command_seq;
    business_digest = business a.request a.actor a.role;
    request_digest = p.request_digest;
    actor = a.actor;
    role = a.role;
    status = pending;
    reason = intent_committed;
    request = p;
    result = none;
    reconciled = false;
  }

  -- The commit of an intent, with its number.
  unfoldable pub store_intent :
      Coordinator
      → Session
      → Submission
      → Option Identity
      → Db
      → Result OperationError (Row × Bool) × Db
  unfolding payload new_row
  store_intent k t a none db = (err identity_conflict, db)
  store_intent k t a (some i) db =
      let seq = i.last_seq + 1 in
      let p = payload t a i.controller_epoch seq in
      let row = new_row k a p in
      if ltb max_sequence seq
      then (err sequence_exhausted, db)
      else (if not (command_valid p) then (err invalid, db) else (
        ok (row, true),
        record db {
          identity = some (record i { last_seq = seq });
          operations = row ∷ db.operations;
        },
      ))

  unfoldable pub admit :
      Coordinator
      → Session
      → Submission
      → Option OperationError
      → Db
      → Result OperationError (Row × Bool) × Db
  unfolding store_intent
  admit k t a (some e) db = (err e, db)
  admit k t a none db = store_intent k t a (own_identity k db.identity) db

  -- An operation that is in the table is answered from there.
  unfoldable pub known :
      Coordinator → Session → Submission → Option Row → Db → Result OperationError (Row × Bool) × Db
  unfolding admit refusal
  known k t a (some r) db =
      if not (r.device_id == k.device_id)
        || not (r.business_digest == business a.request a.actor a.role)
      then (err operation_conflict, db)
      else (ok (r, false), db)
  known k t a none db = admit k t a (refusal k t a db) db

  -- `_intent`
  unfoldable pub intent :
      Coordinator → Session → Submission → Db → Result OperationError (Row × Bool) × Db
  unfolding known find_row
  intent k t a db = known k t a (find_row a.operation_id db.operations) db

unfoldable pub sending : Row → Row
sending r = record r { status = sent; reason = outcome_pending }

-- `_mark_sent`
unfoldable pub mark_sent : ℕ → Db → Db
unfolding sending put_row
mark_sent id db = record db { operations = put_row id sending db.operations }

unfoldable pub lose_open : Note → Row → Row
unfolding lose_outcome
lose_open note r = if is_final r.status then r else lose_outcome note r

unfoldable pub error_review : ℕ → Option ℕ → List Review → List Review
error_review id none reviews = reviews
error_review id (some payload) reviews =
    record { operation_id = id; actor = none; evidence = device_error_response payload } ∷ reviews

-- `_unknown`
unfoldable pub lose : ℕ → Note → Option ℕ → Db → Db
unfolding lose_open error_review put_row
lose id note payload db = record db {
  operations = put_row id (lose_open note) db.operations;
  reviews = error_review id payload db.reviews;
}

pub data ResponseType : Type 0 where
  command_result operation_snapshot other_type : ResponseType

pub record Response : Type 0 where
  pub type_ : ResponseType
  pub payload : Operation

unfoldable pub same_type : ResponseType → ResponseType → Bool
same_type command_result command_result = true
same_type operation_snapshot operation_snapshot = true
same_type _ _ = false

unfoldable pub matches_digest : Option ℕ → ℕ → Bool
matches_digest none digest = true
matches_digest (some d) digest = d == digest

-- The checks of a response before the transaction.
unfoldable pub mismatch : Row → ResponseType → Response → Option OperationError
unfolding same_type matches_digest
mismatch stored expected a =
    let o = a.payload in
    raise_first (
      (not (same_type a.type_ expected), result_mismatch)
      ∷ (not (known_result o), invalid)
      ∷ (
        not (
            (o.operation_id == stored.operation_id)
            && (o.controller_epoch == stored.controller_epoch)
            && (o.command_seq == stored.command_seq)),
        result_mismatch,
      )
      ∷ (not (matches_digest o.request_digest stored.request_digest), result_mismatch)
      ∷ [])

unfoldable pub settled : Operation → Row → Row
settled o r = record r {
  status = reported o.status;
  reason = device_reason o.reason;
  result = some o;
  reconciled = if is_accepted o.status then false else r.reconciled;
}

-- The row after a result: a terminal outcome stays, a different one is refused.
unfoldable pub settle : Operation → Row → Result OperationError Row
unfolding settled same_result
settle o r =
    if is_final r.status && not (is_final_status o.status)
    then ok r
    else (if is_final r.status && not (same_result r.result o)
        then err result_conflict
        else ok (settled o r))

unfoldable pub put_settled :
    ℕ → Result OperationError Row → Db → Result OperationError (Unit {0}) × Db
unfolding put_row
put_settled id (err e) db = (err e, db)
put_settled id (ok row) db = (ok tt, record db { operations = put_row id (λ _. row) db.operations })

unfoldable pub settle_found : Operation → Option Row → Db → Result OperationError (Unit {0}) × Db
unfolding settle put_settled
settle_found o none db = (err no_row, db)
settle_found o (some r) db = put_settled r.operation_id (settle o r) db

unfoldable pub record_checked :
    Row → Response → Option OperationError → Db → Result OperationError (Unit {0}) × Db
unfolding settle_found
record_checked stored a (some e) db = (err e, db)
record_checked stored a none db =
    settle_found a.payload (find_row stored.operation_id db.operations) db

-- `_record_result`
unfoldable pub record_result :
    Row → Response → ResponseType → Db → Result OperationError (Unit {0}) × Db
unfolding record_checked mismatch
record_result stored a expected db = record_checked stored a (mismatch stored expected a) db
