-- ===== src/Coordinator/Submit.antt =====
-- The calls of `V2OperationCoordinator` that wait for the device, backend/app/services/v2_operations.py:
-- `submit`, `query` and `reconcile_unknown`. What the transport gives back is an argument.
use smd_web_hmi.Prelude.{
  ℕ, Bool, true, false, not, ◌&&◌, ◌||◌, Option, none, some, [], ◌∷◌, ◌==◌, ◌==?◌, is_some,
  raise_first, Result, ok, err, if◌then◌else◌,
}
use smd_web_hmi.Device.Model.{Phase, completed, idle, fault}
use smd_web_hmi.Device.Command.{Request, Command}
use smd_web_hmi.Service.Ownership.{Role}
use smd_web_hmi.Coordinator.Model.{
  Note, request_cancelled, outcome_unknown, error_code, Row, Snapshot, recovery, Db, Coordinator,
  Session, OperationError, not_found, recovery_evidence_required, stale_session, unsafe_recovery,
  state_conflict, invalid, is_uncertain, find_row, put_row,
}
use smd_web_hmi.Coordinator.Intent.{
  Submission, intent, mark_sent, lose, Response, command_result, operation_snapshot, record_result,
}

-- What a request comes to: a response, an exception with its code and payload, or its cancellation.
pub data Reply : Type 0 where
  returned : Response → Reply
  failed : Note → Option ℕ → Reply
  cancelled : Reply

-- `row.get` for the device of the coordinator.
unfoldable pub own_row : ℕ → Option Row → Option Row
own_row device none = none
own_row device (some r) = if r.device_id == device then some r else none

unfoldable pub get : Coordinator → ℕ → Db → Option Row
unfolding own_row find_row
get k id db = own_row k.device_id (find_row id db.operations)

-- What `submit` returns: the row, or the exception that it raises on.
pub data Outcome : Type 0 where
  row : Option Row → Outcome
  refused : OperationError → Outcome
  was_cancelled : Outcome

-- The note on a `V2OperationError` is its code; an error of a validator has no code.
unfoldable pub note_of : (OperationError → ℕ) → OperationError → Note
note_of code invalid = outcome_unknown
note_of code e = error_code (code e)

-- What the transactions of other calls do to the tables while a call waits: before its operation is marked
-- as sent, while its request is under way, before it notes an error, and before it reads the row.
pub record Others : Type 0 where
  pub before_send : Db → Db
  pub in_flight : Db → Db
  pub before_unknown : Db → Db
  pub before_get : Db → Db

module _ (business : Request → ℕ → Role → ℕ) (command_digest : Command → ℕ)
    (code : OperationError → ℕ) where
  unfoldable pub keep_unknown : ℕ → Others → Result OperationError (Unit {0}) × Db → Db
  unfolding lose note_of
  keep_unknown id w (ok u, db) = db
  keep_unknown id w (err e, db) = lose id (note_of code e) none (w.before_unknown db)

  -- The request of an intent that was stored, and the record of its result.
  unfoldable pub conclude : Coordinator → Row → Others → Reply → Db → Outcome × Db
  unfolding keep_unknown record_result lose get
  conclude k r w (returned a) db =
      let db' =
        w.before_get (keep_unknown r.operation_id w (record_result r a command_result db)) in
      (row (get k r.operation_id db'), db')
  conclude k r w (failed note payload) db =
      let db' = w.before_get (lose r.operation_id note payload (w.before_unknown db)) in
      (row (get k r.operation_id db'), db')
  conclude k r w cancelled db =
      (was_cancelled, lose r.operation_id request_cancelled none (w.before_unknown db))

  unfoldable pub after_intent :
      Coordinator → Others → Reply → Result OperationError (Row × Bool) × Db → Outcome × Db
  unfolding conclude mark_sent
  after_intent k w a (err e, db) = (refused e, db)
  after_intent k w a (ok (r, false), db) = (row (some r), db)
  after_intent k w a (ok (r, true), db) =
      conclude k r w a (w.in_flight (mark_sent r.operation_id (w.before_send db)))

  -- `submit`; the transport sends the request only if the intent is new. The tables are locked in each
  -- transaction alone, so others come between them.
  unfoldable pub submit : Coordinator → Session → Submission → Others → Reply → Db → Outcome × Db
  unfolding after_intent intent
  submit k t a w reply db = after_intent k w reply (intent business command_digest k t a db)

unfoldable pub recorded :
    Coordinator
    → ℕ
    → Others
    → Result OperationError (Unit {0}) × Db
    → Result OperationError (Option Row) × Db
unfolding get
recorded k id w (err e, db) = (err e, db)
recorded k id w (ok u, db) = let db' = w.before_get db in (ok (get k id db'), db')

unfoldable pub query_row :
    Coordinator → Option Row → Others → Response → Db → Result OperationError (Option Row) × Db
unfolding recorded record_result
query_row k none w a db = (err not_found, db)
query_row k (some r) w a db =
    recorded k r.operation_id w (record_result r a operation_snapshot (w.in_flight db))

-- `query` with the response of the device.
unfoldable pub query :
    Coordinator → ℕ → Others → Response → Db → Result OperationError (Option Row) × Db
unfolding query_row get
query k id w a db = query_row k (get k id db) w a db

unfoldable pub is_quiet : Phase → Bool
is_quiet completed = true
is_quiet idle = true
is_quiet fault = true
is_quiet _ = false

-- The snapshot does not prove that it is safe to go on.
unfoldable pub is_unsafe : Snapshot → Bool
unfolding is_quiet
is_unsafe s =
    not (is_quiet s.run.state)
    || (is_some s.run.run_id && not s.run.safe_complete)
    || s.emergency_stop
    || s.co_alarm
    || s.overtemperature
    || not s.exhaust_ok
    || not s.profile_approved
    || not s.hardwired_permit
    || (is_some s.run.run_id && not (s.run.safety_profile_digest ==? some s.profile_digest))

unfoldable pub recovery_refused : Session → Bool → Snapshot → Option OperationError
unfolding is_unsafe
recovery_refused t has_reason s = raise_first (
    (not has_reason || not t.is_online, recovery_evidence_required)
    ∷ (not (s.boot_id == t.boot_id) || not (s.session_id == t.session_id), stale_session)
    ∷ (is_unsafe s, unsafe_recovery)
    ∷ [])

unfoldable pub reconciled_row : Row → Row
reconciled_row r = record r { reconciled = true }

unfoldable pub reconcile_row :
    Coordinator → ℕ → ℕ → Snapshot → Option Row → Db → Result OperationError (Unit {0}) × Db
unfolding put_row reconciled_row
reconcile_row k id actor s none db = (err state_conflict, db)
reconcile_row k id actor s (some r) db =
    if not (r.device_id == k.device_id) || not (is_uncertain r.status)
    then (err state_conflict, db)
    else (
      ok tt,
      record db {
        operations = put_row id reconciled_row db.operations;
        reviews =
            record { operation_id = id; actor = some actor; evidence = recovery s db.log_cursors }
            ∷ db.reviews;
      },
    )

-- `_record_reconciliation`
unfoldable pub record_reconciliation :
    Coordinator → ℕ → ℕ → Snapshot → Db → Result OperationError (Unit {0}) × Db
unfolding reconcile_row find_row
record_reconciliation k id actor s db = reconcile_row k id actor s (find_row id db.operations) db

unfoldable pub reconcile_checked :
    Coordinator
    → ℕ
    → ℕ
    → Snapshot
    → Option OperationError
    → Db
    → Result OperationError (Unit {0}) × Db
unfolding record_reconciliation
reconcile_checked k id actor s (some e) db = (err e, db)
reconcile_checked k id actor s none db = record_reconciliation k id actor s db

-- `reconcile_unknown`
unfoldable pub reconcile_unknown :
    Coordinator
    → Session
    → ℕ
    → ℕ
    → Bool
    → Others
    → Snapshot
    → Db
    → Result OperationError (Option Row) × Db
unfolding recorded reconcile_checked recovery_refused
reconcile_unknown k t id actor has_reason w s db =
    recorded k id w
      (reconcile_checked k id actor s (recovery_refused t has_reason s) (w.in_flight db))
