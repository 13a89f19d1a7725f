-- ===== src/Coordinator/Examples.antt =====
-- The theorems on the durable operations at concrete tables.
use smd_web_hmi.Prelude.{
  ℕ, ◌+◌, ◌≡◌, refl, true, false, none, some, [], ◌∷◌, ok, err, map, any, arith,
}
use smd_web_hmi.Device.Model.{Status, Reason, Operation, Device, Host}
use smd_web_hmi.Device.Command.{Request, acquire_lease, Command}
use smd_web_hmi.Device.Command as Board
use smd_web_hmi.Service.Ownership.{Role, operator, may_operate, may_take_over}
use smd_web_hmi.Coordinator.Model.{
  reported, Row, Db, Coordinator, Session, operation_unresolved, is_final, is_final_status,
  find_row, is_stop, is_activation, is_under_way, command_valid, is_stop_or_acquire, known_result,
}
use smd_web_hmi.Coordinator.Intent.{
  Submission, intent, known, admit, store_intent, own_identity, refusal, new_row, payload, recover,
  interrupted_by_restart, outstanding, reconcile_highwater, raise_highwater,
}
use smd_web_hmi.Coordinator.Keeps.{core}
use smd_web_hmi.Coordinator.Trace.{Step, Reach, here, next}
use smd_web_hmi.Coordinator.Safety.{Reach-final, intent-repeat}
use smd_web_hmi.Coordinator.Numbers.{HasNumbers, Reach-HasNumbers}
use smd_web_hmi.Coordinator.Restart.{recover-intent}
use smd_web_hmi.Coordinator.Submit.{submit, returned, row, Others}
use smd_web_hmi.Coordinator.Board.{submit-command, LeaveAlone}
use smd_web_hmi.Coordinator.Intent.{command_result}
use smd_web_hmi.Coordinator.Model.{is_retained, is_success, is_ok, same}
use smd_web_hmi.Device.Examples.{bench, profile}
use smd_web_hmi.Device.Store.{commit, clear_pending, run_valid, rows_valid, save, insert_rows}
use smd_web_hmi.Device.Lease.{lease_valid, holds, lease_id_of, expires_of}
use smd_web_hmi.Device.Command.{
  lookup, find_operation, same_key, absent, highwater_of, request_refused, put_operation,
  put_highwater,
}
use smd_web_hmi.Device.Execute.{
  command, answer, judge, transact, admitted, new_result, reserve, reserved_result, evict_history,
  evict, evictable,
}
use smd_web_hmi.Device.Execute
use smd_web_hmi.Device.Boot
use smd_web_hmi.Device.Trace.{fresh}
use smd_web_hmi.Device.Boot.{initial_data}
use smd_web_hmi.Device.Log.{on_content}

-- The digests of the example tell the actors apart.
abbrev business : Request → ℕ → Role → ℕ
business q actor role = actor

abbrev command_digest : Command → ℕ
command_digest p = p.command_seq + 100

abbrev host : Coordinator
host = record { device_id = 1; controller_id = some 2; controller_epoch = some 3 }

abbrev paired : Db
paired = record {
  identity = some (record { controller_id = 2; controller_epoch = 3; last_seq = 6 });
  operations = [];
  reviews = [];
  log_cursors = [];
}

abbrev online : Session
online = record { is_online = true; boot_id = 2; session_id = 5 }

abbrev wish : Submission
wish = record {
  request = acquire_lease;
  actor = 9;
  role = operator;
  operation_id = 20;
  lease_id = none;
  state_revision = none;
}

abbrev stored_row : Row
stored_row =
    new_row business command_digest host wish (payload business command_digest online wish 3 7)

abbrev stored_db : Db
stored_db = (intent business command_digest host online wish paired).1

stores : (intent business command_digest host online wish paired).0 ≡ ok (stored_row, true)
unfolding intent known admit store_intent own_identity refusal new_row payload find_row is_stop
    is_activation may_operate may_take_over command_valid is_stop_or_acquire outstanding
stores = refl

intent-repeat_example :
    (r' : Row) × (intent business command_digest host online wish stored_db
      ≡ (ok (r', false), stored_db))
    × (r'.request ≡ stored_row.request)
intent-repeat_example =
    intent-repeat business command_digest host paired online online wish stores here

storing : Reach business command_digest host paired stored_db
storing = next here (Step.intent online wish)

Reach-HasNumbers_example : HasNumbers stored_db.identity (map core stored_db.operations)
Reach-HasNumbers_example = Reach-HasNumbers business command_digest host storing (tt, omega arith)

-- The board grants the lease 3 until its uptime 8010.
abbrev granted : Operation
granted = record {
  controller_epoch = 3;
  operation_id = 20;
  command_seq = 7;
  result_boot_id = some 2;
  request_digest = some 107;
  status = Status.applied;
  reason = Reason.accepted_ok;
  state_revision = 2;
  run_id = none;
  lease_id = some 3;
  lease_expires_uptime_ms = some 8010;
}

abbrev board_session : Board.Session
board_session = record { id = 5; controller_id = 2; epoch = 3; is_control = true }

abbrev steady : Host
steady = record bench { fails = λ n. false }

abbrev board : Device
board = fresh 0 steady 1 profile

answers : (command 10 board_session stored_row.request none board).0 ≡ ok granted
unfolding new_row payload command answer lookup find_operation same_key absent highwater_of
    Board.refusal request_refused lease_valid holds judge transact admitted new_result reserve
    reserved_result put_operation put_highwater evict_history evict evictable Execute.store_intent
    commit clear_pending run_valid rows_valid Boot.start Boot.loaded Boot.profile_valid Boot.recover
    on_content initial_data save insert_rows Board.grant lease_id_of expires_of
answers = refl

granted_valid : known_result granted ≡ true
unfolding known_result is_retained is_success is_ok same
granted_valid = refl

-- While the request is under way, the number of the board is reconciled.
abbrev meanwhile : Others
meanwhile = record {
  before_send = λ db. db;
  in_flight = λ db. (reconcile_highwater host 7 db).1;
  before_unknown = λ db. db;
  before_get = λ db. db;
}

meanwhile-LeaveAlone : LeaveAlone 20 meanwhile
unfolding reconcile_highwater raise_highwater own_identity
meanwhile-LeaveAlone = record {
  before_send = λ db. refl;
  in_flight = λ db. ground arith;
  before_get = λ db. refl;
}

submit-command_example :
    (r' : Row) × ((submit business command_digest
        (λ e. 0)
        host
        online
        wish
        meanwhile
        (returned record { type_ = command_result; payload = granted })
        paired).0
      ≡ row (some r'))
    × (r'.status ≡ reported Status.applied)
    × (r'.result ≡ some granted)
unfolding new_row
submit-command_example =
    submit-command business command_digest (λ e. 0) host online wish paired meanwhile 10
      board_session none board stores answers granted_valid meanwhile-LeaveAlone

-- The tables once the result is recorded, and after a restart with a second operation under way.
abbrev done_row : Row
done_row = record stored_row { status = reported Status.applied; result = some granted }

abbrev done_db : Db
done_db = record paired { operations = done_row ∷ [] }

found_done : find_row 20 done_db.operations ≡ some done_row
unfolding find_row new_row payload
found_done = refl

is_done : is_final done_row.status ≡ true
unfolding is_final is_final_status
is_done = refl

Reach-final_example :
    (r' : Row) × (find_row 20 (recover 1 done_db).operations ≡ some r')
    × (r'.status ≡ reported Status.applied)
    × (r'.result ≡ some granted)
    × (r'.request ≡ stored_row.request)
Reach-final_example =
    Reach-final business command_digest host 20 (next here Step.recover) (tt, tt)
      (λ _ final. (granted, refl, refl), tt) found_done is_done

abbrev other : Submission
other = record wish { operation_id = 21 }

is_busy : any (interrupted_by_restart host.device_id) stored_db.operations ≡ true
unfolding intent known admit store_intent own_identity refusal new_row payload find_row is_stop
    is_activation may_operate may_take_over command_valid is_stop_or_acquire outstanding
    interrupted_by_restart is_under_way
is_busy = refl

is_new : find_row 21 stored_db.operations ≡ none
unfolding intent known admit store_intent own_identity refusal new_row payload find_row is_stop
    is_activation may_operate may_take_over command_valid is_stop_or_acquire outstanding
is_new = refl

recover-intent_example :
    intent business command_digest host online other (recover 1 stored_db)
    ≡ (err operation_unresolved, recover 1 stored_db)
unfolding may_operate is_activation is_stop
recover-intent_example =
    recover-intent business command_digest host online other stored_db is_busy is_new refl refl refl
      refl
