-- ===== src/Coordinator/Model.antt =====
-- The durable operations of backend/app/services/v2_operations.py: the rows of the tables in
-- backend/app/db/v2_models.py, and the validators of commands and operation results in
-- backend/app/hostcomm/v2_contract/messages.py. Time stamps and message identifiers are not kept.
use smd_web_hmi.Prelude.{
  ℕ, Bool, true, false, not, ◌&&◌, ◌||◌, Option, none, some, List, [], ◌∷◌, ◌==◌, is_some,
  if◌then◌else◌,
}
use smd_web_hmi.Device.Model.{
  Status, accepted, applied, rejected, interrupted, unknown, result_expired, Reason, accepted_ok,
  Operation, Run,
}
use smd_web_hmi.Device.Command.{Request, acquire_lease, stop_run, activate_recipe, Command}
use smd_web_hmi.Service.Ownership.{Role}

pub record Identity : Type 0 where
  pub controller_id : ℕ
  pub controller_epoch : ℕ
  pub last_seq : ℕ

-- `status`: what the host knows before an answer, or what a result or a failure says.
pub data Progress : Type 0 where
  pending sent : Progress
  reported : Status → Progress

pub data Note : Type 0 where
  intent_committed outcome_pending backend_restart request_cancelled outcome_unknown : Note
  device_reason : Reason → Note
  error_code : ℕ → Note

pub record Row : Type 0 where
  pub operation_id : ℕ
  pub device_id : ℕ
  pub controller_epoch : ℕ
  pub command_seq : ℕ
  pub business_digest : ℕ
  pub request_digest : ℕ
  pub actor : ℕ
  pub role : Role
  pub status : Progress
  pub reason : Note
  pub request : Command
  pub result : Option Operation
  pub reconciled : Bool

-- What `StatusSnapshot` and its frame show to a reconciliation.
pub record Snapshot : Type 0 where
  pub boot_id : ℕ
  pub session_id : ℕ
  pub run : Run
  pub emergency_stop : Bool
  pub co_alarm : Bool
  pub overtemperature : Bool
  pub exhaust_ok : Bool
  pub profile_approved : Bool
  pub hardwired_permit : Bool
  pub profile_digest : ℕ

pub record Interval : Type 0 where
  pub log_id : ℕ
  pub first_record_seq : ℕ
  pub last_record_seq : ℕ

pub data Evidence : Type 0 where
  device_error_response : ℕ → Evidence
  recovery : Snapshot → List Interval → Evidence

pub record Review : Type 0 where
  pub operation_id : ℕ
  pub actor : Option ℕ
  pub evidence : Evidence

-- The row of the device's identity, and the other tables, the newest row first.
pub record Db : Type 0 where
  pub identity : Option Identity
  pub operations : List Row
  pub reviews : List Review
  pub log_cursors : List Interval

pub record Coordinator : Type 0 where
  pub device_id : ℕ
  pub controller_id : Option ℕ
  pub controller_epoch : Option ℕ

-- What the transport knows of its session.
pub record Session : Type 0 where
  pub is_online : Bool
  pub boot_id : ℕ
  pub session_id : ℕ

-- The codes of `V2OperationError`; `invalid` is a `ValidationError`, and `no_row` an access to a row
-- that is not there.
pub data OperationError : Type 0 where
  identity_conflict operation_conflict offline permission_denied : OperationError
  operation_unresolved sequence_exhausted result_mismatch result_conflict : OperationError
  not_found recovery_evidence_required stale_session unsafe_recovery : OperationError
  state_conflict invalid no_row : OperationError

-- `MAX_SEQUENCE`, 2 ^ 64 - 1.
abbrev pub max_sequence : ℕ
max_sequence = 18446744073709551615

unfoldable pub is_stop_or_acquire : Request → Bool
is_stop_or_acquire acquire_lease = true
is_stop_or_acquire (stop_run run) = true
is_stop_or_acquire _ = false

unfoldable pub is_stop : Request → Bool
is_stop (stop_run run) = true
is_stop _ = false

unfoldable pub is_activation : Request → Bool
is_activation (activate_recipe digest expected) = true
is_activation _ = false

-- `CommandBase.guards`
unfoldable pub command_valid : Command → Bool
unfolding is_stop_or_acquire
command_valid p =
    not (p.command_seq == 0)
    && (if is_stop_or_acquire p.request
        then not (is_some p.lease_id) && not (is_some p.expected_state_revision)
        else is_some p.lease_id && is_some p.expected_state_revision)

unfoldable pub is_success : Status → Bool
is_success accepted = true
is_success applied = true
is_success _ = false

unfoldable pub is_final_status : Status → Bool
is_final_status applied = true
is_final_status rejected = true
is_final_status interrupted = true
is_final_status _ = false

unfoldable pub is_retained : Status → Bool
unfolding is_final_status
is_retained accepted = true
is_retained s = is_final_status s

unfoldable pub is_ok : Reason → Bool
is_ok accepted_ok = true
is_ok _ = false

unfoldable pub same : Bool → Bool → Bool
same true b = b
same false b = not b

-- `OperationResult.known_result`
unfoldable pub known_result : Operation → Bool
unfolding is_retained is_success is_ok same
known_result o =
    (not (is_retained o.status) || (is_some o.request_digest && is_some o.result_boot_id))
    && same (is_success o.status) (is_ok o.reason)
    && same (is_some o.lease_id) (is_some o.lease_expires_uptime_ms)

-- `status.in_([...])` of the admission: the outcome is open.
unfoldable pub is_unresolved : Progress → Bool
unfolding is_final_status
is_unresolved pending = true
is_unresolved sent = true
is_unresolved (reported s) = not (is_final_status s)

unfoldable pub is_final : Progress → Bool
unfolding is_final_status
is_final pending = false
is_final sent = false
is_final (reported s) = is_final_status s

-- `status.in_(["pending", "sent", "accepted"])`
unfoldable pub is_under_way : Progress → Bool
is_under_way pending = true
is_under_way sent = true
is_under_way (reported accepted) = true
is_under_way (reported _) = false

-- `status in {"unknown", "result_expired", "not_found"}`
unfoldable pub is_uncertain : Progress → Bool
is_uncertain (reported unknown) = true
is_uncertain (reported result_expired) = true
is_uncertain (reported Status.not_found) = true
is_uncertain _ = false

-- `db.get(V2Operation, operation_id)`
unfoldable pub find_row : ℕ → List Row → Option Row
find_row id [] = none
find_row id (r ∷ rs) = if r.operation_id == id then some r else find_row id rs

-- `update(V2Operation).where(...)`
unfoldable pub update_rows : (Row → Bool) → (Row → Row) → List Row → List Row
update_rows p f [] = []
update_rows p f (r ∷ rs) = (if p r then f r else r) ∷ update_rows p f rs

-- An update of the row with a primary key.
unfoldable pub put_row : ℕ → (Row → Row) → List Row → List Row
put_row id f [] = []
put_row id f (r ∷ rs) =
    let rest = put_row id f rs in if r.operation_id == id then f r ∷ rs else r ∷ rest
