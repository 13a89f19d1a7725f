-- ===== src/Coordinator/Equality.antt =====
-- The equality of operation results that `_record_result` of backend/app/services/v2_operations.py tests
-- on their canonical JSON.
use smd_web_hmi.Prelude.{
  ℕ, Bool, true, false, ◌&&◌, Option, none, some, List, [], ◌∷◌, ◌==◌, ◌==?◌, ==?_eq, ==_eq,
  code_injective, get_elem?, ◌≡◌, refl, ap, arith,
}
use smd_web_hmi.Device.Model.{Status, Reason, Operation}

abbrev status_code : Status → ℕ
status_code Status.accepted = 0
status_code Status.applied = 1
status_code Status.rejected = 2
status_code Status.interrupted = 3
status_code Status.unknown = 4
status_code Status.result_expired = 5
status_code Status.not_found = 6

abbrev reason_code : Reason → ℕ
reason_code Reason.accepted_ok = 0
reason_code Reason.permission_denied = 1
reason_code Reason.operation_conflict = 2
reason_code Reason.boot_mismatch = 3
reason_code Reason.lease_required = 4
reason_code Reason.state_conflict = 5
reason_code Reason.busy = 6
reason_code Reason.profile_unapproved = 7
reason_code Reason.recipe_invalid = 8
reason_code Reason.profile_mismatch = 9
reason_code Reason.storage_unavailable = 10
reason_code Reason.result_expired = 11
reason_code Reason.not_found = 12
reason_code Reason.device_restarted = 13
reason_code Reason.stop_latched = 14

abbrev statuses : List Status
statuses =
    Status.accepted ∷ Status.applied ∷ Status.rejected ∷ Status.interrupted ∷ Status.unknown
    ∷ Status.result_expired ∷ Status.not_found ∷ []

abbrev reasons : List Reason
reasons =
    Reason.accepted_ok ∷ Reason.permission_denied ∷ Reason.operation_conflict ∷ Reason.boot_mismatch
    ∷ Reason.lease_required ∷ Reason.state_conflict ∷ Reason.busy ∷ Reason.profile_unapproved
    ∷ Reason.recipe_invalid ∷ Reason.profile_mismatch ∷ Reason.storage_unavailable
    ∷ Reason.result_expired ∷ Reason.not_found ∷ Reason.device_restarted ∷ Reason.stop_latched ∷ []

get_elem?-status_code : (s : Status) → get_elem? statuses (status_code s) ≡ some s
get_elem?-status_code Status.accepted = refl
get_elem?-status_code Status.applied = refl
get_elem?-status_code Status.rejected = refl
get_elem?-status_code Status.interrupted = refl
get_elem?-status_code Status.unknown = refl
get_elem?-status_code Status.result_expired = refl
get_elem?-status_code Status.not_found = refl

get_elem?-reason_code : (r : Reason) → get_elem? reasons (reason_code r) ≡ some r
get_elem?-reason_code Reason.accepted_ok = refl
get_elem?-reason_code Reason.permission_denied = refl
get_elem?-reason_code Reason.operation_conflict = refl
get_elem?-reason_code Reason.boot_mismatch = refl
get_elem?-reason_code Reason.lease_required = refl
get_elem?-reason_code Reason.state_conflict = refl
get_elem?-reason_code Reason.busy = refl
get_elem?-reason_code Reason.profile_unapproved = refl
get_elem?-reason_code Reason.recipe_invalid = refl
get_elem?-reason_code Reason.profile_mismatch = refl
get_elem?-reason_code Reason.storage_unavailable = refl
get_elem?-reason_code Reason.result_expired = refl
get_elem?-reason_code Reason.not_found = refl
get_elem?-reason_code Reason.device_restarted = refl
get_elem?-reason_code Reason.stop_latched = refl

all_true : List Bool → Bool
all_true [] = true
all_true (b ∷ bs) = b && all_true bs

AreTrue : List Bool → Type 0
AreTrue [] = Unit {0}
AreTrue (b ∷ bs) = (b ≡ true) × AreTrue bs

all_true-AreTrue : (bs : List Bool) → all_true bs ≡ true → AreTrue bs
unfolding all_true AreTrue
all_true-AreTrue [] h = tt
all_true-AreTrue (b ∷ bs) h = (ground arith, all_true-AreTrue bs (ground arith))

field_tests : Operation → Operation → List Bool
field_tests a b =
    (a.controller_epoch == b.controller_epoch)
    ∷ (a.operation_id == b.operation_id)
    ∷ (a.command_seq == b.command_seq)
    ∷ (a.result_boot_id ==? b.result_boot_id)
    ∷ (a.request_digest ==? b.request_digest)
    ∷ (status_code a.status == status_code b.status)
    ∷ (reason_code a.reason == reason_code b.reason)
    ∷ (a.state_revision == b.state_revision)
    ∷ (a.run_id ==? b.run_id)
    ∷ (a.lease_id ==? b.lease_id)
    ∷ (a.lease_expires_uptime_ms ==? b.lease_expires_uptime_ms)
    ∷ []

-- Two results have the same JSON.
unfoldable pub same_operation : Operation → Operation → Bool
unfolding all_true field_tests
same_operation a b = all_true (field_tests a b)

unfoldable pub same_result : Option Operation → Operation → Bool
unfolding same_operation
same_result none b = false
same_result (some a) b = same_operation a b

same_fields : (a b : Operation) → AreTrue (field_tests a b) → a ≡ b
unfolding AreTrue field_tests
same_fields a b
      (
        epoch,
        (id, (seq, (boot, (digest, (status, (reason, (revision, (run, (lease, (expiry, _)))))))))),
      ) =
    λ i. record {
      controller_epoch = ==_eq a.controller_epoch b.controller_epoch epoch i;
      operation_id = ==_eq a.operation_id b.operation_id id i;
      command_seq = ==_eq a.command_seq b.command_seq seq i;
      result_boot_id = ==?_eq a.result_boot_id b.result_boot_id boot i;
      request_digest = ==?_eq a.request_digest b.request_digest digest i;
      status = code_injective status_code statuses get_elem?-status_code a.status b.status status i;
      reason = code_injective reason_code reasons get_elem?-reason_code a.reason b.reason reason i;
      state_revision = ==_eq a.state_revision b.state_revision revision i;
      run_id = ==?_eq a.run_id b.run_id run i;
      lease_id = ==?_eq a.lease_id b.lease_id lease i;
      lease_expires_uptime_ms = ==?_eq a.lease_expires_uptime_ms b.lease_expires_uptime_ms expiry i;
    }

pub same_result-eq : (o : Option Operation) (b : Operation) → same_result o b ≡ true → o ≡ some b
unfolding same_result same_operation
same_result-eq none b h = cc
same_result-eq (some a) b h =
    ap (λ o. some o) (same_fields a b (all_true-AreTrue (field_tests a b) h))
