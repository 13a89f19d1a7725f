-- ===== src/Device/Command.antt =====
-- Durable operations of backend/app/hostcomm/v2_simulator/state.py: `lookup`, `validate_recipe`,
-- `_command_permission`, `_apply`, `_evict_history` and `command`.
use smd_web_hmi.Prelude.{
  ℕ, ◌+◌, Bool, true, false, not, ◌&&◌, ◌||◌, Option, none, some, List, [], ◌∷◌, Result, ok, err,
  ltb, leb, ◌==◌, ◌==?◌, is_some, length, any, last?, raise_first, if◌then◌else◌,
}
use smd_web_hmi.Recipe.Model.{Recipe, Stage}
use smd_web_hmi.Device.Model.{
  Reason, operation_conflict, boot_mismatch, lease_required, state_conflict, busy,
  profile_unapproved, recipe_invalid, profile_mismatch, Phase, idle, safe_disposal, pending,
  aborted, Run, Profile, Status, Operation, acknowledged, ActiveRecipe, furnace_mc, burden_mc, Data,
  Host, Device, Error, device,
}
use smd_web_hmi.Device.Tests.{is_idle, is_fault, valid_point, alarm_trips}
use smd_web_hmi.Device.Log.{revision, on_content, emit_run_changed}
use smd_web_hmi.Device.Stop.{stop}
use smd_web_hmi.Device.Alarm.{find_alarm, transition_uncommitted}
use smd_web_hmi.Device.Lease.{lease_valid, drop_lease}
use smd_web_hmi.Device.Stage.{validate_recipe_bytes}

-- The command with its parameters.
pub data Request : Type 0 where
  acquire_lease release_lease : Request
  start_run : ℕ → ℕ → ℕ → Request
  stop_run ack_run : ℕ → Request
  activate_recipe : ℕ → Option ℕ → Request
  ack_alarm : ℕ → ℕ → Request
  reset_fault : ℕ → Request

pub record Command : Type 0 where
  pub operation_id : ℕ
  pub controller_epoch : ℕ
  pub command_seq : ℕ
  pub lease_id : Option ℕ
  pub expected_boot_id : ℕ
  pub expected_state_revision : Option ℕ
  pub request_digest : ℕ
  pub request : Request

pub record Session : Type 0 where
  pub id : ℕ
  pub controller_id : ℕ
  pub epoch : ℕ
  pub is_control : Bool

unfoldable pub same_key : ℕ → ℕ → Operation → Bool
same_key epoch seq o = (o.controller_epoch == epoch) && (o.command_seq == seq)

-- `operations.get(f"{epoch}:{seq}")`
unfoldable pub find_operation : ℕ → ℕ → List Operation → Option Operation
unfolding same_key
find_operation epoch seq [] = none
find_operation epoch seq (o ∷ os) =
    if same_key epoch seq o then some o else find_operation epoch seq os

-- `highwater.get(epoch, 0)`
unfoldable pub highwater_of : ℕ → List (ℕ × ℕ) → ℕ
highwater_of epoch [] = 0
highwater_of epoch ((e, seq) ∷ rest) = if e == epoch then seq else highwater_of epoch rest

unfoldable pub put_highwater : ℕ → ℕ → List (ℕ × ℕ) → List (ℕ × ℕ)
put_highwater epoch seq [] = (epoch, seq) ∷ []
put_highwater epoch seq ((e, s) ∷ rest) =
    if e == epoch then (e, seq) ∷ rest else (e, s) ∷ put_highwater epoch seq rest

-- `operations[key] = result`
unfoldable pub put_operation : Operation → List Operation → List Operation
unfolding same_key
put_operation r [] = r ∷ []
put_operation r (o ∷ os) =
    if same_key r.controller_epoch r.command_seq o then r ∷ os else o ∷ put_operation r os

-- The answer to a query about an operation of which no result is kept.
unfoldable pub absent : ℕ → ℕ → ℕ → Data → Operation
unfolding highwater_of
absent epoch id seq c =
    let expired = leb seq (highwater_of epoch c.highwater) in
    record {
      controller_epoch = epoch;
      operation_id = id;
      command_seq = seq;
      result_boot_id = none;
      request_digest = none;
      status = if expired then Status.result_expired else Status.not_found;
      reason = if expired then Reason.result_expired else Reason.not_found;
      state_revision = c.run.state_revision;
      run_id = none;
      lease_id = none;
      lease_expires_uptime_ms = none;
    }

-- `lookup`
unfoldable pub lookup : ℕ → ℕ → ℕ → Data → Result Error Operation
lookup epoch id seq c = elim (find_operation epoch seq c.operations) [
  | some o ↦ if o.operation_id == id then ok o else err (device operation_conflict)
  | none ↦
      if any (λ o. o.operation_id == id) c.operations
      then err (device operation_conflict)
      else ok (absent epoch id seq c)
]

abbrev pub over : Option ℕ → ℕ → Bool
over none limit = false
over (some v) limit = ltb limit v

unfoldable pub stage_exceeds : Profile → Stage → Bool
stage_exceeds p s =
    over s.target_mc p.limits.temperature_max_mc
    || (over s.rate_mc_per_min p.limits.ramp_max_mc_per_min
        || (ltb p.limits.n2_max_ml_min s.n2_ml_min || ltb p.limits.co_max_ml_min s.co_ml_min))

abbrev pub final_unsafe : Profile → Option Stage → Bool
final_unsafe p none = true
final_unsafe p (some s) =
    ltb s.n2_ml_min p.limits.minimum_n2_ml_min || ltb p.limits.safe_end_burden_mc s.exit.value

-- `validate_recipe` on the parsed recipe
unfoldable pub recipe_refused : Profile → Recipe → Option Error
unfolding stage_exceeds
recipe_refused p r = raise_first (
    (not (r.safety_profile_digest == p.profile_digest), device profile_mismatch)
    ∷ (ltb p.resources.max_stages (length r.stages), device recipe_invalid)
    ∷ (any (stage_exceeds p) r.stages, device recipe_invalid)
    ∷ (final_unsafe p (last? r.stages), device recipe_invalid)
    ∷ [])

abbrev pub refused_result : Profile → Result Error Recipe → Option Error
refused_result p (err e) = some e
refused_result p (ok r) = recipe_refused p r

-- `validate_recipe`
unfoldable pub raw_refused : Host → Profile → Option (List ℕ) → Option Error
unfolding validate_recipe_bytes recipe_refused
raw_refused h p none = some (device recipe_invalid)
raw_refused h p (some raw) = refused_result p (validate_recipe_bytes h raw)

unfoldable pub is_executable : Data → Option Error
is_executable c = raise_first (
    (not c.profile.approved, device profile_unapproved)
    ∷ (not (is_idle c.run.state) || is_some c.run.run_id, device state_conflict)
    ∷ (any alarm_trips c.alarms, device state_conflict)
    ∷ [])

abbrev digest_of : Option ActiveRecipe → Option ℕ
digest_of none = none
digest_of (some a) = some a.digest

abbrev or_else : Option Error → Option Error → Option Error
or_else none next = next
or_else (some e) next = some e

-- The checks of `_command_permission` that depend on the command.
unfoldable pub request_refused : Host → Request → Option (List ℕ) → Data → Option Error
unfolding raw_refused is_executable find_alarm
request_refused h acquire_lease raw c = if is_some c.lease then some (device busy) else none
request_refused h release_lease raw c = none
request_refused h (start_run run digest profile) raw c = or_else (is_executable c) (
    raise_first (
      (not (digest_of c.active_recipe ==? some digest), device recipe_invalid)
      ∷ (not (profile == c.profile.profile_digest), device profile_mismatch)
      ∷ (
        not (is_some (valid_point furnace_mc c)) || not (is_some (valid_point burden_mc c)),
        device state_conflict,
      )
      ∷ []))
request_refused h (stop_run run) raw c =
    if some run ==? c.run.run_id then none else some (device state_conflict)
request_refused h (ack_run run) raw c = raise_first (
    (not (some run ==? c.run.run_id), device state_conflict)
    ∷ (
      not c.run.safe_complete
          || (c.fault_reset_required || any (λ a. a.active || not a.acknowledged) c.alarms),
      device state_conflict,
    )
    ∷ [])
request_refused h (activate_recipe digest expected) raw c = or_else (is_executable c) (
    if digest_of c.active_recipe ==? expected
    then raw_refused h c.profile raw
    else some (device state_conflict))
request_refused h (ack_alarm id seq) raw c =
    if is_some (find_alarm id seq c.alarms) then none else some (device state_conflict)
request_refused h (reset_fault rev) raw c =
    if rev == c.run.fault_revision && not (any alarm_trips c.alarms)
    then none
    else some (device state_conflict)

abbrev pub needs_lease : Request → Bool
needs_lease acquire_lease = false
needs_lease (stop_run _) = false
needs_lease _ = true

-- `_command_permission`: the exception that it raises, if any.
unfoldable pub refusal : ℕ → Host → Session → Command → Option (List ℕ) → Data → Option Error
unfolding lease_valid
refusal now h s p raw c =
    or_else
      (raise_first (
        (not (p.expected_boot_id == c.boot_id), device boot_mismatch)
        ∷ (needs_lease p.request && not (lease_valid now s.id p.lease_id c), device lease_required)
        ∷ (
          needs_lease p.request && not (p.expected_state_revision ==? some c.run.state_revision),
          device state_conflict,
        )
        ∷ []))
      (request_refused h p.request raw c)

-- `idle_run`
unfoldable pub idle_run : ℕ → ℕ → Run
idle_run rev fault_rev = record {
  run_id = none;
  state = idle;
  state_revision = rev;
  outcome = pending;
  recipe_digest = none;
  safety_profile_digest = none;
  stage_index = none;
  measurement_complete = false;
  safe_complete = false;
  measurement_start = none;
  measurement_end = none;
  safe_boundary = none;
  fault_revision = fault_rev;
}

unfoldable pub grant : ℕ → ℕ → Session → Data → Data
unfolding revision
grant now id s c = revision (record c {
  lease = some (record {
    id = id;
    session_id = s.id;
    controller_id = s.controller_id;
    expires = now + 8000;
  });
})

unfoldable pub activate : ℕ → Option (List ℕ) → Data → Data
unfolding revision
activate digest none c = c
activate digest (some raw) c =
    revision (record c { active_recipe = some (record { digest = digest; raw = raw }) })

unfoldable pub acknowledge : Data → Data
unfolding revision idle_run
acknowledge c = revision (record c { run = idle_run c.run.state_revision c.run.fault_revision })

unfoldable pub recover_phase : Run → Phase
recover_phase r =
    if is_fault r.state then (if is_some r.run_id then safe_disposal else idle) else r.state

unfoldable pub clear_fault : Data → Data
unfolding revision recover_phase
clear_fault c = revision (record c {
  fault_reset_required = false;
  run = record c.run { fault_revision = c.run.fault_revision + 1; state = recover_phase c.run };
})

-- `_apply`
unfoldable pub apply :
    ℕ → Session → Request → Option (List ℕ) → Device → Result Error (Unit {0}) × Device
apply now s acquire_lease raw d =
    (ok tt, on_content (grant now (d.host.uuid4 d.drawn) s) (record d { drawn = d.drawn + 1 }))
apply now s release_lease raw d = (ok tt, stop now aborted (on_content drop_lease d))
apply now s (start_run run digest profile) raw d = (ok tt, d)
apply now s (stop_run run) raw d = (ok tt, stop now aborted d)
apply now s (ack_run run) raw d = (ok tt, emit_run_changed now (on_content acknowledge d))
apply now s (activate_recipe digest expected) raw d = (ok tt, on_content (activate digest raw) d)
apply now s (ack_alarm id seq) raw d = transition_uncommitted now id seq acknowledged d
apply now s (reset_fault rev) raw d = (ok tt, emit_run_changed now (on_content clear_fault d))
