-- ===== src/Device/Tick.antt =====
-- The device's periodic round in backend/app/hostcomm/v2_simulator/state.py: `tick`, `_cooling` and
-- `first_drip`.
use smd_web_hmi.Prelude.{
  ℕ, ◌+◌, Bool, true, false, not, ◌&&◌, ◌||◌, Option, none, some, List, [], ◌∷◌, map, min, Result,
  ok, err, leb, is_some, any, last?, if◌then◌else◌,
}
use smd_web_hmi.Prelude.Int.{ℤ, pos, ltb_ℤ, leb_ℤ}
use smd_web_hmi.Recipe.Model.{Recipe, Stage}
use smd_web_hmi.Device.Model.{
  measuring, cooling, completed, fault, furnace_mc, burden_mc, furnace_setpoint_mc,
  n2_measured_ml_min, co_measured_ml_min, Operation, applied, operation_changed, first_drip,
  recipe_stage_timeout, temperature_sensor_invalid, Data, Device, Error, device, state_conflict,
  lookup_error,
}
use smd_web_hmi.Device.Tests.{
  is_preparing, is_measuring, is_disposal, is_cooling, valid_point, alarm_trips,
}
use smd_web_hmi.Device.Log.{revision, on_content, emit, sample, next_ref, emit_run_changed}
use smd_web_hmi.Device.Store.{commit, ◌▸◌}
use smd_web_hmi.Device.Stop.{awaits_run}
use smd_web_hmi.Device.Alarm.{raise_uncommitted, default_severity}
use smd_web_hmi.Device.Lease.{lose_lease}
use smd_web_hmi.Device.Stage.{running_recipe, process_stage, since}

unfoldable pub lease_ended : ℕ → Data → Bool
lease_ended now c = elim c.lease [ none ↦ false | some l ↦ leb l.expires now ]

unfoldable pub sensors_lost : Data → Bool
sensors_lost c =
    not (is_some (valid_point furnace_mc c))
    || (not (is_some (valid_point burden_mc c))
        || not (is_some (valid_point furnace_setpoint_mc c)))

unfoldable pub check_sensors : ℕ → Device → Device
unfolding sensors_lost
check_sensors now d =
    if is_preparing d.content.run.state && sensors_lost d.content
    then raise_uncommitted now temperature_sensor_invalid
        (default_severity temperature_sensor_invalid) d
    else d

unfoldable pub settle : Option ℕ → ℕ → Operation → Operation
unfolding awaits_run
settle run rev o =
    if awaits_run run o then record o { status = applied; state_revision = rev } else o

-- The `operation_changed` events of the results that begin to be applied.
unfoldable pub announce : ℕ → Option ℕ → List Operation → Device → Device
announce now run [] d = d
announce now run (o ∷ os) d = announce now run os (
    if awaits_run run o
    then emit now (operation_changed o.controller_epoch o.operation_id o.command_seq) d
    else d)

unfoldable pub start_measuring : ℕ → Data → Data
unfolding revision
start_measuring now c = revision (record c {
  run = record c.run { measurement_start = c.latest_sample; state = measuring };
  stage_started = now;
})

unfoldable pub settle_all : Data → Data
unfolding settle
settle_all c = record c { operations = map (settle c.run.run_id c.run.state_revision) c.operations }

unfoldable pub begin : ℕ → Device → Device
begin now d =
    if is_preparing d.content.run.state
    then (let d' = on_content (start_measuring now) (sample now d) in
        emit_run_changed now
          (announce now d'.content.run.run_id d'.content.operations (on_content settle_all d')))
    else d

-- `self.now() - started >= duration`; a start that was never noted raises a `TypeError`.
unfoldable pub waited : ℕ → Option ℕ → ℕ → Result Error Bool
waited now none duration = err lookup_error
waited now (some at) duration = ok (leb (at + duration) now)

unfoldable pub start_cooling : ℕ → Data → Data
unfolding revision
start_cooling now c = revision (record c {
  run = record c.run { state = cooling };
  cooling_started = some now;
  stable_started = none;
})

unfoldable pub purged : ℕ → Result Error Bool → Device → Result Error (Unit {0}) × Device
purged now (err e) d = (err e, d)
purged now (ok false) d = (ok tt, d)
purged now (ok true) d = (ok tt, emit_run_changed now (on_content (start_cooling now) d))

unfoldable pub purge : ℕ → Device → Result Error (Unit {0}) × Device
unfolding waited purged
purge now d =
    if is_disposal d.content.run.state
    then purged now
        (waited now d.content.disposal_started d.content.profile.limits.purge_duration_ms) d
    else (ok tt, d)

unfoldable pub co_zero : Option ℤ → Bool
co_zero none = false
co_zero (some v) = leb_ℤ v (pos 0) && leb_ℤ (pos 0) v

unfoldable pub under : ℕ → Option ℤ → Bool
under limit none = false
under limit (some v) = ltb_ℤ v (pos limit)

unfoldable pub at_least : ℕ → Option ℤ → Bool
at_least limit none = false
at_least limit (some v) = leb_ℤ (pos limit) v

-- The conditions under which a cooling run counts as safe.
unfoldable pub is_safe : Stage → Data → Bool
unfolding co_zero under at_least
is_safe final c =
    under (min c.profile.limits.safe_end_burden_mc final.exit.value) (valid_point burden_mc c)
    && at_least c.profile.limits.minimum_n2_ml_min (valid_point n2_measured_ml_min c)
    && co_zero (valid_point co_measured_ml_min c)
    && not (any alarm_trips c.alarms)

unfoldable pub finish_cooling : Data → Data
unfolding revision
finish_cooling c = revision (record c {
  run = record c.run { safe_boundary = c.latest_sample; safe_complete = true; state = completed };
})

unfoldable pub cool_down : ℕ → Stage → Device → Device
unfolding is_safe
cool_down now final d =
    if not (is_safe final d.content)
    then on_content (λ c. record c { stable_started = none }) d
    else let at = since now d.content.stable_started in
      let d' = on_content (λ c. record c { stable_started = some at }) d in
      if leb (at + final.exit.stable_ms) now
      then emit_run_changed now (on_content finish_cooling d')
      else d'

unfoldable pub with_final : ℕ → Result Error Recipe → Device → Result Error (Unit {0}) × Device
with_final now (err e) d = (err e, d)
with_final now (ok r) d = elim (last? r.stages) [
  | none ↦ (err lookup_error, d)
  | some final ↦ (ok tt, cool_down now final d)
]

unfoldable pub mark_fault : Data → Data
mark_fault c = record c { run = record c.run { state = fault } }

unfoldable pub cool_for : ℕ → Result Error Bool → Device → Result Error (Unit {0}) × Device
cool_for now (err e) d = (err e, d)
cool_for now (ok true) d = (
  ok tt,
  on_content mark_fault
      (raise_uncommitted now recipe_stage_timeout (default_severity recipe_stage_timeout) d),
)
cool_for now (ok false) d = with_final now (running_recipe d.host d.content.active_recipe) d

-- `_cooling`, where the run is cooling.
unfoldable pub cool : ℕ → Device → Result Error (Unit {0}) × Device
unfolding waited cool_for with_final
cool now d =
    if is_cooling d.content.run.state
    then cool_for now
        (waited now d.content.cooling_started d.content.profile.limits.cooling_timeout_ms) d
    else (ok tt, d)

-- `tick` after the check of the lease.
unfoldable pub round : ℕ → Device → Result Error (Unit {0}) × Device
round now d =
    process_stage now (sample now (begin now (check_sensors now d))) ▸ purge now ▸ cool now ▸ commit

-- `tick`
unfoldable pub tick : ℕ → Device → Result Error (Unit {0}) × Device
unfolding round
tick now d = (if lease_ended now d.content then lose_lease now none d else (ok tt, d)) ▸ round now

unfoldable pub latch_drip : Data → Data
latch_drip c = record c { first_drip_latched = true }

-- `first_drip`
unfoldable pub note_first_drip : ℕ → Bool → Device → Result Error (Unit {0}) × Device
unfolding latch_drip
note_first_drip now is_valid d =
    if is_measuring d.content.run.state
    then (let d' = on_content latch_drip (sample now d) in
        commit
          (emit now (first_drip (next_ref d.content) (d'.content.values burden_mc) is_valid) d'))
    else (err (device state_conflict), d)
