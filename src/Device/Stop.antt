-- ===== src/Device/Stop.antt =====
-- The protective stop of backend/app/hostcomm/v2_simulator/state.py: `_safe_values` and `stop`.
use smd_web_hmi.Prelude.{ℕ, Bool, not, ◌&&◌, ◌||◌, Option, some, map, ◌==?◌, is_some, if◌then◌else◌}
use smd_web_hmi.Prelude.Int.{pos}
use smd_web_hmi.Device.Model.{
  safe_disposal, Outcome, good, co_setpoint_ml_min, co_measured_ml_min, n2_setpoint_ml_min,
  n2_measured_ml_min, Measurements, Operation, interrupted, stop_latched, Data, Device,
}
use smd_web_hmi.Device.Tests.{is_preparing, is_measuring, is_accepted}
use smd_web_hmi.Device.Log.{revision, on_content, sample, emit_run_changed}

unfoldable pub safe_points : ℕ → Measurements → Measurements
safe_points n2 values co_setpoint_ml_min = good (pos 0) 0
safe_points n2 values co_measured_ml_min = good (pos 0) 0
safe_points n2 values n2_setpoint_ml_min = good (pos n2) 0
safe_points n2 values n2_measured_ml_min = good (pos n2) 0
safe_points n2 values other = values other

-- `_safe_values`
unfoldable pub safe_values : Data → Data
safe_values d = record d { values = safe_points d.profile.limits.minimum_n2_ml_min d.values }

-- Which results a stop or a start of measuring settles.
unfoldable pub awaits_run : Option ℕ → Operation → Bool
awaits_run run o = is_accepted o.status && (o.run_id ==? run)

unfoldable pub interrupt : Option ℕ → Operation → Operation
unfolding awaits_run
interrupt run o =
    if awaits_run run o then record o { status = interrupted; reason = stop_latched } else o

-- `run["measurement_end"] = self.sample()` of a stop while measuring
unfoldable pub end_sample : ℕ → Device → Device
end_sample now d =
    if is_measuring d.content.run.state
    then on_content (λ c. record c { run = record c.run { measurement_end = c.latest_sample } })
        (sample now d)
    else d

unfoldable pub latch : ℕ → Outcome → Data → Data
unfolding revision interrupt
latch now outcome d =
    let d' = revision (record d {
      run = record d.run {
        outcome = if d.run.measurement_complete then d.run.outcome else outcome;
        state = safe_disposal;
      };
      disposal_started = some now;
    }) in
    record d' { operations = map (interrupt d.run.run_id) d.operations }

-- `stop`
unfoldable pub stop : ℕ → Outcome → Device → Device
stop now outcome d =
    let run = d.content.run in
    if not (is_some run.run_id) || run.safe_complete
    then d
    else on_content safe_values (
        if is_preparing run.state || is_measuring run.state
        then emit_run_changed now (on_content (latch now outcome) (end_sample now d))
        else d)
