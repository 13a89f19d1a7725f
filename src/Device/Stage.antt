-- ===== src/Device/Stage.antt =====
-- One round of a measuring run: `finish_measurement` and `_process_stage` of
-- backend/app/hostcomm/v2_simulator/state.py. Uptime does not run backwards within a boot, so the
-- time since the start of the stage is a natural number.
use smd_web_hmi.Prelude.{
  ℕ, ◌+◌, ◌-◌, ◌*◌, ◌/◌, Bool, true, false, not, ◌&&◌, Option, none, some, List, Result, ok, err,
  ltb, leb, ◌==◌, is_some, get_elem?, if◌then◌else◌,
}
use smd_web_hmi.Prelude.Int.{ℤ, pos, ◌+ℤ◌, ◌-ℤ◌, ltb_ℤ, leb_ℤ, min_ℤ, max_ℤ}
use smd_web_hmi.Recipe.Model.{
  Recipe, Stage, Signal, elapsed_ms, HeaterMode, off, ramp, hold, is_gte, is_cool, ExitCondition,
  validate,
}
use smd_web_hmi.Device.Model.{
  safe_disposal, valid_candidate, Point, good, bad, furnace_mc, burden_mc, furnace_setpoint_mc,
  n2_setpoint_ml_min, n2_measured_ml_min, co_setpoint_ml_min, co_measured_ml_min, Measurements,
  recipe_stage_timeout, temperature_sensor_invalid, ActiveRecipe, Data, Host, Device, Error, device,
  state_conflict, value, lookup_error,
}
use smd_web_hmi.Device.Tests.{is_measuring, valid_point}
use smd_web_hmi.Device.Log.{revision, on_content, sample, emit_run_changed}
use smd_web_hmi.Device.Store.{commit}
use smd_web_hmi.Device.Stop.{safe_values}
use smd_web_hmi.Device.Alarm.{raise_uncommitted, default_severity}

-- `validate_recipe_bytes` of backend/app/hostcomm/v2_contract/codec.py.
unfoldable pub validate_recipe_bytes : Host → List ℕ → Result Error Recipe
validate_recipe_bytes h raw = elim (h.load raw) [
  | none ↦ err value
  | some r ↦ if is_some (validate r) then err value else ok r
]

-- The recipe behind `self.data["active_recipe"]["raw"]`.
unfoldable pub running_recipe : Host → Option ActiveRecipe → Result Error Recipe
running_recipe h none = err lookup_error
running_recipe h (some a) = validate_recipe_bytes h a.raw

-- `recipe.stages[i]`
unfoldable pub stage_at : Recipe → Option ℕ → Result Error Stage
stage_at r none = err lookup_error
stage_at r (some i) = elim (get_elem? r.stages i) [ none ↦ err lookup_error | some s ↦ ok s ]

unfoldable pub complete_run : ℕ → Data → Data
unfolding revision safe_values
complete_run now c = revision (
    safe_values (record c {
      run = record c.run {
        measurement_end = c.latest_sample;
        measurement_complete = true;
        outcome = valid_candidate;
        state = safe_disposal;
      };
      disposal_started = some now;
    }))

-- `finish_measurement`
unfoldable pub finish_measurement : ℕ → Device → Result Error (Unit {0}) × Device
finish_measurement now d =
    if is_measuring d.content.run.state
    then commit (emit_run_changed now (on_content (complete_run now) (sample now d)))
    else (err (device state_conflict), d)

-- `point["value"] = v`
unfoldable pub set_value : ℤ → Point → Point
set_value v (good _ age) = good v age
set_value v (bad q _ age) = bad q (some v) age

unfoldable pub set_setpoint : ℤ → Measurements → Measurements
set_setpoint v values furnace_setpoint_mc = set_value v (values furnace_setpoint_mc)
set_setpoint v values other = values other

unfoldable pub set_gases : ℕ → ℕ → Measurements → Measurements
set_gases n2 co values n2_setpoint_ml_min = set_value (pos n2) (values n2_setpoint_ml_min)
set_gases n2 co values n2_measured_ml_min = set_value (pos n2) (values n2_measured_ml_min)
set_gases n2 co values co_setpoint_ml_min = set_value (pos co) (values co_setpoint_ml_min)
set_gases n2 co values co_measured_ml_min = set_value (pos co) (values co_measured_ml_min)
set_gases n2 co values other = values other

-- The setpoint of a ramp that began at `start`.
unfoldable pub ramp_value : ℤ → ℕ → ℤ → ℤ
unfolding ◌+ℤ◌ ◌-ℤ◌ min_ℤ max_ℤ
ramp_value target delta start =
    if leb_ℤ start target
    then min_ℤ target (start +ℤ pos delta)
    else max_ℤ target (start -ℤ pos delta)

-- What the heater branch leads to: new data, the alarm of a lost setpoint, or an exception.
pub data Heated : Type 0 where
  heated : Data → Heated
  setpoint_lost : Heated
  no_target : Heated

unfoldable pub heat_hold : Option ℕ → Data → Heated
unfolding set_setpoint
heat_hold none c = no_target
heat_hold (some target) c = heated (record c { values = set_setpoint (pos target) c.values })

unfoldable pub ramp_from : Option ℤ → ℤ → ℤ
ramp_from none target = target
ramp_from (some start) target = start

unfoldable pub heat_ramp : Option ℕ → Option ℕ → ℕ → Option ℤ → Data → Heated
unfolding set_setpoint ramp_from
heat_ramp target rate elapsed none c = setpoint_lost
heat_ramp none rate elapsed (some at) c = no_target
heat_ramp (some target) none elapsed (some at) c = no_target
heat_ramp (some target) (some rate) elapsed (some at) c =
    let start = ramp_from c.ramp_initial_mc at in
    heated (record c {
      ramp_initial_mc = some start;
      values = set_setpoint (ramp_value (pos target) (rate * elapsed / 60000) start) c.values;
    })

unfoldable pub heat_mode : HeaterMode → Stage → ℕ → Data → Heated
unfolding heat_hold heat_ramp
heat_mode off stage elapsed c = heated c
heat_mode hold stage elapsed c = heat_hold stage.target_mc c
heat_mode ramp stage elapsed c =
    heat_ramp stage.target_mc stage.rate_mc_per_min elapsed (valid_point furnace_setpoint_mc c) c

-- Whether a CO request meets a furnace that is too cold or unknown.
unfoldable pub co_unsafe : Stage → Data → Bool
co_unsafe stage c = not (stage.co_ml_min == 0) && elim (valid_point furnace_mc c) [
  | none ↦ true
  | some t ↦ ltb_ℤ t (pos c.profile.limits.co_min_furnace_mc)
]

unfoldable pub observe : Signal → ℕ → Data → Option ℤ
observe elapsed_ms elapsed c = some (pos elapsed)
observe Signal.furnace_mc elapsed c = valid_point furnace_mc c
observe Signal.burden_mc elapsed c = valid_point burden_mc c

unfoldable pub matches : ExitCondition → Option ℤ → Bool
matches e none = false
matches e (some v) = if is_gte e.op then leb_ℤ (pos e.value) v else ltb_ℤ v (pos e.value)

unfoldable pub since : ℕ → Option ℕ → ℕ
since now none = now
since now (some at) = at

-- `recipe.stages[self.run["stage_index"]]` has been reached.
unfoldable pub advance : ℕ → Result Error Stage → Device → Result Error (Unit {0}) × Device
unfolding revision
advance now (err e) d = (err e, d)
advance now (ok next) d =
    if is_cool next.kind
    then finish_measurement now d
    else (ok tt, emit_run_changed now (on_content revision d))

unfoldable pub next_index : Option ℕ → Option ℕ
next_index none = none
next_index (some i) = some (i + 1)

unfoldable pub enter_next : ℕ → Data → Data
unfolding next_index
enter_next now c = record c {
  run = record c.run { stage_index = next_index c.run.stage_index };
  stage_started = now;
  stable_started = none;
  ramp_initial_mc = none;
}

-- The exit condition: the rest of `_process_stage` after the gases are set.
unfoldable pub try_exit : ℕ → Recipe → Stage → ℕ → Device → Result Error (Unit {0}) × Device
unfolding since stage_at enter_next
try_exit now recipe stage elapsed d =
    let c = d.content in
    if not (matches stage.exit (observe stage.exit.source elapsed c))
    then (ok tt, on_content (λ c. record c { stable_started = none }) d)
    else let at = since now c.stable_started in
      if ltb now (at + stage.exit.stable_ms)
      then (ok tt, on_content (λ c. record c { stable_started = some at }) d)
      else let d' = on_content (enter_next now) d in
        advance now (stage_at recipe d'.content.run.stage_index) d'

unfoldable pub continue_stage :
    ℕ → Recipe → Stage → ℕ → Heated → Device → Result Error (Unit {0}) × Device
continue_stage now recipe stage elapsed no_target d = (err value, d)
continue_stage now recipe stage elapsed setpoint_lost d = (
  ok tt,
  raise_uncommitted now temperature_sensor_invalid (default_severity temperature_sensor_invalid) d,
)
continue_stage now recipe stage elapsed (heated c) d = try_exit now recipe stage elapsed (record d {
  content = record c { values = set_gases stage.n2_ml_min stage.co_ml_min c.values };
})

unfoldable pub run_stage : ℕ → Recipe → Stage → Device → Result Error (Unit {0}) × Device
run_stage now recipe stage d =
    let elapsed : ℕ = now - d.content.stage_started in
    if is_cool stage.kind
    then finish_measurement now d
    else if leb stage.timeout_ms elapsed
    then (
      ok tt,
      raise_uncommitted now recipe_stage_timeout (default_severity recipe_stage_timeout) d,
    )
    else if co_unsafe stage d.content
    then (
      ok tt,
      raise_uncommitted now temperature_sensor_invalid (default_severity temperature_sensor_invalid)
          d,
    )
    else continue_stage now recipe stage elapsed
        (heat_mode stage.heater_mode stage elapsed d.content) d

unfoldable pub with_stage :
    ℕ → Recipe → Result Error Stage → Device → Result Error (Unit {0}) × Device
with_stage now recipe (err e) d = (err e, d)
with_stage now recipe (ok stage) d = run_stage now recipe stage d

unfoldable pub with_recipe : ℕ → Result Error Recipe → Device → Result Error (Unit {0}) × Device
unfolding with_stage stage_at
with_recipe now (err e) d = (err e, d)
with_recipe now (ok recipe) d = with_stage now recipe (stage_at recipe d.content.run.stage_index) d

-- `_process_stage`
unfoldable pub process_stage : ℕ → Device → Result Error (Unit {0}) × Device
unfolding with_recipe running_recipe validate_recipe_bytes
process_stage now d =
    if is_measuring d.content.run.state
    then with_recipe now (running_recipe d.host d.content.active_recipe) d
    else (ok tt, d)
