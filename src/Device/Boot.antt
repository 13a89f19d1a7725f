-- ===== src/Device/Boot.antt =====
-- Starting the device: `__init__` and `recover` of backend/app/hostcomm/v2_simulator/state.py.
use smd_web_hmi.Prelude.{
  ℕ, ◌+◌, Bool, ltb, leb, true, false, not, ◌&&◌, none, some, [], map, Result, err, ◌==◌, is_some,
  if◌then◌else◌,
}
use smd_web_hmi.Prelude.Int.{pos}
use smd_web_hmi.Device.Model.{
  device_restarted, safe_disposal, invalid, good, furnace_mc, burden_mc, furnace_setpoint_mc,
  pressure_drop_pa, displacement_um, drip_mass_mg, n2_measured_ml_min, n2_setpoint_ml_min,
  co_measured_ml_min, co_setpoint_ml_min, Measurements, Profile, Operation, unknown, Data, Host,
  Store, Device, Error, value,
}
use smd_web_hmi.Recipe.Model.{positive, uint}
use smd_web_hmi.Device.Tests.{is_accepted}
use smd_web_hmi.Device.Log.{revision, on_content}
use smd_web_hmi.Device.Store.{commit}
use smd_web_hmi.Device.Stop.{safe_values}
use smd_web_hmi.Device.Command.{idle_run}

unfoldable pub initial_values : Measurements
initial_values furnace_mc = good (pos 25000) 0
initial_values burden_mc = good (pos 25000) 0
initial_values furnace_setpoint_mc = good (pos 25000) 0
initial_values other = good (pos 0) 0

-- The data of a device with an empty store; it draws the boot and the log identifier.
unfoldable pub initial_data : ℕ → Profile → ℕ → ℕ → Data
unfolding initial_values idle_run
initial_data device_id profile boot log = record {
  device_id = device_id;
  profile = profile;
  run = idle_run 0 0;
  lease = none;
  boot_id = boot;
  log_id = log;
  record_seq = 0;
  sample_seq = 0;
  event_seq = 0;
  latest_sample = none;
  active_recipe = none;
  highwater = [];
  operations = [];
  alarms = [];
  alarm_revision = 0;
  first_drip_latched = false;
  detector_good = true;
  stage_started = 0;
  stable_started = none;
  disposal_started = none;
  cooling_started = none;
  ramp_initial_mc = none;
  values = initial_values;
  fault_reset_required = false;
}

unfoldable pub forget : Operation → Operation
forget o =
    if is_accepted o.status then record o { status = unknown; reason = device_restarted } else o

unfoldable pub dispose : ℕ → Data → Data
unfolding safe_values
dispose now c =
    if is_some c.run.run_id && not c.run.safe_complete
    then safe_values (record c {
      run = record c.run {
        outcome = if c.run.measurement_complete then c.run.outcome else invalid;
        state = safe_disposal;
      };
      disposal_started = some now;
    })
    else c

unfoldable pub restarted : ℕ → ℕ → Data → Data
unfolding revision forget dispose
restarted now boot c =
    let c' = revision (record c {
      boot_id = boot;
      lease = none;
      sample_seq = 0;
      event_seq = 0;
      latest_sample = none;
    }) in
    dispose now (record c' { operations = map forget c'.operations })

-- `recover`
unfoldable pub recover : ℕ → Device → Result Error (Unit {0}) × Device
unfolding restarted
recover now d =
    commit (on_content (restarted now (d.host.uuid4 d.drawn)) (record d { drawn = d.drawn + 1 }))

unfoldable pub loaded : Host → ℕ → Profile → ℕ → Store → Device
unfolding initial_data
loaded h device_id profile drawn s = elim s.state [
  | some c ↦ record {
    host = h;
    store = s;
    drawn = drawn;
    notifications = [];
    pending_records = [];
    content = c;
  }
  | none ↦ record {
    host = h;
    store = s;
    drawn = drawn + 2;
    notifications = [];
    pending_records = [];
    content = initial_data device_id profile (h.uuid4 drawn) (h.uuid4 (drawn + 1));
  }
]

-- `ProfileSnapshot.model_validate`: the fields of the profile in their ranges.
unfoldable pub profile_valid : Profile → Bool
profile_valid p =
    let l = p.limits in
    let fresh = p.resources.channel_freshness_ms in
    positive l.temperature_max_mc
    && positive l.ramp_max_mc_per_min
    && positive l.n2_max_ml_min
    && positive l.co_max_ml_min
    && uint l.co_min_furnace_mc
    && (ltb 0 l.safe_end_burden_mc && leb l.safe_end_burden_mc 200000)
    && positive l.minimum_n2_ml_min
    && positive l.purge_duration_ms
    && positive l.cooling_timeout_ms
    && (leb 1 p.resources.max_stages && leb p.resources.max_stages 64)
    && (leb 128 p.resources.command_result_slots && leb p.resources.command_result_slots 65536)
    && positive (fresh furnace_mc)
    && positive (fresh burden_mc)
    && positive (fresh furnace_setpoint_mc)
    && positive (fresh pressure_drop_pa)
    && positive (fresh displacement_um)
    && positive (fresh drip_mass_mg)
    && positive (fresh n2_measured_ml_min)
    && positive (fresh n2_setpoint_ml_min)
    && positive (fresh co_measured_ml_min)
    && positive (fresh co_setpoint_ml_min)

-- `__init__` on a store; storage that belongs to another device is refused.
unfoldable pub start : ℕ → Host → ℕ → Profile → ℕ → Store → Result Error (Unit {0}) × Device
unfolding loaded recover profile_valid
start now h device_id profile drawn s =
    let d = loaded h device_id profile drawn s in
    if (d.content.device_id == device_id) && profile_valid d.content.profile
    then recover now d
    else (err value, d)
