-- ===== src/Device/Examples.antt =====
-- A device with a recipe, and the theorems on the device at a short history of it.
use smd_web_hmi.Prelude.{◌≡◌, some_injective, true, none, some, [], ◌∷◌, ◌==◌, if◌then◌else◌}
use smd_web_hmi.Recipe.Examples.{recipe}
use smd_web_hmi.Device.Model.{Profile, Host, Device}
use smd_web_hmi.Device.Store.{run_valid, rows_valid, commit, clear_pending, save, insert_rows}
use smd_web_hmi.Device.Log.{on_content}
use mathlib.Core.Path.{subst}
use smd_web_hmi.Device.Tick
use smd_web_hmi.Device.Command.{Command, Session, acquire_lease}
use smd_web_hmi.Device.Trace.{Step, Reach, here, next, fresh, Reach-run_valid, Reach-tick-IsClean}
use smd_web_hmi.Device.Sound.Stages.{IsClean}
use smd_web_hmi.Device.Sound.Restart.{IsNew, IsNewBoot}
use smd_web_hmi.Device.Boot
use smd_web_hmi.Device.Boot.{initial_data}
use smd_web_hmi.Device.Command.{idle_run}
use smd_web_hmi.Device.Execute

-- The bytes 1 are those of the recipe; the third write fails.
abbrev pub bench : Host
bench = record {
  uuid4 = λ n. n;
  load = λ raw. elim raw [ [] ↦ none | x ∷ xs ↦ if x == 1 then some recipe else none ];
  fails = λ n. n == 2;
}

abbrev pub profile : Profile
profile = record {
  profile_digest = 7;
  approved = true;
  limits = record {
    temperature_max_mc = 1650000;
    ramp_max_mc_per_min = 20000;
    n2_max_ml_min = 10000;
    co_max_ml_min = 3000;
    co_min_furnace_mc = 500000;
    safe_end_burden_mc = 200000;
    minimum_n2_ml_min = 5000;
    purge_duration_ms = 60000;
    cooling_timeout_ms = 600000;
  };
  resources = record {
    max_stages = 64;
    command_result_slots = 128;
    channel_freshness_ms = λ name. 3000;
  };
}

abbrev pub booted : Device
booted = fresh 0 bench 1 profile

-- The run that was stored has no boundary.
booted-IsNewBoot : IsNewBoot (booted.host.uuid4 booted.drawn) booted.store
unfolding Boot.start Boot.loaded Boot.profile_valid Boot.recover initial_data idle_run commit
    clear_pending save insert_rows run_valid rows_valid on_content
booted-IsNewBoot c e =
    subst (λ c. IsNew 3 c.run.measurement_start × IsNew 3 c.run.measurement_end) (some_injective e)
      (tt, tt)

-- The device starts again on what it has stored.
abbrev again : Device
again = (Boot.start 30 booted.host 1 profile booted.drawn booted.store).1

abbrev session : Session
session = record { id = 5; controller_id = 6; epoch = 8; is_control = true }

abbrev acquire : Command
acquire = record {
  operation_id = 20;
  controller_epoch = 8;
  command_seq = 1;
  lease_id = none;
  expected_boot_id = 3;
  expected_state_revision = none;
  request_digest = 30;
  request = acquire_lease;
}

abbrev owned : Device
owned = (Execute.command 40 session acquire none again).1

abbrev owning : Reach booted owned
owning =
    next (next here (Step.restart 30 1 profile booted-IsNewBoot))
      (Step.command 40 session acquire none)

Reach-run_valid_example : run_valid owned.content.run ≡ true
Reach-run_valid_example = Reach-run_valid 0 bench 1 profile owning

Reach-tick-IsClean_example : IsClean (Tick.tick 50 owned).0 (Tick.tick 50 owned).1
Reach-tick-IsClean_example = Reach-tick-IsClean 0 bench 1 profile 50 owning
