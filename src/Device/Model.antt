-- ===== src/Device/Model.antt =====
-- The state of the simulated device: `DeviceState.data` of
-- backend/app/hostcomm/v2_simulator/state.py, the tables of storage.py, and the models of
-- backend/app/hostcomm/v2_contract/messages.py that they hold. Identifiers and digests are the
-- numbers that they spell, and so are the decimal strings of the wire (uint64).
use smd_web_hmi.Prelude.{ℕ, Bool, Option, List}
use smd_web_hmi.Prelude.Int.{ℤ}
use smd_web_hmi.Recipe.Model.{Recipe}

-- `DeviceError.code`, and the reasons of operation results.
pub data Reason : Type 0 where
  accepted_ok permission_denied operation_conflict boot_mismatch lease_required state_conflict busy
        profile_unapproved recipe_invalid profile_mismatch storage_unavailable result_expired
        not_found device_restarted stop_latched :
      Reason

-- What a method may raise: a `DeviceError`, `StorageUnavailable`, a pydantic `ValueError`, or the
-- `TypeError`, `KeyError` or `IndexError` of a lookup that finds nothing.
pub data Error : Type 0 where
  device : Reason → Error
  storage value lookup_error : Error

pub data Phase : Type 0 where
  booting idle preparing measuring safe_disposal cooling completed fault maintenance : Phase

pub data Outcome : Type 0 where
  pending valid_candidate aborted invalid : Outcome

pub record SampleRef : Type 0 where
  pub boot_id : ℕ
  pub sample_seq : ℕ

-- `RunStatus`
pub record Run : Type 0 where
  pub run_id : Option ℕ
  pub state : Phase
  pub state_revision : ℕ
  pub outcome : Outcome
  pub recipe_digest : Option ℕ
  pub safety_profile_digest : Option ℕ
  pub stage_index : Option ℕ
  pub measurement_complete : Bool
  pub safe_complete : Bool
  pub measurement_start : Option SampleRef
  pub measurement_end : Option SampleRef
  pub safe_boundary : Option SampleRef
  pub fault_revision : ℕ

pub data BadQuality : Type 0 where
  invalid stale unavailable uncalibrated : BadQuality

-- `Point`: a good point has a value, as its validator demands; then comes the age in ms.
pub data Point : Type 0 where
  good : ℤ → ℕ → Point
  bad : BadQuality → Option ℤ → ℕ → Point

pub data Channel : Type 0 where
  furnace_mc burden_mc furnace_setpoint_mc pressure_drop_pa displacement_um drip_mass_mg
        n2_measured_ml_min n2_setpoint_ml_min co_measured_ml_min co_setpoint_ml_min :
      Channel

-- `Measurements` and `ChannelFreshness`, by channel name.
abbrev pub Measurements : Type 0
Measurements = Channel → Point

pub record Limits : Type 0 where
  pub temperature_max_mc : ℕ
  pub ramp_max_mc_per_min : ℕ
  pub n2_max_ml_min : ℕ
  pub co_max_ml_min : ℕ
  pub co_min_furnace_mc : ℕ
  pub safe_end_burden_mc : ℕ
  pub minimum_n2_ml_min : ℕ
  pub purge_duration_ms : ℕ
  pub cooling_timeout_ms : ℕ

pub record Resources : Type 0 where
  pub max_stages : ℕ
  pub command_result_slots : ℕ
  pub channel_freshness_ms : Channel → ℕ

-- The fields of `ProfileSnapshot` that the device reads.
pub record Profile : Type 0 where
  pub profile_digest : ℕ
  pub approved : Bool
  pub limits : Limits
  pub resources : Resources

pub record Lease : Type 0 where
  pub id : ℕ
  pub session_id : ℕ
  pub controller_id : ℕ
  pub expires : ℕ

pub data Status : Type 0 where
  accepted applied rejected interrupted unknown result_expired not_found : Status

-- `OperationResult`
pub record Operation : Type 0 where
  pub controller_epoch : ℕ
  pub operation_id : ℕ
  pub command_seq : ℕ
  pub result_boot_id : Option ℕ
  pub request_digest : Option ℕ
  pub status : Status
  pub reason : Reason
  pub state_revision : ℕ
  pub run_id : Option ℕ
  pub lease_id : Option ℕ
  pub lease_expires_uptime_ms : Option ℕ

pub data AlarmCode : Type 0 where
  emergency_stop co_leak exhaust_lost furnace_overtemperature burden_overtemperature
        temperature_sensor_invalid measurement_sensor_invalid n2_mfc_fault co_mfc_fault
        gas_supply_lost actuator_feedback_fault lease_lost storage_unavailable log_capacity_low
        log_capacity_exhausted recipe_stage_timeout clock_unsynced engineering_profile_invalid :
      AlarmCode

pub data Severity : Type 0 where
  info warning trip : Severity

-- `AlarmOccurrence`
pub record Alarm : Type 0 where
  pub alarm_id : ℕ
  pub occurrence_seq : ℕ
  pub code : AlarmCode
  pub severity : Severity
  pub active : Bool
  pub acknowledged : Bool
  pub raised_boot_id : ℕ
  pub raised_event_seq : ℕ
  pub raised_sample : Option SampleRef
  pub raised_uptime_ms : ℕ

pub data Transition : Type 0 where
  raised acknowledged cleared : Transition

-- The `kind` of an event with the fields that it adds.
pub data EventKind : Type 0 where
  run_changed : Run → EventKind
  alarm : ℕ → ℕ → AlarmCode → Transition → Severity → Bool → Bool → Option SampleRef → EventKind
  operation_changed : ℕ → ℕ → ℕ → EventKind
  first_drip : SampleRef → Point → Bool → EventKind

pub record Event : Type 0 where
  pub event_id : ℕ
  pub event_seq : ℕ
  pub run_id : Option ℕ
  pub event_uptime_ms : ℕ
  pub kind : EventKind

pub record Telemetry : Type 0 where
  pub sample : SampleRef
  pub sample_uptime_ms : ℕ
  pub run_id : Option ℕ
  pub state_revision : ℕ
  pub values : Measurements
  pub first_drip_latched : Bool
  pub detector_good : Bool

pub data Payload : Type 0 where
  telemetry : Telemetry → Payload
  event : Event → Payload

-- A row of the source log: a sample, or an event with the boot and the uptime of its writing.
pub record LogRow : Type 0 where
  pub log_id : ℕ
  pub record_seq : ℕ
  pub payload : Payload
  pub written : Option (ℕ × ℕ)

pub record ActiveRecipe : Type 0 where
  pub digest : ℕ
  pub raw : List ℕ

-- `self.data`
pub record Data : Type 0 where
  pub device_id : ℕ
  pub profile : Profile
  pub run : Run
  pub lease : Option Lease
  pub boot_id : ℕ
  pub log_id : ℕ
  pub record_seq : ℕ
  pub sample_seq : ℕ
  pub event_seq : ℕ
  pub latest_sample : Option SampleRef
  pub active_recipe : Option ActiveRecipe
  pub highwater : List (ℕ × ℕ)
  pub operations : List Operation
  pub alarms : List Alarm
  pub alarm_revision : ℕ
  pub first_drip_latched : Bool
  pub detector_good : Bool
  pub stage_started : ℕ
  pub stable_started : Option ℕ
  pub disposal_started : Option ℕ
  pub cooling_started : Option ℕ
  pub ramp_initial_mc : Option ℤ
  pub values : Measurements
  pub fault_reset_required : Bool

-- What the device is given from outside. `uuid4` is its n-th draw; `load` stands for the JSON
-- decoding and the canonical re-encoding of recipe bytes; `fails` tells which of the database
-- writes fail.
pub record Host : Type 0 where
  pub uuid4 : ℕ → ℕ
  pub load : List ℕ → Option Recipe
  pub fails : ℕ → Bool

-- The tables of storage.py, with the count of writes attempted.
pub record Store : Type 0 where
  pub state : Option Data
  pub records : List LogRow
  pub writes : ℕ

-- `DeviceState`, with the count of identifiers drawn.
pub record Device : Type 0 where
  pub host : Host
  pub store : Store
  pub drawn : ℕ
  pub notifications : List Payload
  pub pending_records : List LogRow
  pub content : Data
