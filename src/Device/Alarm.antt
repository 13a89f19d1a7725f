-- ===== src/Device/Alarm.antt =====
-- Alarms of backend/app/hostcomm/v2_simulator/state.py: `raise_alarm` and `alarm_transition`.
use smd_web_hmi.Prelude.{
  ℕ, ◌+◌, Bool, true, false, ◌&&◌, Option, none, some, List, [], ◌∷◌, Result, ok, err, ◌==◌,
  if◌then◌else◌,
}
use smd_web_hmi.Device.Model.{
  aborted, invalid, AlarmCode, lease_lost, Severity, warning, trip, Alarm, Transition, raised,
  cleared, alarm, Data, Device, Error, device, value, state_conflict,
}
use smd_web_hmi.Device.Tests.{is_trip, is_warning_code}
use smd_web_hmi.Device.Log.{revision, on_content, emit}
use smd_web_hmi.Device.Store.{alarm_level_ok, commit}
use smd_web_hmi.Device.Stop.{stop}

unfoldable pub default_severity : AlarmCode → Severity
default_severity code = if is_warning_code code then warning else trip

abbrev is_lease_lost : AlarmCode → Bool
is_lease_lost lease_lost = true
is_lease_lost _ = false

unfoldable pub same_alarm : ℕ → ℕ → Alarm → Bool
same_alarm id seq a = (a.alarm_id == id) && (a.occurrence_seq == seq)

-- `alarms[key] = alarm`
unfoldable pub put_alarm : Alarm → List Alarm → List Alarm
unfolding same_alarm
put_alarm a [] = a ∷ []
put_alarm a (b ∷ bs) =
    if same_alarm a.alarm_id a.occurrence_seq b then a ∷ bs else b ∷ put_alarm a bs

unfoldable pub find_alarm : ℕ → ℕ → List Alarm → Option Alarm
unfolding same_alarm
find_alarm id seq [] = none
find_alarm id seq (a ∷ as') = if same_alarm id seq a then some a else find_alarm id seq as'

-- The occurrence, its event and its revisions.
unfoldable pub occur : ℕ → AlarmCode → Severity → Device → Device
unfolding put_alarm revision emit on_content
occur now code severity d =
    let c = d.content in
    let a : Alarm = record {
      alarm_id = d.host.uuid4 d.drawn;
      occurrence_seq = 1;
      code = code;
      severity = severity;
      active = true;
      acknowledged = false;
      raised_boot_id = c.boot_id;
      raised_event_seq = c.event_seq + 1;
      raised_sample = c.latest_sample;
      raised_uptime_ms = now;
    } in
    emit now (alarm a.alarm_id 1 code raised severity true false c.latest_sample) (
      on_content
        (λ c.
          revision
            (record c { alarms = put_alarm a c.alarms; alarm_revision = c.alarm_revision + 1 }))
        (record d { drawn = d.drawn + 1 }))

unfoldable pub require_reset : Data → Data
require_reset c = record c {
  fault_reset_required = true;
  run = record c.run { fault_revision = c.run.fault_revision + 1 };
}

-- `raise_alarm(code, severity=..., commit=False)` after the check of the level.
unfoldable pub raise_uncommitted : ℕ → AlarmCode → Severity → Device → Device
raise_uncommitted now code severity d =
    if is_trip severity
    then stop now (if is_lease_lost code then aborted else invalid)
        (on_content require_reset (occur now code severity d))
    else occur now code severity d

unfoldable pub chosen : AlarmCode → Option Severity → Severity
unfolding default_severity
chosen code none = default_severity code
chosen code (some s) = s

-- `raise_alarm(code, severity=...)`
unfoldable pub raise_alarm :
    ℕ → AlarmCode → Option Severity → Device → Result Error (Unit {0}) × Device
unfolding chosen alarm_level_ok
raise_alarm now code severity d =
    if alarm_level_ok code (chosen code severity)
    then commit (raise_uncommitted now code (chosen code severity) d)
    else (err value, d)

abbrev is_cleared : Transition → Bool
is_cleared cleared = true
is_cleared _ = false

unfoldable pub transit : Transition → Alarm → Alarm
transit t a = if is_cleared t then record a { active = false } else record a { acknowledged = true }

unfoldable pub change_alarm : ℕ → Transition → Alarm → Device → Device
unfolding put_alarm revision emit on_content transit
change_alarm now t a d =
    let a' = transit t a in
    emit now
      (alarm a'.alarm_id a'.occurrence_seq a'.code t a'.severity a'.active a'.acknowledged
        d.content.latest_sample)
      (on_content
        (λ c.
          revision
            (record c { alarms = put_alarm a' c.alarms; alarm_revision = c.alarm_revision + 1 }))
        d)

-- `alarm_transition(..., commit=False)`
unfoldable pub transition_uncommitted :
    ℕ → ℕ → ℕ → Transition → Device → Result Error (Unit {0}) × Device
unfolding find_alarm
transition_uncommitted now id seq t d = elim (find_alarm id seq d.content.alarms) [
  | none ↦ (err (device state_conflict), d)
  | some a ↦ (ok tt, change_alarm now t a d)
]

-- `alarm_transition`
unfoldable pub alarm_transition : ℕ → ℕ → ℕ → Transition → Device → Result Error (Unit {0}) × Device
unfolding find_alarm
alarm_transition now id seq t d = elim (find_alarm id seq d.content.alarms) [
  | none ↦ (err (device state_conflict), d)
  | some a ↦ commit (change_alarm now t a d)
]
