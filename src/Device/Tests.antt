-- ===== src/Device/Tests.antt =====
-- Boolean tests on the data types of the simulated device, as state.py writes them.
use smd_web_hmi.Prelude.{ℕ, Bool, true, false, ◌&&◌, Option, none, some, leb, if◌then◌else◌}
use smd_web_hmi.Prelude.Int.{ℤ}
use smd_web_hmi.Device.Model.{
  Phase, idle, preparing, measuring, safe_disposal, cooling, completed, fault, Status, accepted,
  not_found, Severity, trip, AlarmCode, Point, good, bad, Channel, Alarm, Data,
}

abbrev pub is_idle : Phase → Bool
is_idle idle = true
is_idle _ = false

abbrev pub is_preparing : Phase → Bool
is_preparing preparing = true
is_preparing _ = false

abbrev pub is_measuring : Phase → Bool
is_measuring measuring = true
is_measuring _ = false

abbrev pub is_disposal : Phase → Bool
is_disposal safe_disposal = true
is_disposal _ = false

abbrev pub is_cooling : Phase → Bool
is_cooling cooling = true
is_cooling _ = false

abbrev pub is_completed : Phase → Bool
is_completed completed = true
is_completed _ = false

abbrev pub is_fault : Phase → Bool
is_fault fault = true
is_fault _ = false

abbrev pub is_accepted : Status → Bool
is_accepted accepted = true
is_accepted _ = false

abbrev pub is_not_found : Status → Bool
is_not_found not_found = true
is_not_found _ = false

abbrev pub is_trip : Severity → Bool
is_trip trip = true
is_trip _ = false

abbrev pub is_warning_code : AlarmCode → Bool
is_warning_code AlarmCode.measurement_sensor_invalid = true
is_warning_code AlarmCode.log_capacity_low = true
is_warning_code AlarmCode.clock_unsynced = true
is_warning_code _ = false

-- `valid_point`: the value of a good point that is not older than its channel allows.
unfoldable pub valid_value : ℕ → Point → Option ℤ
valid_value limit (good v age) = if leb age limit then some v else none
valid_value limit (bad q v age) = none

unfoldable pub valid_point : Channel → Data → Option ℤ
unfolding valid_value
valid_point name d = valid_value (d.profile.resources.channel_freshness_ms name) (d.values name)

unfoldable pub alarm_trips : Alarm → Bool
alarm_trips a = a.active && is_trip a.severity
