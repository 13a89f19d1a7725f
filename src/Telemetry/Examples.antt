-- ===== src/Telemetry/Examples.antt =====
-- The theorem on telemetry at two samples of one boot.
use smd_web_hmi.Prelude.{ℕ, ◌+◌, ◌≤◌, ◌≡◌, refl, true, false, some, [], ◌∷◌, length}
use smd_web_hmi.Prelude.Int.{pos}
use smd_web_hmi.Telemetry.Cursor.{
  Snapshot, empty_cursor, advance_cursor, continuity_proven, received, sequenced, check_cursor,
  count_callbacks, persistence, identify, identity, verify, boot_issues, order_issues, clock_issues,
  move_position, keeps_position, observe_start, starts_measuring, at_most_600, count_of, seal,
  truthy, has_issues, malformed, is_alien, lost_callbacks, at_least_two, is_present_entry, is_true,
  is_false,
}
use smd_web_hmi.Telemetry.Continuity.{track, IsContinuous, continuity_proven-IsContinuous}

abbrev sample : ℕ → Snapshot
sample n = record {
  dropped_callbacks = some 0;
  persistence_failures = false;
  telemetry_sequence_v1 = true;
  boot_id = some 9;
  sequence = some (40 + n);
  device_time = some (1000 + n);
  furnace_mc = some (pos 25000);
  displacement_valid = true;
  displacement_um = some (pos 12);
}

proven : continuity_proven (track (sample 0 ∷ sample 1 ∷ []) empty_cursor) ≡ true
unfolding track advance_cursor continuity_proven received sequenced check_cursor count_callbacks
    persistence identify identity verify boot_issues order_issues clock_issues move_position
    keeps_position observe_start starts_measuring at_most_600 count_of seal truthy has_issues
    malformed is_alien lost_callbacks at_least_two is_present_entry is_true is_false
proven = refl

continuity_proven-IsContinuous_example :
    IsContinuous (sample 0 ∷ sample 1 ∷ []) × (2 ≤ length (sample 0 ∷ sample 1 ∷ []))
continuity_proven-IsContinuous_example =
    continuity_proven-IsContinuous (sample 0 ∷ sample 1 ∷ []) proven
