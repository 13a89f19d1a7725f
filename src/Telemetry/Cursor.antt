-- ===== src/Telemetry/Cursor.antt =====
-- `advance_cursor` and `continuity_proven` of backend/app/services/telemetry_integrity.py. A snapshot
-- is what the function reads of it; boot identifiers are numbers, temperatures thousandths of a
-- degree, and time stamps the instants that they denote.
use smd_web_hmi.Prelude.{
  ℕ, ◌+◌, Bool, true, false, not, ◌&&◌, ◌||◌, Option, none, some, List, [], ◌∷◌, ◌++◌, leb, ltb,
  ◌==◌, is_some, if◌then◌else◌,
}
use smd_web_hmi.Prelude.Int.{ℤ, pos, leb_ℤ}

-- A value of the persisted cursor: missing, of the wrong type or sign, or as it was written.
pub data Entry {ℓ} (A : Type ℓ) : Type ℓ where
  absent alien : Entry A
  present : A → Entry A

pub data Issue : Type 0 where
  invalid_persisted_cursor callback_gap persistence_gap invalid_telemetry_identity : Issue
  invalid_device_timestamp device_restarted sequence_duplicate sequence_reordered : Issue
  sequence_gap device_clock_rollback : Issue

pub record Cursor : Type 0 where
  pub verified_samples : Entry ℕ
  pub sequence : Entry ℕ
  pub callback_count : Entry ℕ
  pub gap_seen : Entry Bool
  pub unsupported_seen : Entry Bool
  pub measurement_start_observed : Entry Bool
  pub boot_id : Entry ℕ
  pub device_timestamp : Option ℕ

-- `boot_id` is `none` if it is no string of 1 to 128 characters, or blank; `sequence` if it is no
-- integer from 0 on; `device_time` if it is no time stamp with a zone.
pub record Snapshot : Type 0 where
  pub dropped_callbacks : Option ℕ
  pub persistence_failures : Bool
  pub telemetry_sequence_v1 : Bool
  pub boot_id : Option ℕ
  pub sequence : Option ℕ
  pub device_time : Option ℕ
  pub furnace_mc : Option ℤ
  pub displacement_valid : Bool
  pub displacement_um : Option ℤ

unfoldable pub is_alien {ℓ} : {A : Type ℓ} → Entry A → Bool
is_alien alien = true
is_alien _ = false

unfoldable pub malformed : Cursor → Bool
unfolding is_alien
malformed c =
    is_alien c.verified_samples
    || is_alien c.sequence
    || is_alien c.callback_count
    || is_alien c.gap_seen
    || is_alien c.unsupported_seen
    || is_alien c.measurement_start_observed

-- `{}`
abbrev pub empty_cursor : Cursor
empty_cursor = record {
  verified_samples = absent;
  sequence = absent;
  callback_count = absent;
  gap_seen = absent;
  unsupported_seen = absent;
  measurement_start_observed = absent;
  boot_id = absent;
  device_timestamp = none;
}

-- `{"gap_seen": True}`
unfoldable pub reset_cursor : Cursor
reset_cursor = record empty_cursor { gap_seen = present true }

unfoldable pub truthy : Entry Bool → Bool
truthy absent = false
truthy alien = true
truthy (present b) = b

unfoldable pub check_cursor : Cursor → Cursor × List Issue
unfolding malformed reset_cursor
check_cursor c = if malformed c then (reset_cursor, invalid_persisted_cursor ∷ []) else (c, [])

unfoldable pub lost_callbacks : Entry ℕ → ℕ → List Issue
lost_callbacks (present previous) callbacks =
    if ltb previous callbacks then callback_gap ∷ [] else []
lost_callbacks _ callbacks = []

unfoldable pub count_callbacks : Option ℕ → Cursor × List Issue → Cursor × List Issue
unfolding lost_callbacks
count_callbacks none (c, issues) = (c, issues)
count_callbacks (some callbacks) (c, issues) = (
  record c { callback_count = present callbacks },
  issues ++ lost_callbacks c.callback_count callbacks,
)

unfoldable pub persistence : Bool → List Issue
persistence failures = if failures then persistence_gap ∷ [] else []

-- The cursor and the issues before the capability is looked at.
unfoldable pub received : Cursor → Snapshot → Cursor × List Issue
unfolding check_cursor count_callbacks persistence
received c s =
    let (current, issues) = count_callbacks s.dropped_callbacks (check_cursor c) in
    (current, issues ++ persistence s.persistence_failures)

unfoldable pub has_issues : List Issue → Bool
has_issues [] = false
has_issues _ = true

-- `current["gap_seen"] = bool(current.get("gap_seen") or issues)`
unfoldable pub seal : Cursor → List Issue → Cursor × List Issue
unfolding truthy has_issues
seal c issues = (record c { gap_seen = present (truthy c.gap_seen || has_issues issues) }, issues)

unfoldable pub unsupported : Cursor → List Issue → Cursor × List Issue
unfolding seal
unsupported c issues = seal (record c { unsupported_seen = present true }) issues

-- The boot and the sequence number, if both are valid, the number below 2 ^ 64.
unfoldable pub identity : Option ℕ → Option ℕ → Option (ℕ × ℕ)
identity (some boot) (some seq) = if ltb seq 18446744073709551616 then some (boot, seq) else none
identity _ _ = none

unfoldable pub unidentified : Option (ℕ × ℕ) → Option ℕ → List Issue
unidentified none none = invalid_telemetry_identity ∷ invalid_device_timestamp ∷ []
unidentified none (some time) = invalid_telemetry_identity ∷ []
unidentified (some source) none = invalid_device_timestamp ∷ []
unidentified (some source) (some time) = []

unfoldable pub order_issues : Entry ℕ → ℕ → List Issue
order_issues (present old) seq =
    if seq == old
    then sequence_duplicate ∷ []
    else (if ltb seq old
        then sequence_reordered ∷ []
        else (if ltb (old + 1) seq then sequence_gap ∷ [] else []))
order_issues _ seq = invalid_persisted_cursor ∷ []

unfoldable pub boot_issues : Entry ℕ → Entry ℕ → ℕ → ℕ → List Issue
unfolding order_issues
boot_issues absent old_seq boot seq = []
boot_issues alien old_seq boot seq = device_restarted ∷ []
boot_issues (present old) old_seq boot seq =
    if boot == old then order_issues old_seq seq else device_restarted ∷ []

unfoldable pub clock_issues : Option ℕ → ℕ → List Issue
clock_issues none time = []
clock_issues (some previous) time = if ltb time previous then device_clock_rollback ∷ [] else []

-- A duplicate or reordered sample leaves the position where it is.
unfoldable pub keeps_position : List Issue → Bool
keeps_position [] = false
keeps_position (sequence_duplicate ∷ issues) = true
keeps_position (sequence_reordered ∷ issues) = true
keeps_position (_ ∷ issues) = keeps_position issues

unfoldable pub move_position : List Issue → ℕ → ℕ → ℕ → Cursor → Cursor
unfolding keeps_position
move_position issues boot seq time c =
    if keeps_position issues
    then c
    else record c { boot_id = present boot; sequence = present seq; device_timestamp = some time }

unfoldable pub at_most_600 : Option ℤ → Bool
at_most_600 none = false
at_most_600 (some furnace) = leb_ℤ furnace (pos 600000)

unfoldable pub starts_measuring : Snapshot → Bool
unfolding at_most_600
starts_measuring s = at_most_600 s.furnace_mc && s.displacement_valid && is_some s.displacement_um

unfoldable pub observe_start : Snapshot → Cursor → Cursor
unfolding starts_measuring
observe_start s c =
    if starts_measuring s then record c { measurement_start_observed = present true } else c

unfoldable pub count_of : Entry ℕ → ℕ
count_of (present n) = n
count_of _ = 0

unfoldable pub verify : Snapshot → ℕ → ℕ → ℕ → Cursor → List Issue → Cursor × List Issue
unfolding boot_issues clock_issues move_position observe_start count_of seal
verify s boot seq time c issues =
    let all =
      issues
      ++ (boot_issues c.boot_id c.sequence boot seq ++ clock_issues c.device_timestamp time) in
    let moved = observe_start s (move_position all boot seq time c) in
    seal (record moved { verified_samples = present (count_of moved.verified_samples + 1) }) all

unfoldable pub identify :
    Snapshot → Option (ℕ × ℕ) → Option ℕ → Cursor × List Issue → Cursor × List Issue
unfolding unidentified verify
identify s (some (boot, seq)) (some time) (c, issues) = verify s boot seq time c issues
identify s source time (c, issues) =
    (record c { gap_seen = present true }, issues ++ unidentified source time)

unfoldable pub sequenced : Snapshot → Cursor × List Issue → Cursor × List Issue
unfolding identify unsupported identity
sequenced s (c, issues) =
    if s.telemetry_sequence_v1
    then identify s (identity s.boot_id s.sequence) s.device_time (c, issues)
    else unsupported c issues

unfoldable pub advance_cursor : Cursor → Snapshot → Cursor × List Issue
unfolding received sequenced
advance_cursor c s = sequenced s (received c s)

unfoldable pub at_least_two : Entry ℕ → Bool
at_least_two (present n) = leb 2 n
at_least_two _ = false

unfoldable pub is_present_entry {ℓ} : {A : Type ℓ} → Entry A → Bool
is_present_entry (present _) = true
is_present_entry _ = false

unfoldable pub is_true : Entry Bool → Bool
is_true (present b) = b
is_true _ = false

-- `cursor.get(key, False) is False`
unfoldable pub is_false : Entry Bool → Bool
is_false absent = true
is_false alien = false
is_false (present b) = not b

unfoldable pub continuity_proven : Cursor → Bool
unfolding at_least_two is_present_entry is_true is_false
continuity_proven c =
    is_true c.measurement_start_observed
    && at_least_two c.verified_samples
    && is_present_entry c.boot_id
    && is_present_entry c.sequence
    && is_false c.gap_seen
    && is_false c.unsupported_seen
