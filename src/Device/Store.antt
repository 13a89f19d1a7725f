-- ===== src/Device/Store.antt =====
-- Committing: `commit` of backend/app/hostcomm/v2_simulator/state.py with `save` of storage.py, and
-- the validators of `RunStatus` and of the log records in backend/app/hostcomm/v2_contract/messages.py.
use smd_web_hmi.Prelude.{
  ℕ, ◌+◌, Bool, true, false, not, ◌&&◌, ◌||◌, Option, none, some, List, [], ◌∷◌, ◌++◌, Result, ok,
  err, leb, ◌==◌, ◌==?◌, is_some, any, if◌then◌else◌,
}
use smd_web_hmi.Device.Model.{
  Outcome, valid_candidate, SampleRef, Run, LogRow, Data, Store, Device, Error, storage, value,
  Severity, info, AlarmCode, Transition, raised, cleared, acknowledged, Point, good, bad, EventKind,
  run_changed, alarm, operation_changed, first_drip, telemetry, event,
}
use smd_web_hmi.Device.Tests.{
  is_preparing, is_measuring, is_disposal, is_cooling, is_completed, is_trip, is_warning_code,
}

unfoldable pub is_candidate : Outcome → Bool
is_candidate valid_candidate = true
is_candidate _ = false

-- Of two boundaries in the same boot the earlier has the smaller sequence.
unfoldable pub in_order : Option SampleRef → Option SampleRef → Bool
in_order none b = true
in_order (some a) none = true
in_order (some a) (some b) = not (a.boot_id == b.boot_id) || leb a.sample_seq b.sample_seq

-- The loop over the boundaries: each is held against the last one of its boot.
unfoldable pub boundaries_ordered : Run → Bool
unfolding in_order
boundaries_ordered r =
    in_order r.measurement_start r.measurement_end
    && in_order r.measurement_end r.safe_boundary
    && in_order r.measurement_start r.safe_boundary

unfoldable pub index_in_range : Option ℕ → Bool
index_in_range none = true
index_in_range (some i) = leb i 63

-- `RunStatus.model_validate`
unfoldable pub run_valid : Run → Bool
unfolding is_candidate boundaries_ordered index_in_range
run_valid r =
    index_in_range r.stage_index
    && (is_some r.run_id
        || not (
            is_some r.recipe_digest
            || (is_some r.safety_profile_digest
                || (is_some r.stage_index
                    || (is_some r.measurement_start
                        || (is_some r.measurement_end || is_some r.safe_boundary))))))
    && (is_some r.run_id
        || not (
            is_preparing r.state
            || (is_measuring r.state
                || (is_disposal r.state || (is_cooling r.state || is_completed r.state)))))
    && (not (is_preparing r.state || (is_measuring r.state || is_candidate r.outcome))
        || (is_some r.recipe_digest && is_some r.safety_profile_digest))
    && (not (is_measuring r.state) || is_some r.measurement_start)
    && (not r.measurement_complete || (is_some r.measurement_start && is_some r.measurement_end))
    && (not (is_candidate r.outcome) || r.measurement_complete)
    && (if r.safe_complete then is_some r.safe_boundary else not (is_some r.safe_boundary))
    && not ((is_preparing r.state || is_measuring r.state) && r.safe_complete)
    && (not (is_completed r.state) || r.safe_complete)
    && boundaries_ordered r

abbrev is_info : Severity → Bool
is_info info = true
is_info _ = false

-- `check_alarm_level`: whether it returns.
unfoldable pub alarm_level_ok : AlarmCode → Severity → Bool
alarm_level_ok code severity =
    not (is_info severity || (not (is_warning_code code) && not (is_trip severity)))

-- `AlarmEvent.protection_level` after the check of the level: of the transition, `active` and `acknowledged`.
unfoldable pub transition_ok : Transition → Bool → Bool → Bool
transition_ok raised active acked = active && not acked
transition_ok cleared active acked = not active
transition_ok acknowledged active acked = acked

unfoldable pub is_good : Point → Bool
is_good (good v age) = true
is_good (bad q v age) = false

-- The validators of an event with the identity of its run: `real_event`, `same_run`, `protection_level`.
unfoldable pub event_valid : Option ℕ → EventKind → Bool
unfolding run_valid alarm_level_ok transition_ok is_good
event_valid run (run_changed r) = run_valid r && (run ==? r.run_id)
event_valid run (alarm id seq code t severity active acked sample) =
    alarm_level_ok code severity && transition_ok t active acked
event_valid run (operation_changed epoch id seq) = true
event_valid run (first_drip sample burden is_valid) =
    is_some run && not (is_valid && not (is_good burden))

-- `EventLogRecord.event_source`
unfoldable pub source_valid : Option (ℕ × ℕ) → EventKind → Bool
source_valid (some (boot, uptime)) (first_drip sample burden is_valid) = sample.boot_id == boot
source_valid _ _ = true

-- `LOG_RECORD_ADAPTER.validate_python`
unfoldable pub row_valid : LogRow → Bool
unfolding event_valid source_valid
row_valid row = elim row.payload [
  | telemetry t ↦ true
  | event e ↦ event_valid e.run_id e.kind && source_valid row.written e.kind
]

-- The loop over the pending records.
unfoldable pub rows_valid : List LogRow → Bool
unfolding row_valid
rows_valid [] = true
rows_valid (row ∷ rows) = row_valid row && rows_valid rows

-- The primary key of the table `records` refuses a sequence that is already there.
unfoldable pub insert_rows : List LogRow → List LogRow → Option (List LogRow)
insert_rows table [] = some table
insert_rows table (row ∷ rows) =
    let rest = insert_rows (table ++ row ∷ []) rows in
    if any (λ r. r.record_seq == row.record_seq) table then none else rest

-- `DeviceStore.save`, all or nothing.
unfoldable pub save : Bool → Data → List LogRow → Store → Result Error (Unit {0}) × Store
save true d rows s = (err storage, record s { writes = s.writes + 1 })
save false d rows s = elim (insert_rows s.records rows) [
  | none ↦ (err storage, record s { writes = s.writes + 1 })
  | some table ↦ (ok tt, record { state = some d; records = table; writes = s.writes + 1 })
]

unfoldable pub clear_pending :
    Result Error (Unit {0}) × Store → Device → Result Error (Unit {0}) × Device
clear_pending (ok u, s) d = (ok u, record d { store = s; pending_records = [] })
clear_pending (err e, s) d = (err e, record d { store = s })

-- `commit`
unfoldable pub commit : Device → Result Error (Unit {0}) × Device
unfolding clear_pending
commit d =
    if run_valid d.content.run && rows_valid d.pending_records
    then clear_pending (save (d.host.fails d.store.writes) d.content d.pending_records d.store) d
    else (err value, d)

-- A call that raised ends its caller; the state that it left stays.
infixl 5 ◌▸◌
abbrev pub ◌▸◌ :
    Result Error (Unit {0}) × Device
    → (Device → Result Error (Unit {0}) × Device)
    → Result Error (Unit {0}) × Device
(r, d) ▸ k = elim r [ ok _ ↦ k d | err e ↦ (err e, d) ]
