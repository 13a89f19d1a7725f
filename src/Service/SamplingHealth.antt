-- ===== src/Service/SamplingHealth.antt =====
-- `SamplingPersistenceHealth` of backend/app/services/sampling_health.py.
use smd_web_hmi.Prelude.{
  ℕ, ◌+◌, ◌≤◌, ◌≡◌, refl, Bool, true, false, not, ◌&&◌, List, [], ◌∷◌, leb, ◌==◌, length,
  if◌then◌else◌, arith,
}

pub record Health : Type 0 where
  pub failure_threshold : ℕ
  pub consecutive_write_failures : ℕ
  pub alarm_active : Bool

unfoldable pub reset : Health → Health
reset h = record h { consecutive_write_failures = 0; alarm_active = false }

-- `__init__` with a positive threshold.
unfoldable pub init : ℕ → Health
init threshold = record {
  failure_threshold = threshold;
  consecutive_write_failures = 0;
  alarm_active = false;
}

unfoldable pub record_failure : Health → Bool × Health
record_failure h =
    let failures = h.consecutive_write_failures + 1 in
    if leb h.failure_threshold failures && not h.alarm_active
    then (true, record h { consecutive_write_failures = failures; alarm_active = true })
    else (false, record h { consecutive_write_failures = failures })

unfoldable pub record_success : Health → Bool × Health
record_success h =
    (h.alarm_active, record h { consecutive_write_failures = 0; alarm_active = false })

-- `status` of `snapshot`.
unfoldable pub is_degraded : Health → Bool
is_degraded h = not (h.consecutive_write_failures == 0)

-- The outcomes of writes, in their order: `true` is a failure.
unfoldable pub track : List Bool → Health → Health
unfolding record_failure record_success
track [] h = h
track (failed ∷ writes) h =
    track writes (if failed then (record_failure h).1 else (record_success h).1)

abbrev IsExact : Health → Type 0
IsExact h =
    (1 ≤ h.failure_threshold)
    × (h.alarm_active ≡ leb h.failure_threshold h.consecutive_write_failures)

step-IsExact :
    (failed : Bool) (h : Health)
    → IsExact h
    → IsExact (if failed then (record_failure h).1 else (record_success h).1)
unfolding record_failure record_success
step-IsExact true h e = ground arith
step-IsExact false h e = ground arith

track-IsExact : (writes : List Bool) (h : Health) → IsExact h → IsExact (track writes h)
unfolding track
track-IsExact [] h e = e
track-IsExact (failed ∷ writes) h e = track-IsExact writes _ (step-IsExact failed h e)

abbrev all_failed : List Bool → Bool
all_failed [] = true
all_failed (failed ∷ writes) = failed && all_failed writes

-- How many of the last writes failed one after the other, read off the outcomes alone.
abbrev pub failures_in_a_row : List Bool → ℕ
failures_in_a_row [] = 0
failures_in_a_row (failed ∷ writes) =
    let rest = failures_in_a_row writes in
    if failed && all_failed writes then length writes + 1 else rest

all_failed-in_a_row :
    (writes : List Bool) → all_failed writes ≡ true → failures_in_a_row writes ≡ length writes
all_failed-in_a_row [] h = refl
all_failed-in_a_row (failed ∷ writes) h = ground arith

track-count :
    (writes : List Bool) (h : Health)
    → (track writes h).consecutive_write_failures ≡ (
        if all_failed writes
        then h.consecutive_write_failures + length writes
        else failures_in_a_row writes)
unfolding track record_failure record_success
track-count [] h = ground arith
track-count (true ∷ writes) h = ground (arith, track-count writes (record_failure h).1)
track-count (false ∷ writes) h =
    ground (arith, track-count writes (record_success h).1, all_failed-in_a_row writes)

track-in_a_row :
    (threshold : ℕ) (writes : List Bool)
    → (track writes (init threshold)).consecutive_write_failures ≡ failures_in_a_row writes
unfolding init
track-in_a_row threshold writes =
    ground (arith, track-count writes (init threshold), all_failed-in_a_row writes)

track-threshold :
    (writes : List Bool) (h : Health) → (track writes h).failure_threshold ≡ h.failure_threshold
unfolding track record_failure record_success
track-threshold [] h = refl
track-threshold (true ∷ writes) h = ground (arith, track-threshold writes (record_failure h).1)
track-threshold (false ∷ writes) h = ground (arith, track-threshold writes (record_success h).1)

-- After any writes, the next failure is reported if and only if it is the one that makes the last failed
-- writes, without a success between them, as many as the threshold; the next success is reported if and
-- only if they were that many.
pub track-reports :
    (threshold : ℕ) (writes : List Bool)
    → 1 ≤ threshold
    → let h = track writes (init threshold) in
      ((record_failure h).0 ≡ (failures_in_a_row writes + 1 == threshold))
      × ((record_success h).0 ≡ leb threshold (failures_in_a_row writes))
unfolding record_failure record_success init
track-reports threshold writes pos =
    let exact = track-IsExact writes (init threshold) (pos, ground arith) in
    let row = track-in_a_row threshold writes in
    let same = track-threshold writes (init threshold) in
    (ground (arith, exact, row, same), ground (arith, exact, row, same))
