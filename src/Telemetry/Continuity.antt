-- ===== src/Telemetry/Continuity.antt =====
-- What `continuity_proven` of backend/app/services/telemetry_integrity.py proves about the samples
-- that `advance_cursor` has read.
use smd_web_hmi.Prelude.{
  ℕ, ◌+◌, ◌≤◌, ◌≡◌, refl, ap, ◌∙◌, sym, inl, inr, Bool, true, false, Option, none, some, List, [],
  ◌∷◌, ◌++◌, length, Bool-cases, Option-cases, arith,
}
use mathlib.Core.Path.{subst}
use smd_web_hmi.Telemetry.Cursor.{
  Entry, absent, alien, present, Cursor, Snapshot, Issue, empty_cursor, malformed, truthy,
  check_cursor, count_callbacks, received, has_issues, seal, unsupported, identity, boot_issues,
  order_issues, clock_issues, keeps_position, move_position, observe_start, count_of, verify,
  identify, sequenced, advance_cursor, is_false, at_least_two, continuity_proven,
}

-- The cursor after samples, in their order.
unfoldable pub track : List Snapshot → Cursor → Cursor
unfolding advance_cursor
track [] c = c
track (s ∷ ss) c = track ss (advance_cursor c s).0

-- The second sample is the next one of the same boot, and not older.
pub record Follows (a b : Snapshot) : Type 0 where
  pub boot : ℕ
  pub number : ℕ
  pub earlier : ℕ
  pub later : ℕ
  pub first_boot : a.boot_id ≡ some boot
  pub second_boot : b.boot_id ≡ some boot
  pub first_number : a.sequence ≡ some number
  pub second_number : b.sequence ≡ some (number + 1)
  pub first_time : a.device_time ≡ some earlier
  pub second_time : b.device_time ≡ some later
  pub in_order : earlier ≤ later

abbrev pub IsContinuous : List Snapshot → Type 0
IsContinuous [] = Unit {0}
IsContinuous (s ∷ []) = Unit {0}
IsContinuous (s ∷ t ∷ ss) = Follows s t × IsContinuous (t ∷ ss)

abbrev IsClean : Cursor → Type 0
IsClean c = (is_false c.gap_seen ≡ true) × (is_false c.unsupported_seen ≡ true)

-- The cursor stands at a sample.
record At (c : Cursor) (s : Snapshot) : Type 0 where
  boot : ℕ
  number : ℕ
  time : ℕ
  cursor_boot : c.boot_id ≡ present boot
  cursor_number : c.sequence ≡ present number
  cursor_time : c.device_timestamp ≡ some time
  boot_of : s.boot_id ≡ some boot
  number_of : s.sequence ≡ some number
  time_of : s.device_time ≡ some time

seal-IsClean :
    (c : Cursor) (issues : List Issue)
    → IsClean (seal c issues).0
    → (issues ≡ []) × (truthy c.gap_seen ≡ false) × (is_false c.unsupported_seen ≡ true)
unfolding seal is_false has_issues
seal-IsClean c [] h = (refl, ground arith, h.1)
seal-IsClean c (i ∷ issues) h = ground arith

append-nil : {A : Type 0} (xs ys : List A) → xs ++ ys ≡ [] → (xs ≡ []) × (ys ≡ [])
append-nil [] ys h = (refl, h)
append-nil (x ∷ xs) ys h = ground arith

check_cursor-no_issue : (c : Cursor) → (check_cursor c).1 ≡ [] → check_cursor c ≡ (c, [])
unfolding check_cursor
check_cursor-no_issue c h = elim (Bool-cases (malformed c)) [
  | inl bad ↦ absurd (ground arith)
  | inr good ↦ rw good refl
]

count_callbacks-no_issue :
    (callbacks : Option ℕ) (r : Cursor × List Issue)
    → (count_callbacks callbacks r).1 ≡ []
    → (r.1 ≡ [])
      × ((n : Entry ℕ) × ((count_callbacks callbacks r).0 ≡ record r.0 { callback_count = n }))
unfolding count_callbacks
count_callbacks-no_issue none (c, issues) h = (h, (c.callback_count, refl))
count_callbacks-no_issue (some callbacks) (c, issues) h =
    ((append-nil issues _ h).0, (present callbacks, refl))

-- A cursor that is read without an issue is the old one, but for the count of callbacks.
received-no_issue :
    (c : Cursor) (s : Snapshot)
    → (received c s).1 ≡ []
    → (n : Entry ℕ) × ((received c s).0 ≡ record c { callback_count = n })
unfolding received
received-no_issue c s h =
    let (checked, (n, e)) =
      count_callbacks-no_issue s.dropped_callbacks (check_cursor c)
        (append-nil (count_callbacks s.dropped_callbacks (check_cursor c)).1 _ h).0 in
    let kept = check_cursor-no_issue c checked in
    (n, e ∙ ap (λ r. record (r.0) { callback_count = n }) kept)

-- What `verify` makes of the position keeps the flags.
moved-flags :
    (s : Snapshot) (all : List Issue) (boot seq time : ℕ) (c : Cursor)
    → let moved = observe_start s (move_position all boot seq time c) in
      (moved.gap_seen ≡ c.gap_seen)
      × (moved.unsupported_seen ≡ c.unsupported_seen)
      × (moved.verified_samples ≡ c.verified_samples)
unfolding observe_start move_position
moved-flags s all boot seq time c = (ground arith, ground arith, ground arith)

moved-position :
    (s : Snapshot) (boot seq time : ℕ) (c : Cursor)
    → let moved = observe_start s (move_position [] boot seq time c) in
      (moved.boot_id ≡ present boot)
      × (moved.sequence ≡ present seq)
      × (moved.device_timestamp ≡ some time)
unfolding observe_start move_position keeps_position
moved-position s boot seq time c = (ground arith, ground arith, ground arith)

verify-IsClean :
    (s : Snapshot) (boot seq time : ℕ) (c : Cursor) (issues : List Issue)
    → IsClean (verify s boot seq time c issues).0
    → (issues ≡ [])
      × (boot_issues c.boot_id c.sequence boot seq ≡ [])
      × (clock_issues c.device_timestamp time ≡ [])
      × (truthy c.gap_seen ≡ false)
      × (is_false c.unsupported_seen ≡ true)
unfolding verify
verify-IsClean s boot seq time c issues h =
    let orders = boot_issues c.boot_id c.sequence boot seq in
    let clocks = clock_issues c.device_timestamp time in
    let all = issues ++ (orders ++ clocks) in
    let moved = observe_start s (move_position all boot seq time c) in
    let (gap, unsupported, _) = moved-flags s all boot seq time c in
    let (nothing, no_gap, supported) =
      seal-IsClean
        (record moved { verified_samples = present (count_of moved.verified_samples + 1) }) all h in
    let (before, after) = append-nil issues (orders ++ clocks) nothing in
    let (order, clock) = append-nil orders clocks after in
    (before, order, clock, sym (ap truthy gap) ∙ no_gap, sym (ap is_false unsupported) ∙ supported)

boot_issues-Follows :
    (c : Cursor) (a b : Snapshot) (boot seq time : ℕ)
    → At c a
    → b.boot_id ≡ some boot
    → b.sequence ≡ some seq
    → b.device_time ≡ some time
    → boot_issues c.boot_id c.sequence boot seq ≡ []
    → clock_issues c.device_timestamp time ≡ []
    → Follows a b
unfolding boot_issues order_issues clock_issues
boot_issues-Follows c a b boot seq time at is_boot is_seq is_time orders clocks =
    let order : boot_issues (present at.boot) (present at.number) boot seq ≡ [] =
      rw (at.cursor_boot, at.cursor_number) at orders in
    let clock : clock_issues (some at.time) time ≡ [] = rw at.cursor_time at clocks in
    let same : boot ≡ at.boot = ground arith in
    let next : seq ≡ at.number + 1 = ground arith in
    record {
      boot = at.boot;
      number = at.number;
      earlier = at.time;
      later = time;
      first_boot = at.boot_of;
      second_boot = is_boot ∙ ap some same;
      first_number = at.number_of;
      second_number = is_seq ∙ ap some next;
      first_time = at.time_of;
      second_time = is_time;
      in_order = ground arith;
    }

-- A sample that leaves the cursor without a gap.
record Advanced (c : Cursor) (s : Snapshot) : Type 0 where
  clean : IsClean c
  at : At (advance_cursor c s).0 s
  follows : (a : Snapshot) → At c a → Follows a s
  counted : count_of (advance_cursor c s).0.verified_samples ≡ count_of c.verified_samples + 1

verify-At :
    (s : Snapshot) (boot seq time : ℕ) (c : Cursor)
    → s.boot_id ≡ some boot
    → s.sequence ≡ some seq
    → s.device_time ≡ some time
    → IsClean (verify s boot seq time c []).0
    → At (verify s boot seq time c []).0 s
      × (count_of (verify s boot seq time c []).0.verified_samples
          ≡ count_of c.verified_samples + 1)
unfolding verify seal count_of
verify-At s boot seq time c is_boot is_seq is_time h =
    let (_, order, clock, _, _) = verify-IsClean s boot seq time c [] h in
    let (b, q, t) = moved-position s boot seq time c in
    let (_, _, count) = moved-flags s [] boot seq time c in
    rw (order, clock)
      (
        record {
          boot = boot;
          number = seq;
          time = time;
          cursor_boot = b;
          cursor_number = q;
          cursor_time = t;
          boot_of = is_boot;
          number_of = is_seq;
          time_of = is_time;
        },
        ap (λ n. count_of n + 1) count,
      )

identity-some :
    (boot seq : Option ℕ) {source : ℕ × ℕ}
    → identity boot seq ≡ some source
    → (boot ≡ some source.0) × (seq ≡ some source.1)
unfolding identity
identity-some (some boot) (some seq) h = (ground arith, ground arith)
identity-some (some boot) none h = ground arith
identity-some none seq h = ground arith

identified :
    (s : Snapshot) (r : Cursor × List Issue)
    → IsClean (identify s (identity s.boot_id s.sequence) s.device_time r).0
    → (source : ℕ × ℕ) × (time : ℕ) × (identity s.boot_id s.sequence ≡ some source)
      × (s.device_time ≡ some time)
unfolding identify is_false
identified s r h = elim (Option-cases (identity s.boot_id s.sequence)) [
  | inl nobody ↦ absurd (ground arith)
  | inr (source, known) ↦ elim (Option-cases s.device_time) [
    | inl never ↦ absurd (ground arith)
    | inr (time, dated) ↦ (source, time, known, dated)
  ]
]

truthy-is_false : (e : Entry Bool) → truthy e ≡ false → is_false e ≡ true
unfolding truthy is_false
truthy-is_false absent h = refl
truthy-is_false alien h = cc
truthy-is_false (present b) h = ground arith

-- A sample that leaves no gap was verified.
record Verified (c : Cursor) (s : Snapshot) : Type 0 where
  boot : ℕ
  number : ℕ
  time : ℕ
  boot_of : s.boot_id ≡ some boot
  number_of : s.sequence ≡ some number
  time_of : s.device_time ≡ some time
  is_verify : advance_cursor c s ≡ verify s boot number time (received c s).0 (received c s).1

sequenced-supported :
    (s : Snapshot) (r : Cursor × List Issue)
    → IsClean (sequenced s r).0
    → sequenced s r ≡ identify s (identity s.boot_id s.sequence) s.device_time r
unfolding sequenced unsupported seal is_false
sequenced-supported s r h = elim (Bool-cases s.telemetry_sequence_v1) [
  | inl supported ↦ rw supported refl
  | inr not_supported ↦ absurd (ground arith)
]

advance_cursor-Verified :
    (c : Cursor) (s : Snapshot) → IsClean (advance_cursor c s).0 → Verified c s
unfolding advance_cursor identify
advance_cursor-Verified c s h =
    let r = received c s in
    let supported = sequenced-supported s r h in
    let (source, time, known, dated) = identified s r (rw supported at h) in
    let (is_boot, is_seq) = identity-some s.boot_id s.sequence known in
    record {
      boot = source.0;
      number = source.1;
      time = time;
      boot_of = is_boot;
      number_of = is_seq;
      time_of = dated;
      is_verify =
          supported
          ∙ (ap (λ o. identify s o s.device_time r) known
              ∙ ap (λ o. identify s (some source) o r) dated);
    }

advance_cursor-Advanced :
    (c : Cursor) (s : Snapshot) → IsClean (advance_cursor c s).0 → Advanced c s
advance_cursor-Advanced c s h =
    let v = advance_cursor-Verified c s h in
    let clean = subst (λ r. IsClean r.0) v.is_verify h in
    let (no_issue, _, _, _, _) =
      verify-IsClean s v.boot v.number v.time (received c s).0 (received c s).1 clean in
    let (n, same) = received-no_issue c s no_issue in
    let current = record c { callback_count = n } in
    let is_verify : advance_cursor c s ≡ verify s v.boot v.number v.time current [] =
      v.is_verify
      ∙ (ap (λ d. verify s v.boot v.number v.time d (received c s).1) same
          ∙ ap (verify s v.boot v.number v.time current) no_issue) in
    let clean : IsClean (verify s v.boot v.number v.time current []).0 =
      subst (λ r. IsClean r.0) is_verify h in
    let (_, order, clock, no_gap, supported) =
      verify-IsClean s v.boot v.number v.time current [] clean in
    let (at, count) =
      verify-At s v.boot v.number v.time current v.boot_of v.number_of v.time_of clean in
    record {
      clean = (truthy-is_false c.gap_seen no_gap, supported);
      at = subst (λ r. At r.0 s) (sym is_verify) at;
      follows = λ a at.
          boot_issues-Follows c a s v.boot v.number v.time at v.boot_of v.number_of v.time_of order
            clock;
      counted = ap (λ r. count_of r.0.verified_samples) is_verify ∙ count;
    }

track-IsClean :
    (ss : List Snapshot) (c : Cursor)
    → IsClean (track ss c)
    → IsClean c × (count_of (track ss c).verified_samples ≡ count_of c.verified_samples + length ss)
unfolding track
track-IsClean [] c h = (h, omega arith)
track-IsClean (s ∷ ss) c h =
    let (clean, count) = track-IsClean ss (advance_cursor c s).0 h in
    let step = advance_cursor-Advanced c s clean in (step.clean, omega (arith, count, step.counted))

track-IsContinuous :
    (s : Snapshot) (ss : List Snapshot) (c : Cursor)
    → At c s
    → IsClean (track ss c)
    → IsContinuous (s ∷ ss)
unfolding track
track-IsContinuous s [] c at h = tt
track-IsContinuous s (t ∷ ss) c at h =
    let step = advance_cursor-Advanced c t (track-IsClean ss (advance_cursor c t).0 h).0 in
    (step.follows s at, track-IsContinuous t ss (advance_cursor c t).0 step.at h)

at_least_two-count : (e : Entry ℕ) → at_least_two e ≡ true → 2 ≤ count_of e
unfolding at_least_two count_of
at_least_two-count absent h = cc
at_least_two-count alien h = cc
at_least_two-count (present n) h = ground arith

continuity_proven_parts :
    (c : Cursor) → continuity_proven c ≡ true → IsClean c × (2 ≤ count_of c.verified_samples)
unfolding continuity_proven
continuity_proven_parts c h =
    let two : at_least_two c.verified_samples ≡ true = ground arith in
    ((ground arith, ground arith), at_least_two-count c.verified_samples two)

-- If the cursor that has read all samples of a session proves their continuity, then there are at
-- least two of them, each but the first is the next sample of the same boot, and no clock went back.
pub continuity_proven-IsContinuous :
    (ss : List Snapshot)
    → continuity_proven (track ss empty_cursor) ≡ true
    → IsContinuous ss × (2 ≤ length ss)
unfolding track count_of
continuity_proven-IsContinuous [] h =
    let (_, two) = continuity_proven_parts empty_cursor h in absurd (omega (arith, two))
continuity_proven-IsContinuous (s ∷ ss) h =
    let (clean, two) = continuity_proven_parts (track ss (advance_cursor empty_cursor s).0) h in
    let (first, count) = track-IsClean ss (advance_cursor empty_cursor s).0 clean in
    let step = advance_cursor-Advanced empty_cursor s first in
    (
      track-IsContinuous s ss (advance_cursor empty_cursor s).0 step.at clean,
      omega (arith, two, count, step.counted),
    )
