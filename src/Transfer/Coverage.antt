-- ===== src/Transfer/Coverage.antt =====
-- A log transfer accounts for each number of the cut: what the loop of `LogTransfer.__init__`,
-- backend/app/hostcomm/v2_simulator/transfers.py, declares missing, and the validator of `LogResult`.
use smd_web_hmi.Prelude.{
  ℕ, zero, suc, ◌+◌, ◌-◌, ◌<◌, ◌≤◌, ◌≡◌, refl, inl, inr, true, false, not, ◌&&◌, ◌||◌, some, List,
  [], ◌∷◌, length, max, ok, leb, ltb, ◌==◌, arith, Bool-cases, if◌then◌else◌,
}
use mathlib.Core.Path.{subst}
use smd_web_hmi.Transfer.Model.{
  LogRange, LogRequest, MissingReason, MissingRange, missing_count, gaps_ordered, missing_ordered,
  range_count, range_ordered, endpoints_ok, result_valid, gaps, same, is_complete, is_unavailable,
  no_gaps, partial_ok, same_reason,
}
use smd_web_hmi.Transfer.Log.{
  LogStore, LogTransfer, cut_rows, is_present, add_missing, gap_at, account, account_all,
  missing_of, open_transfer, build, oldest, newest, shown, join_raw, status_of, reason_of,
}

-- The key of the table `records`: its numbers ascend, from `low` on.
abbrev pub IsAscending : ℕ → List (ℕ × List ℕ) → Type 0
IsAscending low [] = Unit {0}
IsAscending low ((seq, raw) ∷ rows) = (low ≤ seq) × IsAscending (seq + 1) rows

-- Ranges of one log that ascend from `next` and stop before `high`.
abbrev Chain : ℕ → ℕ → List MissingRange → ℕ → Type 0
Chain log next [] high = next ≤ high
Chain log next (g ∷ gs) high =
    (g.log_id ≡ log)
    × (next ≤ g.first_record_seq)
    × (g.first_record_seq ≤ g.last_record_seq)
    × Chain log (g.last_record_seq + 1) gs high

Chain-mono :
    (log next : ℕ) (gs : List MissingRange) {high higher : ℕ}
    → high ≤ higher
    → Chain log next gs high
    → Chain log next gs higher
Chain-mono log next [] le c = omega (arith, le, c)
Chain-mono log next (g ∷ gs) le (l, n, o, c) =
    (l, n, o, Chain-mono log (g.last_record_seq + 1) gs le c)

Chain-next :
    (log next : ℕ) (gs : List MissingRange) {high : ℕ} → Chain log next gs high → next ≤ high
Chain-next log next [] c = c
Chain-next log next (g ∷ gs) (l, n, o, c) =
    omega (arith, n, o, Chain-next log (g.last_record_seq + 1) gs c)

add_missing-Chain :
    (log next seq : ℕ) (reason : MissingReason) (gs : List MissingRange)
    → Chain log next gs seq
    → Chain log next (add_missing log seq reason gs) (seq + 1)
      × (missing_count (add_missing log seq reason gs) ≡ missing_count gs + 1)
unfolding add_missing missing_count gap_at
add_missing-Chain log next seq reason [] c = ((refl, c, omega arith, omega arith), omega arith)
add_missing-Chain log next seq reason (g ∷ []) (l, n, o, c) =
    elim (Bool-cases ((g.last_record_seq + 1 == seq) && same_reason g.reason reason)) [
      | inl joins ↦ rw joins ((l, n, ground arith, omega arith), ground arith)
      | inr starts ↦ rw starts ((l, n, o, (refl, c, omega arith, omega arith)), ground arith)
    ]
add_missing-Chain log next seq reason (g ∷ h ∷ gs) (l, n, o, c) =
    let (rest, count) = add_missing-Chain log (g.last_record_seq + 1) seq reason (h ∷ gs) c in
    ((l, n, o, rest), omega (arith, count))

count_below : ℕ → List (ℕ × List ℕ) → ℕ
count_below bound [] = 0
count_below bound ((seq, raw) ∷ rows) =
    let rest = count_below bound rows in if ltb seq bound then suc rest else rest

count_below-low :
    (low bound : ℕ) (rows : List (ℕ × List ℕ))
    → IsAscending low rows
    → bound ≤ low
    → count_below bound rows ≡ 0
unfolding count_below
count_below-low low bound [] a le = refl
count_below-low low bound ((seq, raw) ∷ rows) (n, a) le =
    ground (arith, count_below-low (seq + 1) bound rows a (omega (arith, n, le)))

is_present-low :
    (low seq : ℕ) (rows : List (ℕ × List ℕ))
    → IsAscending low rows
    → seq < low
    → is_present seq rows ≡ false
unfolding is_present
is_present-low low seq [] a lt = refl
is_present-low low seq ((row, raw) ∷ rows) (n, a) lt =
    ground (arith, is_present-low (row + 1) seq rows a (omega (arith, n, lt)))

count_below-suc :
    (low seq : ℕ) (rows : List (ℕ × List ℕ))
    → IsAscending low rows
    → count_below (seq + 1) rows ≡ count_below seq rows + (if is_present seq rows then 1 else 0)
unfolding count_below is_present
count_below-suc low seq [] a = refl
count_below-suc low seq ((row, raw) ∷ rows) (n, a) =
    let rest = count_below-suc (row + 1) seq rows a in
    elim (Bool-cases (row == seq)) [
      | inl here ↦ let absent = is_present-low (row + 1) seq rows a (ground arith) in ground arith
      | inr other ↦ ground arith
    ]

-- The loop of `__init__` at `seq`: the ranges declared so far and the rows make up all numbers.
record Accounted (log first : ℕ) (rows : List (ℕ × List ℕ)) (missing : List MissingRange) (seq : ℕ)
    : Type 0 where
  ranges : Chain log first missing seq
  total : missing_count missing + count_below seq rows + first ≡ seq

account-Accounted :
    (log first : ℕ) (rows : List (ℕ × List ℕ)) (gaps : List (ℕ × MissingReason)) (seq : ℕ)
    (missing : List MissingRange)
    → IsAscending first rows
    → Accounted log first rows missing seq
    → Accounted log first rows (account log rows gaps seq missing) (seq + 1)
unfolding account
account-Accounted log first rows gaps seq missing a h =
    let next = count_below-suc first seq rows a in
    elim (Bool-cases (is_present seq rows)) [
      | inl there ↦ rw there record {
        ranges = Chain-mono log first missing (omega arith) h.ranges;
        total = ground (arith, h.total);
      }
      | inr absent ↦
          let (chain, more) =
            add_missing-Chain log first seq (reason_of seq gaps) missing h.ranges in
          rw absent record { ranges = chain; total = ground (arith, h.total) }
    ]

account_all-Accounted :
    (log first : ℕ) (rows : List (ℕ × List ℕ)) (gaps : List (ℕ × MissingReason)) (count seq : ℕ)
    (missing : List MissingRange)
    → IsAscending first rows
    → Accounted log first rows missing seq
    → Accounted log first rows (account_all log rows gaps count seq missing) (seq + count)
unfolding account_all
account_all-Accounted log first rows gaps zero seq missing a h =
    subst (Accounted log first rows missing) (omega arith) h
account_all-Accounted log first rows gaps (suc count) seq missing a h =
    let rest =
      account_all-Accounted log first rows gaps count (seq + 1) (account log rows gaps seq missing)
        a (account-Accounted log first rows gaps seq missing a h) in
    subst
      (Accounted log first rows
        (account_all log rows gaps count (seq + 1) (account log rows gaps seq missing)))
      (omega arith) rest

IsAscending-weaken :
    (low lower : ℕ) (rows : List (ℕ × List ℕ))
    → lower ≤ low
    → IsAscending low rows
    → IsAscending lower rows
IsAscending-weaken low lower [] le a = tt
IsAscending-weaken low lower ((seq, raw) ∷ rows) le (n, a) = (omega (arith, le, n), a)

cut_rows-IsAscending :
    (low first last : ℕ) (rows : List (ℕ × List ℕ))
    → IsAscending low rows
    → IsAscending (max low first) (cut_rows first last rows)
unfolding cut_rows
cut_rows-IsAscending low first last [] a = tt
cut_rows-IsAscending low first last ((seq, raw) ∷ rows) (n, a) =
    let rest = cut_rows-IsAscending (seq + 1) first last rows a in
    elim (Bool-cases (leb first seq && leb seq last)) [
      | inl kept ↦ rw kept (
        ground arith,
        IsAscending-weaken (max (seq + 1) first) (seq + 1) (cut_rows first last rows) (omega arith)
            rest,
      )
      | inr cut ↦ rw cut (
          IsAscending-weaken (max (seq + 1) first) (max low first) (cut_rows first last rows)
            (omega (arith, n)) rest)
    ]

count_below-cut_rows :
    (first last : ℕ) (rows : List (ℕ × List ℕ))
    → count_below (last + 1) (cut_rows first last rows) ≡ length (cut_rows first last rows)
unfolding count_below cut_rows
count_below-cut_rows first last [] = refl
count_below-cut_rows first last ((seq, raw) ∷ rows) =
    let rest = count_below-cut_rows first last rows in ground arith

Chain-gaps_ordered :
    (w : LogRange) (next : ℕ) (gs : List MissingRange)
    → w.first_record_seq ≤ next
    → Chain w.log_id next gs (w.last_record_seq + 1)
    → (gaps_ordered w next gs ≡ true) × (missing_ordered gs ≡ true)
unfolding gaps_ordered missing_ordered
Chain-gaps_ordered w next [] le c = (refl, refl)
Chain-gaps_ordered w next (g ∷ gs) le (l, n, o, c) =
    let (rest, ordered) =
      Chain-gaps_ordered w (g.last_record_seq + 1) gs (omega (arith, le, n, o)) c in
    let below = Chain-next w.log_id (g.last_record_seq + 1) gs c in
    (ground (arith, rest), ground (arith, ordered))

newest-after :
    (low : ℕ) (row : ℕ × List ℕ) (rows : List (ℕ × List ℕ))
    → IsAscending low (row ∷ rows)
    → (n : ℕ) × (newest (row ∷ rows) ≡ some n) × (row.0 ≤ n)
unfolding newest
newest-after low (seq, raw) [] a = (seq, refl, omega arith)
newest-after low (seq, raw) (row ∷ rows) (n, a) =
    let (last, e, le) = newest-after (seq + 1) row rows a in (last, e, omega (arith, le, a.0))

endpoints_ok-ascending :
    (rows : List (ℕ × List ℕ))
    → IsAscending 1 rows
    → endpoints_ok (shown (oldest rows)) (shown (newest rows)) ≡ true
unfolding endpoints_ok oldest newest shown
endpoints_ok-ascending [] a = refl
endpoints_ok-ascending ((seq, raw) ∷ rows) a =
    let (last, e, le) = newest-after 1 (seq, raw) rows a in rw e (ground (arith, a.0, le))

missing_of-Accounted :
    (s : LogStore) (w : LogRange)
    → IsAscending 1 s.records
    → w.first_record_seq ≤ w.last_record_seq
    → Accounted w.log_id w.first_record_seq
        (cut_rows w.first_record_seq w.last_record_seq s.records)
        (missing_of s w)
        (w.last_record_seq + 1)
unfolding missing_of missing_count
missing_of-Accounted s w a le =
    let rows = cut_rows w.first_record_seq w.last_record_seq s.records in
    let ascending : IsAscending w.first_record_seq rows =
      IsAscending-weaken (max 1 w.first_record_seq) w.first_record_seq rows (omega arith)
        (cut_rows-IsAscending 1 w.first_record_seq w.last_record_seq s.records a) in
    let none_below =
      count_below-low w.first_record_seq w.first_record_seq rows ascending (omega arith) in
    subst (Accounted w.log_id w.first_record_seq rows (missing_of s w)) (omega (arith, le)) (
      account_all-Accounted w.log_id w.first_record_seq rows
        (cut_rows w.first_record_seq w.last_record_seq s.gaps)
        (w.last_record_seq + 1 - w.first_record_seq) w.first_record_seq [] ascending
        record { ranges = omega arith; total = omega (arith, none_below) })

status_of-missing :
    (rows : List (ℕ × List ℕ)) (missing : List MissingRange) (count : ℕ)
    → missing_ordered missing ≡ true
    → length rows + missing_count missing ≡ count
    → 0 < count
    → (same (is_complete (status_of rows missing)) (no_gaps missing) ≡ true)
      × ((not (is_unavailable (status_of rows missing))
            || ((length rows == 0) && (length (join_raw rows) == 0)))
          ≡ true)
      × (partial_ok (status_of rows missing) (length rows) count ≡ true)
unfolding same is_complete is_unavailable no_gaps partial_ok missing_ordered missing_count status_of
    join_raw
status_of-missing [] [] count o e lt = absurd (omega (arith, e, lt))
status_of-missing [] (g ∷ gs) count o e lt = (refl, refl, refl)
status_of-missing (row ∷ rows) [] count o e lt = (refl, refl, refl)
status_of-missing (row ∷ rows) (g ∷ gs) count o e lt = (refl, refl, ground (arith, e, o))

module _ (sha256 : List ℕ → ℕ) where
  -- For records whose numbers ascend from 1 and a requested range that is ordered, the result of a
  -- transfer that opens is one that the wire's validator of log results accepts.
  pub open_transfer-result_valid :
      (s : LogStore) (r : LogRequest) (request_id : ℕ) {t : LogTransfer}
      → IsAscending 1 s.records
      → range_ordered r.requested ≡ true
      → open_transfer sha256 s r request_id ≡ ok t
      → result_valid t.result ≡ true
  unfolding open_transfer build result_valid gaps range_ordered range_count
  open_transfer-result_valid s r request_id {t} a o h =
      let w = r.requested in
      let rows = cut_rows w.first_record_seq w.last_record_seq s.records in
      let accounted = missing_of-Accounted s w a (ground arith) in
      let ordered =
        Chain-gaps_ordered w w.first_record_seq (missing_of s w) (omega arith) accounted.ranges in
      let total = accounted.total in
      let all_below = count_below-cut_rows w.first_record_seq w.last_record_seq s.records in
      let ends = endpoints_ok-ascending s.records a in
      let is_built : t ≡ build sha256 s r request_id rows (missing_of s w) = ground arith in
      let count : length rows + missing_count (missing_of s w)
          ≡ w.last_record_seq + 1 - w.first_record_seq =
        omega (arith, total, all_below) in
      let (status, no_data, part) =
        status_of-missing rows (missing_of s w) (w.last_record_seq + 1 - w.first_record_seq)
          ordered.1 count (ground arith) in
      rw is_built (ground (arith, ordered, status, no_data, part, count, ends))
