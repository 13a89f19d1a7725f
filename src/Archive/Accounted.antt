-- ===== src/Archive/Accounted.antt =====
-- A transfer that `validate_log_transfer` of backend/app/hostcomm/v2_contract/codec.py lets pass accounts for its
-- whole cut.
use smd_web_hmi.Prelude.{
  ℕ, ◌+◌, ◌≤◌, ◌<◌, ◌≡◌, ◌⊎◌, refl, inl, inr, Bool, true, false, not, ◌&&◌, ◌||◌, Option, List, [],
  ◌∷◌, ◌++◌, map, leb, ◌==◌, ==_eq, &&-true, arith, Bool-cases, if-true, if-false, ok, guard-ok,
  >>=-ok, ok_injective,
}
use mathlib.Core.Path.{subst}
use smd_web_hmi.Transfer.Model.{
  LogRequest, LogChunk, LogResult, MissingRange, is_complete, no_gaps, gaps, result_valid,
}
use smd_web_hmi.Transfer.Model as Log
use smd_web_hmi.Archive.Model.{SourceRecord}
use smd_web_hmi.Archive.Validate.{
  undeclared_gap, cut_not_covered, invalid_request, invalid_result, result_mismatch,
  content_mismatch, incomplete_record, count_mismatch, before_or_same, insert, sorted, cover,
  intervals, accounted, collect, read_records, splitlines, validate_log_transfer,
}

-- Some element of a list satisfies a predicate.
abbrev pub Any : {A : Type 0} → (A → Type 0) → List A → Type 0
Any P [] = ⊥
Any P (x ∷ xs) = P x ⊎ Any P xs

Any-append : {A : Type 0} (P : A → Type 0) (xs ys : List A) → Any P (xs ++ ys) → Any P xs ⊎ Any P ys
Any-append P [] ys a = inr a
Any-append P (x ∷ xs) ys (inl p) = inl (inl p)
Any-append P (x ∷ xs) ys (inr a) = elim (Any-append P xs ys a) [
  | inl b ↦ inl (inr b)
  | inr b ↦ inr b
]

Any-map :
    {A B : Type 0} (P : B → Type 0) (f : A → B) (xs : List A)
    → Any P (map f xs)
    → Any (λ x. P (f x)) xs
Any-map P f [] a = a
Any-map P f (x ∷ xs) (inl p) = inl p
Any-map P f (x ∷ xs) (inr a) = inr (Any-map P f xs a)

Any-weaken :
    {A : Type 0} (P Q : A → Type 0) (xs : List A) → ((x : A) → P x → Q x) → Any P xs → Any Q xs
Any-weaken P Q [] f a = a
Any-weaken P Q (x ∷ xs) f (inl p) = inl (f x p)
Any-weaken P Q (x ∷ xs) f (inr a) = inr (Any-weaken P Q xs f a)

Any-cons :
    (P : ℕ × ℕ → Type 0) (i j : ℕ × ℕ) (ks js : List (ℕ × ℕ))
    → (Any P ks → P i ⊎ Any P js)
    → Any P (j ∷ ks)
    → P i ⊎ Any P (j ∷ js)
Any-cons P i j ks js f (inl p) = inr (inl p)
Any-cons P i j ks js f (inr a) = elim (f a) [ inl p ↦ inl p | inr b ↦ inr (inr b) ]

insert-Any :
    (P : ℕ × ℕ → Type 0) (i : ℕ × ℕ) (js : List (ℕ × ℕ)) → Any P (insert i js) → P i ⊎ Any P js
unfolding insert
insert-Any P i [] (inl p) = inl p
insert-Any P i [] (inr a) = elim a [ ]
insert-Any P i (j ∷ js) a = elim (Bool-cases (before_or_same i j)) [
  | inl before ↦ subst (Any P) (if-true _ _ before) a
  | inr after ↦
      Any-cons P i j (insert i js) js (insert-Any P i js) (subst (Any P) (if-false _ _ after) a)
]

sorted-Any : (P : ℕ × ℕ → Type 0) (is : List (ℕ × ℕ)) → Any P (sorted is) → Any P is
unfolding sorted
sorted-Any P [] a = a
sorted-Any P (i ∷ is) a = elim (insert-Any P i (sorted is) a) [
  | inl p ↦ inl p
  | inr b ↦ inr (sorted-Any P is b)
]

-- A number is in an interval.
abbrev pub IsIn : ℕ → ℕ × ℕ → Type 0
IsIn n (start, end) = (start ≤ n) × (n ≤ end)

cover-Any :
    (next : ℕ) (is : List (ℕ × ℕ)) {stop : ℕ} (n : ℕ)
    → cover next is ≡ ok stop
    → next ≤ n
    → n < stop
    → Any (IsIn n) is
unfolding cover
cover-Any next [] n h low high = omega (arith, low, high, ok_injective h)
cover-Any next ((start, end) ∷ rest) {stop} n h low high =
    let (same, h1) = guard-ok _ undeclared_gap _ h in
    let is_next = ==_eq start next same in
    elim (Bool-cases (leb n end)) [
      | inl inside ↦ inl (omega (arith, is_next, low), ground arith)
      | inr after ↦ inr (cover-Any (end + 1) rest {stop = stop} n h1 (ground arith) high)
    ]

-- A number of the cut is that of a record or in a declared gap.
unfoldable pub IsAccounted : List SourceRecord → List MissingRange → ℕ → Type 0
IsAccounted records missing n =
    Any (λ r. r.record_seq ≡ n) records
    ⊎ Any (λ g. (g.first_record_seq ≤ n) × (n ≤ g.last_record_seq)) missing

intervals-IsAccounted :
    (records : List SourceRecord) (missing : List MissingRange) (n : ℕ)
    → Any (IsIn n) (intervals records missing)
    → IsAccounted records missing n
unfolding intervals IsAccounted
intervals-IsAccounted records missing n a =
    elim (Any-append (IsIn n) (map (λ r. (r.record_seq, r.record_seq)) records) _ a) [
      | inl b ↦ inl (
          Any-weaken _ _ records (λ r inside. omega (arith, inside.0, inside.1))
            (Any-map (IsIn n) (λ r. (r.record_seq, r.record_seq)) records b))
      | inr b ↦ inr (Any-map (IsIn n) (λ g. (g.first_record_seq, g.last_record_seq)) missing b)
    ]

below_stop : (n : ℕ) {last stop : ℕ} → n ≤ last → stop ≡ last + 1 → n < stop
below_stop n high stops = omega (arith, high, stops)

accounted-IsAccounted :
    (q : LogRequest) (t : LogResult) (records : List SourceRecord) (n : ℕ)
    → accounted q t records ≡ ok tt
    → q.requested.first_record_seq ≤ n
    → n ≤ q.requested.last_record_seq
    → IsAccounted records t.missing n
unfolding accounted
accounted-IsAccounted q t records n h low high =
    let (stop, covers, h1) =
      >>=-ok (cover q.requested.first_record_seq (sorted (intervals records t.missing))) _ h in
    let (end, h2) = guard-ok _ cut_not_covered _ h1 in
    intervals-IsAccounted records t.missing n (
      sorted-Any (IsIn n) (intervals records t.missing) (
        cover-Any q.requested.first_record_seq (sorted (intervals records t.missing)) n covers low
          (below_stop n high (==_eq stop (q.requested.last_record_seq + 1) end))))

no_gaps-eq : (missing : List MissingRange) → no_gaps missing ≡ true → missing ≡ []
unfolding no_gaps
no_gaps-eq [] h = refl
no_gaps-eq (g ∷ gs) h = cc

same-right : (a b : Bool) → Log.same a b ≡ true → a ≡ true → b ≡ true
unfolding Log.same
same-right true b h e = h
same-right false b h e = cc

complete_gaps :
    (t : LogResult) → result_valid t ≡ true → is_complete t.status ≡ true → t.missing ≡ []
unfolding result_valid gaps
complete_gaps t h complete =
    let (h1, partial) =
      &&-true _ (Log.partial_ok t.status t.record_count (Log.range_count t.requested))
        (&&-true _ (gaps t) h).1 in
    let (h2, highwater) = &&-true _ (leb t.requested.last_record_seq t.snapshot_highwater) h1 in
    let (h3, count) =
      &&-true _ (t.record_count + Log.missing_count t.missing == Log.range_count t.requested) h2 in
    let (h4, empty) =
      &&-true _
        (not (Log.is_unavailable t.status) || ((t.record_count == 0) && (t.byte_length == 0))) h3 in
    let (h5, ordered) =
      &&-true _ (Log.gaps_ordered t.requested t.requested.first_record_seq t.missing) h4 in
    let same_ = (&&-true _ (Log.endpoints_ok t.available_first_seq t.available_last_seq) h5).0 in
    no_gaps-eq t.missing (same-right _ _ same_ complete)

IsAccounted-record :
    (records : List SourceRecord) (missing : List MissingRange) (n : ℕ)
    → missing ≡ []
    → IsAccounted records missing n
    → Any (λ r. r.record_seq ≡ n) records
unfolding IsAccounted
IsAccounted-record records missing n h (inl a) = a
IsAccounted-record records missing n h (inr a) =
    elim (subst (Any (λ g. (g.first_record_seq ≤ n) × (n ≤ g.last_record_seq))) h a) [ ]

module _ (sha256 : List ℕ → ℕ) (load : List ℕ → Option SourceRecord)
    (canonical : SourceRecord → List ℕ) where
  -- A transfer that passes accounts for its whole cut: each number of it is that of a record that was received,
  -- or in a gap that the result declares, and the former if the result is complete.
  pub validate_log_transfer-IsAccounted :
      (q : LogRequest) (chunks : List LogChunk) (t : LogResult) {records : List SourceRecord}
      (n : ℕ)
      → validate_log_transfer sha256 load canonical q chunks t ≡ ok records
      → q.requested.first_record_seq ≤ n
      → n ≤ q.requested.last_record_seq
      → IsAccounted records t.missing n
        × (is_complete t.status ≡ true → Any (λ r. r.record_seq ≡ n) records)
  unfolding validate_log_transfer
  validate_log_transfer-IsAccounted q chunks t {records} n h low high =
      let (request, h1) = guard-ok _ invalid_request _ h in
      let (result, h2) = guard-ok _ invalid_result _ h1 in
      let (same, h3) = guard-ok _ result_mismatch _ h2 in
      let (bytes, are_bytes, h4) =
        >>=-ok
          (collect sha256 load canonical q t (record { data_ = []; seen = []; next_index = 0 })
            chunks)
          _ h3 in
      let (content, h5) = guard-ok _ content_mismatch _ h4 in
      let (whole, h6) = guard-ok _ incomplete_record _ h5 in
      let (rs, are_records, h7) =
        >>=-ok (read_records sha256 load canonical q t [] (splitlines bytes.data_)) _ h6 in
      let (count, h8) = guard-ok _ count_mismatch _ h7 in
      let (u, accounts, h9) = >>=-ok (accounted q t rs) _ h8 in
      let all = accounted-IsAccounted q t rs n accounts low high in
      subst
        (λ xs.
          IsAccounted xs t.missing n
          × (is_complete t.status ≡ true → Any (λ r. r.record_seq ≡ n) xs))
        (ok_injective h9)
        (all, λ complete. IsAccounted-record rs t.missing n (complete_gaps t result complete) all)
