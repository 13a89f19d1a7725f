-- ===== src/Archive/Retransmit.antt =====
-- Retransmitted chunks in `append_chunk` of backend/app/services/v2_source_logs.py.
use smd_web_hmi.Prelude.{
  split_lines, ℕ, ◌≡◌, refl, sym, ◌∙◌, inl, inr, false, not, ◌||◌, Option, none, some, List, ◌∷◌,
  ◌++◌, ◌==◌, ==_eq, Bool-cases, if-cases, if-false, some_injective, Result, ok, err, >>=-ok,
  guard-ok, ok_injective,
}
use mathlib.Core.Path.{subst}
use smd_web_hmi.Transfer.Model.{LogRequest, LogChunk, LogAck, request_valid}
use smd_web_hmi.Archive.Model.{
  Bindings, Frame, TransferRow, ChunkRow, Db, SourceRecord, StoreError, log_chunk, is_receiving,
  is_failed, same_chunk, same_request, same_bindings, find_transfer, find_chunk, invalid_base64,
  chunk_conflict, highwater_changed, byte_budget, line_too_long, record_budget,
}
use smd_web_hmi.Archive.Receive
use smd_web_hmi.Archive.Receive.{
  Scan, new_transfer, begin_with, bindings_ok, fail_row, fail, absorb, ack_of, receive,
  commit_chunk, append_to, append_found, or_fail, bound, received,
}
use smd_web_hmi.Archive.Trace.{Step, Reach, here, next}
use smd_web_hmi.Archive.Growth.{
  IsKept, IsGrown, IsKept-refl, IsGrown-refl, IsGrown-trans, put_transfer-IsGrown,
  add_chunk-find_chunk, none_not_some,
}

-- The tables that a call leaves keep those before it.
abbrev Grows : {A : Type 0} → Db → Result StoreError A × Db → Type 0
Grows db x = IsGrown db x.1

fail_row-IsKept : (r : TransferRow) → IsKept r (fail_row r)
unfolding fail_row
fail_row-IsKept r =
    if-cases (IsKept r) (is_receiving r.status) _ _ record { id = refl; bindings = refl }
      (IsKept-refl r)

-- A key that is not there is not the key of a row that is.
other_key :
    (key id : ℕ) (rs : List TransferRow) {r : TransferRow}
    → find_transfer key rs ≡ none
    → find_transfer id rs ≡ some r
    → (key == id) ≡ false
other_key key id rs new found = elim (Bool-cases (key == id)) [
  | inl same ↦
      elim (none_not_some
        (sym (subst (λ x. find_transfer x rs ≡ none) (==_eq key id same) new) ∙ found)) [ ]
  | inr other ↦ other
]

received-IsKept :
    (part : LogChunk) (r : TransferRow) (rest : List ℕ) (scan : Scan)
    → IsKept r (received part r rest scan)
unfolding received
received-IsKept part r rest scan = record { id = refl; bindings = refl }

add_transfer-IsGrown :
    (q : LogRequest) (b : Bindings) (db : Db)
    → find_transfer q.transfer_id db.transfers ≡ none
    → IsGrown db (record db { transfers = new_transfer q b ∷ db.transfers })
unfolding find_transfer new_transfer
add_transfer-IsGrown q b db new = record {
  chunk = λ id index h. h;
  transfer = λ id {r} found. (
    r,
    if-false {b = q.transfer_id == id} _ _ (other_key q.transfer_id id db.transfers new found)
        ∙ found,
    IsKept-refl r,
  );
}

begin_with-Grows :
    (q : LogRequest) (b : Bindings) (found : Option TransferRow) (db : Db)
    → find_transfer q.transfer_id db.transfers ≡ found
    → Grows db (begin_with q b found db)
unfolding begin_with
begin_with-Grows q b none db h = add_transfer-IsGrown q b db h
begin_with-Grows q b (some r) db h =
    if-cases (Grows {A = Receive.Progress} db)
      (not (same_request r.request q) || not (same_bindings r.bindings b)) _ _ (IsGrown-refl db)
      (IsGrown-refl db)

module _ (sha256 : List ℕ → ℕ) (load : List ℕ → Option SourceRecord)
    (canonical : SourceRecord → List ℕ) where
  receive-IsKept :
      (part : LogChunk) (r : TransferRow) {r' : TransferRow}
      → receive sha256 load canonical part r ≡ ok r'
      → IsKept r r'
  unfolding receive
  receive-IsKept part r {r'} h =
      let (size, h1) = guard-ok _ invalid_base64 _ h in
      let (fits, h2) = guard-ok _ chunk_conflict _ h1 in
      let (highwater, h3) = guard-ok _ highwater_changed _ h2 in
      let (budget, h4) = guard-ok _ byte_budget _ h3 in
      let (line, h5) = guard-ok _ line_too_long _ h4 in
      let (scan, is_scan, h6) =
        >>=-ok
          (absorb sha256 load canonical r.request
            (record { committed = r.committed_record_seq; count = r.record_count })
            (split_lines (r.pending_bytes ++ part.data_b64)).0)
          _ h5 in
      let (many, h7) = guard-ok _ record_budget _ h6 in
      subst (IsKept r) (ok_injective h7) (received-IsKept part r _ scan)

  commit_chunk-Grows :
      (part : LogChunk) (r : TransferRow) (db : Db) (x : Result StoreError TransferRow)
      → receive sha256 load canonical part r ≡ x
      → find_transfer part.transfer_id db.transfers ≡ some r
      → find_chunk part.transfer_id part.chunk_index db.chunks ≡ none
      → Grows db (commit_chunk sha256 load canonical part x db)
  unfolding commit_chunk
  commit_chunk-Grows part r db (err e) eq found new = IsGrown-refl db
  commit_chunk-Grows part r db (ok r') eq found new =
      let g =
        put_transfer-IsGrown part.transfer_id (λ _. r') db
          (λ s is_s.
            subst (λ y. IsKept y r') (some_injective (sym found ∙ is_s))
              (receive-IsKept part r eq)) in
      record {
        chunk = λ id index h. add_chunk-find_chunk _ db.chunks id index new h;
        transfer = g.transfer;
      }

  append_to-Grows :
      (part : LogChunk) (r : TransferRow) (previous : Option ChunkRow) (db : Db)
      → find_transfer part.transfer_id db.transfers ≡ some r
      → find_chunk part.transfer_id part.chunk_index db.chunks ≡ previous
      → Grows db (append_to sha256 load canonical part r previous db)
  unfolding append_to
  append_to-Grows part r (some c) db found previous =
      if-cases (Grows {A = LogAck} db) (same_chunk c.metadata part) _ _ (IsGrown-refl db)
        (IsGrown-refl db)
  append_to-Grows part r none db found previous =
      if-cases (Grows {A = LogAck} db) (is_receiving r.status) _ _
        (commit_chunk-Grows part r db (receive sha256 load canonical part r) refl found previous)
        (IsGrown-refl db)

  append_found-Grows :
      (f : Frame) (part : LogChunk) (found : Option TransferRow) (db : Db)
      → find_transfer part.transfer_id db.transfers ≡ found
      → Grows db (append_found sha256 load canonical f part found db)
  unfolding append_found
  append_found-Grows f part none db h = IsGrown-refl db
  append_found-Grows f part (some r) db h =
      if-cases (Grows {A = LogAck} db) (not (bound r f log_chunk)) _ _ (IsGrown-refl db) (
        if-cases (Grows {A = LogAck} db) (is_failed r.status) _ _ (IsGrown-refl db) (
          append_to-Grows part r (find_chunk part.transfer_id part.chunk_index db.chunks) db h
            refl))

  or_fail-Grows :
      (db : Db) (id : ℕ) (x : Result StoreError LogAck × Db)
      → Grows db x
      → Grows db (or_fail sha256 load canonical id x)
  unfolding or_fail fail
  or_fail-Grows db id (ok ack, a) g = g
  or_fail-Grows db id (err e, a) g =
      IsGrown-trans g (put_transfer-IsGrown id fail_row a (λ s _. fail_row-IsKept s))

  pub Step-IsGrown : {db db' : Db} → Step sha256 load canonical db db' → IsGrown db db'
  unfolding Receive.begin Receive.append_chunk
  Step-IsGrown {db} (Step.begin q b) =
      if-cases (Grows {A = Receive.Progress} db) (not (request_valid q)) _ _ (IsGrown-refl db) (
        if-cases (Grows {A = Receive.Progress} db) (not (bindings_ok b)) _ _ (IsGrown-refl db)
          (begin_with-Grows q b (find_transfer q.transfer_id db.transfers) db refl))
  Step-IsGrown {db} (Step.append_chunk f part) =
      or_fail-Grows db part.transfer_id _
        (append_found-Grows f part (find_transfer part.transfer_id db.transfers) db refl)

  pub Reach-IsGrown : {db db' : Db} → Reach sha256 load canonical db db' → IsGrown db db'
  Reach-IsGrown {db} here = IsGrown-refl db
  Reach-IsGrown (next r s) = IsGrown-trans (Reach-IsGrown r) (Step-IsGrown s)
