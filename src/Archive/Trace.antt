-- ===== src/Archive/Trace.antt =====
-- Histories of the transfers of `V2SourceLogStore`, backend/app/services/v2_source_logs.py: any calls of `begin`
-- and `append_chunk`.
use smd_web_hmi.Prelude.{
  split_lines, ℕ, ◌+◌, ◌≤◌, ◌≡◌, refl, sym, ◌∙◌, inl, inr, true, not, ◌||◌, Option, none, some,
  List, [], ◌∷◌, ◌++◌, leb, ◌==◌, &&-true, length, All, arith, Bool-cases, if-cases, if-true,
  if-false, some_injective, Result, ok, err, guard-ok, >>=-ok, ok_injective,
}
use mathlib.Core.Path.{subst}
use smd_web_hmi.Transfer.Model.{LogRequest, LogChunk, LogAck, request_valid}
use smd_web_hmi.Archive.Model.{
  Bindings, Frame, TransferRow, ChunkRow, Db, SourceRecord, StoreError, invalid_base64,
  chunk_conflict, highwater_changed, byte_budget, line_too_long, not_canonical, record_order,
  record_budget, is_receiving, is_failed, same_chunk, log_chunk, same_request, same_bindings,
  find_transfer, put_transfer, find_chunk,
}
use smd_web_hmi.Archive.Receive
use smd_web_hmi.Archive.Receive.{
  new_transfer, begin_with, bindings_ok, fail_row, fail, Scan, follows, read_line, absorb_line,
  absorb, highwater_fits, received, receive, commit_chunk, append_to, append_found, or_fail, bound,
}

-- The number that was committed last is in the cut of the request.
unfoldable pub IsInCut : LogRequest → Option ℕ → Type 0
IsInCut q none = Unit
IsInCut q (some seq) = (q.requested.first_record_seq ≤ seq) × (seq ≤ q.requested.last_record_seq)

-- What a transfer keeps is within its budget.
pub record IsBounded (r : TransferRow) : Type 0 where
  pub bytes : r.next_offset ≤ r.request.max_bytes
  pub records : r.record_count ≤ r.request.max_records
  pub pending : length r.pending_bytes ≤ 8192
  pub cut : IsInCut r.request r.committed_record_seq

-- The tables that a call leaves.
abbrev AllBounded : {A : Type 0} → Result StoreError A × Db → Type 0
AllBounded x = All IsBounded x.1.transfers

follows-IsInCut :
    (q : LogRequest) (last : Option ℕ) (seq : ℕ)
    → IsInCut q last
    → follows q last seq ≡ true
    → leb seq q.requested.last_record_seq ≡ true
    → IsInCut q (some seq)
unfolding IsInCut follows
follows-IsInCut q none seq i f l = (ground arith, ground arith)
follows-IsInCut q (some last) seq i f l = (ground arith, ground arith)

received-IsBounded :
    (part : LogChunk) (r : TransferRow) (rest : List ℕ) (scan : Scan)
    → r.next_offset + length part.data_b64 ≤ r.request.max_bytes
    → length rest ≤ 8192
    → scan.count ≤ r.request.max_records
    → IsInCut r.request scan.committed
    → IsBounded (received part r rest scan)
unfolding received
received-IsBounded part r rest scan bytes pending records cut = record {
  bytes = bytes;
  records = records;
  pending = pending;
  cut = cut;
}

put_transfer-All :
    {P : TransferRow → Type 0} (id : ℕ) (f : TransferRow → TransferRow) (rs : List TransferRow)
    → ((r : TransferRow) → P r → P (f r))
    → All P rs
    → All P (put_transfer id f rs)
unfolding put_transfer
put_transfer-All id f [] h all = tt
put_transfer-All {P} id f (r ∷ rs) h (p, ps) =
    if-cases (All P) (r.transfer_id == id) (f r ∷ rs) (r ∷ put_transfer id f rs) (h r p, ps)
      (p, put_transfer-All {P = P} id f rs h ps)

pub find_transfer-All :
    (P : TransferRow → Type 0) (id : ℕ) (rs : List TransferRow) {r : TransferRow}
    → find_transfer id rs ≡ some r
    → All P rs
    → P r
unfolding find_transfer
find_transfer-All P id [] h all = cc
find_transfer-All P id (s ∷ rs) {r} h (p, ps) = elim (Bool-cases (s.transfer_id == id)) [
  | inl same ↦ subst P (some_injective (sym (if-true _ _ same) ∙ h)) p
  | inr other ↦ find_transfer-All P id rs {r = r} (sym (if-false _ _ other) ∙ h) ps
]

leb-true : (a b : ℕ) → leb a b ≡ true → a ≤ b
leb-true a b h = ground arith

module _ (sha256 : List ℕ → ℕ) (load : List ℕ → Option SourceRecord)
    (canonical : SourceRecord → List ℕ) where
  absorb_line-IsInCut :
      (q : LogRequest) (s : Scan) (line : List ℕ) {s' : Scan}
      → absorb_line sha256 load canonical q s line ≡ ok s'
      → IsInCut q s.committed
      → IsInCut q s'.committed
  unfolding absorb_line
  absorb_line-IsInCut q s line {s'} h i =
      let (r, is_r, h1) = >>=-ok (read_line sha256 load canonical line) _ h in
      let (exact, h2) = guard-ok _ not_canonical _ h1 in
      let (order, h3) = guard-ok _ record_order _ h2 in
      let (first, last) = &&-true _ (leb r.record_seq q.requested.last_record_seq) order in
      let (log, next) =
        &&-true (r.log_id == q.requested.log_id) (follows q s.committed r.record_seq) first in
      subst (λ x. IsInCut q x.committed) (ok_injective h3)
        (follows-IsInCut q s.committed r.record_seq i next last)

  absorb-IsInCut :
      (q : LogRequest) (s : Scan) (lines : List (List ℕ)) {s' : Scan}
      → absorb sha256 load canonical q s lines ≡ ok s'
      → IsInCut q s.committed
      → IsInCut q s'.committed
  unfolding absorb
  absorb-IsInCut q s [] h i = subst (λ x. IsInCut q x.committed) (ok_injective h) i
  absorb-IsInCut q s (line ∷ lines) {s'} h i =
      let (next, is_next, h1) = >>=-ok (absorb_line sha256 load canonical q s line) _ h in
      absorb-IsInCut q next lines {s' = s'} h1 (absorb_line-IsInCut q s line is_next i)

  receive-IsBounded :
      (part : LogChunk) (r : TransferRow) {r' : TransferRow}
      → receive sha256 load canonical part r ≡ ok r'
      → IsBounded r
      → IsBounded r'
  unfolding receive
  receive-IsBounded part r {r'} h b =
      let (size, h1) = guard-ok _ invalid_base64 _ h in
      let (fits, h2) = guard-ok _ chunk_conflict _ h1 in
      let (highwater, h3) = guard-ok _ highwater_changed _ h2 in
      let (budget, h4) = guard-ok _ byte_budget _ h3 in
      let (line, h5) = guard-ok _ line_too_long _ h4 in
      let (scan, is_scan, h6) =
        >>=-ok
          (absorb sha256 load canonical r.request
            (record { committed = r.committed_record_seq; count = r.record_count })
            (split_lines (r.pending_bytes ++ part.data_b64)).0)
          _ h5 in
      let (many, h7) = guard-ok _ record_budget _ h6 in
      subst IsBounded (ok_injective h7) (
        received-IsBounded part r _ scan (leb-true _ _ budget) (leb-true _ _ line)
          (leb-true _ _ many) (absorb-IsInCut r.request _ _ is_scan b.cut))

  pub data Step (db : Db) : Db → Type 0 where
    begin : (q : LogRequest) (b : Bindings) → Step db (Receive.begin q b db).1
    append_chunk :
        (f : Frame) (part : LogChunk)
        → Step db (Receive.append_chunk sha256 load canonical f part db).1

  pub data Reach (db : Db) : Db → Type 0 where
    here : Reach db db
    next : {a b : Db} → Reach db a → Step a b → Reach db b

  begin_with-All :
      (q : LogRequest) (b : Bindings) (found : Option TransferRow) (db : Db)
      → All IsBounded db.transfers
      → AllBounded (begin_with q b found db)
  unfolding begin_with new_transfer IsInCut
  begin_with-All q b none db h =
      (record { bytes = omega arith; records = omega arith; pending = omega arith; cut = tt }, h)
  begin_with-All q b (some r) db h =
      if-cases (AllBounded {A = Receive.Progress})
        (not (same_request r.request q) || not (same_bindings r.bindings b)) _ _ h h

  commit_chunk-All :
      (part : LogChunk) (r : TransferRow) (db : Db)
      → IsBounded r
      → All IsBounded db.transfers
      → (received : Result StoreError TransferRow) → receive sha256 load canonical part r ≡ received
      → AllBounded (commit_chunk sha256 load canonical part received db)
  unfolding commit_chunk
  commit_chunk-All part r db b h (err e) eq = h
  commit_chunk-All part r db b h (ok r') eq =
      put_transfer-All part.transfer_id (λ _. r') db.transfers
        (λ _ _. receive-IsBounded part r eq b) h

  append_to-All :
      (part : LogChunk) (r : TransferRow) (previous : Option ChunkRow) (db : Db)
      → IsBounded r
      → All IsBounded db.transfers
      → AllBounded (append_to sha256 load canonical part r previous db)
  unfolding append_to
  append_to-All part r (some c) db b h =
      if-cases (AllBounded {A = LogAck}) (same_chunk c.metadata part) _ _ h h
  append_to-All part r none db b h =
      if-cases (AllBounded {A = LogAck}) (is_receiving r.status) _ _
        (commit_chunk-All part r db b h (receive sha256 load canonical part r) refl) h

  append_found-All :
      (f : Frame) (part : LogChunk) (found : Option TransferRow) (db : Db)
      → ((r : TransferRow) → found ≡ some r → IsBounded r)
      → All IsBounded db.transfers
      → AllBounded (append_found sha256 load canonical f part found db)
  unfolding append_found
  append_found-All f part none db b h = h
  append_found-All f part (some r) db b h =
      if-cases (AllBounded {A = LogAck}) (not (bound r f log_chunk)) _ _ h (
        if-cases (AllBounded {A = LogAck}) (is_failed r.status) _ _ h (
          append_to-All part r (find_chunk part.transfer_id part.chunk_index db.chunks) db
            (b r refl) h))

  fail_row-IsBounded : (r : TransferRow) → IsBounded r → IsBounded (fail_row r)
  unfolding fail_row
  fail_row-IsBounded r b =
      if-cases IsBounded (is_receiving r.status) _ _
        record { bytes = b.bytes; records = b.records; pending = b.pending; cut = b.cut } b

  or_fail-All :
      (id : ℕ) (x : Result StoreError LogAck × Db)
      → AllBounded x
      → AllBounded (or_fail sha256 load canonical id x)
  unfolding or_fail fail
  or_fail-All id (ok ack, db) h = h
  or_fail-All id (err e, db) h = put_transfer-All id fail_row db.transfers fail_row-IsBounded h

  Step-All : {db db' : Db} → Step db db' → All IsBounded db.transfers → All IsBounded db'.transfers
  unfolding Receive.begin Receive.append_chunk
  Step-All {db} (begin q b) h =
      if-cases (AllBounded {A = Receive.Progress}) (not (request_valid q)) _ _ h (
        if-cases (AllBounded {A = Receive.Progress}) (not (bindings_ok b)) _ _ h
          (begin_with-All q b (find_transfer q.transfer_id db.transfers) db h))
  Step-All {db} (append_chunk f part) h = or_fail-All part.transfer_id _ (
      append_found-All f part (find_transfer part.transfer_id db.transfers) db
        (λ r found. find_transfer-All IsBounded part.transfer_id db.transfers found h) h)

  -- Over any calls, from tables in which it holds: every transfer keeps no more bytes, records and pending bytes
  -- than its request and the line length allow, and its last committed number is in the requested cut.
  pub Reach-IsBounded :
      {db db' : Db} → Reach db db' → All IsBounded db.transfers → All IsBounded db'.transfers
  Reach-IsBounded here h = h
  Reach-IsBounded (next r s) h = Step-All s (Reach-IsBounded r h)
