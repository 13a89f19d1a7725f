-- ===== src/Archive/Tied.antt =====
-- What backend/app/services/v2_source_logs.py keeps of a transfer, over any calls of `begin` and
-- `append_chunk`, is within its budget.
use smd_web_hmi.Prelude.{
  split_lines, ℕ, ◌+◌, ◌≤◌, ◌≡◌, refl, sym, ap, ◌∙◌, inl, inr, not, ◌||◌, Option, none, some, List,
  [], ◌∷◌, ◌++◌, ◌==◌, length, arith, Bool-cases, if-cases, if-true, if-false, Result, ok, err,
  guard-ok, >>=-ok, ok_injective, ==_eq,
}
use mathlib.Core.Path.{subst}
use smd_web_hmi.Transfer.Model.{LogRequest, LogChunk, LogAck, request_valid}
use smd_web_hmi.Archive.Model.{
  Bindings, Frame, TransferRow, ChunkRow, Db, SourceRecord, StoreError, invalid_base64,
  chunk_conflict, highwater_changed, byte_budget, line_too_long, not_canonical, record_order,
  record_budget, is_receiving, is_failed, same_chunk, log_chunk, same_request, same_bindings,
  find_transfer, put_transfer, find_chunk,
}
use smd_web_hmi.Archive.Receive
use smd_web_hmi.Archive.Receive.{
  new_transfer, begin_with, bindings_ok, fail_row, fail, Scan, read_line, absorb_line, absorb,
  received, receive, commit_chunk, append_to, append_found, or_fail, bound,
}
use smd_web_hmi.Archive.Trace.{
  Step, Reach, here, next, begin, append_chunk, IsInCut, IsBounded, Reach-IsBounded,
  find_transfer-All,
}
use smd_web_hmi.Archive.Stored.{
  line_feeds, stored_bytes, stored_lines, line_feeds-append, split_lines-line_feeds, IsTied,
  AllTied, find_transfer-put_same, find_transfer-put_other, find_transfer-id, other-IsTied,
}

-- The tables that a call leaves.
abbrev AreTied : {A : Type 0} → Result StoreError A × Db → Type 0
AreTied x = AllTied x.1

fail_row-IsTied :
    (id : ℕ) (r : TransferRow) (cs : List ChunkRow)
    → IsTied id (some r) cs
    → IsTied id (some (fail_row r)) cs
unfolding fail_row
fail_row-IsTied id r cs h = ground arith

fail_row-id : (r : TransferRow) → (fail_row r).transfer_id ≡ r.transfer_id
unfolding fail_row
fail_row-id r = ground arith

find_transfer-put_none :
    (id : ℕ) (f : TransferRow → TransferRow) (rs : List TransferRow)
    → find_transfer id rs ≡ none
    → find_transfer id (put_transfer id f rs) ≡ none
unfolding find_transfer put_transfer
find_transfer-put_none id f [] h = refl
find_transfer-put_none id f (s ∷ rs) h =
    ground (arith, find_transfer-put_none id f rs (ground arith))

fail-same :
    (id : ℕ) (db : Db) (o : Option TransferRow)
    → find_transfer id db.transfers ≡ o
    → IsTied id o db.chunks
    → IsTied id (find_transfer id (put_transfer id fail_row db.transfers)) db.chunks
fail-same id db none e h =
    subst (λ x. IsTied id x db.chunks) (sym (find_transfer-put_none id fail_row db.transfers e)) h
fail-same id db (some r) e h =
    subst (λ x. IsTied id x db.chunks)
      (sym (
        find_transfer-put_same id fail_row db.transfers e
          (fail_row-id r ∙ find_transfer-id id db.transfers e)))
      (fail_row-IsTied id r db.chunks h)

fail-AllTied : (at : ℕ) (db : Db) → AllTied db → AllTied (fail at db)
unfolding fail
fail-AllTied at db h id = elim (Bool-cases (at == id)) [
  | inl same ↦
      subst (λ x. IsTied id (find_transfer id (put_transfer x fail_row db.transfers)) db.chunks)
        (sym (==_eq at id same)) (fail-same id db (find_transfer id db.transfers) refl (h id))
  | inr other ↦
      subst (λ x. IsTied id x db.chunks)
        (sym (find_transfer-put_other at id fail_row db.transfers other (λ r e. fail_row-id r ∙ e)))
        (h id)
]

new-AllTied :
    (row : TransferRow) (db : Db)
    → find_transfer row.transfer_id db.transfers ≡ none
    → row.next_offset ≡ 0
    → row.record_count ≡ 0
    → row.pending_bytes ≡ []
    → AllTied db
    → AllTied (record db { transfers = row ∷ db.transfers })
unfolding find_transfer
new-AllTied row db free bytes lines pending h id = elim (Bool-cases (row.transfer_id == id)) [
  | inl same ↦
      let nothing : IsTied id none db.chunks =
        subst (λ x. IsTied id x db.chunks)
          (subst (λ x. find_transfer x db.transfers ≡ none) (==_eq row.transfer_id id same) free)
          (h id) in
      subst (λ x. IsTied id x db.chunks) (sym (if-true _ _ same))
        (bytes ∙ sym nothing.0, lines ∙ sym nothing.1, ap line_feeds pending)
  | inr other ↦ subst (λ x. IsTied id x db.chunks) (sym (if-false _ _ other)) (h id)
]

module _ (sha256 : List ℕ → ℕ) (load : List ℕ → Option SourceRecord)
    (canonical : SourceRecord → List ℕ) where
  absorb_line-count :
      (q : LogRequest) (s : Scan) (line : List ℕ) {s' : Scan}
      → absorb_line sha256 load canonical q s line ≡ ok s'
      → s'.count ≡ s.count + 1
  unfolding absorb_line
  absorb_line-count q s line {s'} h =
      let (r, is_r, h1) = >>=-ok (read_line sha256 load canonical line) _ h in
      let (exact, h2) = guard-ok _ not_canonical _ h1 in
      let (order, h3) = guard-ok _ record_order _ h2 in
      sym (ap (λ (x : Scan). x.count) (ok_injective h3))

  absorb-count :
      (q : LogRequest) (s : Scan) (lines : List (List ℕ)) {s' : Scan}
      → absorb sha256 load canonical q s lines ≡ ok s'
      → s'.count ≡ s.count + length lines
  unfolding absorb
  absorb-count q s [] h = omega (arith, ap (λ (x : Scan). x.count) (ok_injective h))
  absorb-count q s (line ∷ lines) {s'} h =
      let (more, is_more, h1) = >>=-ok (absorb_line sha256 load canonical q s line) _ h in
      ground (arith, absorb_line-count q s line is_more, absorb-count q more lines {s' = s'} h1)

  -- What a chunk adds to a row.
  record IsAdded (part : LogChunk) (r r' : TransferRow) : Type 0 where
    id : r'.transfer_id ≡ r.transfer_id
    bytes : r'.next_offset ≡ r.next_offset + length part.data_b64
    lines : r'.record_count ≡ r.record_count + line_feeds part.data_b64
    pending : line_feeds r'.pending_bytes ≡ 0

  received-IsAdded :
      (part : LogChunk) (r : TransferRow) (scan : Scan)
      → scan.count ≡ r.record_count + length (split_lines (r.pending_bytes ++ part.data_b64)).0
      → line_feeds r.pending_bytes ≡ 0
      → IsAdded part r (received part r (split_lines (r.pending_bytes ++ part.data_b64)).1 scan)
  unfolding received
  received-IsAdded part r scan count free =
      let (lines, pending) = split_lines-line_feeds (r.pending_bytes ++ part.data_b64) in
      record {
        id = refl;
        bytes = refl;
        lines = omega (arith, count, lines, line_feeds-append r.pending_bytes part.data_b64, free);
        pending = pending;
      }

  receive-IsAdded :
      (part : LogChunk) (r : TransferRow) {r' : TransferRow}
      → receive sha256 load canonical part r ≡ ok r'
      → line_feeds r.pending_bytes ≡ 0
      → IsAdded part r r'
  unfolding receive
  receive-IsAdded part r {r'} h free =
      let all = r.pending_bytes ++ part.data_b64 in
      let (size, h1) = guard-ok _ invalid_base64 _ h in
      let (fits, h2) = guard-ok _ chunk_conflict _ h1 in
      let (highwater, h3) = guard-ok _ highwater_changed _ h2 in
      let (budget, h4) = guard-ok _ byte_budget _ h3 in
      let (line, h5) = guard-ok _ line_too_long _ h4 in
      let (scan, is_scan, h6) =
        >>=-ok
          (absorb sha256 load canonical r.request
            (record { committed = r.committed_record_seq; count = r.record_count })
            (split_lines all).0)
          _ h5 in
      let (many, h7) = guard-ok _ record_budget _ h6 in
      subst (IsAdded part r) (ok_injective h7)
        (received-IsAdded part r scan (absorb-count r.request _ (split_lines all).0 is_scan) free)

  commit_chunk-AllTied :
      (part : LogChunk) (r : TransferRow) (db : Db)
      → find_transfer part.transfer_id db.transfers ≡ some r
      → AllTied db
      → (x : Result StoreError TransferRow) → receive sha256 load canonical part r ≡ x
      → AreTied (commit_chunk sha256 load canonical part x db)
  unfolding commit_chunk
  commit_chunk-AllTied part r db found h (err e) eq = h
  commit_chunk-AllTied part r db found h (ok r') eq = λ id.
      let tied : IsTied part.transfer_id (some r) db.chunks =
        subst (λ x. IsTied part.transfer_id x db.chunks) found (h part.transfer_id) in
      let a = receive-IsAdded part r eq tied.2 in
      let is_id : r'.transfer_id ≡ part.transfer_id =
        a.id ∙ find_transfer-id part.transfer_id db.transfers found in
      elim (Bool-cases (part.transfer_id == id)) [
        | inl same ↦
            subst
              (λ n.
                IsTied n (find_transfer n (put_transfer part.transfer_id (λ _. r') db.transfers)) (
                  record { metadata = part; ack = Receive.ack_of sha256 load canonical part r' }
                  ∷ db.chunks))
              (==_eq part.transfer_id id same)
              (subst
                (λ x. IsTied part.transfer_id x (
                  record { metadata = part; ack = Receive.ack_of sha256 load canonical part r' }
                  ∷ db.chunks))
                (sym (find_transfer-put_same part.transfer_id (λ _. r') db.transfers found is_id))
                (ground (arith, a.bytes, tied.0), ground (arith, a.lines, tied.1), a.pending))
        | inr other ↦
            subst
              (λ x. IsTied id x (
                record { metadata = part; ack = Receive.ack_of sha256 load canonical part r' }
                ∷ db.chunks))
              (sym (
                find_transfer-put_other part.transfer_id id (λ _. r') db.transfers other
                  (λ s e. is_id)))
              (other-IsTied id (find_transfer id db.transfers) _ db.chunks other (h id))
      ]

  append_to-AllTied :
      (part : LogChunk) (r : TransferRow) (previous : Option ChunkRow) (db : Db)
      → find_transfer part.transfer_id db.transfers ≡ some r
      → AllTied db
      → AreTied (append_to sha256 load canonical part r previous db)
  unfolding append_to
  append_to-AllTied part r (some c) db found h =
      if-cases (AreTied {A = LogAck}) (same_chunk c.metadata part) _ _ h h
  append_to-AllTied part r none db found h =
      if-cases (AreTied {A = LogAck}) (is_receiving r.status) _ _
        (commit_chunk-AllTied part r db found h (receive sha256 load canonical part r) refl) h

  append_found-AllTied :
      (f : Frame) (part : LogChunk) (o : Option TransferRow) (db : Db)
      → find_transfer part.transfer_id db.transfers ≡ o
      → AllTied db
      → AreTied (append_found sha256 load canonical f part o db)
  unfolding append_found
  append_found-AllTied f part none db found h = h
  append_found-AllTied f part (some r) db found h =
      if-cases (AreTied {A = LogAck}) (not (bound r f log_chunk)) _ _ h (
        if-cases (AreTied {A = LogAck}) (is_failed r.status) _ _ h (
          append_to-AllTied part r (find_chunk part.transfer_id part.chunk_index db.chunks) db found
            h))

  or_fail-AllTied :
      (id : ℕ) (x : Result StoreError LogAck × Db)
      → AreTied x
      → AreTied (or_fail sha256 load canonical id x)
  unfolding or_fail
  or_fail-AllTied id (ok ack, db) h = h
  or_fail-AllTied id (err e, db) h = fail-AllTied id db h

  begin_with-AllTied :
      (q : LogRequest) (b : Bindings) (o : Option TransferRow) (db : Db)
      → find_transfer q.transfer_id db.transfers ≡ o
      → AllTied db
      → AreTied (begin_with q b o db)
  unfolding begin_with new_transfer
  begin_with-AllTied q b none db free h = new-AllTied (new_transfer q b) db free refl refl refl h
  begin_with-AllTied q b (some r) db free h =
      if-cases (AreTied {A = Receive.Progress})
        (not (same_request r.request q) || not (same_bindings r.bindings b)) _ _ h h

  Step-AllTied : {db db' : Db} → Step sha256 load canonical db db' → AllTied db → AllTied db'
  unfolding Receive.begin Receive.append_chunk
  Step-AllTied {db} (begin q b) h =
      if-cases (AreTied {A = Receive.Progress}) (not (request_valid q)) _ _ h (
        if-cases (AreTied {A = Receive.Progress}) (not (bindings_ok b)) _ _ h
          (begin_with-AllTied q b (find_transfer q.transfer_id db.transfers) db refl h))
  Step-AllTied {db} (append_chunk f part) h =
      or_fail-AllTied part.transfer_id _
        (append_found-AllTied f part (find_transfer part.transfer_id db.transfers) db refl h)

  Reach-AllTied : {db db' : Db} → Reach sha256 load canonical db db' → AllTied db → AllTied db'
  Reach-AllTied here h = h
  Reach-AllTied (next r s) h = Step-AllTied s (Reach-AllTied r h)

  -- After any calls of `begin` and `append_chunk` on empty tables: the stored chunks of a transfer have
  -- no more bytes and no more complete lines than its request allows, its pending bytes are at most 8192
  -- and have no line feed, and its last committed number is in the requested cut.
  pub Reach-stored :
      {db : Db} (id : ℕ) {r : TransferRow}
      → Reach sha256 load canonical (record { transfers = []; chunks = [] }) db
      → find_transfer id db.transfers ≡ some r
      → (stored_bytes id db.chunks ≤ r.request.max_bytes)
        × (stored_lines id db.chunks ≤ r.request.max_records)
        × (length r.pending_bytes ≤ 8192)
        × (line_feeds r.pending_bytes ≡ 0)
        × IsInCut r.request r.committed_record_seq
  unfolding find_transfer
  Reach-stored {db} id {r} h found =
      let b =
        find_transfer-All IsBounded id db.transfers found
          (Reach-IsBounded sha256 load canonical h tt) in
      let (bytes, lines, pending) =
        subst (λ o. IsTied id o db.chunks) found (Reach-AllTied h (λ i. (refl, refl)) id) in
      (omega (arith, b.bytes, bytes), omega (arith, b.records, lines), b.pending, pending, b.cut)
