-- ===== src/Archive/Receive.antt =====
-- `begin`, `_fail` and `append_chunk` of `V2SourceLogStore`, backend/app/services/v2_source_logs.py. The
-- reading of a line as a log record, its canonical JSON and SHA-256 are parameters.
use smd_web_hmi.Prelude.{
  split_lines, ℕ, ◌+◌, Bool, true, not, ◌&&◌, ◌||◌, Option, none, some, List, [], ◌∷◌, ◌++◌, ltb,
  leb, ◌==◌, ◌==?◌, is_some, length, if◌then◌else◌, Result, ok, err, ◌>>=◌, ◌>>◌, guard,
}
use smd_web_hmi.Codec.Assembler.{chunk_length_ok}
use smd_web_hmi.Transfer.Model.{LogRequest, LogChunk, LogAck, request_valid}
use smd_web_hmi.Archive.Model.{
  Bindings, FrameType, log_chunk, Frame, Status, receiving, failed, TransferRow, ChunkRow, Db,
  SourceRecord, StoreError, invalid_request, bindings_incomplete, transfer_conflict,
  unknown_transfer, response_mismatch, not_receiving, retransmission_conflict, invalid_base64,
  chunk_conflict, highwater_changed, byte_budget, line_too_long, invalid_record, not_canonical,
  record_order, record_budget, is_receiving, is_failed, same_frame_type, same_bindings,
  same_request, same_bytes, same_chunk, find_transfer, put_transfer, find_chunk,
}

pub record Progress : Type 0 where
  pub transfer_id : ℕ
  pub status : Status
  pub next_offset : ℕ
  pub next_index : ℕ
  pub committed_record_seq : Option ℕ

-- `_progress`
unfoldable pub progress_of : TransferRow → Progress
progress_of r = record {
  transfer_id = r.transfer_id;
  status = r.status;
  next_offset = r.next_offset;
  next_index = r.next_index;
  committed_record_seq = r.committed_record_seq;
}

-- The bindings are there together, or none of them.
unfoldable pub bindings_ok : Bindings → Bool
bindings_ok b =
    not (is_some b.request_msg_id || is_some b.session_id || is_some b.boot_id)
    || (is_some b.request_msg_id && is_some b.session_id && is_some b.boot_id)

unfoldable pub new_transfer : LogRequest → Bindings → TransferRow
new_transfer q b = record {
  transfer_id = q.transfer_id;
  request = q;
  bindings = b;
  status = receiving;
  next_offset = 0;
  next_index = 0;
  committed_record_seq = none;
  snapshot_highwater = none;
  pending_bytes = [];
  record_count = 0;
}

unfoldable pub begin_with :
    LogRequest → Bindings → Option TransferRow → Db → Result StoreError Progress × Db
unfolding progress_of new_transfer
begin_with q b none db =
    let row = new_transfer q b in
    (ok (progress_of row), record db { transfers = row ∷ db.transfers })
begin_with q b (some r) db =
    if not (same_request r.request q) || not (same_bindings r.bindings b)
    then (err transfer_conflict, db)
    else (ok (progress_of r), db)

-- `begin`
unfoldable pub begin : LogRequest → Bindings → Db → Result StoreError Progress × Db
unfolding begin_with bindings_ok
begin q b db =
    if not (request_valid q)
    then (err invalid_request, db)
    else (if not (bindings_ok b)
        then (err bindings_incomplete, db)
        else begin_with q b (find_transfer q.transfer_id db.transfers) db)

-- `_binding` finds no mismatch.
unfoldable pub bound : TransferRow → Frame → FrameType → Bool
bound r f expected =
    not (is_some r.bindings.request_msg_id)
    || (same_frame_type f.type_ expected
        && (f.reply_to ==? r.bindings.request_msg_id)
        && (f.session_id ==? r.bindings.session_id)
        && (f.boot_id ==? r.bindings.boot_id))

unfoldable pub fail_row : TransferRow → TransferRow
fail_row r = if is_receiving r.status then record r { status = failed } else r

-- `_fail`
unfoldable pub fail : ℕ → Db → Db
unfolding fail_row
fail id db = record db { transfers = put_transfer id fail_row db.transfers }

-- The variables of the loop over the lines.
pub record Scan : Type 0 where
  pub committed : Option ℕ
  pub count : ℕ

-- `seq <= last`, where `last` is the last committed number or the one before the first of the cut.
unfoldable pub follows : LogRequest → Option ℕ → ℕ → Bool
follows q none seq = leb q.requested.first_record_seq seq
follows q (some last) seq = ltb last seq

-- The row with a chunk of which the lines have been read.
unfoldable pub received : LogChunk → TransferRow → List ℕ → Scan → TransferRow
received part r rest scan = record r {
  pending_bytes = rest;
  committed_record_seq = scan.committed;
  record_count = scan.count;
  next_index = r.next_index + 1;
  next_offset = r.next_offset + length part.data_b64;
  snapshot_highwater = some part.snapshot_highwater;
}

module _ (sha256 : List ℕ → ℕ) (load : List ℕ → Option SourceRecord)
    (canonical : SourceRecord → List ℕ) where
  unfoldable pub read_line : List ℕ → Result StoreError SourceRecord
  read_line line = elim (load line) [ none ↦ err invalid_record | some r ↦ ok r ]

  -- A round of the loop over the lines.
  unfoldable pub absorb_line : LogRequest → Scan → List ℕ → Result StoreError Scan
  unfolding read_line follows
  absorb_line q s line = do
    r ← read_line line
    guard (same_bytes (canonical r) line) not_canonical
    guard
        ((r.log_id == q.requested.log_id)
          && follows q s.committed r.record_seq
          && leb r.record_seq q.requested.last_record_seq)
        record_order
    ok record { committed = some r.record_seq; count = s.count + 1 }

  unfoldable pub absorb : LogRequest → Scan → List (List ℕ) → Result StoreError Scan
  unfolding absorb_line
  absorb q s [] = ok s
  absorb q s (line ∷ lines) = do next ← absorb_line q s line; absorb q next lines

  -- `row.snapshot_highwater not in {None, part.snapshot_highwater}`
  unfoldable pub highwater_fits : Option ℕ → ℕ → Bool
  highwater_fits none highwater = true
  highwater_fits (some h) highwater = h == highwater

  unfoldable pub ack_of : LogChunk → TransferRow → LogAck
  ack_of part r = record {
    transfer_id = part.transfer_id;
    log_id = part.log_id;
    chunk_index = part.chunk_index;
    chunk_digest = part.chunk_digest;
    next_offset = r.next_offset;
    committed_record_seq = r.committed_record_seq;
  }

  -- The row after a chunk that was not there before.
  unfoldable pub receive : LogChunk → TransferRow → Result StoreError TransferRow
  unfolding absorb split_lines highwater_fits received
  receive part r = do
    let (lines, rest) = split_lines (r.pending_bytes ++ part.data_b64)
    guard (chunk_length_ok part.data_b64) invalid_base64
    guard
        ((part.log_id == r.request.requested.log_id)
          && (part.offset == r.next_offset)
          && (part.chunk_index == r.next_index)
          && (sha256 part.data_b64 == part.chunk_digest))
        chunk_conflict
    guard
        (leb r.request.requested.last_record_seq part.snapshot_highwater
          && highwater_fits r.snapshot_highwater part.snapshot_highwater)
        highwater_changed
    guard (leb (r.next_offset + length part.data_b64) r.request.max_bytes) byte_budget
    guard (leb (length rest) 8192) line_too_long
    scan ←
        absorb r.request (record { committed = r.committed_record_seq; count = r.record_count })
          lines
    guard (leb scan.count r.request.max_records) record_budget
    ok (received part r rest scan)

  -- The commit of a chunk that was received, or the roll-back.
  unfoldable pub commit_chunk :
      LogChunk → Result StoreError TransferRow → Db → Result StoreError LogAck × Db
  unfolding ack_of
  commit_chunk part (err e) db = (err e, db)
  commit_chunk part (ok r) db = (
    ok (ack_of part r),
    record db {
      transfers = put_transfer part.transfer_id (λ _. r) db.transfers;
      chunks = record { metadata = part; ack = ack_of part r } ∷ db.chunks;
    },
  )

  -- A chunk that is there is answered from there.
  unfoldable pub append_to :
      LogChunk → TransferRow → Option ChunkRow → Db → Result StoreError LogAck × Db
  unfolding commit_chunk receive
  append_to part r (some c) db =
      if same_chunk c.metadata part then (ok c.ack, db) else (err retransmission_conflict, db)
  append_to part r none db =
      if is_receiving r.status
      then commit_chunk part (receive part r) db
      else (err not_receiving, db)

  unfoldable pub append_found :
      Frame → LogChunk → Option TransferRow → Db → Result StoreError LogAck × Db
  unfolding append_to bound
  append_found f part none db = (err unknown_transfer, db)
  append_found f part (some r) db =
      if not (bound r f log_chunk)
      then (err response_mismatch, db)
      else (if is_failed r.status
          then (err not_receiving, db)
          else append_to part r (find_chunk part.transfer_id part.chunk_index db.chunks) db)

  -- Whatever is raised fails the transfer.
  unfoldable pub or_fail : ℕ → Result StoreError LogAck × Db → Result StoreError LogAck × Db
  unfolding fail
  or_fail id (ok ack, db) = (ok ack, db)
  or_fail id (err e, db) = (err e, fail id db)

  -- `append_chunk`
  unfoldable pub append_chunk : Frame → LogChunk → Db → Result StoreError LogAck × Db
  unfolding or_fail append_found
  append_chunk f part db =
      or_fail part.transfer_id
        (append_found f part (find_transfer part.transfer_id db.transfers) db)
