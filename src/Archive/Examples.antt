-- ===== src/Archive/Examples.antt =====
-- The theorems on the source logs at a transfer of two records.
use smd_web_hmi.Prelude.{true, ℕ, ◌≡◌, refl, Option, none, some, List, [], ◌∷◌, ok, arith}
use smd_web_hmi.Transfer.Model.{
  LogRequest, LogChunk, LogAck, LogResult, complete, partial, is_complete, request_valid,
  result_valid, partial_ok,
}
use smd_web_hmi.Archive.Model.{
  same_range, Bindings, Frame, log_chunk, receiving, TransferRow, Db, SourceRecord, Cursor,
  find_transfer, put_transfer, find_chunk, same_frame_type, is_failed, is_receiving, same_bytes,
}
use smd_web_hmi.Codec.Assembler.{chunk_length_ok}
use smd_web_hmi.Archive.Receive.{append_chunk, follows}
use smd_web_hmi.Archive.Trace.{IsInCut, Step, Reach, here, next}
use smd_web_hmi.Archive.Tied.{Reach-stored}
use smd_web_hmi.Archive.Stored.{stored_bytes, stored_lines, line_feeds}
use smd_web_hmi.Archive.Receive.{begin}
use smd_web_hmi.Prelude.{length, ◌≤◌}
use smd_web_hmi.Transfer.Model.{request_valid}
use smd_web_hmi.Archive.Acknowledged.{append_chunk-repeat}
use smd_web_hmi.Archive.Validate.{validate_log_transfer}
use smd_web_hmi.Archive.Accounted.{Any, IsAccounted, validate_log_transfer-IsAccounted}
use smd_web_hmi.Archive.Verify.{Terminal, replay, IsVerified, replay-IsVerified}

-- A line of one byte is the record with that number.
abbrev load : List ℕ → Option SourceRecord
load [] = none
load (seq ∷ rest) = some record { log_id = 3; record_seq = seq; content = 0 }

abbrev canonical : SourceRecord → List ℕ
canonical r = r.record_seq ∷ []

abbrev sha256 : List ℕ → ℕ
sha256 bytes = 8

abbrev request : LogRequest
request = record {
  transfer_id = 1;
  requested = record { log_id = 3; first_record_seq = 4; last_record_seq = 5 };
  max_records = 2;
  max_bytes = 100;
}

abbrev bindings : Bindings
bindings = record { request_msg_id = some 6; session_id = some 7; boot_id = some 2 }

abbrev frame : Frame
frame = record { type_ = log_chunk; reply_to = some 6; session_id = some 7; boot_id = some 2 }

abbrev part : LogChunk
part = record {
  transfer_id = 1;
  log_id = 3;
  chunk_index = 0;
  snapshot_highwater = 5;
  offset = 0;
  data_b64 = 4 ∷ 10 ∷ 5 ∷ [];
  chunk_digest = 8;
}

abbrev started : TransferRow
started = record {
  transfer_id = 1;
  request = request;
  bindings = bindings;
  status = receiving;
  next_offset = 0;
  next_index = 0;
  committed_record_seq = none;
  snapshot_highwater = none;
  pending_bytes = [];
  record_count = 0;
}

abbrev begun : Db
begun = record { transfers = started ∷ []; chunks = [] }

abbrev ack : LogAck
ack = record {
  transfer_id = 1;
  log_id = 3;
  chunk_index = 0;
  chunk_digest = 8;
  next_offset = 3;
  committed_record_seq = some 4;
}

abbrev continued : TransferRow
continued = record started {
  next_offset = 3;
  next_index = 1;
  committed_record_seq = some 4;
  snapshot_highwater = some 5;
  pending_bytes = 5 ∷ [];
  record_count = 1;
}

acknowledges : (append_chunk sha256 load canonical frame part begun).0 ≡ ok ack
unfolding append_chunk find_transfer same_frame_type is_failed find_chunk is_receiving
    chunk_length_ok same_bytes
acknowledges = refl

continues :
    find_transfer 1 (append_chunk sha256 load canonical frame part begun).1.transfers
    ≡ some continued
unfolding append_chunk find_transfer same_frame_type is_failed find_chunk is_receiving
    chunk_length_ok same_bytes put_transfer
continues = refl

append_chunk-repeat_example :
    append_chunk sha256 load canonical frame part
      (append_chunk sha256 load canonical frame part begun).1
    ≡ (ok ack, (append_chunk sha256 load canonical frame part begun).1)
unfolding is_failed
append_chunk-repeat_example =
    append_chunk-repeat sha256 load canonical frame part begun continued acknowledges here continues
      refl

-- The tables when a transfer has begun on empty ones and its first chunk is there.
abbrev empty : Db
empty = record { transfers = []; chunks = [] }

abbrev filled : Db
filled = (append_chunk sha256 load canonical frame part (begin request bindings empty).1).1

filling : Reach sha256 load canonical empty filled
filling = next (next here (Step.begin request bindings)) (Step.append_chunk frame part)

filled_row : find_transfer 1 filled.transfers ≡ some continued
unfolding append_chunk find_transfer same_frame_type is_failed find_chunk is_receiving
    chunk_length_ok same_bytes put_transfer begin request_valid
filled_row = refl

Reach-stored_example :
    (stored_bytes 1 filled.chunks ≤ 100)
    × (stored_lines 1 filled.chunks ≤ 2)
    × (length continued.pending_bytes ≤ 8192)
    × (line_feeds continued.pending_bytes ≡ 0)
    × IsInCut request (some 4)
Reach-stored_example = Reach-stored sha256 load canonical 1 filling filled_row

-- Two complete cuts that touch, and a partial one before them.
abbrev results : List Terminal
results =
    record {
      requested = record { log_id = 3; first_record_seq = 1; last_record_seq = 3 };
      status = complete;
    }
    ∷ record {
      requested = record { log_id = 3; first_record_seq = 4; last_record_seq = 9 };
      status = complete;
    }
    ∷ record {
      requested = record { log_id = 3; first_record_seq = 10; last_record_seq = 20 };
      status = partial;
    }
    ∷ []

abbrev cursor : Cursor
cursor = record {
  log_id = 3;
  verified_from_seq = some 1;
  verified_through_seq = some 9;
  scanned_through_seq = some 20;
}

replays : replay results ≡ some cursor
unfolding replay is_complete
replays = refl

replay-IsVerified_example : IsVerified 5 results
replay-IsVerified_example =
    replay-IsVerified results 5 replays refl refl (omega arith) (omega arith)

-- The same transfer in one chunk, and its result.
abbrev whole : LogChunk
whole = record part { data_b64 = 4 ∷ 10 ∷ 5 ∷ 10 ∷ [] }

abbrev terminal : LogResult
terminal = record {
  transfer_id = 1;
  requested = record { log_id = 3; first_record_seq = 4; last_record_seq = 5 };
  snapshot_highwater = 5;
  available_first_seq = some 4;
  available_last_seq = some 5;
  status = complete;
  byte_length = 4;
  content_digest = 8;
  record_count = 2;
  missing = [];
}

abbrev records : List SourceRecord
records =
    record { log_id = 3; record_seq = 4; content = 0 }
    ∷ record { log_id = 3; record_seq = 5; content = 0 }
    ∷ []

validates : validate_log_transfer sha256 load canonical request (whole ∷ []) terminal ≡ ok records
unfolding validate_log_transfer request_valid result_valid partial_ok same_range chunk_length_ok
    same_bytes follows
validates = refl

validate_log_transfer-IsAccounted_example :
    IsAccounted records [] 5 × (is_complete complete ≡ true → Any (λ r. r.record_seq ≡ 5) records)
validate_log_transfer-IsAccounted_example =
    validate_log_transfer-IsAccounted sha256 load canonical request (whole ∷ []) terminal 5
      validates (omega arith) (omega arith)
