-- ===== src/Archive/Validate.antt =====
-- `validate_log_transfer` of backend/app/hostcomm/v2_contract/codec.py: the records of a transfer that is over,
-- or what is wrong with it.
use smd_web_hmi.Prelude.{
  ℕ, ◌+◌, Bool, false, not, ◌&&◌, ◌||◌, Option, none, some, List, [], ◌∷◌, ◌++◌, map, min, ltb, leb,
  ◌==◌, length, but_last, last?, if◌then◌else◌, Result, ok, err, ◌>>=◌, ◌>>◌, guard,
}
use smd_web_hmi.Codec.Assembler.{chunk_length_ok}
use smd_web_hmi.Transfer.Model.{
  LogRequest, LogChunk, LogResult, MissingRange, request_valid, result_valid,
}
use smd_web_hmi.Archive.Model.{SourceRecord, same_bytes, same_chunk, same_range}
use smd_web_hmi.Archive.Receive.{follows}

pub data TransferError : Type 0 where
  invalid_request invalid_result result_mismatch invalid_base64 chunk_mismatch : TransferError
  retransmission_differs chunk_gap byte_budget content_mismatch incomplete_record : TransferError
  line_ending invalid_record not_canonical record_order count_mismatch : TransferError
  undeclared_gap cut_not_covered : TransferError

-- The loop over the chunks: the bytes, the chunks seen, the latest first, and the next index.
pub record Bytes : Type 0 where
  pub data_ : List ℕ
  pub seen : List LogChunk
  pub next_index : ℕ

unfoldable pub find_seen : ℕ → List LogChunk → Option LogChunk
find_seen index [] = none
find_seen index (c ∷ cs) = if c.chunk_index == index then some c else find_seen index cs

unfoldable pub starts_lf : List (List ℕ) → Bool
starts_lf ((b ∷ bs) ∷ lines) = b == 10
starts_lf _ = false

-- A byte before the lines of what follows it; CR joins an LF.
unfoldable pub put_before : ℕ → List (List ℕ) → List (List ℕ)
put_before b [] = (b ∷ []) ∷ []
put_before b (line ∷ lines) = (b ∷ line) ∷ lines

-- `bytes.splitlines(keepends=True)`
unfoldable pub splitlines : List ℕ → List (List ℕ)
unfolding starts_lf put_before
splitlines [] = []
splitlines (b ∷ bs) =
    let rest = splitlines bs in
    if (b == 10) || ((b == 13) && not (starts_lf rest)) then (b ∷ []) ∷ rest else put_before b rest

unfoldable pub ends_with : ℕ → Option ℕ → Bool
ends_with b none = false
ends_with b (some c) = c == b

-- One LF, and no CR before it.
unfoldable pub one_lf : List ℕ → Bool
unfolding ends_with
one_lf raw = ends_with 10 (last? raw) && not (ends_with 13 (last? (but_last raw)))

-- The records and the number of the last of them.
unfoldable pub last_seq : List SourceRecord → Option ℕ
last_seq [] = none
last_seq (r ∷ before) = some r.record_seq

-- An interval of numbers, `(start, end)`.
unfoldable pub before_or_same : ℕ × ℕ → ℕ × ℕ → Bool
before_or_same (a, b) (c, d) = ltb a c || ((a == c) && leb b d)

unfoldable pub insert : ℕ × ℕ → List (ℕ × ℕ) → List (ℕ × ℕ)
unfolding before_or_same
insert i [] = i ∷ []
insert i (j ∷ js) = let rest = insert i js in if before_or_same i j then i ∷ j ∷ js else j ∷ rest

-- `sorted`
unfoldable pub sorted : List (ℕ × ℕ) → List (ℕ × ℕ)
unfolding insert
sorted [] = []
sorted (i ∷ is) = insert i (sorted is)

-- The loop over the intervals, and the number after the last.
unfoldable pub cover : ℕ → List (ℕ × ℕ) → Result TransferError ℕ
cover next [] = ok next
cover next ((start, end) ∷ rest) = do guard (start == next) undeclared_gap; cover (end + 1) rest

unfoldable pub intervals : List SourceRecord → List MissingRange → List (ℕ × ℕ)
intervals records missing =
    map (λ r. (r.record_seq, r.record_seq)) records
    ++ map (λ g. (g.first_record_seq, g.last_record_seq)) missing

-- Every number of the cut is accounted for.
unfoldable pub accounted :
    LogRequest → LogResult → List SourceRecord → Result TransferError (Unit {0})
unfolding cover sorted intervals
accounted q t records = do
  next ← cover q.requested.first_record_seq (sorted (intervals records t.missing))
  guard (next == q.requested.last_record_seq + 1) cut_not_covered
  ok tt

module _ (sha256 : List ℕ → ℕ) (load : List ℕ → Option SourceRecord)
    (canonical : SourceRecord → List ℕ) where
  -- A chunk that was not seen.
  unfoldable pub extend : LogRequest → LogChunk → Bytes → Result TransferError Bytes
  extend q part s = do
    guard ((part.chunk_index == s.next_index) && (part.offset == length s.data_)) chunk_gap
    guard (leb (length s.data_ + length part.data_b64) q.max_bytes) byte_budget
    ok record {
      data_ = s.data_ ++ part.data_b64;
      seen = part ∷ s.seen;
      next_index = s.next_index + 1;
    }

  unfoldable pub collect_chunk :
      LogRequest → LogResult → Bytes → LogChunk → Result TransferError Bytes
  unfolding extend find_seen
  collect_chunk q t s part = do
    guard (chunk_length_ok part.data_b64) invalid_base64
    guard
        ((part.transfer_id == q.transfer_id)
          && (part.log_id == q.requested.log_id)
          && (part.snapshot_highwater == t.snapshot_highwater)
          && (sha256 part.data_b64 == part.chunk_digest))
        chunk_mismatch
    elim (find_seen part.chunk_index s.seen) [
      | some p ↦ if same_chunk p part then ok s else err retransmission_differs
      | none ↦ extend q part s
    ]

  unfoldable pub collect :
      LogRequest → LogResult → Bytes → List LogChunk → Result TransferError Bytes
  unfolding collect_chunk
  collect q t s [] = ok s
  collect q t s (part ∷ parts) = do next ← collect_chunk q t s part; collect q t next parts

  unfoldable pub load_line : List ℕ → Result TransferError SourceRecord
  load_line line = elim (load line) [ none ↦ err invalid_record | some r ↦ ok r ]

  -- A round of the loop over the lines, with the records before it, the latest first.
  unfoldable pub read_record :
      LogRequest → LogResult → List SourceRecord → List ℕ → Result TransferError SourceRecord
  unfolding one_lf load_line last_seq
  read_record q t before raw = do
    guard (one_lf raw) line_ending
    r ← load_line (but_last raw)
    guard (same_bytes (canonical r ++ 10 ∷ []) raw) not_canonical
    guard
        ((r.log_id == q.requested.log_id)
          && follows q (last_seq before) r.record_seq
          && leb q.requested.first_record_seq r.record_seq
          && leb r.record_seq (min q.requested.last_record_seq t.snapshot_highwater))
        record_order
    ok r

  unfoldable pub read_records :
      LogRequest
      → LogResult
      → List SourceRecord
      → List (List ℕ)
      → Result TransferError (List SourceRecord)
  unfolding read_record
  read_records q t before [] = ok []
  read_records q t before (raw ∷ raws) = do
    r ← read_record q t before raw
    rs ← read_records q t (r ∷ before) raws
    ok (r ∷ rs)

  -- `validate_log_transfer`
  unfoldable pub validate_log_transfer :
      LogRequest → List LogChunk → LogResult → Result TransferError (List SourceRecord)
  unfolding collect read_records splitlines accounted
  validate_log_transfer q chunks t = do
    guard (request_valid q) invalid_request
    guard (result_valid t) invalid_result
    guard ((q.transfer_id == t.transfer_id) && same_range q.requested t.requested) result_mismatch
    bytes ← collect q t (record { data_ = []; seen = []; next_index = 0 }) chunks
    guard ((length bytes.data_ == t.byte_length) && (sha256 bytes.data_ == t.content_digest))
        content_mismatch
    guard (leb (length bytes.data_) 0 || ends_with 10 (last? bytes.data_)) incomplete_record
    records ← read_records q t [] (splitlines bytes.data_)
    guard ((length records == t.record_count) && leb (length records) q.max_records) count_mismatch
    accounted q t records
    ok records
