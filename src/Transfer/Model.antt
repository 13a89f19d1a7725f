-- ===== src/Transfer/Model.antt =====
-- The messages of a log transfer in backend/app/hostcomm/v2_contract/messages.py. Digests and
-- identifiers are numbers, base64 text is the bytes that it encodes.
use smd_web_hmi.Prelude.{
  ℕ, ◌+◌, ◌-◌, Bool, true, false, not, ◌&&◌, ◌||◌, Option, none, some, List, [], ◌∷◌, leb, ltb,
  ◌==◌, length,
}

pub record LogRange : Type 0 where
  pub log_id : ℕ
  pub first_record_seq : ℕ
  pub last_record_seq : ℕ

-- `LogRange.ordered`
unfoldable pub range_ordered : LogRange → Bool
range_ordered r = leb r.first_record_seq r.last_record_seq

pub record LogRequest : Type 0 where
  pub transfer_id : ℕ
  pub requested : LogRange
  pub max_records : ℕ
  pub max_bytes : ℕ

-- The fields' ranges and `LogRequest.range_budget`.
unfoldable pub request_valid : LogRequest → Bool
unfolding range_ordered
request_valid r =
    range_ordered r.requested
    && leb 1 r.max_records
    && leb r.max_records 10000
    && leb 1 r.max_bytes
    && leb r.max_bytes 16777216
    && leb (r.requested.last_record_seq + 1 - r.requested.first_record_seq) r.max_records

pub data MissingReason : Type 0 where
  retention_expired not_recorded storage_fault log_unknown : MissingReason

unfoldable pub same_reason : MissingReason → MissingReason → Bool
same_reason retention_expired retention_expired = true
same_reason not_recorded not_recorded = true
same_reason storage_fault storage_fault = true
same_reason log_unknown log_unknown = true
same_reason _ _ = false

pub record MissingRange : Type 0 where
  pub log_id : ℕ
  pub first_record_seq : ℕ
  pub last_record_seq : ℕ
  pub reason : MissingReason

pub record LogChunk : Type 0 where
  pub transfer_id : ℕ
  pub log_id : ℕ
  pub chunk_index : ℕ
  pub snapshot_highwater : ℕ
  pub offset : ℕ
  pub data_b64 : List ℕ
  pub chunk_digest : ℕ

pub record LogAck : Type 0 where
  pub transfer_id : ℕ
  pub log_id : ℕ
  pub chunk_index : ℕ
  pub chunk_digest : ℕ
  pub next_offset : ℕ
  pub committed_record_seq : Option ℕ

pub data TransferStatus : Type 0 where
  complete partial unavailable : TransferStatus

unfoldable pub is_complete : TransferStatus → Bool
is_complete complete = true
is_complete _ = false

unfoldable pub is_unavailable : TransferStatus → Bool
is_unavailable unavailable = true
is_unavailable _ = false

unfoldable pub is_partial : TransferStatus → Bool
is_partial partial = true
is_partial _ = false

pub record LogResult : Type 0 where
  pub transfer_id : ℕ
  pub requested : LogRange
  pub snapshot_highwater : ℕ
  pub available_first_seq : Option ℕ
  pub available_last_seq : Option ℕ
  pub status : TransferStatus
  pub byte_length : ℕ
  pub content_digest : ℕ
  pub record_count : ℕ
  pub missing : List MissingRange

unfoldable pub no_gaps : List MissingRange → Bool
no_gaps [] = true
no_gaps _ = false

-- Both endpoints of what is available, in order, or neither.
unfoldable pub endpoints_ok : Option ℕ → Option ℕ → Bool
endpoints_ok none none = true
endpoints_ok (some first) (some last) = leb first last
endpoints_ok _ _ = false

-- The loop over the gaps: `next` is `previous + 1`.
unfoldable pub gaps_ordered : LogRange → ℕ → List MissingRange → Bool
gaps_ordered r next [] = true
gaps_ordered r next (g ∷ gs) =
    (g.log_id == r.log_id)
    && leb next g.first_record_seq
    && leb r.first_record_seq g.first_record_seq
    && leb g.last_record_seq r.last_record_seq
    && gaps_ordered r (g.last_record_seq + 1) gs

unfoldable pub missing_count : List MissingRange → ℕ
missing_count [] = 0
missing_count (g ∷ gs) = (g.last_record_seq + 1 - g.first_record_seq) + missing_count gs

unfoldable pub range_count : LogRange → ℕ
range_count r = r.last_record_seq + 1 - r.first_record_seq

unfoldable pub partial_ok : TransferStatus → ℕ → ℕ → Bool
partial_ok partial records count = ltb 0 records && ltb records count
partial_ok _ records count = true

unfoldable pub same : Bool → Bool → Bool
same true b = b
same false b = not b

-- `LogResult.gaps`
unfoldable pub gaps : LogResult → Bool
unfolding same is_complete no_gaps endpoints_ok gaps_ordered is_unavailable missing_count
    range_count
gaps r =
    same (is_complete r.status) (no_gaps r.missing)
    && endpoints_ok r.available_first_seq r.available_last_seq
    && gaps_ordered r.requested r.requested.first_record_seq r.missing
    && (not (is_unavailable r.status) || ((r.record_count == 0) && (r.byte_length == 0)))
    && (r.record_count + missing_count r.missing == range_count r.requested)
    && leb r.requested.last_record_seq r.snapshot_highwater
    && partial_ok r.status r.record_count (range_count r.requested)

-- `MissingRange` has the validator of `LogRange`.
unfoldable pub missing_ordered : List MissingRange → Bool
missing_ordered [] = true
missing_ordered (g ∷ gs) = leb g.first_record_seq g.last_record_seq && missing_ordered gs

unfoldable pub result_valid : LogResult → Bool
unfolding range_ordered missing_ordered gaps
result_valid r =
    range_ordered r.requested && leb (length r.missing) 32 && missing_ordered r.missing && gaps r
