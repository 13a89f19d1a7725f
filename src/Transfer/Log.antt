-- ===== src/Transfer/Log.antt =====
-- `LogTransfer` of backend/app/hostcomm/v2_simulator/transfers.py, and `DeviceStore.cut` and `catalog`
-- of storage.py that it reads. The tables are lists, the records in ascending order of `seq`; the
-- digest is the parameter `sha256`.
use smd_web_hmi.Prelude.{
  ℕ, zero, suc, ◌+◌, ◌-◌, Bool, false, not, ◌&&◌, ◌||◌, Option, none, some, List, [], ◌∷◌, ◌++◌,
  length, Result, ok, err, leb, ltb, ◌==◌, if◌then◌else◌,
}
use smd_web_hmi.Transfer.Model.{
  LogRange, LogRequest, MissingReason, not_recorded, same_reason, MissingRange, LogAck,
  TransferStatus, complete, partial, unavailable, LogResult,
}

pub record LogStore : Type 0 where
  pub log_id : ℕ
  pub record_seq : ℕ
  pub records : List (ℕ × List ℕ)
  pub gaps : List (ℕ × MissingReason)

pub data TransferError : Type 0 where
  range_unavailable offset_mismatch : TransferError

-- `cut`: the rows of a table between two sequence numbers.
unfoldable pub cut_rows {ℓ} : {A : Type ℓ} → ℕ → ℕ → List (ℕ × A) → List (ℕ × A)
cut_rows first last [] = []
cut_rows first last ((seq, data_) ∷ rows) =
    let rest = cut_rows first last rows in
    if leb first seq && leb seq last then (seq, data_) ∷ rest else rest

-- `MIN(seq)` and `MAX(seq)` of `catalog`.
unfoldable pub newest : List (ℕ × List ℕ) → Option ℕ
newest [] = none
newest ((seq, raw) ∷ []) = some seq
newest (_ ∷ row ∷ rows) = newest (row ∷ rows)

unfoldable pub oldest : List (ℕ × List ℕ) → Option ℕ
oldest [] = none
oldest ((seq, raw) ∷ rows) = some seq

-- `str(seq) if seq else None`
unfoldable pub shown : Option ℕ → Option ℕ
shown none = none
shown (some seq) = if seq == 0 then none else some seq

-- `gaps.get(seq, "not_recorded")`
unfoldable pub reason_of : ℕ → List (ℕ × MissingReason) → MissingReason
reason_of seq [] = not_recorded
reason_of seq ((gap, reason) ∷ gaps) = if gap == seq then reason else reason_of seq gaps

unfoldable pub is_present : ℕ → List (ℕ × List ℕ) → Bool
is_present seq [] = false
is_present seq ((row, raw) ∷ rows) = (row == seq) || is_present seq rows

unfoldable pub gap_at : ℕ → ℕ → MissingReason → MissingRange
gap_at log_id seq reason = record {
  log_id = log_id;
  first_record_seq = seq;
  last_record_seq = seq;
  reason = reason;
}

-- A missing number lengthens the last range, if it is the next number with the same reason, or
-- starts a range.
unfoldable pub add_missing : ℕ → ℕ → MissingReason → List MissingRange → List MissingRange
unfolding gap_at same_reason
add_missing log_id seq reason [] = gap_at log_id seq reason ∷ []
add_missing log_id seq reason (g ∷ []) =
    if (g.last_record_seq + 1 == seq) && same_reason g.reason reason
    then record g { last_record_seq = seq } ∷ []
    else g ∷ gap_at log_id seq reason ∷ []
add_missing log_id seq reason (g ∷ h ∷ gs) = g ∷ add_missing log_id seq reason (h ∷ gs)

-- One turn of the loop over the sequence numbers.
unfoldable pub account :
    ℕ → List (ℕ × List ℕ) → List (ℕ × MissingReason) → ℕ → List MissingRange → List MissingRange
unfolding is_present add_missing
account log_id rows gaps seq missing =
    if is_present seq rows then missing else add_missing log_id seq (reason_of seq gaps) missing

-- The loop from `seq` over `count` numbers.
unfoldable pub account_all :
    ℕ → List (ℕ × List ℕ) → List (ℕ × MissingReason) → ℕ → ℕ → List MissingRange → List MissingRange
account_all log_id rows gaps zero seq missing = missing
account_all log_id rows gaps (suc count) seq missing =
    account_all log_id rows gaps count (seq + 1) (account log_id rows gaps seq missing)

-- `b"".join`
unfoldable pub join_raw : List (ℕ × List ℕ) → List ℕ
join_raw [] = []
join_raw ((seq, raw) ∷ rows) = raw ++ join_raw rows

unfoldable pub boundaries_from : ℕ → List (ℕ × List ℕ) → List (ℕ × ℕ)
boundaries_from end [] = []
boundaries_from end ((seq, raw) ∷ rows) =
    (end + length raw, seq) ∷ boundaries_from (end + length raw) rows

unfoldable pub status_of : List (ℕ × List ℕ) → List MissingRange → TransferStatus
status_of [] missing = unavailable
status_of rows [] = complete
status_of rows missing = partial

pub record LogTransfer : Type 0 where
  pub request : LogRequest
  pub request_id : ℕ
  pub highwater : ℕ
  pub raw : List ℕ
  pub result : LogResult
  pub boundaries : List (ℕ × ℕ)
  pub offset : ℕ
  pub index : ℕ
  pub retries : ℕ
  pub sent_ms : ℕ
  pub last_ack : Option LogAck

-- The missing ranges of a cut.
unfoldable pub missing_of : LogStore → LogRange → List MissingRange
unfolding account_all cut_rows
missing_of s w =
    account_all w.log_id (cut_rows w.first_record_seq w.last_record_seq s.records)
      (cut_rows w.first_record_seq w.last_record_seq s.gaps)
      (w.last_record_seq + 1 - w.first_record_seq) w.first_record_seq []

module _ (sha256 : List ℕ → ℕ) where
  unfoldable pub build :
      LogStore → LogRequest → ℕ → List (ℕ × List ℕ) → List MissingRange → LogTransfer
  build s r request_id rows missing = record {
    request = r;
    request_id = request_id;
    highwater = s.record_seq;
    raw = join_raw rows;
    result = record {
      transfer_id = r.transfer_id;
      requested = r.requested;
      snapshot_highwater = s.record_seq;
      available_first_seq = shown (oldest s.records);
      available_last_seq = shown (newest s.records);
      status = status_of rows missing;
      byte_length = length (join_raw rows);
      content_digest = sha256 (join_raw rows);
      record_count = length rows;
      missing = missing;
    };
    boundaries = boundaries_from 0 rows;
    offset = 0;
    index = 0;
    retries = 0;
    sent_ms = 0;
    last_ack = none;
  }

  -- `__init__`
  unfoldable pub open_transfer : LogStore → LogRequest → ℕ → Result TransferError LogTransfer
  unfolding build missing_of
  open_transfer s r request_id =
      let w = r.requested in
      let rows = cut_rows w.first_record_seq w.last_record_seq s.records in
      let missing = missing_of s w in
      if not (w.log_id == s.log_id) || ltb s.record_seq w.last_record_seq
      then err range_unavailable
      else (if ltb r.max_bytes (length (join_raw rows))
          then err range_unavailable
          else (if ltb 32 (length missing)
              then err range_unavailable
              else ok (build s r request_id rows missing)))
