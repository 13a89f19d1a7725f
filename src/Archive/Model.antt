-- ===== src/Archive/Model.antt =====
-- The tables that `V2SourceLogStore` of backend/app/services/v2_source_logs.py keeps for the transfers of
-- one device, from backend/app/db/v2_models.py. Time stamps are left out.
use smd_web_hmi.Prelude.{
  ℕ, Bool, true, false, ◌&&◌, Option, none, some, List, [], ◌∷◌, ◌==◌, ◌==?◌, if◌then◌else◌,
}
use smd_web_hmi.Transfer.Model.{LogRange, LogRequest, LogChunk, LogAck, TransferStatus}

-- `request_msg_id`, `session_id` and `boot_id`.
pub record Bindings : Type 0 where
  pub request_msg_id : Option ℕ
  pub session_id : Option ℕ
  pub boot_id : Option ℕ

pub data FrameType : Type 0 where
  log_chunk log_result other_type : FrameType

-- What `_binding` reads of a frame.
pub record Frame : Type 0 where
  pub type_ : FrameType
  pub reply_to : Option ℕ
  pub session_id : Option ℕ
  pub boot_id : Option ℕ

pub data Status : Type 0 where
  receiving failed : Status
  finished : TransferStatus → Status

pub record TransferRow : Type 0 where
  pub transfer_id : ℕ
  pub request : LogRequest
  pub bindings : Bindings
  pub status : Status
  pub next_offset : ℕ
  pub next_index : ℕ
  pub committed_record_seq : Option ℕ
  pub snapshot_highwater : Option ℕ
  pub pending_bytes : List ℕ
  pub record_count : ℕ

-- A chunk with the acknowledgement that was given for it.
pub record ChunkRow : Type 0 where
  pub metadata : LogChunk
  pub ack : LogAck

pub record Cursor : Type 0 where
  pub log_id : ℕ
  pub verified_from_seq : Option ℕ
  pub verified_through_seq : Option ℕ
  pub scanned_through_seq : Option ℕ

pub record Db : Type 0 where
  pub transfers : List TransferRow
  pub chunks : List ChunkRow

-- The number of a record of the log; `content` stands for the rest of it.
pub record SourceRecord : Type 0 where
  pub log_id : ℕ
  pub record_seq : ℕ
  pub content : ℕ

-- The reasons for which a `ValueError` is raised.
pub data StoreError : Type 0 where
  invalid_request bindings_incomplete transfer_conflict unknown_transfer : StoreError
  response_mismatch not_receiving retransmission_conflict invalid_base64 : StoreError
  chunk_conflict highwater_changed byte_budget line_too_long : StoreError
  invalid_record not_canonical record_order record_budget : StoreError

unfoldable pub is_receiving : Status → Bool
is_receiving receiving = true
is_receiving _ = false

unfoldable pub is_failed : Status → Bool
is_failed failed = true
is_failed _ = false

unfoldable pub same_frame_type : FrameType → FrameType → Bool
same_frame_type log_chunk log_chunk = true
same_frame_type log_result log_result = true
same_frame_type _ _ = false

unfoldable pub same_bindings : Bindings → Bindings → Bool
same_bindings a b =
    (a.request_msg_id ==? b.request_msg_id)
    && (a.session_id ==? b.session_id)
    && (a.boot_id ==? b.boot_id)

unfoldable pub same_range : LogRange → LogRange → Bool
same_range a b =
    (a.log_id == b.log_id)
    && (a.first_record_seq == b.first_record_seq)
    && (a.last_record_seq == b.last_record_seq)

unfoldable pub same_request : LogRequest → LogRequest → Bool
unfolding same_range
same_request a b =
    (a.transfer_id == b.transfer_id)
    && same_range a.requested b.requested
    && (a.max_records == b.max_records)
    && (a.max_bytes == b.max_bytes)

unfoldable pub same_bytes : List ℕ → List ℕ → Bool
same_bytes [] [] = true
same_bytes (x ∷ xs) (y ∷ ys) = (x == y) && same_bytes xs ys
same_bytes _ _ = false

unfoldable pub same_chunk : LogChunk → LogChunk → Bool
unfolding same_bytes
same_chunk a b =
    (a.transfer_id == b.transfer_id)
    && (a.log_id == b.log_id)
    && (a.chunk_index == b.chunk_index)
    && (a.snapshot_highwater == b.snapshot_highwater)
    && (a.offset == b.offset)
    && same_bytes a.data_b64 b.data_b64
    && (a.chunk_digest == b.chunk_digest)

-- `db.get(V2LogTransfer, transfer_id)`
unfoldable pub find_transfer : ℕ → List TransferRow → Option TransferRow
find_transfer id [] = none
find_transfer id (r ∷ rs) = if r.transfer_id == id then some r else find_transfer id rs

unfoldable pub put_transfer : ℕ → (TransferRow → TransferRow) → List TransferRow → List TransferRow
put_transfer id f [] = []
put_transfer id f (r ∷ rs) =
    let rest = put_transfer id f rs in if r.transfer_id == id then f r ∷ rs else r ∷ rest

-- `db.get(V2LogChunk, (transfer_id, chunk_index))`
unfoldable pub find_chunk : ℕ → ℕ → List ChunkRow → Option ChunkRow
find_chunk id index [] = none
find_chunk id index (c ∷ cs) =
    if (c.metadata.transfer_id == id) && (c.metadata.chunk_index == index)
    then some c
    else find_chunk id index cs
