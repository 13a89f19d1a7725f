-- ===== src/Transfer/Ack.antt =====
-- `chunk` and `ack` of `LogTransfer`, backend/app/hostcomm/v2_simulator/transfers.py: the bytes go out
-- in pieces of 1536, and the next one only after the acknowledgement of the last.
use smd_web_hmi.Prelude.{
  ℕ, ◌+◌, Bool, true, false, ◌&&◌, Option, none, some, List, [], ◌∷◌, length, min, take, drop,
  Result, ok, err, leb, ◌==◌, ◌==?◌, if◌then◌else◌,
}
use smd_web_hmi.Transfer.Model.{LogChunk, LogAck}
use smd_web_hmi.Transfer.Log.{LogTransfer, TransferError, offset_mismatch}

-- The number of the last record that ends at or before `end`.
unfoldable pub committed : ℕ → List (ℕ × ℕ) → Option ℕ
committed end [] = none
committed end ((boundary, seq) ∷ rest) =
    let later = committed end rest in if is_none later && leb boundary end then some seq else later
  where
    is_none : Option ℕ → Bool
    is_none none = true
    is_none (some _) = false

unfoldable pub same_ack : LogAck → LogAck → Bool
same_ack a b =
    (a.transfer_id == b.transfer_id)
    && (a.log_id == b.log_id)
    && (a.chunk_index == b.chunk_index)
    && (a.chunk_digest == b.chunk_digest)
    && (a.next_offset == b.next_offset)
    && (a.committed_record_seq ==? b.committed_record_seq)

unfoldable pub is_last_ack : Option LogAck → LogAck → Bool
is_last_ack none a = false
is_last_ack (some last) a = same_ack last a

module _ (sha256 : List ℕ → ℕ) where
  unfoldable pub chunk : LogTransfer → Option LogChunk
  chunk t =
      let part = take 1536 (drop t.offset t.raw) in
      if leb (length t.raw) t.offset
      then none
      else some record {
        transfer_id = t.request.transfer_id;
        log_id = t.request.requested.log_id;
        chunk_index = t.index;
        snapshot_highwater = t.highwater;
        offset = t.offset;
        data_b64 = part;
        chunk_digest = sha256 part;
      }

  unfoldable pub chunk_end : LogTransfer → ℕ
  chunk_end t = min (length t.raw) (t.offset + 1536)

  unfoldable pub acknowledges : LogTransfer → LogChunk → LogAck → Bool
  unfolding chunk_end committed
  acknowledges t part payload =
      (payload.transfer_id == part.transfer_id)
      && (payload.log_id == part.log_id)
      && (payload.chunk_index == part.chunk_index)
      && (payload.chunk_digest == part.chunk_digest)
      && (payload.next_offset == chunk_end t)
      && (payload.committed_record_seq ==? committed (chunk_end t) t.boundaries)

  unfoldable pub ack_part :
      Option LogChunk → LogAck → LogTransfer → Result TransferError Bool × LogTransfer
  unfolding acknowledges chunk_end
  ack_part none payload t = (err offset_mismatch, t)
  ack_part (some part) payload t =
      if acknowledges t part payload
      then (
        ok true,
        record t {
          last_ack = some payload;
          offset = chunk_end t;
          index = t.index + 1;
          retries = 0;
        },
      )
      else (err offset_mismatch, t)

  unfoldable pub ack : LogAck → LogTransfer → Result TransferError Bool × LogTransfer
  unfolding is_last_ack ack_part chunk
  ack payload t =
      if is_last_ack t.last_ack payload then (ok false, t) else ack_part (chunk t) payload t
