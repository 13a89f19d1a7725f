-- ===== src/Transfer/Examples.antt =====
-- The theorems on log transfers at a store that has lost a record.
use smd_web_hmi.Prelude.{◌≤◌, ◌≡◌, refl, true, none, [], ◌∷◌, arith, length, drop, ok, ◌+◌, ◌*◌}
use smd_web_hmi.Transfer.Model.{LogRequest, storage_fault, range_ordered, result_valid}
use smd_web_hmi.Transfer.Log.{
  LogStore, LogTransfer, open_transfer, build, missing_of, cut_rows, account_all, account,
  is_present, add_missing, gap_at, reason_of, join_raw,
}
use smd_web_hmi.Transfer.Ack.{chunk}
use smd_web_hmi.Transfer.Coverage.{open_transfer-result_valid}
use smd_web_hmi.Transfer.Delivery.{IsFresh, deliver, deliver-raw}

abbrev store : LogStore
store = record {
  log_id = 4;
  record_seq = 3;
  records = (1, 65 ∷ 10 ∷ []) ∷ (3, 66 ∷ 10 ∷ []) ∷ [];
  gaps = (2, storage_fault) ∷ [];
}

abbrev wanted : LogRequest
wanted = record {
  transfer_id = 5;
  requested = record { log_id = 4; first_record_seq = 1; last_record_seq = 3 };
  max_records = 3;
  max_bytes = 100;
}

abbrev opened : LogTransfer
opened =
    build length store wanted 6 (cut_rows 1 3 store.records) (missing_of store wanted.requested)

ordered : range_ordered wanted.requested ≡ true
unfolding range_ordered
ordered = refl

opens : open_transfer length store wanted 6 ≡ ok opened
unfolding open_transfer missing_of account_all account is_present add_missing gap_at reason_of
    cut_rows join_raw
opens = refl

open_transfer-result_valid_example : result_valid opened.result ≡ true
open_transfer-result_valid_example =
    open_transfer-result_valid length store wanted 6 (omega arith, (omega arith, tt)) ordered opens

short : length opened.raw ≤ opened.offset + 1536 * 1
unfolding build cut_rows join_raw
short = omega arith

fresh : IsFresh opened
unfolding build
fresh a seen = cc

deliver-raw_example :
    ((deliver length 1 opened).0 ≡ drop opened.offset opened.raw)
    × (chunk length (deliver length 1 opened).1 ≡ none)
deliver-raw_example = deliver-raw length 1 opened fresh short
