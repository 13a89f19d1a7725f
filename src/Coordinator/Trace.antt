-- ===== src/Coordinator/Trace.antt =====
-- Histories of the operation tables: any sequence of transactions of
-- backend/app/services/v2_operations.py, of any number of calls that overlap.
use smd_web_hmi.Prelude.{ℕ, ◌≡◌, false, Option, some}
use smd_web_hmi.Device.Command.{Request, Command}
use smd_web_hmi.Service.Ownership.{Role}
use smd_web_hmi.Coordinator.Model.{
  Note, Row, Db, Coordinator, Session, Snapshot, is_final, find_row,
}
use smd_web_hmi.Coordinator.Intent
use smd_web_hmi.Coordinator.Intent.{
  Submission, interrupted_by_restart, lose_outcome, sending, lose_open, settle, put_settled,
  settle_found, record_checked, mismatch, Response, ResponseType, known, admit, store_intent,
  own_identity, raise_highwater, differs, ensured, new_row, payload, refusal,
}
use smd_web_hmi.Coordinator.Submit
use smd_web_hmi.Coordinator.Submit.{reconciled_row, reconcile_row}

module _ (business : Request → ℕ → Role → ℕ) (command_digest : Command → ℕ) (k : Coordinator) where
  pub data Step (db : Db) : Db → Type 0 where
    ensure_identity : (id epoch : ℕ) → Step db (Intent.ensure_identity k id epoch db).1
    recover : Step db (Intent.recover k.device_id db)
    reconcile_highwater : (board : ℕ) → Step db (Intent.reconcile_highwater k board db).1
    intent :
        (t : Session) (a : Submission) → Step db (Intent.intent business command_digest k t a db).1
    mark_sent : (id : ℕ) → Step db (Intent.mark_sent id db)
    lose : (id : ℕ) (note : Note) (error : Option ℕ) → Step db (Intent.lose id note error db)
    record_result :
        (stored : Row) (a : Response) (expected : ResponseType)
        → Step db (Intent.record_result stored a expected db).1
    reconcile :
        (id actor : ℕ) (s : Snapshot) → Step db (Submit.record_reconciliation k id actor s db).1

  pub data Reach (db : Db) : Db → Type 0 where
    here : Reach db db
    next : {a b : Db} → Reach db a → Step a b → Reach db b

  -- No finished operation is marked as sent.
  abbrev pub IsOrderly : {db db' : Db} → Step db db' → Type 0
  IsOrderly {db} (mark_sent id) =
      (r : Row) → find_row id db.operations ≡ some r → is_final r.status ≡ false
  IsOrderly _ = Unit {0}

  abbrev pub AreOrderly : {db db' : Db} → Reach db db' → Type 0
  AreOrderly here = Unit {0}
  AreOrderly (next h s) = AreOrderly h × IsOrderly s
