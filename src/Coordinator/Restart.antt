-- ===== src/Coordinator/Restart.antt =====
-- After a restart of the backend, backend/app/services/v2_operations.py: the outcome of what was under way
-- is unknown, and ordinary operations wait for its reconciliation.
use smd_web_hmi.Prelude.{
  ℕ, ◌≡◌, refl, sym, ap, ◌∙◌, inl, inr, Bool, true, false, not, ◌&&◌, none, some, List, [], ◌∷◌,
  any, err, arith, Bool-cases,
}
use mathlib.Core.Path.{subst}
use smd_web_hmi.Prelude.{if-true}
use smd_web_hmi.Device.Command.{Request, Command}
use smd_web_hmi.Service.Ownership.{Role, may_operate, may_take_over}
use smd_web_hmi.Coordinator.Model.{
  Note, backend_restart, Row, Db, Coordinator, Session, operation_unresolved, is_stop,
  is_activation, is_unresolved, is_final_status, find_row, update_rows,
}
use smd_web_hmi.Coordinator.Intent.{
  Submission, interrupted_by_restart, lose_outcome, outstanding, recover, refusal, intent, known,
  admit,
}

update_rows-find_row :
    (p : Row → Bool) (note : Note) (id : ℕ) (rs : List Row)
    → find_row id rs ≡ none
    → find_row id (update_rows p (lose_outcome note) rs) ≡ none
unfolding find_row update_rows lose_outcome
update_rows-find_row p note id [] h = refl
update_rows-find_row p note id (r ∷ rs) h =
    ground (arith, update_rows-find_row p note id rs (ground arith))

lose_outcome-outstanding :
    (device : ℕ) (r : Row)
    → interrupted_by_restart device r ≡ true
    → outstanding device (lose_outcome backend_restart r) ≡ true
unfolding interrupted_by_restart outstanding lose_outcome is_unresolved is_final_status
lose_outcome-outstanding device r h = ground arith

any-cons :
    {A : Type 0} (p : A → Bool) (a : A) (rest : List A) → p a ≡ true → any p (a ∷ rest) ≡ true
any-cons p a rest h = rw h refl

any-rest :
    {A : Type 0} (p : A → Bool) (a : A) (rest : List A)
    → any p rest ≡ true
    → any p (a ∷ rest) ≡ true
any-rest p a rest h = ground arith

interrupted-outstanding :
    (device : ℕ) (rs : List Row)
    → any (interrupted_by_restart device) rs ≡ true
    → any
        (outstanding device)
        (update_rows (interrupted_by_restart device) (lose_outcome backend_restart) rs)
      ≡ true
unfolding update_rows
interrupted-outstanding device [] h = cc
interrupted-outstanding device (r ∷ rs) h = elim (Bool-cases (interrupted_by_restart device r)) [
  | inl lost ↦ any-cons (outstanding device) _ _ (
      subst (λ x. outstanding device x ≡ true) (sym (if-true _ _ lost))
        (lose_outcome-outstanding device r lost))
  | inr kept ↦ any-rest (outstanding device) _ _ (interrupted-outstanding device rs (ground arith))
]

refusal-unresolved :
    (k : Coordinator) (t : Session) (a : Submission) (db : Db)
    → any (outstanding k.device_id) db.operations ≡ true
    → t.is_online ≡ true
    → may_operate a.role ≡ true
    → is_activation a.request && not (may_take_over a.role) ≡ false
    → is_stop a.request ≡ false
    → refusal k t a db ≡ some operation_unresolved
unfolding refusal
refusal-unresolved k t a db waits online role allowed ordinary = ground arith

-- After a restart at which an operation of the device was under way: an operation with a new identity
-- that is no stop, of an online user whose role allows it, is refused as unresolved and changes
-- nothing.
pub recover-intent :
    (business : Request → ℕ → Role → ℕ) (command_digest : Command → ℕ) (k : Coordinator)
    (t : Session) (a : Submission) (db : Db)
    → any (interrupted_by_restart k.device_id) db.operations ≡ true
    → find_row a.operation_id db.operations ≡ none
    → t.is_online ≡ true
    → may_operate a.role ≡ true
    → is_activation a.request && not (may_take_over a.role) ≡ false
    → is_stop a.request ≡ false
    → intent business command_digest k t a (recover k.device_id db)
      ≡ (err operation_unresolved, recover k.device_id db)
unfolding intent recover known
recover-intent business command_digest k t a db busy new online role allowed ordinary =
    let waits = interrupted-outstanding k.device_id db.operations busy in
    let free =
      update_rows-find_row (interrupted_by_restart k.device_id) backend_restart a.operation_id
        db.operations new in
    let refused =
      refusal-unresolved k t a (recover k.device_id db) waits online role allowed ordinary in
    ap (λ o. known business command_digest k t a o (recover k.device_id db)) free
    ∙ ap (λ o. admit business command_digest k t a o (recover k.device_id db)) refused
    ∙ (unfold admit in refl)
