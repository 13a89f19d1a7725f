-- ===== src/Coordinator/Board.antt =====
-- A submission to the simulated device: `submit` of backend/app/services/v2_operations.py with `command` of
-- backend/app/hostcomm/v2_simulator/state.py behind the transport.
use smd_web_hmi.Prelude.{
  ℕ, ◌≡◌, refl, sym, ap, ◌∙◌, inl, inr, true, false, not, ◌&&◌, Option, none, some, List, [], ◌∷◌,
  ◌==◌, ◌==?◌, is_some, ok, if-true, if-false, arith, Bool-cases,
}
use mathlib.Core.Path.{subst}
use smd_web_hmi.Device.Model.{Operation, Device}
use smd_web_hmi.Device.Command as Board
use smd_web_hmi.Device.Command.{Request, Command}
use smd_web_hmi.Device.Execute.{command}
use smd_web_hmi.Device.Answers.{IsAnswer, command-IsAnswer}
use smd_web_hmi.Service.Ownership.{Role}
use smd_web_hmi.Coordinator.Model.{
  reported, Row, Db, Coordinator, Session, OperationError, known_result, is_final, find_row,
  put_row,
}
use smd_web_hmi.Coordinator.Intent.{
  Submission, intent, sending, mark_sent, settled, settle, mismatch, matches_digest, same_type,
  command_result, record_result, record_checked, settle_found, put_settled,
}
use smd_web_hmi.Coordinator.Submit.{
  returned, row, own_row, get, keep_unknown, conclude, after_intent, submit, Others,
}
use smd_web_hmi.Coordinator.Safety.{IsStored, known-IsStored, IsStored-find_row}

find_row-put_row :
    (id : ℕ) (f : Row → Row) (rs : List Row) {r : Row}
    → find_row id rs ≡ some r
    → (f r).operation_id ≡ id
    → find_row id (put_row id f rs) ≡ some (f r)
unfolding find_row put_row
find_row-put_row id f [] h e = cc
find_row-put_row id f (s ∷ rs) {r} h e = elim (Bool-cases (s.operation_id == id)) [
  | inl same_id ↦
      let same : s ≡ r = ground arith in
      ap (find_row id) (if-true _ _ same_id)
      ∙ (if-true _ _ (subst (λ x. ((f x).operation_id == id) ≡ true) (sym same) (ground arith))
          ∙ ap (λ x. some (f x)) same)
  | inr other ↦
      ap (find_row id) (if-false _ _ other)
      ∙ (if-false _ _ other ∙ find_row-put_row id f rs {r = r} (sym (if-false _ _ other) ∙ h) e)
]

matches_digest-answer :
    (d : Option ℕ) (p q : ℕ)
    → is_some d && not (d ==? some p) ≡ false
    → p ≡ q
    → matches_digest d q ≡ true
unfolding matches_digest
matches_digest-answer none p q h e = refl
matches_digest-answer (some d) p q h e = ground arith

-- The other transactions leave the row of an operation alone.
pub record LeaveAlone (id : ℕ) (w : Others) : Type 0 where
  pub before_send :
      (db : Db) → find_row id (w.before_send db).operations ≡ find_row id db.operations
  pub in_flight : (db : Db) → find_row id (w.in_flight db).operations ≡ find_row id db.operations
  pub before_get : (db : Db) → find_row id (w.before_get db).operations ≡ find_row id db.operations

module _ (business : Request → ℕ → Role → ℕ) (command_digest : Command → ℕ)
    (code : OperationError → ℕ) (k : Coordinator) where
  mismatch-answer :
      (a : Submission) (r : Row) (o : Operation) (db db' : Db)
      → IsStored business command_digest k a r db db'
      → IsAnswer r.request o
      → known_result o ≡ true
      → mismatch r command_result record { type_ = command_result; payload = o } ≡ none
  unfolding mismatch same_type
  mismatch-answer a r o db db' s answer valid =
      let digest =
        matches_digest-answer o.request_digest r.request.request_digest r.request_digest
          answer.digest s.request_digest in
      let id : o.operation_id ≡ r.operation_id = answer.id ∙ s.request_id in
      let epoch : o.controller_epoch ≡ r.controller_epoch = answer.epoch ∙ s.request_epoch in
      let seq : o.command_seq ≡ r.command_seq = answer.seq ∙ s.request_seq in
      ground (arith, digest, id, epoch, seq, valid)

  settle-sending : (r : Row) (o : Operation) → settle o (sending r) ≡ ok (settled o (sending r))
  unfolding settle sending is_final
  settle-sending r o = refl

  -- The tables when the result of a request has been recorded.
  abbrev recorded_db : Row → Operation → Db → Db
  recorded_db r o db = record db {
    operations = put_row r.operation_id (λ _. settled o (sending r)) db.operations;
  }

  record_result-answer :
      (r : Row) (o : Operation) (db : Db)
      → find_row r.operation_id db.operations ≡ some (sending r)
      → mismatch r command_result record { type_ = command_result; payload = o } ≡ none
      → record_result r record { type_ = command_result; payload = o } command_result db
        ≡ (ok tt, recorded_db r o db)
  unfolding record_result sending
  record_result-answer r o db found fits =
      ap (λ e. record_checked r record { type_ = command_result; payload = o } e db) fits
      ∙ (unfold record_checked in
          ap (λ x. settle_found o x db) found
          ∙ (unfold settle_found in
              ap (λ x. put_settled r.operation_id x db) (settle-sending r o)
              ∙ (unfold put_settled in refl)))

  get-recorded_db :
      (r : Row) (o : Operation) (db : Db)
      → find_row r.operation_id db.operations ≡ some (sending r)
      → r.device_id ≡ k.device_id
      → get k r.operation_id (recorded_db r o db) ≡ some (settled o (sending r))
  unfolding get sending settled
  get-recorded_db r o db found own =
      ap (own_row k.device_id)
        (find_row-put_row r.operation_id (λ _. settled o (sending r)) db.operations found refl)
      ∙ (unfold own_row in if-true {b = r.device_id == k.device_id} _ _ (ground (arith, own)))

  conclude-answer :
      (a : Submission) (r : Row) (o : Operation) (w : Others) (db db' : Db)
      → LeaveAlone r.operation_id w
      → IsStored business command_digest k a r db db'
      → IsAnswer r.request o
      → known_result o ≡ true
      → (conclude business command_digest code k r w
          (returned record { type_ = command_result; payload = o })
          (w.in_flight (mark_sent r.operation_id (w.before_send db')))).0
        ≡ row (some (settled o (sending r)))
  unfolding conclude mark_sent
  conclude-answer a r o w db db' alone s answer valid =
      let found : find_row r.operation_id db'.operations ≡ some r =
        subst (λ x. find_row x db'.operations ≡ some r) (sym s.is_id)
          (IsStored-find_row business command_digest k a r db db' s) in
      let sent =
        find_row-put_row r.operation_id sending (w.before_send db').operations
          (alone.before_send db' ∙ found) (unfold sending in refl) in
      let flown = alone.in_flight (mark_sent r.operation_id (w.before_send db')) ∙ sent in
      let at = w.in_flight (mark_sent r.operation_id (w.before_send db')) in
      let recorded =
        record_result-answer r o at flown (mismatch-answer a r o db db' s answer valid) in
      ap
        (λ x. row (
          get k r.operation_id
            (w.before_get (keep_unknown business command_digest code r.operation_id w x))))
        recorded
      ∙ (unfold keep_unknown in
          ap (λ x. row (own_row k.device_id x)) (alone.before_get (recorded_db r o at))
          ∙ ap row (get-recorded_db r o at flown s.is_device))

  -- The simulated device answers a new submission with a valid result, and the transactions of other calls
  -- that come between those of the submission leave its row alone: then `submit` returns its row with the
  -- status and the result of the device, and never takes the answer for another's.
  pub submit-command :
      (t : Session) (a : Submission) (db : Db) {r : Row} (w : Others) (now : ℕ) (s : Board.Session)
      (raw : Option (List ℕ)) (d : Device) {o : Operation}
      → (intent business command_digest k t a db).0 ≡ ok (r, true)
      → (command now s r.request raw d).0 ≡ ok o
      → known_result o ≡ true
      → LeaveAlone r.operation_id w
      → (r' : Row) × ((submit business command_digest code k t a w
            (returned record { type_ = command_result; payload = o })
            db).0
          ≡ row (some r'))
        × (r'.status ≡ reported o.status)
        × (r'.result ≡ some o)
  unfolding submit after_intent settled
  submit-command t a db {r} w now s raw d {o} stored answered valid alone =
      let is_stored =
        known-IsStored business command_digest k t a (find_row a.operation_id db.operations) db
          (unfold intent in stored) in
      let answer = command-IsAnswer now s r.request raw d answered in
      let reply = returned record { type_ = command_result; payload = o } in
      let is_intent : intent business command_digest k t a db
          ≡ (ok (r, true), (intent business command_digest k t a db).1) =
        λ i. (stored i, (intent business command_digest k t a db).1) in
      (
        settled o (sending r),
        ap (λ x. (after_intent business command_digest code k w reply x).0) is_intent
            ∙ conclude-answer a r o w db _ alone is_stored answer valid,
        refl,
        refl,
      )
