-- ===== src/Device/Answers.antt =====
-- The results of `command` in backend/app/hostcomm/v2_simulator/state.py belong to the command.
use smd_web_hmi.Prelude.{
  ℕ, ◌≡◌, refl, inl, inr, false, not, ◌&&◌, ◌||◌, Option, none, some, List, [], ◌∷◌, Result, ok,
  err, ◌==◌, ◌==?◌, is_some, arith, Bool-cases, Option-cases,
}
use mathlib.Core.Path.{subst, sym, ap, ◌∙◌}
use smd_web_hmi.Device.Store.{commit}
use smd_web_hmi.Prelude.{if-true, if-false}
use smd_web_hmi.Device.Model.{
  Reason, Operation, Data, Device, Error, device, storage, value, lookup_error,
}
use smd_web_hmi.Device.Tests.{is_not_found}
use smd_web_hmi.Device.Command.{Command, Session, same_key, find_operation, absent, lookup}
use smd_web_hmi.Device.Execute.{
  new_result, reserved_result, admitted, applied_result, unknown_result, confirm, finish_apply,
  is_start, is_stop, carry_out, without_storage, after_intent, store_intent, transact, judge,
  replay, answer, command,
}

-- A result names the command, and a digest in it is that of the command.
pub record IsAnswer (p : Command) (o : Operation) : Type 0 where
  pub epoch : o.controller_epoch ≡ p.controller_epoch
  pub id : o.operation_id ≡ p.operation_id
  pub seq : o.command_seq ≡ p.command_seq
  pub digest :
      (is_some o.request_digest && not (o.request_digest ==? some p.request_digest)) ≡ false

Answers : Command → Result Error Operation × Device → Type 0
Answers p x = (o : Operation) → x.0 ≡ ok o → IsAnswer p o

first : {A : Type 0} → A × Device → A
first x = x.0

ok_injective : {E A : Type 0} {a b : A} → ◌≡◌ {A = Result E A} (ok a) (ok b) → a ≡ b
ok_injective h = ground arith

err_not_ok : {E A : Type 0} {e : E} {a : A} → ◌≡◌ {A = Result E A} (err e) (ok a) → ⊥
err_not_ok h = ground arith

Answers-ok : (p : Command) (r : Operation) (d : Device) → IsAnswer p r → Answers p (ok r, d)
unfolding Answers
Answers-ok p r d a o h = subst (IsAnswer p) (ok_injective h) a

Answers-err : (p : Command) (e : Error) (d : Device) → Answers p (err e, d)
unfolding Answers
Answers-err p e d o h = absurd (err_not_ok h)

unknown_result-IsAnswer :
    (p : Command) (r : Operation) → IsAnswer p r → IsAnswer p (unknown_result r)
unfolding unknown_result
unknown_result-IsAnswer p r a = record {
  epoch = a.epoch;
  id = a.id;
  seq = a.seq;
  digest = a.digest;
}

applied_result-IsAnswer :
    (p : Command) (c : Data) (r : Operation) → IsAnswer p r → IsAnswer p (applied_result p c r)
unfolding applied_result
applied_result-IsAnswer p c r a = ground arith

admitted-IsAnswer :
    (p : Command) (refused : Option Reason) (c : Data) → IsAnswer p (admitted p refused c).1
unfolding admitted reserved_result new_result
admitted-IsAnswer p refused c = ground arith

confirm-Answers :
    (p : Command) (r : Operation) (x : Result Error (Unit {0}) × Device)
    → IsAnswer p r
    → Answers p (confirm r x)
unfolding confirm
confirm-Answers p r (ok u, d) a = Answers-ok p r d a
confirm-Answers p r (err storage, d) a = Answers-ok p _ _ (unknown_result-IsAnswer p r a)
confirm-Answers p r (err (device e), d) a = Answers-err p _ d
confirm-Answers p r (err value, d) a = Answers-err p _ d
confirm-Answers p r (err lookup_error, d) a = Answers-err p _ d

finish_apply-Answers :
    (p : Command) (r : Operation) (x : Result Error (Unit {0}) × Device)
    → IsAnswer p r
    → Answers p (finish_apply p r x)
unfolding finish_apply
finish_apply-Answers p r (err e, d) a = Answers-err p e d
finish_apply-Answers p r (ok u, d) a =
    confirm-Answers p _ _ (applied_result-IsAnswer p d.content r a)

carry_out-Answers :
    (now : ℕ) (s : Session) (p : Command) (raw : Option (List ℕ)) (r : Operation) (d : Device)
    → IsAnswer p r
    → Answers p (carry_out now s p raw r d)
unfolding carry_out
carry_out-Answers now s p raw r d a = elim (Bool-cases (is_start p.request)) [
  | inl start ↦ subst (Answers p) (sym (if-true _ _ start)) (confirm-Answers p r _ a)
  | inr other ↦ subst (Answers p) (sym (if-false _ _ other)) (finish_apply-Answers p r _ a)
]

without_storage-Answers :
    (now : ℕ) (p : Command) (refused : Option Reason) (r : Operation) (before : Data) (d : Device)
    → IsAnswer p r
    → Answers p (without_storage now p refused r before d)
unfolding without_storage
without_storage-Answers now p refused r before d a =
    elim (Bool-cases (is_stop p.request && not (is_some refused))) [
      | inl stops ↦
          subst (Answers p) (sym (if-true _ _ stops))
            (Answers-ok p _ _ (unknown_result-IsAnswer p r a))
      | inr other ↦ subst (Answers p) (sym (if-false _ _ other)) (Answers-err p _ _)
    ]

after_intent-Answers :
    (now : ℕ) (s : Session) (p : Command) (raw : Option (List ℕ)) (refused : Option Reason)
    (r : Operation) (before : Data) (x : Result Error (Unit {0}) × Device)
    → IsAnswer p r
    → Answers p (after_intent now s p raw refused r before x)
unfolding after_intent
after_intent-Answers now s p raw (some code) r before (ok u, d) a = Answers-ok p r d a
after_intent-Answers now s p raw none r before (ok u, d) a = carry_out-Answers now s p raw r d a
after_intent-Answers now s p raw refused r before (err storage, d) a =
    without_storage-Answers now p refused r before d a
after_intent-Answers now s p raw refused r before (err (device e), d) a = Answers-err p _ d
after_intent-Answers now s p raw refused r before (err value, d) a = Answers-err p _ d
after_intent-Answers now s p raw refused r before (err lookup_error, d) a = Answers-err p _ d

store_intent-Answers :
    (now : ℕ) (s : Session) (p : Command) (raw : Option (List ℕ)) (refused : Option Reason)
    (r : Operation) (c : Option Data) (d : Device)
    → IsAnswer p r
    → Answers p (store_intent now s p raw refused r c d)
unfolding store_intent
store_intent-Answers now s p raw refused r none d a = Answers-err p _ d
store_intent-Answers now s p raw refused r (some c) d a =
    after_intent-Answers now s p raw refused r d.content (commit (record d { content = c })) a

judge-Answers :
    (now : ℕ) (s : Session) (p : Command) (raw : Option (List ℕ)) (refused : Option Error)
    (d : Device)
    → Answers p (judge now s p raw refused d)
unfolding judge transact
judge-Answers now s p raw none d =
    store_intent-Answers now s p raw none _ _ d (admitted-IsAnswer p none d.content)
judge-Answers now s p raw (some (device code)) d =
    store_intent-Answers now s p raw (some code) _ _ d (admitted-IsAnswer p (some code) d.content)
judge-Answers now s p raw (some storage) d = Answers-err p _ d
judge-Answers now s p raw (some value) d = Answers-err p _ d
judge-Answers now s p raw (some lookup_error) d = Answers-err p _ d

-- What `lookup` finds has the names asked for.
record IsNamed (epoch id seq : ℕ) (o : Operation) : Type 0 where
  epoch_of : o.controller_epoch ≡ epoch
  id_of : o.operation_id ≡ id
  seq_of : o.command_seq ≡ seq

find_operation-key :
    (epoch seq : ℕ) (os : List Operation) {o : Operation}
    → find_operation epoch seq os ≡ some o
    → (o.controller_epoch ≡ epoch) × (o.command_seq ≡ seq)
unfolding find_operation same_key
find_operation-key epoch seq [] h = cc
find_operation-key epoch seq (r ∷ os) {o} h = elim (Bool-cases (same_key epoch seq r)) [
  | inl found ↦
      let same : r ≡ o = ground arith in
      (
        subst (λ x. x.controller_epoch ≡ epoch) same (ground arith),
        subst (λ x. x.command_seq ≡ seq) same (ground arith),
      )
  | inr other ↦ find_operation-key epoch seq os {o = o} (ground arith)
]

lookup-IsNamed :
    (epoch id seq : ℕ) (c : Data) {o : Operation}
    → lookup epoch id seq c ≡ ok o
    → IsNamed epoch id seq o
unfolding lookup absent
lookup-IsNamed epoch id seq c {o} h = elim (Option-cases (find_operation epoch seq c.operations)) [
  | inl missing ↦
      let is_absent : absent epoch id seq c ≡ o = ground arith in
      subst (IsNamed epoch id seq) is_absent record { epoch_of = refl; id_of = refl; seq_of = refl }
  | inr (r, found) ↦
      let same : r ≡ o = ground arith in
      let key = find_operation-key epoch seq c.operations {o = r} found in
      let is_id : r.operation_id ≡ id = ground arith in
      subst (IsNamed epoch id seq) same record { epoch_of = key.0; id_of = is_id; seq_of = key.1 }
]

replay-IsAnswer :
    (p : Command) (prior : Operation) (d : Device)
    → IsNamed p.controller_epoch p.operation_id p.command_seq prior
    → Answers p (replay p prior, d)
unfolding replay Answers
replay-IsAnswer p prior d n o h =
    let same : prior ≡ o = ground arith in
    subst (IsAnswer p) same
      record { epoch = n.epoch_of; id = n.id_of; seq = n.seq_of; digest = ground arith }

answer-Answers :
    (now : ℕ) (s : Session) (p : Command) (raw : Option (List ℕ)) (found : Result Error Operation)
    (d : Device)
    → ((o : Operation) → found ≡ ok o → IsNamed p.controller_epoch p.operation_id p.command_seq o)
    → Answers p (answer now s p raw found d)
unfolding answer
answer-Answers now s p raw (err e) d n = Answers-err p e d
answer-Answers now s p raw (ok prior) d n = elim (Bool-cases (is_not_found prior.status)) [
  | inl new ↦ subst (Answers p) (sym (if-true _ _ new)) (judge-Answers now s p raw _ d)
  | inr old ↦ subst (Answers p) (sym (if-false _ _ old)) (replay-IsAnswer p prior d (n prior refl))
]

-- A result that `command` returns names the command: its epoch, identity and number, and its digest
-- if it has one.
pub command-IsAnswer :
    (now : ℕ) (s : Session) (p : Command) (raw : Option (List ℕ)) (d : Device) {o : Operation}
    → (command now s p raw d).0 ≡ ok o
    → IsAnswer p o
unfolding command Answers first
command-IsAnswer now s p raw d {o} h =
    elim (Bool-cases (not s.is_control || not (p.controller_epoch == s.epoch))) [
      | inl denied ↦ absurd (err_not_ok (sym (ap first (if-true _ _ denied)) ∙ h))
      | inr allowed ↦
          answer-Answers now s p raw
            (lookup p.controller_epoch p.operation_id p.command_seq d.content) d
            (λ r found. lookup-IsNamed _ _ _ d.content found) o
            (sym (ap first (if-false _ _ allowed)) ∙ h)
    ]
