-- ===== src/Device/Sound/Commands.antt =====
-- A command keeps the invariant: `command` of backend/app/hostcomm/v2_simulator/state.py, on every
-- branch, with or without storage.
use mathlib.Core.Path.{subst, subst₂}
use smd_web_hmi.Prelude.{
  sym, ℕ, ◌≡◌, refl, inl, inr, Bool-cases, Bool, true, false, not, ◌&&◌, ◌||◌, Option, none, some,
  List, [], Result, ok, err, arith, is_some, ◌==◌,
}
use smd_web_hmi.Device.Model.{
  Reason, aborted, acknowledged, state_conflict, Operation, Alarm, ActiveRecipe, run_changed, Data,
  Host, Device, Error, device, storage, value, lookup_error, Transition,
}
use smd_web_hmi.Device.Tests.{is_idle, is_not_found}
use smd_web_hmi.Device.Log.{on_content, emit_run_changed, emit}
use smd_web_hmi.Device.Store.{is_candidate, in_order, commit, clear_pending}
use smd_web_hmi.Device.Stop.{stop}
use smd_web_hmi.Device.Alarm.{find_alarm, change_alarm, transition_uncommitted}
use smd_web_hmi.Device.Lease.{drop_lease}
use smd_web_hmi.Device.Stage.{validate_recipe_bytes}
use smd_web_hmi.Device.Command.{
  Request, acquire_lease, release_lease, start_run, stop_run, ack_run, activate_recipe, ack_alarm,
  reset_fault, Command, Session, request_refused, refusal, grant, activate, acknowledge,
  clear_fault, apply,
}
use smd_web_hmi.Device.Execute.{
  is_start, is_stop, reserve, admitted, evict_history, settle_result, confirm, finish_apply,
  carry_out, invalidate, without_storage, after_intent, store_intent, transact, judge, answer,
  command,
}
use smd_web_hmi.Device.Sound.Invariant.{
  IsSoundData, IsSound, IsStored, with_stored, recent, known, loads, is_ok, stage_present,
  first-stage_present,
}
use smd_web_hmi.Device.Sound.Steps.{emit-IsSound, commit-IsSound, stop-IsSound}

-- What the permission check has established of an accepted request.
abbrev IsPermitted : Host → Request → Option (List ℕ) → Data → Type 0
IsPermitted h (start_run run digest profile) raw c =
    (is_idle c.run.state ≡ true) × (is_some c.active_recipe ≡ true)
IsPermitted h (activate_recipe digest expected) none c = ⊥
IsPermitted h (activate_recipe digest expected) (some raw) c =
    (is_idle c.run.state ≡ true) × (is_ok (validate_recipe_bytes h raw) ≡ true)
IsPermitted h _ raw c = Unit

request-IsPermitted :
    (h : Host) (q : Request) (raw : Option (List ℕ)) (c : Data)
    → request_refused h q raw c ≡ none
    → IsPermitted h q raw c
unfolding request_refused
request-IsPermitted h (start_run run digest profile) raw c e = (ground arith, ground arith)
request-IsPermitted h (activate_recipe digest expected) none c e = ground arith
request-IsPermitted h (activate_recipe digest expected) (some raw) c e =
    (ground arith, ground arith)
request-IsPermitted h acquire_lease raw c e = tt
request-IsPermitted h release_lease raw c e = tt
request-IsPermitted h (stop_run run) raw c e = tt
request-IsPermitted h (ack_run run) raw c e = tt
request-IsPermitted h (ack_alarm a b) raw c e = tt
request-IsPermitted h (reset_fault rev) raw c e = tt

refusal-IsPermitted :
    (now : ℕ) (h : Host) (s : Session) (p : Command) (raw : Option (List ℕ)) (c : Data)
    → refusal now h s p raw c ≡ none
    → IsPermitted h p.request raw c
unfolding refusal
refusal-IsPermitted now h s p raw c e = request-IsPermitted h p.request raw c (ground arith)

grant-IsSound :
    (live : Bool) (now id : ℕ) (s : Session) (n : ℕ) (d : Device)
    → IsSound live d
    → IsSound live (on_content (grant now id s) (record d { drawn = n }))
unfolding on_content grant
grant-IsSound live now id s n d g = ground arith

acknowledge-IsSound :
    (live : Bool) (d : Device) → IsSound live d → IsSound live (on_content acknowledge d)
unfolding on_content acknowledge known in_order recent is_candidate
acknowledge-IsSound live d g = ground arith

clear_fault-IsSound :
    (live : Bool) (d : Device) → IsSound live d → IsSound live (on_content clear_fault d)
unfolding on_content clear_fault known
clear_fault-IsSound live d g = ground arith

activate-IsSound :
    (live : Bool) (digest : ℕ) (raw : List ℕ) (d : Device)
    → is_idle d.content.run.state ≡ true
    → is_ok (validate_recipe_bytes d.host raw) ≡ true
    → IsSound live d
    → IsSound live (on_content (activate digest (some raw)) d)
unfolding on_content activate loads
activate-IsSound live digest raw d i o g = ground arith

drop_lease-IsSound :
    (live : Bool) (d : Device) → IsSound live d → IsSound live (on_content drop_lease d)
unfolding on_content drop_lease
drop_lease-IsSound live d s = ground arith

pub change_alarm-IsSound :
    (live : Bool) (now : ℕ) (t : Transition) (a : Alarm) (d : Device)
    → IsSound live d
    → IsSound live (change_alarm now t a d)
unfolding change_alarm
change_alarm-IsSound live now t a d g = ground arith

transition_if-IsSound :
    (live : Bool) (now : ℕ) (t : Transition) (o : Option Alarm) (d : Device)
    → IsSound live d
    → IsSound live
        (elim o as (λ _. Result Error (Unit {0}) × Device) [
          | none ↦ (err (device state_conflict), d)
          | some a ↦ (ok tt, change_alarm now t a d)
        ]).1
transition_if-IsSound live now t none d g = g
transition_if-IsSound live now t (some a) d g = change_alarm-IsSound live now t a d g

apply-IsSound :
    (live : Bool) (now : ℕ) (s : Session) (q : Request) (raw : Option (List ℕ)) (d : Device)
    → IsPermitted d.host q raw d.content
    → IsSound live d
    → IsSound live (apply now s q raw d).1
unfolding apply emit_run_changed transition_uncommitted is_candidate
apply-IsSound live now s acquire_lease raw d p g = grant-IsSound live now _ s _ d g
apply-IsSound live now s release_lease raw d p g =
    stop-IsSound live now aborted (on_content drop_lease d) refl (drop_lease-IsSound live d g)
apply-IsSound live now s (start_run run digest profile) raw d p g = g
apply-IsSound live now s (stop_run run) raw d p g = stop-IsSound live now aborted d refl g
apply-IsSound live now s (ack_run run) raw d p g =
    let d' = on_content acknowledge d in
    emit-IsSound live d' (acknowledge-IsSound live d g) now (run_changed d'.content.run)
apply-IsSound live now s (activate_recipe digest expected) none d p g = absurd p
apply-IsSound live now s (activate_recipe digest expected) (some raw) d p g =
    activate-IsSound live digest raw d p.0 p.1 g
apply-IsSound live now s (ack_alarm id seq) raw d p g =
    transition_if-IsSound live now acknowledged (find_alarm id seq d.content.alarms) d g
apply-IsSound live now s (reset_fault rev) raw d p g =
    let d' = on_content clear_fault d in
    emit-IsSound live d' (clear_fault-IsSound live d g) now (run_changed d'.content.run)

-- Data that differ only in the history and the waterlines.
abbrev IsSameRun : Data → Data → Type 0
IsSameRun c c' = c' ≡ record c { operations = c'.operations; highwater = c'.highwater }

history-IsSoundData :
    (live : Bool) (h : Host) {P : Type 0} (c : Data) (os : List Operation) (w : List (ℕ × ℕ))
    → IsSoundData live h P c
    → IsSoundData live h P (record c { operations = os; highwater = w })
history-IsSoundData live h c os w g = ground arith

same-IsSoundData :
    (live : Bool) (h : Host) {P : Type 0} (c c' : Data)
    → IsSameRun c c'
    → IsSoundData live h P c
    → IsSoundData live h P c'
same-IsSoundData live h {P} c c' e g =
    subst (IsSoundData live h P) (sym e) (history-IsSoundData live h c c'.operations c'.highwater g)

evict_history-IsSameRun : (c c' : Data) → evict_history c ≡ some c' → IsSameRun c c'
unfolding evict_history
evict_history-IsSameRun c c' e = ground arith

first_stage :
    (h : Host) (o : Option ActiveRecipe)
    → is_some o ≡ true
    → loads h o ≡ true
    → stage_present h o (some 0) ≡ true
first_stage h none e l = cc
first_stage h (some a) e l = first-stage_present h a l

reserve-IsSoundData :
    (live : Bool) (h : Host) {P : Type 0} (q : Request) (raw : Option (List ℕ)) (c : Data)
    → IsPermitted h q raw c
    → IsSoundData live h P c
    → IsSoundData live h P (reserve q c)
unfolding reserve known in_order recent is_candidate
reserve-IsSoundData live h (start_run run digest profile) raw c p g =
    ground (arith, first_stage h c.active_recipe p.1 g.recipe)
reserve-IsSoundData live h _ raw c p g = g

-- Reserving the run and recording the result of an accepted command.
accept-IsSound :
    (live : Bool) (p : Command) (raw : Option (List ℕ)) (d : Device) {c' : Data}
    → IsPermitted d.host p.request raw d.content
    → evict_history (admitted p none d.content).0 ≡ some c'
    → IsSound live d
    → IsSoundData live d.host (IsStored d.host d.store) c'
unfolding admitted
accept-IsSound live p raw d {c'} ok' e g =
    let r = reserve p.request d.content in
    let a = (admitted p none d.content).0 in
    same-IsSoundData live d.host a c' (evict_history-IsSameRun a c' e) (
      history-IsSoundData live d.host r a.operations a.highwater
        (reserve-IsSoundData live d.host p.request raw d.content ok' g))

reject-IsSound :
    (live : Bool) (p : Command) (code : Reason) (d : Device) {c' : Data}
    → evict_history (admitted p (some code) d.content).0 ≡ some c'
    → IsSound live d
    → IsSoundData live d.host (IsStored d.host d.store) c'
unfolding admitted
reject-IsSound live p code d {c'} e g =
    let a = (admitted p (some code) d.content).0 in
    same-IsSoundData live d.host a c' (evict_history-IsSameRun a c' e)
      (history-IsSoundData live d.host d.content a.operations a.highwater g)

settle_result-IsSound :
    (live : Bool) (r : Operation) (d : Device) → IsSound live d → IsSound live (settle_result r d)
unfolding settle_result on_content
settle_result-IsSound live r d g = history-IsSoundData live d.host d.content _ d.content.highwater g

confirm-IsSound :
    (live : Bool) (r : Operation) (x : Result Error (Unit {0}) × Device)
    → IsSound live x.1
    → IsSound live (confirm r x).1
unfolding confirm
confirm-IsSound live r (ok u, d) g = g
confirm-IsSound live r (err storage, d) g = settle_result-IsSound live _ d g
confirm-IsSound live r (err (device code), d) g = g
confirm-IsSound live r (err value, d) g = g
confirm-IsSound live r (err lookup_error, d) g = g

finish-IsSound :
    (live : Bool) (p : Command) (r : Operation) (x : Result Error (Unit {0}) × Device)
    → IsSound live x.1
    → IsSound live (finish_apply p r x).1
unfolding finish_apply
finish-IsSound live p r (err e, d) g = g
finish-IsSound live p r (ok u, d) g =
    confirm-IsSound live _ _
      (commit-IsSound live (settle_result _ d) (settle_result-IsSound live _ d g))

carry_out-IsSound :
    (live : Bool) (now : ℕ) (s : Session) (p : Command) (raw : Option (List ℕ)) (r : Operation)
    (d : Device)
    → (is_start p.request ≡ false → IsPermitted d.host p.request raw d.content)
    → IsSound live d
    → IsSound live (carry_out now s p raw r d).1
unfolding carry_out emit_run_changed
carry_out-IsSound live now s p raw r d ok' g = elim (Bool-cases (is_start p.request)) [
  | inl start ↦
      let d' = emit now (run_changed d.content.run) d in
      rw start (
        confirm-IsSound live r (commit d')
          (commit-IsSound live d' (emit-IsSound live d g now (run_changed d.content.run))))
  | inr other ↦
      rw other (finish-IsSound live p r _ (apply-IsSound live now s p.request raw d (ok' other) g))
]

-- Other commands than a start leave their permission intact.
still-IsPermitted :
    (h : Host) (q : Request) (raw : Option (List ℕ)) (c c' : Data)
    → is_start q ≡ false
    → c'.run ≡ c.run
    → IsPermitted h q raw c
    → IsPermitted h q raw c'
still-IsPermitted h (start_run run digest profile) raw c c' n e p = cc
still-IsPermitted h (activate_recipe digest expected) none c c' n e p = p
still-IsPermitted h (activate_recipe digest expected) (some raw) c c' n e p = (rw e p.0, p.1)
still-IsPermitted h acquire_lease raw c c' n e p = tt
still-IsPermitted h release_lease raw c c' n e p = tt
still-IsPermitted h (stop_run run) raw c c' n e p = tt
still-IsPermitted h (ack_run run) raw c c' n e p = tt
still-IsPermitted h (ack_alarm a b) raw c c' n e p = tt
still-IsPermitted h (reset_fault rev) raw c c' n e p = tt

reserve_other : (q : Request) (c : Data) → is_start q ≡ false → reserve q c ≡ c
unfolding reserve
reserve_other (start_run run digest profile) c n = cc
reserve_other _ c n = refl

admitted-run :
    (p : Command) (c : Data) {c' : Data}
    → is_start p.request ≡ false
    → evict_history (admitted p none c).0 ≡ some c'
    → c'.run ≡ c.run
unfolding admitted evict_history
admitted-run p c n e = ground (arith, reserve_other p.request c n)

commit-content : (d : Device) → ((commit d).1.content ≡ d.content) × ((commit d).1.host ≡ d.host)
unfolding commit clear_pending
commit-content d = (ground arith, ground arith)

invalidate-IsSound :
    (live : Bool) (d : Device) → IsSound live d → IsSound live (on_content invalidate d)
unfolding on_content invalidate is_candidate
invalidate-IsSound live d g = ground arith

without_storage-IsSound :
    (live : Bool) (now : ℕ) (p : Command) (refused : Option Reason) (r : Operation) (before : Data)
    (d : Device)
    → IsSoundData live d.host (IsStored d.host d.store) before
    → IsSound live (without_storage now p refused r before d).1
unfolding without_storage is_candidate
without_storage-IsSound live now p refused r before d g =
    let d' = record d { content = before; pending_records = [] } in
    elim (Bool-cases (is_stop p.request && not (is_some refused))) [
      | inl stopping ↦
          rw stopping (
            invalidate-IsSound live (stop now aborted d') (stop-IsSound live now aborted d' refl g))
      | inr other ↦ rw other g
    ]

-- What is needed of the device that the first transaction leaves.
after_intent-IsSound :
    (live : Bool) (now : ℕ) (s : Session) (p : Command) (raw : Option (List ℕ))
    (refused : Option Reason) (r : Operation) (before : Data) (x : Result Error (Unit {0}) × Device)
    → (is_some refused ≡ false
        → is_start p.request ≡ false
        → IsPermitted x.1.host p.request raw x.1.content)
    → IsSoundData live x.1.host (IsStored x.1.host x.1.store) before
    → IsSound live x.1
    → IsSound live (after_intent now s p raw refused r before x).1
unfolding after_intent
after_intent-IsSound live now s p raw none r before (ok u, d) ok' b g =
    carry_out-IsSound live now s p raw r d (ok' refl) g
after_intent-IsSound live now s p raw (some code) r before (ok u, d) ok' b g = g
after_intent-IsSound live now s p raw refused r before (err storage, d) ok' b g =
    without_storage-IsSound live now p refused r before d b
after_intent-IsSound live now s p raw refused r before (err (device code), d) ok' b g = g
after_intent-IsSound live now s p raw refused r before (err value, d) ok' b g = g
after_intent-IsSound live now s p raw refused r before (err lookup_error, d) ok' b g = g

admitted-IsSound :
    (live : Bool) (p : Command) (raw : Option (List ℕ)) (refused : Option Reason) (d : Device)
    {c' : Data}
    → (is_some refused ≡ false → IsPermitted d.host p.request raw d.content)
    → evict_history (admitted p refused d.content).0 ≡ some c'
    → IsSound live d
    → IsSoundData live d.host (IsStored d.host d.store) c'
admitted-IsSound live p raw none d ok' e g = accept-IsSound live p raw d (ok' refl) e g
admitted-IsSound live p raw (some code) d ok' e g = reject-IsSound live p code d e g

kept-IsPermitted :
    (p : Command) (raw : Option (List ℕ)) (refused : Option Reason) (d : Device) {c' : Data}
    → (is_some refused ≡ false → IsPermitted d.host p.request raw d.content)
    → evict_history (admitted p refused d.content).0 ≡ some c'
    → is_some refused ≡ false
    → is_start p.request ≡ false
    → IsPermitted d.host p.request raw c'
kept-IsPermitted p raw none d {c'} ok' e a n =
    still-IsPermitted d.host p.request raw d.content c' n (admitted-run p d.content n e) (ok' refl)
kept-IsPermitted p raw (some code) d ok' e a n = cc

commit_parts :
    (h : Host) (c : Data) (d : Device) (q : Request) (raw : Option (List ℕ))
    → d.host ≡ h
    → d.content ≡ c
    → IsPermitted h q raw c
    → IsPermitted d.host q raw d.content
commit_parts h c d q raw e f p =
    subst₂ (λ (x : Host) (y : Data). IsPermitted x q raw y) (sym e) (sym f) p

intent-IsSound :
    (live : Bool) (now : ℕ) (s : Session) (p : Command) (raw : Option (List ℕ))
    (refused : Option Reason) (r : Operation) (o : Option Data) (d : Device)
    → (is_some refused ≡ false → IsPermitted d.host p.request raw d.content)
    → evict_history (admitted p refused d.content).0 ≡ o
    → IsSound live d
    → IsSound live (store_intent now s p raw refused r o d).1
unfolding store_intent
intent-IsSound live now s p raw refused r none d ok' e g = g
intent-IsSound live now s p raw refused r (some c) d ok' e g =
    let d' = record d { content = c } in
    let parts = commit-content d' in
    let after = commit-IsSound live d' (admitted-IsSound live p raw refused d ok' e g) in
    after_intent-IsSound live now s p raw refused r d.content (commit d')
      (λ a n.
        commit_parts d.host c (commit d').1 p.request raw parts.1 parts.0
          (kept-IsPermitted p raw refused d ok' e a n))
      (subst
        (λ (h : Host).
          IsSoundData live h (IsStored (commit d').1.host (commit d').1.store) d.content)
        (sym parts.1) (with_stored g after.stored))
      after

transact-IsSound :
    (live : Bool) (now : ℕ) (s : Session) (p : Command) (raw : Option (List ℕ))
    (refused : Option Reason) (d : Device)
    → (is_some refused ≡ false → IsPermitted d.host p.request raw d.content)
    → IsSound live d
    → IsSound live (transact now s p raw refused d).1
transact-IsSound live now s p raw refused d ok' g =
    unfold transact in intent-IsSound live now s p raw refused _ _ d ok' refl g

judge-IsSound :
    (live : Bool) (now : ℕ) (s : Session) (p : Command) (raw : Option (List ℕ))
    (refused : Option Error) (d : Device)
    → (refused ≡ none → IsPermitted d.host p.request raw d.content)
    → IsSound live d
    → IsSound live (judge now s p raw refused d).1
unfolding judge
judge-IsSound live now s p raw none d ok' g =
    transact-IsSound live now s p raw none d (λ _. ok' refl) g
judge-IsSound live now s p raw (some (device code)) d ok' g =
    transact-IsSound live now s p raw (some code) d (λ e. cc) g
judge-IsSound live now s p raw (some storage) d ok' g = g
judge-IsSound live now s p raw (some value) d ok' g = g
judge-IsSound live now s p raw (some lookup_error) d ok' g = g

answer-IsSound :
    (live : Bool) (now : ℕ) (s : Session) (p : Command) (raw : Option (List ℕ))
    (r : Result Error Operation) (d : Device)
    → IsSound live d
    → IsSound live (answer now s p raw r d).1
unfolding answer
answer-IsSound live now s p raw (err e) d g = g
answer-IsSound live now s p raw (ok prior) d g = elim (Bool-cases (is_not_found prior.status)) [
  | inl new ↦ rw new (
      judge-IsSound live now s p raw (refusal now d.host s p raw d.content) d
        (refusal-IsPermitted now d.host s p raw d.content) g)
  | inr old ↦ rw old g
]

-- Whatever a command answers, it leaves a sound device.
pub command-IsSound :
    (live : Bool) (now : ℕ) (s : Session) (p : Command) (raw : Option (List ℕ)) (d : Device)
    → IsSound live d
    → IsSound live (command now s p raw d).1
unfolding command
command-IsSound live now s p raw d g =
    elim (Bool-cases (not s.is_control || not (p.controller_epoch == s.epoch))) [
      | inl denied ↦ rw denied g
      | inr allowed ↦ rw allowed (answer-IsSound live now s p raw _ d g)
    ]
