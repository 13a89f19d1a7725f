-- ===== src/Device/Sound/Steps.antt =====
-- The parts of the operations keep the invariant: log rows, the stop and alarms.
use mathlib.Core.Path.{subst}
use smd_web_hmi.Prelude.{
  ℕ, ◌≡◌, inl, inr, Bool-cases, Bool, true, false, not, ◌&&◌, ◌||◌, Result, ok, err, arith, is_some,
  List, none, some, if-cases, sym, ◌∙◌, some_injective, refl, ◌+◌, Option,
}
use smd_web_hmi.Device.Model.{
  Outcome, EventKind, run_changed, AlarmCode, Severity, LogRow, Store, Device, Error, storage,
}
use smd_web_hmi.Device.Tests.{is_trip, is_preparing, is_measuring}
use smd_web_hmi.Device.Log.{on_content, emit, emit_run_changed, sample}
use smd_web_hmi.Device.Store.{
  is_candidate, in_order, run_valid, rows_valid, insert_rows, clear_pending, commit, save,
}
use smd_web_hmi.Device.Stop.{safe_values, end_sample, latch, stop}
use smd_web_hmi.Device.Alarm.{occur, require_reset, raise_uncommitted}
use smd_web_hmi.Device.Sound.Invariant.{
  IsSound, IsSoundData, IsStored, IsStored-same, with_stored, storable, recent, newest, known,
}

module _ (live : Bool) (d : Device) (s : IsSound live d) where
  pub emit-IsSound : (now : ℕ) (kind : EventKind) → IsSound live (emit now kind d)
  unfolding emit
  emit-IsSound now kind = ground arith

  pub sample-IsSound : (now : ℕ) → IsSound true (sample now d)
  unfolding sample recent newest
  sample-IsSound now = ground arith

  pub safe_values-IsSound : IsSound live (on_content safe_values d)
  unfolding on_content safe_values
  safe_values-IsSound = ground arith

  same_state-IsStored : (t : Store) → t.state ≡ some d.content → IsStored d.host t
  unfolding IsStored
  same_state-IsStored t is_state c is_c =
      subst (IsSoundData false d.host (Unit {0})) (some_injective (sym is_state ∙ is_c))
        (storable s)

  inserted-IsStored :
      (o : Option (List LogRow))
      → IsStored d.host
          (elim o as (λ _. Result Error (Unit {0}) × Store) [
            | none ↦ (err storage, record d.store { writes = d.store.writes + 1 })
            | some table ↦ (
              ok tt,
              record { state = some d.content; records = table; writes = d.store.writes + 1 },
            )
          ]).1
  inserted-IsStored none = IsStored-same d.host d.store _ refl s.stored
  inserted-IsStored (some table) = same_state-IsStored _ refl

  save-IsStored :
      (fails : Bool) (rows : List LogRow) → IsStored d.host (save fails d.content rows d.store).1
  unfolding save
  save-IsStored true rows = IsStored-same d.host d.store _ refl s.stored
  save-IsStored false rows = inserted-IsStored (insert_rows d.store.records rows)

  cleared-IsSound :
      (x : Result Error (Unit {0}) × Store)
      → IsStored d.host x.1
      → IsSound live (clear_pending x d).1
  unfolding clear_pending
  cleared-IsSound (ok u, t) is_stored = with_stored s is_stored
  cleared-IsSound (err e, t) is_stored = with_stored s is_stored

  pub commit-IsSound : IsSound live (commit d).1
  unfolding commit
  commit-IsSound =
      let fits = run_valid d.content.run && rows_valid d.pending_records in
      if-cases (λ (x : Result Error (Unit {0}) × Device). IsSound live x.1) fits _ _
        (cleared-IsSound (save (d.host.fails d.store.writes) d.content d.pending_records d.store)
          (save-IsStored (d.host.fails d.store.writes) d.pending_records))
        s

  latch-IsSound :
      (now : ℕ) (outcome : Outcome)
      → is_candidate outcome ≡ false
      → (is_some d.content.run.run_id && not d.content.run.safe_complete) ≡ true
      → IsSound live (on_content (latch now outcome) (end_sample now d))
  unfolding on_content latch end_sample sample recent newest in_order known
  latch-IsSound now outcome h r = ground arith

pub stop-IsSound :
    (live : Bool) (now : ℕ) (outcome : Outcome) (d : Device)
    → is_candidate outcome ≡ false
    → IsSound live d
    → IsSound live (stop now outcome d)
unfolding stop emit_run_changed
stop-IsSound live now outcome d h s =
    elim (Bool-cases (not (is_some d.content.run.run_id) || d.content.run.safe_complete)) [
      | inl idle ↦ rw idle s
      | inr busy ↦
          elim (Bool-cases (is_preparing d.content.run.state || is_measuring d.content.run.state)) [
            | inl early ↦
                let d' = on_content (latch now outcome) (end_sample now d) in
                let e = emit now (run_changed d'.content.run) d' in
                rw (busy, early)
                  (safe_values-IsSound live e (
                    emit-IsSound live d' (latch-IsSound live d s now outcome h (ground arith)) now
                      (run_changed d'.content.run)))
            | inr late ↦ rw (busy, late) (safe_values-IsSound live d s)
          ]
    ]

pub occur-IsSound :
    (live : Bool) (now : ℕ) (code : AlarmCode) (severity : Severity) (d : Device)
    → IsSound live d
    → IsSound live (occur now code severity d)
unfolding occur
occur-IsSound live now code severity d s = ground arith

pub require_reset-IsSound :
    (live : Bool) (d : Device) → IsSound live d → IsSound live (on_content require_reset d)
unfolding on_content require_reset
require_reset-IsSound live d s = ground arith

pub raise-IsSound :
    (live : Bool) (now : ℕ) (code : AlarmCode) (severity : Severity) (d : Device)
    → IsSound live d
    → IsSound live (raise_uncommitted now code severity d)
unfolding raise_uncommitted is_candidate
raise-IsSound live now code severity d s =
    let o = occur-IsSound live now code severity d s in
    elim (Bool-cases (is_trip severity)) [
      | inl t ↦ rw t (
          stop-IsSound live now _ (on_content require_reset (occur now code severity d))
            (ground arith) (require_reset-IsSound live (occur now code severity d) o))
      | inr n ↦ rw n o
    ]
