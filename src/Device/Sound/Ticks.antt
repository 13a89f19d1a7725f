-- ===== src/Device/Sound/Ticks.antt =====
-- A tick keeps the invariant, and meets no missing recipe, stage or time: `tick`, `_cooling`,
-- `lose_lease` and `first_drip` of backend/app/hostcomm/v2_simulator/state.py.
use smd_web_hmi.Prelude.{
  ℕ, ◌+◌, ◌≡◌, refl, inl, inr, Bool-cases, Bool, true, false, not, ◌&&◌, Option, none, some, List,
  [], ◌∷◌, Result, ok, err, arith, is_some, leb, if◌then◌else◌,
}
use smd_web_hmi.Recipe.Model.{Stage}
use smd_web_hmi.Recipe.Shape.{validate-final}
use smd_web_hmi.Device.Model.{
  aborted, lease_lost, Lease, Operation, operation_changed, run_changed, Device, Error,
  temperature_sensor_invalid, recipe_stage_timeout,
}
use smd_web_hmi.Device.Tests.{is_preparing, is_disposal, is_cooling}
use smd_web_hmi.Device.Log.{on_content, emit_run_changed, emit, sample}
use smd_web_hmi.Device.Store.{is_candidate, in_order, commit, ◌▸◌}
use smd_web_hmi.Device.Stop.{awaits_run, safe_values, stop}
use smd_web_hmi.Device.Alarm.{raise_uncommitted, default_severity, occur, require_reset}
use smd_web_hmi.Device.Lease.{drop_lease, lose_held, concerns, lose_if, lose_lease}
use smd_web_hmi.Device.Stage.{since}
use smd_web_hmi.Device.Tick.{
  lease_ended, sensors_lost, check_sensors, announce, start_measuring, settle_all, begin, waited,
  start_cooling, purged, purge, is_safe, finish_cooling, cool_down, with_final, mark_fault,
  cool_for, cool, round, tick,
}
use smd_web_hmi.Device.Sound.Invariant.{IsSound, recent, newest, known}
use smd_web_hmi.Device.Sound.Steps.{emit-IsSound, sample-IsSound, stop-IsSound, raise-IsSound}
use smd_web_hmi.Device.Sound.Stages.{IsGood, commit-IsGood, running_some, process_stage-IsGood}

drop_lease-IsSound :
    (live : Bool) (d : Device) → IsSound live d → IsSound live (on_content drop_lease d)
unfolding on_content drop_lease
drop_lease-IsSound live d s = ground arith

lose_held-IsSound :
    (live : Bool) (now : ℕ) (d : Device) → IsSound live d → IsSound live (lose_held now d)
unfolding lose_held is_candidate
lose_held-IsSound live now d s =
    let d' = on_content drop_lease d in
    let s' = drop_lease-IsSound live d s in
    elim (Bool-cases (is_some d.content.run.run_id && not d.content.run.safe_complete)) [
      | inl busy ↦ rw busy (
          raise-IsSound live now lease_lost _ (stop now aborted d')
            (stop-IsSound live now aborted d' refl s'))
      | inr idle ↦ rw idle s'
    ]

IsGood-if :
    (live b : Bool) (x y : Result Error (Unit {0}) × Device)
    → IsGood live x
    → IsGood live y
    → IsGood live (if b then x else y)
IsGood-if live true x y gx gy = gx
IsGood-if live false x y gx gy = gy

lose_if-IsGood :
    (live : Bool) (now : ℕ) (session : Option ℕ) (o : Option Lease) (d : Device)
    → IsSound live d
    → IsGood live (lose_if now session o d)
unfolding lose_if
lose_if-IsGood live now session none d s = record { clean = tt; sound = s }
lose_if-IsGood live now session (some l) d s =
    IsGood-if live (concerns session l) (commit (lose_held now d)) (ok tt, d)
      (commit-IsGood live (lose_held now d) (lose_held-IsSound live now d s))
      (record { clean = tt; sound = s })

pub lose_lease-IsGood :
    (live : Bool) (now : ℕ) (session : Option ℕ) (d : Device)
    → IsSound live d
    → IsGood live (lose_lease now session d)
unfolding lose_lease
lose_lease-IsGood live now session d = lose_if-IsGood live now session d.content.lease d

IsSound-if :
    (live b : Bool) (x y : Device)
    → IsSound live x
    → IsSound live y
    → IsSound live (if b then x else y)
IsSound-if live true x y sx sy = sx
IsSound-if live false x y sx sy = sy

check_sensors-IsSound :
    (live : Bool) (now : ℕ) (d : Device) → IsSound live d → IsSound live (check_sensors now d)
unfolding check_sensors
check_sensors-IsSound live now d s =
    elim (Bool-cases (is_preparing d.content.run.state && sensors_lost d.content)) [
      | inl lost ↦ rw lost (raise-IsSound live now temperature_sensor_invalid _ d s)
      | inr good ↦ rw good s
    ]

announce-IsSound :
    (live : Bool) (now : ℕ) (run : Option ℕ) (os : List Operation) (d : Device)
    → IsSound live d
    → IsSound live (announce now run os d)
unfolding announce
announce-IsSound live now run [] d s = s
announce-IsSound live now run (o ∷ os) d s =
    let e = emit now (operation_changed o.controller_epoch o.operation_id o.command_seq) d in
    announce-IsSound live now run os (if awaits_run run o then e else d)
      (IsSound-if live (awaits_run run o) e d (emit-IsSound live d s now _) s)

start-IsSound :
    (live : Bool) (now : ℕ) (d : Device)
    → is_preparing d.content.run.state ≡ true
    → IsSound live d
    → IsSound true (on_content (start_measuring now) (sample now d))
unfolding on_content start_measuring sample recent newest in_order known
start-IsSound live now d p s = ground arith

settle_all-IsSound :
    (live : Bool) (d : Device) → IsSound live d → IsSound live (on_content settle_all d)
unfolding on_content settle_all
settle_all-IsSound live d s = ground arith

pub weaken-IsSound : (live : Bool) (d : Device) → IsSound true d → IsSound live d
weaken-IsSound live d s = ground arith

begin-IsSound : (live : Bool) (now : ℕ) (d : Device) → IsSound live d → IsSound live (begin now d)
unfolding begin emit_run_changed
begin-IsSound live now d s = elim (Bool-cases (is_preparing d.content.run.state)) [
  | inr other ↦ rw other s
  | inl p ↦
      let d1 = on_content (start_measuring now) (sample now d) in
      let d2 = on_content settle_all d1 in
      let d3 = announce now d1.content.run.run_id d1.content.operations d2 in
      rw p (
        weaken-IsSound live (emit now (run_changed d3.content.run) d3) (
          emit-IsSound true d3
            (announce-IsSound true now d1.content.run.run_id d1.content.operations d2
              (settle_all-IsSound true d1 (start-IsSound live now d p s)))
            now (run_changed d3.content.run)))
]

start_cooling-IsSound :
    (now : ℕ) (d : Device)
    → is_disposal d.content.run.state ≡ true
    → IsSound true d
    → IsSound true (on_content (start_cooling now) d)
unfolding on_content start_cooling known
start_cooling-IsSound now d p s = ground arith

purged-IsGood :
    (now : ℕ) (b : Bool) (d : Device)
    → is_disposal d.content.run.state ≡ true
    → IsSound true d
    → IsGood true (purged now (ok b) d)
unfolding purged emit_run_changed
purged-IsGood now false d p s = record { clean = tt; sound = s }
purged-IsGood now true d p s =
    let d' = on_content (start_cooling now) d in
    record {
      clean = tt;
      sound =
          emit-IsSound true d' (start_cooling-IsSound now d p s) now (run_changed d'.content.run);
    }

waited_some :
    (now : ℕ) (o : Option ℕ) (duration : ℕ)
    → is_some o ≡ true
    → (b : Bool) × (waited now o duration ≡ ok b)
unfolding waited
waited_some now none duration h = cc
waited_some now (some at) duration h = (leb (at + duration) now, refl)

purge-IsGood : (now : ℕ) (d : Device) → IsSound true d → IsGood true (purge now d)
unfolding purge
purge-IsGood now d s = elim (Bool-cases (is_disposal d.content.run.state)) [
  | inr other ↦ rw other (record { clean = tt; sound = s })
  | inl p ↦
      let (b, e) =
        waited_some now d.content.disposal_started d.content.profile.limits.purge_duration_ms
          (ground arith) in
      rw p (rw e (purged-IsGood now b d p s))
]

set_stable-IsSound :
    (live : Bool) (o : Option ℕ) (d : Device)
    → IsSound live d
    → IsSound live (on_content (λ c. record c { stable_started = o }) d)
unfolding on_content
set_stable-IsSound live o d s = ground arith

finish_cooling-IsSound :
    (d : Device)
    → is_cooling d.content.run.state ≡ true
    → IsSound true d
    → IsSound true (on_content finish_cooling d)
unfolding on_content finish_cooling known in_order recent newest
finish_cooling-IsSound d p s = ground arith

mark_fault-IsSound :
    (live : Bool) (d : Device)
    → is_cooling d.content.run.state ≡ true
    → IsSound live d
    → IsSound live (on_content mark_fault d)
unfolding on_content mark_fault known
mark_fault-IsSound live d p s = ground arith

-- An alarm leaves a cooling run cooling.
raise-is_cooling :
    (now : ℕ) (d : Device)
    → is_cooling d.content.run.state ≡ true
    → is_cooling
        (raise_uncommitted now recipe_stage_timeout
          (default_severity recipe_stage_timeout)
          d).content.run.state
      ≡ true
unfolding raise_uncommitted default_severity occur on_content require_reset stop safe_values
raise-is_cooling now d p = ground arith

cool_down-IsSound :
    (now : ℕ) (final : Stage) (d : Device)
    → is_cooling d.content.run.state ≡ true
    → IsSound true d
    → IsSound true (cool_down now final d)
unfolding cool_down emit_run_changed
cool_down-IsSound now final d p s =
    let at : ℕ = since now d.content.stable_started in
    let d' = on_content (λ c. record c { stable_started = some at }) d in
    let f = on_content finish_cooling d' in
    let s' = set_stable-IsSound true (some at) d s in
    IsSound-if true (not (is_safe final d.content)) _ _ (set_stable-IsSound true none d s) (
      IsSound-if true (leb (at + final.exit.stable_ms) now) (emit now (run_changed f.content.run) f)
        d'
        (emit-IsSound true f (finish_cooling-IsSound d' (unfold on_content in p) s') now
          (run_changed f.content.run))
        s')

cool_for-IsGood :
    (now : ℕ) (b : Bool) (d : Device)
    → is_cooling d.content.run.state ≡ true
    → IsSound true d
    → IsGood true (cool_for now (ok b) d)
unfolding cool_for with_final
cool_for-IsGood now true d p s = record {
  clean = tt;
  sound =
      mark_fault-IsSound true _ (raise-is_cooling now d p)
        (raise-IsSound true now recipe_stage_timeout _ d s);
}
cool_for-IsGood now false d p s =
    let (r, e, v) = running_some true d s (ground arith) in
    let final = (validate-final r v).0 in
    let l = (validate-final r v).1 in
    rw (e, with_final) (rw l (record { clean = tt; sound = cool_down-IsSound now final d p s }))

cool-IsGood : (now : ℕ) (d : Device) → IsSound true d → IsGood true (cool now d)
unfolding cool
cool-IsGood now d s = elim (Bool-cases (is_cooling d.content.run.state)) [
  | inr other ↦ rw other (record { clean = tt; sound = s })
  | inl p ↦
      let (b, e) =
        waited_some now d.content.cooling_started d.content.profile.limits.cooling_timeout_ms
          (s.cooling p) in
      rw p (rw e (cool_for-IsGood now b d p s))
]

then-IsGood :
    (live more : Bool) (x : Result Error (Unit {0}) × Device)
    (k : Device → Result Error (Unit {0}) × Device)
    → IsGood more x
    → ((d : Device) → IsSound more d → IsGood live (k d))
    → ((d : Device) → IsSound more d → IsSound live d)
    → IsGood live (x ▸ k)
then-IsGood live more (ok u, d) k g f w = f d g.sound
then-IsGood live more (err e, d) k g f w = record { clean = g.clean; sound = w d g.sound }

round-IsGood : (live : Bool) (now : ℕ) (d : Device) → IsSound live d → IsGood true (round now d)
unfolding round
round-IsGood live now d s =
    let same = λ (e : Device) (p : IsSound true e). p in
    let d' = sample now (begin now (check_sensors now d)) in
    let s' =
      sample-IsSound live (begin now (check_sensors now d))
        (begin-IsSound live now (check_sensors now d) (check_sensors-IsSound live now d s)) now in
    then-IsGood true true _ commit
      (then-IsGood true true _ (cool now)
        (then-IsGood true true _ (purge now) (process_stage-IsGood now d' s') (purge-IsGood now)
          same)
        (cool-IsGood now) same)
      (commit-IsGood true) same

-- A tick of a sound device leaves a sound device, and fails only with the storage or a pending record.
pub tick-IsGood : (live : Bool) (now : ℕ) (d : Device) → IsSound live d → IsGood live (tick now d)
unfolding tick
tick-IsGood live now d s =
    then-IsGood live live _ (round now)
      (IsGood-if live (lease_ended now d.content) (lose_lease now none d) (ok tt, d)
        (lose_lease-IsGood live now none d s) (record { clean = tt; sound = s }))
      (λ e p.
        let g = round-IsGood live now e p in
        record { clean = g.clean; sound = weaken-IsSound live (round now e).1 g.sound })
      (λ e p. p)
