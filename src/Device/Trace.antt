-- ===== src/Device/Trace.antt =====
-- Histories of the simulated device: any sequence of ticks, commands, heartbeats, alarms, lost
-- leases, measured values and restarts of backend/app/hostcomm/v2_simulator/state.py.
use smd_web_hmi.Prelude.{
  ℕ, ◌≡◌, inl, inr, Bool-cases, Bool, true, false, Option, none, some, List, [], Result, err, arith,
}
use smd_web_hmi.Device.Model.{
  EventKind, AlarmCode, Severity, Transition, Alarm, burden_mc, Measurements, Profile, Host, Device,
  Error, device, state_conflict,
}
use smd_web_hmi.Device.Tests.{is_measuring}
use smd_web_hmi.Device.Log
use smd_web_hmi.Device.Log.{on_content, next_ref, emit, emit_run_changed}
use smd_web_hmi.Device.Store
use smd_web_hmi.Device.Store.{alarm_level_ok, run_valid}
use smd_web_hmi.Device.Alarm
use smd_web_hmi.Device.Alarm.{chosen, find_alarm, change_alarm, raise_uncommitted}
use smd_web_hmi.Device.Lease
use smd_web_hmi.Device.Lease.{lease_valid}
use smd_web_hmi.Device.Stage
use smd_web_hmi.Device.Tick
use smd_web_hmi.Device.Tick.{latch_drip, note_first_drip}
use smd_web_hmi.Device.Command.{Command, Session}
use smd_web_hmi.Device.Execute
use smd_web_hmi.Device.Boot
use smd_web_hmi.Device.Sound.Invariant.{IsSound, IsSoundData-run_valid}
use smd_web_hmi.Device.Sound.Steps.{emit-IsSound, sample-IsSound, commit-IsSound, raise-IsSound}
use smd_web_hmi.Device.Sound.Stages.{IsClean, finish-IsGood}
use smd_web_hmi.Device.Sound.Ticks.{weaken-IsSound, lose_lease-IsGood, tick-IsGood}
use smd_web_hmi.Device.Sound.Commands.{change_alarm-IsSound, command-IsSound}
use smd_web_hmi.Device.Sound.Restart.{IsNewBoot, start-IsSound, empty-IsStored}

-- A device that is started on an empty store.
abbrev pub fresh : ℕ → Host → ℕ → Profile → Device
fresh now h device_id profile =
    (Boot.start now h device_id profile 0 (record { state = none; records = []; writes = 0 })).1

pub data Step (d : Device) : Device → Type 0 where
  tick : (now : ℕ) → Step d (Tick.tick now d).1
  sample : (now : ℕ) → Step d (Log.sample now d)
  announce : (now : ℕ) → Step d (Log.emit_run_changed now d)
  commit : Step d (Store.commit d).1
  command :
      (now : ℕ) (s : Session) (p : Command) (raw : Option (List ℕ))
      → Step d (Execute.command now s p raw d).1
  heartbeat : (now session : ℕ) (lease : Option ℕ) → Step d (Lease.heartbeat now session lease d).1
  lose_lease : (now : ℕ) (session : Option ℕ) → Step d (Lease.lose_lease now session d).1
  raise_alarm :
      (now : ℕ) (code : AlarmCode) (severity : Option Severity)
      → Step d (Alarm.raise_alarm now code severity d).1
  alarm_transition :
      (now id seq : ℕ) (t : Transition) → Step d (Alarm.alarm_transition now id seq t d).1
  finish_measurement : (now : ℕ) → Step d (Stage.finish_measurement now d).1
  first_drip : (now : ℕ) (is_valid : Bool) → Step d (Tick.note_first_drip now is_valid d).1
  -- The values are set to any others.
  measure : (vs : Measurements) → Step d (Log.on_content (λ c. record c { values = vs }) d)
  -- A restart on what is stored, of any device identifier and profile; the identifier of the new boot
  -- was not drawn before.
  restart :
      (now device_id : ℕ) (profile : Profile)
      → IsNewBoot (d.host.uuid4 d.drawn) d.store
      → Step d (Boot.start now d.host device_id profile d.drawn d.store).1

pub data Reach (d : Device) : Device → Type 0 where
  here : Reach d d
  next : {e f : Device} → Reach d e → Step e f → Reach d f

raise_alarm-IsSound :
    (live : Bool) (now : ℕ) (code : AlarmCode) (severity : Option Severity) (d : Device)
    → IsSound live d
    → IsSound live (Alarm.raise_alarm now code severity d).1
unfolding Alarm.raise_alarm
raise_alarm-IsSound live now code severity d s =
    elim (Bool-cases (alarm_level_ok code (chosen code severity))) [
      | inl fits ↦ rw fits (commit-IsSound live _ (raise-IsSound live now code _ d s))
      | inr low ↦ rw low s
    ]

transition_found-IsSound :
    (live : Bool) (now : ℕ) (t : Transition) (o : Option Alarm) (d : Device)
    → IsSound live d
    → IsSound live
        (elim o as (λ _. Result Error (Unit {0}) × Device) [
          | none ↦ (err (device state_conflict), d)
          | some a ↦ Store.commit (change_alarm now t a d)
        ]).1
transition_found-IsSound live now t none d s = s
transition_found-IsSound live now t (some a) d s =
    commit-IsSound live (change_alarm now t a d) (change_alarm-IsSound live now t a d s)

alarm_transition-IsSound :
    (live : Bool) (now id seq : ℕ) (t : Transition) (d : Device)
    → IsSound live d
    → IsSound live (Alarm.alarm_transition now id seq t d).1
unfolding Alarm.alarm_transition
alarm_transition-IsSound live now id seq t d s =
    transition_found-IsSound live now t (find_alarm id seq d.content.alarms) d s

finish_measurement-IsSound :
    (live : Bool) (now : ℕ) (d : Device)
    → IsSound live d
    → IsSound live (Stage.finish_measurement now d).1
finish_measurement-IsSound live now d s = elim (Bool-cases (is_measuring d.content.run.state)) [
  | inl m ↦
      weaken-IsSound live (Stage.finish_measurement now d).1 (finish-IsGood live now d m s).sound
  | inr other ↦ unfold Stage.finish_measurement in rw other s
]

latch_drip-IsSound :
    (live : Bool) (d : Device) → IsSound live d → IsSound live (on_content latch_drip d)
unfolding on_content latch_drip
latch_drip-IsSound live d s = ground arith

first_drip-IsSound :
    (live : Bool) (now : ℕ) (is_valid : Bool) (d : Device)
    → IsSound live d
    → IsSound live (Tick.note_first_drip now is_valid d).1
unfolding Tick.note_first_drip
first_drip-IsSound live now is_valid d s = elim (Bool-cases (is_measuring d.content.run.state)) [
  | inl m ↦
      let d' = on_content latch_drip (Log.sample now d) in
      let kind = EventKind.first_drip (next_ref d.content) (d'.content.values burden_mc) is_valid in
      rw m (
        weaken-IsSound live (Store.commit (emit now kind d')).1 (
          commit-IsSound true (emit now kind d') (
            emit-IsSound true d'
              (latch_drip-IsSound true (Log.sample now d) (sample-IsSound live d s now)) now kind)))
  | inr other ↦ rw other s
]

heartbeat-IsSound :
    (live : Bool) (now session : ℕ) (lease : Option ℕ) (d : Device)
    → IsSound live d
    → IsSound live (Lease.heartbeat now session lease d).1
unfolding Lease.heartbeat
heartbeat-IsSound live now session lease d s = ground arith

measure-IsSound :
    (live : Bool) (vs : Measurements) (d : Device)
    → IsSound live d
    → IsSound live (on_content (λ c. record c { values = vs }) d)
unfolding on_content
measure-IsSound live vs d s = ground arith

announce-IsSound :
    (live : Bool) (now : ℕ) (d : Device) → IsSound live d → IsSound live (emit_run_changed now d)
unfolding emit_run_changed
announce-IsSound live now d s = emit-IsSound live d s now (EventKind.run_changed d.content.run)

Step-IsSound : {d e : Device} → Step d e → IsSound false d → IsSound false e
Step-IsSound {d} (tick now) s = (tick-IsGood false now d s).sound
Step-IsSound {d} (sample now) s =
    weaken-IsSound false (Log.sample now d) (sample-IsSound false d s now)
Step-IsSound {d} (announce now) s = announce-IsSound false now d s
Step-IsSound {d} commit s = commit-IsSound false d s
Step-IsSound {d} (command now session p raw) s = command-IsSound false now session p raw d s
Step-IsSound {d} (heartbeat now session lease) s = heartbeat-IsSound false now session lease d s
Step-IsSound {d} (lose_lease now session) s = (lose_lease-IsGood false now session d s).sound
Step-IsSound {d} (raise_alarm now code severity) s = raise_alarm-IsSound false now code severity d s
Step-IsSound {d} (alarm_transition now id seq t) s = alarm_transition-IsSound false now id seq t d s
Step-IsSound {d} (finish_measurement now) s = finish_measurement-IsSound false now d s
Step-IsSound {d} (first_drip now is_valid) s = first_drip-IsSound false now is_valid d s
Step-IsSound {d} (measure vs) s = measure-IsSound false vs d s
Step-IsSound {d} (restart now device_id profile new) s =
    start-IsSound now d.host device_id profile d.drawn d.store s.stored new

Reach-IsSound : {d e : Device} → Reach d e → IsSound false d → IsSound false e
Reach-IsSound here s = s
Reach-IsSound (next r st) s = Step-IsSound st (Reach-IsSound r s)

Reach-fresh-IsSound :
    (now : ℕ) (h : Host) (device_id : ℕ) (profile : Profile) {d : Device}
    → Reach (fresh now h device_id profile) d
    → IsSound false d
Reach-fresh-IsSound now h device_id profile r =
    Reach-IsSound r (start-IsSound now h device_id profile 0 _ (empty-IsStored h [] 0) (λ c e. cc))

-- Whatever happens to a new device, restarts on what was stored included, as long as no restart draws the
-- boot identifier of a boundary of the stored run: its run passes the validator of the wire's run status.
pub Reach-run_valid :
    (now : ℕ) (h : Host) (device_id : ℕ) (profile : Profile) {d : Device}
    → Reach (fresh now h device_id profile) d
    → run_valid d.content.run ≡ true
Reach-run_valid now h device_id profile r =
    IsSoundData-run_valid (Reach-fresh-IsSound now h device_id profile r)

-- Whatever happened to a new device, where no restart draws the boot
-- identifier of a boundary of the stored run: its next tick returns, or fails for the storage, or with a
-- `ValueError` that leaves a pending record which the contract refuses: it meets no invalid status and no missing
-- recipe, stage or time.
pub Reach-tick-IsClean :
    (start : ℕ) (h : Host) (device_id : ℕ) (profile : Profile) {d : Device} (now : ℕ)
    → Reach (fresh start h device_id profile) d
    → IsClean (Tick.tick now d).0 (Tick.tick now d).1
Reach-tick-IsClean start h device_id profile {d} now r =
    (tick-IsGood false now d (Reach-fresh-IsSound start h device_id profile r)).clean
