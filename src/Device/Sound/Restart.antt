-- ===== src/Device/Sound/Restart.antt =====
-- Starting and restarting keep the invariant: `__init__` and `recover` of
-- backend/app/hostcomm/v2_simulator/state.py.
use smd_web_hmi.Prelude.{
  ℕ, ◌≡◌, refl, Bool, true, false, Option, none, some, arith, ◌==◌, ◌+◌, ◌&&◌, if-cases, Result,
  List,
}
use smd_web_hmi.Device.Model.{SampleRef, Data, Host, LogRow, Store, Device, Error, Profile}
use smd_web_hmi.Device.Log.{on_content}
use smd_web_hmi.Device.Store.{is_candidate, in_order}
use smd_web_hmi.Device.Stop.{safe_values}
use smd_web_hmi.Device.Command.{idle_run}
use smd_web_hmi.Device.Boot.{initial_data, restarted, recover, loaded, profile_valid, start}
use smd_web_hmi.Device.Sound.Invariant.{
  IsSoundData, IsSound, IsStored, IsStored-data, with_stored, recent, newest, known, loads,
}
use smd_web_hmi.Device.Sound.Steps.{commit-IsSound}

-- The identifier was not drawn for the boot of this boundary.
abbrev pub IsNew : ℕ → Option SampleRef → Type 0
IsNew boot none = Unit
IsNew boot (some r) = (r.boot_id == boot) ≡ false

new-recent : (boot seq : ℕ) (o : Option SampleRef) → IsNew boot o → recent boot seq o ≡ true
unfolding recent
new-recent boot seq none n = refl
new-recent boot seq (some r) n = ground arith

pub initial-IsSoundData :
    (h : Host) {P : Type 0} (device_id boot log : ℕ) (profile : Profile)
    → P
    → IsSoundData false h P (initial_data device_id profile boot log)
unfolding initial_data idle_run known in_order recent newest loads is_candidate
initial-IsSoundData h device_id boot log profile p = ground arith

restarted-IsSoundData :
    (live : Bool) (now boot : ℕ) (h : Host) {P : Type 0} (c : Data)
    → IsNew boot c.run.measurement_start
    → IsNew boot c.run.measurement_end
    → IsSoundData live h P c
    → IsSoundData false h P (restarted now boot c)
unfolding restarted safe_values known newest is_candidate
restarted-IsSoundData live now boot h c a b g =
    ground (
      arith,
      new-recent boot 0 c.run.measurement_start a,
      new-recent boot 0 c.run.measurement_end b,
    )

recover-IsSound :
    (now : ℕ) (d : Device)
    → IsNew (d.host.uuid4 d.drawn) d.content.run.measurement_start
    → IsNew (d.host.uuid4 d.drawn) d.content.run.measurement_end
    → IsSound false d
    → IsSound false (recover now d).1
unfolding recover on_content
recover-IsSound now d a b g =
    commit-IsSound false _
      (restarted-IsSoundData false now (d.host.uuid4 d.drawn) d.host d.content a b g)

-- The next boot identifier was not drawn for a boundary of the run in the store.
abbrev pub IsNewBoot : ℕ → Store → Type 0
IsNewBoot boot s =
    (c : Data)
    → s.state ≡ some c
    → IsNew boot c.run.measurement_start × IsNew boot c.run.measurement_end

loaded-IsSound :
    (h : Host) (device_id : ℕ) (profile : Profile) (drawn : ℕ) (o : Option Data)
    (records : List LogRow) (writes : ℕ)
    → let s : Store = record { state = o; records = records; writes = writes } in
      let d = loaded h device_id profile drawn s in
      IsStored h s
      → IsNewBoot (h.uuid4 drawn) s
      → IsSound false d
        × IsNew (d.host.uuid4 d.drawn) d.content.run.measurement_start
        × IsNew (d.host.uuid4 d.drawn) d.content.run.measurement_end
unfolding loaded initial_data idle_run
loaded-IsSound h device_id profile drawn none records writes i n =
    (initial-IsSoundData h device_id (h.uuid4 drawn) (h.uuid4 (drawn + 1)) profile i, tt, tt)
loaded-IsSound h device_id profile drawn (some c) records writes i n =
    (with_stored (IsStored-data h _ c refl i) i, (n c refl).0, (n c refl).1)

-- A start on a sound store leaves a sound device.
pub start-IsSound :
    (now : ℕ) (h : Host) (device_id : ℕ) (profile : Profile) (drawn : ℕ) (s : Store)
    → IsStored h s
    → IsNewBoot (h.uuid4 drawn) s
    → IsSound false (start now h device_id profile drawn s).1
unfolding start
start-IsSound now h device_id profile drawn s i n =
    let d = loaded h device_id profile drawn s in
    let (sound, a, b) = loaded-IsSound h device_id profile drawn s.state s.records s.writes i n in
    if-cases (λ (x : Result Error (Unit {0}) × Device). IsSound false x.1)
      ((d.content.device_id == device_id) && profile_valid d.content.profile) _ _
      (recover-IsSound now d a b sound) sound

pub empty-IsStored :
    (h : Host) (records : List LogRow) (writes : ℕ)
    → IsStored h (record { state = none; records = records; writes = writes })
unfolding IsStored
empty-IsStored h records writes c e = ground arith
