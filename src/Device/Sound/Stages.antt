-- ===== src/Device/Sound/Stages.antt =====
-- A round of a measuring run keeps the invariant, and meets no missing recipe, stage or time:
-- `finish_measurement` and `_process_stage` of backend/app/hostcomm/v2_simulator/state.py.
use native.Mathlib.Numerals.{add-one}
use mathlib.Core.Path.{subst}
use smd_web_hmi.Prelude.{
  ℕ, suc, ◌+◌, ◌-◌, ◌≡◌, ◌≢◌, refl, sym, ap, inl, inr, Bool-cases, Option-cases, Bool, true, false,
  not, Option, none, some, Result, ok, err, arith, is_some, get_elem?, ltb, leb,
}
use smd_web_hmi.Prelude.Int.{ℤ}
use smd_web_hmi.Recipe.Model.{
  Recipe, Stage, HeaterMode, off, ramp, hold, heats_off, heats_ramp, is_cool, validate,
}
use smd_web_hmi.Recipe.Shape.{
  next_stage, get_elem?-stages_valid, stage_heating, validate-stages_valid,
}
use smd_web_hmi.Device.Model.{
  Measurements, Data, Device, Error, device, storage, value, lookup_error,
  temperature_sensor_invalid, recipe_stage_timeout, run_changed, furnace_setpoint_mc,
}
use smd_web_hmi.Device.Tests.{is_idle, is_measuring, valid_point}
use smd_web_hmi.Device.Log.{revision, on_content, emit_run_changed, emit, sample}
use smd_web_hmi.Device.Store.{
  is_candidate, in_order, run_valid, rows_valid, clear_pending, commit, save,
}
use smd_web_hmi.Device.Stage.{
  running_recipe, stage_at, complete_run, finish_measurement, Heated, heated, setpoint_lost,
  no_target, heat_hold, heat_ramp, heat_mode, set_gases, observe, matches, since, advance,
  enter_next, next_index, try_exit, continue_stage, co_unsafe, run_stage, with_recipe,
  process_stage,
}
use smd_web_hmi.Device.Sound.Invariant.{
  IsSound, IsSoundData-run_valid, IsStaged, recent, newest, known, next-stage_present,
  stage_present, stage_present-IsStaged,
}
use smd_web_hmi.Device.Sound.Steps.{emit-IsSound, commit-IsSound, raise-IsSound}

-- A call returned, or the storage failed, or the wire's contract refuses a record that waits to be stored.
abbrev pub IsClean {ℓ} : {A : Type ℓ} → Result Error A → Device → Type 0
IsClean (ok _) d = Unit
IsClean (err storage) d = Unit
IsClean (err value) d = rows_valid d.pending_records ≡ false
IsClean (err (device _)) d = ⊥
IsClean (err lookup_error) d = ⊥

-- The outcome of a call that leaves a sound device and does not fault.
pub record IsGood {A : Type 0} (live : Bool) (r : Result Error A × Device) : Type 0 where
  pub clean : IsClean r.0 r.1
  pub sound : IsSound live r.1

commit-IsClean : (d : Device) → run_valid d.content.run ≡ true → IsClean (commit d).0 (commit d).1
unfolding commit save clear_pending
commit-IsClean d h = ground arith

pub commit-IsGood : (live : Bool) (d : Device) → IsSound live d → IsGood live (commit d)
commit-IsGood live d s = record {
  clean = commit-IsClean d (IsSoundData-run_valid s);
  sound = commit-IsSound live d s;
}

complete-IsSound :
    (live : Bool) (now : ℕ) (d : Device)
    → is_measuring d.content.run.state ≡ true
    → IsSound live d
    → IsSound true (on_content (complete_run now) (sample now d))
unfolding on_content complete_run sample recent newest in_order known is_candidate
complete-IsSound live now d m s = ground arith

pub finish-IsGood :
    (live : Bool) (now : ℕ) (d : Device)
    → is_measuring d.content.run.state ≡ true
    → IsSound live d
    → IsGood true (finish_measurement now d)
unfolding finish_measurement emit_run_changed
finish-IsGood live now d m s =
    let d' = on_content (complete_run now) (sample now d) in
    rw m (
      commit-IsGood true (emit now (run_changed d'.content.run) d')
        (emit-IsSound true d' (complete-IsSound live now d m s) now (run_changed d'.content.run)))

-- A heater branch writes a setpoint and the start of a ramp, and nothing else.
heat_hold-frame :
    (target : Option ℕ) (c c' : Data)
    → heat_hold target c ≡ heated c'
    → c' ≡ record c { values = c'.values; ramp_initial_mc = c'.ramp_initial_mc }
unfolding heat_hold
heat_hold-frame none c c' e = cc
heat_hold-frame (some t) c c' e = ground arith

heat_ramp-frame :
    (target rate : Option ℕ) (elapsed : ℕ) (at : Option ℤ) (c c' : Data)
    → heat_ramp target rate elapsed at c ≡ heated c'
    → c' ≡ record c { values = c'.values; ramp_initial_mc = c'.ramp_initial_mc }
unfolding heat_ramp
heat_ramp-frame target rate elapsed none c c' e = cc
heat_ramp-frame none rate elapsed (some a) c c' e = cc
heat_ramp-frame (some t) none elapsed (some a) c c' e = cc
heat_ramp-frame (some t) (some r) elapsed (some a) c c' e = ground arith

heat_mode-frame :
    (m : HeaterMode) (stage : Stage) (elapsed : ℕ) (c c' : Data)
    → heat_mode m stage elapsed c ≡ heated c'
    → c' ≡ record c { values = c'.values; ramp_initial_mc = c'.ramp_initial_mc }
unfolding heat_mode
heat_mode-frame off stage elapsed c c' e = ground arith
heat_mode-frame hold stage elapsed c c' e = heat_hold-frame stage.target_mc c c' e
heat_mode-frame ramp stage elapsed c c' e =
    heat_ramp-frame stage.target_mc stage.rate_mc_per_min elapsed
      (valid_point furnace_setpoint_mc c) c c' e

-- In a stage that names what it heats by, the heater branch finds its target.
heat_mode-target :
    (m : HeaterMode) (stage : Stage) (elapsed : ℕ) (c : Data)
    → (is_some stage.target_mc ≡ not (heats_off m)) × (is_some stage.rate_mc_per_min ≡ heats_ramp m)
    → heat_mode m stage elapsed c ≢ no_target
unfolding heat_mode heats_off heats_ramp
heat_mode-target off stage elapsed c h e = ground arith
heat_mode-target hold stage elapsed c h e = ground arith
heat_mode-target ramp stage elapsed c h e = ground arith

set_stable-IsSound :
    (live : Bool) (o : Option ℕ) (d : Device)
    → IsSound live d
    → IsSound live (on_content (λ c. record c { stable_started = o }) d)
unfolding on_content
set_stable-IsSound live o d s = ground arith

revision-IsSound :
    (live : Bool) (d : Device) → IsSound live d → IsSound live (on_content revision d)
unfolding on_content revision
revision-IsSound live d s = ground arith

enter_next-IsSound :
    (live : Bool) (now : ℕ) (d : Device) (i : ℕ)
    → is_measuring d.content.run.state ≡ true
    → d.content.run.stage_index ≡ some i
    → stage_present d.host d.content.active_recipe (some (i + 1)) ≡ true
    → IsSound live d
    → IsSound live (on_content (enter_next now) d)
unfolding on_content enter_next
enter_next-IsSound live now d i m e p s = ground arith

advance-IsGood :
    (now : ℕ) (d : Device) (t : Stage)
    → is_measuring d.content.run.state ≡ true
    → IsSound true d
    → IsGood true (advance now (ok t) d)
unfolding advance emit_run_changed
advance-IsGood now d t m s = elim (Bool-cases (is_cool t.kind)) [
  | inl cool ↦ rw cool (finish-IsGood true now d m s)
  | inr heat ↦
      let d' = on_content revision d in
      rw heat (record {
        clean = tt;
        sound = emit-IsSound true d' (revision-IsSound true d s) now (run_changed d'.content.run);
      })
]

-- A measuring device, with the stage that it is in.
pub record IsMeasuring (d : Device) : Type 0 where
  pub measuring : is_measuring d.content.run.state ≡ true
  pub sound : IsSound true d
  pub index : ℕ
  pub indexed : d.content.run.stage_index ≡ some index
  pub staged : IsStaged d.host d.content.active_recipe index

stage_index_some :
    (live : Bool) (d : Device)
    → IsSound live d
    → is_idle d.content.run.state ≡ false
    → (i : ℕ) × (d.content.run.stage_index ≡ some i)
unfolding stage_present running_recipe stage_at
stage_index_some live d s m = elim (Option-cases d.content.run.stage_index) [
  | inl e ↦ absurd (ground arith)
  | inr (i, e) ↦ (i, e)
]

-- Outside of idle the recipe can be read back.
pub running_some :
    (live : Bool) (d : Device)
    → IsSound live d
    → is_idle d.content.run.state ≡ false
    → (r : Recipe) × (running_recipe d.host d.content.active_recipe ≡ ok r) × (validate r ≡ none)
running_some live d s n =
    let (i, e) = stage_index_some live d s n in
    let g = stage_present-IsStaged d.host d.content.active_recipe i (rw e at (s.staged n)) in
    (g.recipe, g.runs, g.valid)

is_measuring-IsMeasuring :
    (d : Device) → IsSound true d → is_measuring d.content.run.state ≡ true → IsMeasuring d
is_measuring-IsMeasuring d s m =
    let (i, e) = stage_index_some true d s (ground arith) in
    record {
      measuring = m;
      sound = s;
      index = i;
      indexed = e;
      staged =
          stage_present-IsStaged d.host d.content.active_recipe i
            (rw e at (s.staged (ground arith)));
    }

stage_at-next_index :
    (r : Recipe) (o : Option ℕ) (i : ℕ) (t : Stage)
    → o ≡ some i
    → get_elem? r.stages (suc i) ≡ some t
    → stage_at r (next_index o) ≡ ok t
unfolding next_index stage_at
stage_at-next_index r o i t e at = rw (e, add-one) (ground arith)

enter-IsGood :
    (now : ℕ) (d : Device) (g : IsMeasuring d)
    → is_cool g.staged.stage.kind ≡ false
    → let d' = on_content (enter_next now) d in
      IsGood true (advance now (stage_at g.staged.recipe d'.content.run.stage_index) d')
enter-IsGood now d g k =
    let d' = on_content (enter_next now) d in
    let (t, at) = next_stage g.staged.recipe g.index g.staged.valid g.staged.at k in
    let p = next-stage_present d.host d.content.active_recipe g.index g.staged k in
    let found : stage_at g.staged.recipe d'.content.run.stage_index ≡ ok t =
      unfold on_content enter_next in
      stage_at-next_index g.staged.recipe d.content.run.stage_index g.index t g.indexed at in
    rw found (
      advance-IsGood now d' t (unfold on_content enter_next in g.measuring)
        (enter_next-IsSound true now d g.index g.measuring g.indexed p g.sound))

try_exit-IsGood :
    (now elapsed : ℕ) (d : Device) (g : IsMeasuring d)
    → is_cool g.staged.stage.kind ≡ false
    → IsGood true (try_exit now g.staged.recipe g.staged.stage elapsed d)
unfolding try_exit
try_exit-IsGood now elapsed d g k =
    let st = g.staged.stage in
    let at : ℕ = since now d.content.stable_started in
    elim (Bool-cases (not (matches st.exit (observe st.exit.source elapsed d.content)))) [
      | inl out ↦ rw out (record { clean = tt; sound = set_stable-IsSound true none d g.sound })
      | inr match ↦ elim (Bool-cases (ltb now (at + st.exit.stable_ms))) [
        | inl wait ↦
            rw (match, wait)
              (record { clean = tt; sound = set_stable-IsSound true (some at) d g.sound })
        | inr go ↦ rw (match, go) (enter-IsGood now d g k)
      ]
    ]

set_heat-IsSound :
    (live : Bool) (d : Device) (vs : Measurements) (r : Option ℤ)
    → IsSound live d
    → IsSound live (record d { content = record d.content { values = vs; ramp_initial_mc = r } })
set_heat-IsSound live d vs r s = ground arith

heated-IsGood :
    (now elapsed : ℕ) (d : Device) (g : IsMeasuring d) (vs : Measurements) (r : Option ℤ)
    → is_cool g.staged.stage.kind ≡ false
    → IsGood true (
        try_exit now g.staged.recipe g.staged.stage elapsed
          (record d { content = record d.content { values = vs; ramp_initial_mc = r } }))
heated-IsGood now elapsed d g vs r k =
    let g' : IsMeasuring
        (record d { content = record d.content { values = vs; ramp_initial_mc = r } }) =
      record {
        measuring = g.measuring;
        sound = set_heat-IsSound true d vs r g.sound;
        index = g.index;
        indexed = g.indexed;
        staged = g.staged;
      } in
    try_exit-IsGood now elapsed
      (record d { content = record d.content { values = vs; ramp_initial_mc = r } }) g' k

continue-IsGood :
    (now elapsed : ℕ) (d : Device) (g : IsMeasuring d) (w : Heated)
    → is_cool g.staged.stage.kind ≡ false
    → w ≢ no_target
    → ((c : Data)
        → w ≡ heated c
        → c ≡ record d.content { values = c.values; ramp_initial_mc = c.ramp_initial_mc })
    → IsGood true (continue_stage now g.staged.recipe g.staged.stage elapsed w d)
unfolding continue_stage
continue-IsGood now elapsed d g no_target k n f = absurd (n refl)
continue-IsGood now elapsed d g setpoint_lost k n f = record {
  clean = tt;
  sound = raise-IsSound true now temperature_sensor_invalid _ d g.sound;
}
continue-IsGood now elapsed d g (heated c) k n f =
    let st = g.staged.stage in
    let vs : Measurements = set_gases st.n2_ml_min st.co_ml_min c.values in
    subst
      (λ (x : Data).
        IsGood true (try_exit now g.staged.recipe st elapsed (record d { content = x })))
      (sym (ap (λ (x : Data). record x { values = vs }) (f c refl)))
      (heated-IsGood now elapsed d g vs c.ramp_initial_mc k)

run_stage-IsGood :
    (now : ℕ) (d : Device) (g : IsMeasuring d)
    → IsGood true (run_stage now g.staged.recipe g.staged.stage d)
unfolding run_stage
run_stage-IsGood now d g =
    let st = g.staged.stage in
    let elapsed : ℕ = now - d.content.stage_started in
    let w = heat_mode st.heater_mode st elapsed d.content in
    let valid =
      get_elem?-stages_valid g.staged.recipe.stages g.index
        (validate-stages_valid g.staged.recipe g.staged.valid) g.staged.at in
    elim (Bool-cases (is_cool st.kind)) [
      | inl cool ↦ rw cool (finish-IsGood true now d g.measuring g.sound)
      | inr heat ↦ elim (Bool-cases (leb st.timeout_ms elapsed)) [
        | inl late ↦
            rw (heat, late)
              (record {
                clean = tt;
                sound = raise-IsSound true now recipe_stage_timeout _ d g.sound;
              })
        | inr early ↦ elim (Bool-cases (co_unsafe st d.content)) [
          | inl cold ↦
              rw (heat, early, cold)
                (record {
                  clean = tt;
                  sound = raise-IsSound true now temperature_sensor_invalid _ d g.sound;
                })
          | inr warm ↦
              rw (heat, early, warm)
                (continue-IsGood now elapsed d g w heat
                  (heat_mode-target st.heater_mode st elapsed d.content (stage_heating st valid))
                  (λ c. heat_mode-frame st.heater_mode st elapsed d.content c))
        ]
      ]
    ]

pub process_stage-IsGood :
    (now : ℕ) (d : Device) → IsSound true d → IsGood true (process_stage now d)
unfolding process_stage with_recipe
process_stage-IsGood now d s = elim (Bool-cases (is_measuring d.content.run.state)) [
  | inr other ↦ rw other (record { clean = tt; sound = s })
  | inl m ↦
      let g = is_measuring-IsMeasuring d s m in
      let found : stage_at g.staged.recipe d.content.run.stage_index ≡ ok g.staged.stage =
        unfold stage_at in ground (arith, g.indexed, g.staged.at) in
      rw (m, g.staged.runs) (rw found (run_stage-IsGood now d g))
]
