-- ===== src/Compiler/Exact.antt =====
-- `compile_recipe` of backend/app/services/v2_recipe_compiler.py neither rounds nor replaces a quantity.
use smd_web_hmi.Prelude.{
  ℕ, ◌*◌, ◌≡◌, refl, Bool, true, false, Option, none, some, Result, List, last?, arith, ok,
  guard-ok, >>=-ok, ok_injective, traverse, traverse-ok, Pairs, Pairs-map,
}
use mathlib.Core.Path.{subst, sym}
use smd_web_hmi.Recipe.Model.{StageKind, HeaterMode, heats_off, heats_hold}
use smd_web_hmi.Recipe.Model as Wire
use smd_web_hmi.Compiler.Definition.{
  Signal, furnace_c, burden_c, elapsed_s, ExitCondition, Stage, RecipeDefinition,
}
use smd_web_hmi.Compiler.Compile.{
  ProfileSnapshot, Bundle, CompiledRecipe, milli, milli_option, default_mode, CompileError, mode_of,
  wire_signal, or_zero, compile_exit, compile_stage, artifact, validated_profile, compile_recipe,
  off_conflict, hold_conflict, checked, wire_recipe, check_final, safety_profile, capacity_exceeded,
  invalid_definition, saved_digest_mismatch, not_executable,
}
use smd_web_hmi.Compiler.Verdict.{validate_for_device}

-- A quantity in thousandths that is there if and only if the saved one is, and is exactly it.
abbrev pub IsSame : Option ℕ → Option ℕ → Type 0
IsSame none none = Unit {0}
IsSame (some v) (some x) = x * 1000 ≡ v
IsSame _ _ = ◌≡◌ {A = Bool} true false

-- A time in thousandths, where a saved stage may leave it out for 0.
abbrev pub IsSameOrZero : Option ℕ → ℕ → Type 0
IsSameOrZero none x = x ≡ 0
IsSameOrZero (some v) x = x * 1000 ≡ v

-- The heater mode that a saved stage names, or the one of its kind.
abbrev pub IsHeating : Option HeaterMode → StageKind → HeaterMode → Type 0
IsHeating (some m) kind x = x ≡ m
IsHeating none StageKind.ramp x = x ≡ HeaterMode.ramp
IsHeating none StageKind.hold x = x ≡ HeaterMode.hold
IsHeating none StageKind.cool x = x ≡ HeaterMode.off
IsHeating none StageKind.gas x = ◌≡◌ {A = Bool} true false

-- The same signal, in the units of the wire.
abbrev pub IsSignal : Signal → Wire.Signal → Type 0
IsSignal furnace_c x = x ≡ Wire.furnace_mc
IsSignal burden_c x = x ≡ Wire.burden_mc
IsSignal elapsed_s x = x ≡ Wire.elapsed_ms

-- The quantities of a compiled stage are those of the saved stage, in thousandths.
pub record IsExact (s : Stage) (w : Wire.Stage) : Type 0 where
  pub name : w.name ≡ s.name
  pub kind : w.kind ≡ s.kind
  pub heater : IsHeating s.heater_mode s.kind w.heater_mode
  pub target : IsSame s.furnace_target_c w.target_mc
  pub rate : IsSame s.ramp_c_min w.rate_mc_per_min
  pub n2 : w.n2_ml_min * 1000 ≡ s.n2_l_min
  pub co : w.co_ml_min * 1000 ≡ s.co_l_min
  pub signal : IsSignal s.exit.signal w.exit.source
  pub comparison : w.exit.op ≡ s.exit.comparison
  pub value : w.exit.value * 1000 ≡ s.exit.value
  pub stable : IsSameOrZero s.exit.stable_s w.exit.stable_ms
  pub timeout : w.timeout_ms ≡ s.timeout_s * 1000

pub milli-exact : (v : ℕ) {x : ℕ} → milli v ≡ ok x → x * 1000 ≡ v
unfolding milli
milli-exact v h = ground arith

milli_option-IsSame : (o w : Option ℕ) → milli_option o ≡ ok w → IsSame o w
unfolding milli_option milli
milli_option-IsSame none none h = tt
milli_option-IsSame none (some x) h = ground arith
milli_option-IsSame (some v) none h = ground arith
milli_option-IsSame (some v) (some x) h = ground arith

mode_of-IsHeating :
    (o : Option HeaterMode) (kind : StageKind) {x : HeaterMode}
    → elim o as (λ _. Result CompileError HeaterMode) [ some m ↦ ok m | none ↦ default_mode kind ]
      ≡ ok x
    → IsHeating o kind x
unfolding default_mode
mode_of-IsHeating (some m) kind h = sym (ok_injective h)
mode_of-IsHeating none StageKind.ramp h = sym (ok_injective h)
mode_of-IsHeating none StageKind.hold h = sym (ok_injective h)
mode_of-IsHeating none StageKind.cool h = sym (ok_injective h)
mode_of-IsHeating none StageKind.gas h = ground arith

wire_signal-IsSignal : (s : Signal) → IsSignal s (wire_signal s)
unfolding wire_signal
wire_signal-IsSignal furnace_c = refl
wire_signal-IsSignal burden_c = refl
wire_signal-IsSignal elapsed_s = refl

or_zero-IsSameOrZero : (o : Option ℕ) (x : ℕ) → x * 1000 ≡ or_zero o → IsSameOrZero o x
unfolding or_zero
or_zero-IsSameOrZero none x h = omega (arith, h)
or_zero-IsSameOrZero (some v) x h = h

compile_exit-exact :
    (e : ExitCondition) {w : Wire.ExitCondition}
    → compile_exit e ≡ ok w
    → IsSignal e.signal w.source
      × (w.op ≡ e.comparison)
      × (w.value * 1000 ≡ e.value)
      × IsSameOrZero e.stable_s w.stable_ms
unfolding compile_exit
compile_exit-exact e {w} h =
    let (value, is_value, h1) = >>=-ok (milli e.value) _ h in
    let (stable, is_stable, h2) = >>=-ok (milli (or_zero e.stable_s)) _ h1 in
    subst
      (λ w.
        IsSignal e.signal w.source
        × (w.op ≡ e.comparison)
        × (w.value * 1000 ≡ e.value)
        × IsSameOrZero e.stable_s w.stable_ms)
      (ok_injective h2)
      (
        wire_signal-IsSignal e.signal,
        refl,
        milli-exact e.value is_value,
        or_zero-IsSameOrZero e.stable_s stable (milli-exact (or_zero e.stable_s) is_stable),
      )

pub compile_stage-IsExact : (s : Stage) (w : Wire.Stage) → compile_stage s ≡ ok w → IsExact s w
unfolding compile_stage
compile_stage-IsExact s w h =
    let (mode, is_mode, h1) = >>=-ok (mode_of s) _ h in
    let (off, h2) = guard-ok _ off_conflict _ h1 in
    let (hold, h3) = guard-ok _ hold_conflict _ h2 in
    let (target, is_target, h4) = >>=-ok (milli_option s.furnace_target_c) _ h3 in
    let (rate, is_rate, h5) = >>=-ok (milli_option s.ramp_c_min) _ h4 in
    let (n2, is_n2, h6) = >>=-ok (milli s.n2_l_min) _ h5 in
    let (co, is_co, h7) = >>=-ok (milli s.co_l_min) _ h6 in
    let (exit, is_exit, h8) = >>=-ok (compile_exit s.exit) _ h7 in
    let (signal, comparison, value, stable) = compile_exit-exact s.exit is_exit in
    subst (IsExact s) (ok_injective h8) record {
      name = refl;
      kind = refl;
      heater = mode_of-IsHeating s.heater_mode s.kind (unfold mode_of in is_mode);
      target = milli_option-IsSame s.furnace_target_c target is_target;
      rate = milli_option-IsSame s.ramp_c_min rate is_rate;
      n2 = milli-exact s.n2_l_min is_n2;
      co = milli-exact s.co_l_min is_co;
      signal = signal;
      comparison = comparison;
      value = value;
      stable = stable;
      timeout = refl;
    }

checked-valid : (r : Wire.Recipe) {u : Unit} → checked r ≡ ok u → Wire.validate r ≡ none
unfolding checked
checked-valid r h = ground arith

module _ (source_digest : RecipeDefinition → ℕ) (profile_digest : ProfileSnapshot → ℕ)
    (wire_digest : Wire.Recipe → ℕ) (canonical_bytes : Wire.Recipe → List ℕ) where
  -- What a compiled recipe is made of, and what was checked.
  pub record IsCompiled (b : Bundle) (p : ProfileSnapshot) (c : CompiledRecipe) : Type 0 where
    pub executable :
        (validate_for_device b.definition (some (safety_profile p)) true).executable ≡ true
    pub stages : List Wire.Stage
    pub compiled : Pairs IsExact b.definition.stages stages
    pub is_recipe : c.recipe ≡ wire_recipe b p stages
    pub final : check_final p.profile (last? stages) ≡ ok tt
    pub valid : Wire.validate c.recipe ≡ none
    pub bytes : c.data_ ≡ canonical_bytes c.recipe

  artifact-IsCompiled :
      (b : Bundle) (p : ProfileSnapshot) (stages : List Wire.Stage) {c : CompiledRecipe}
      → (validate_for_device b.definition (some (safety_profile p)) true).executable ≡ true
      → Pairs IsExact b.definition.stages stages
      → artifact source_digest profile_digest wire_digest canonical_bytes b p stages ≡ ok c
      → IsCompiled b p c
  unfolding artifact
  artifact-IsCompiled b p stages {c} executable compiled h =
      let (u, final, h1) = >>=-ok (check_final p.profile (last? stages)) _ h in
      let (v, valid, h2) = >>=-ok (checked (wire_recipe b p stages)) _ h1 in
      let (fits, h3) = guard-ok _ capacity_exceeded _ h2 in
      subst (IsCompiled b p) (ok_injective h3) record {
        executable = executable;
        stages = stages;
        compiled = compiled;
        is_recipe = refl;
        final = final;
        valid = checked-valid (wire_recipe b p stages) valid;
        bytes = refl;
      }

  pub compile_recipe-IsCompiled :
      (b : Bundle) (p : ProfileSnapshot) {c : CompiledRecipe}
      → compile_recipe source_digest profile_digest wire_digest canonical_bytes b p ≡ ok c
      → IsCompiled b p c
  unfolding compile_recipe
  compile_recipe-IsCompiled b p {c} h =
      let (defined, h1) = guard-ok _ invalid_definition _ h in
      let (digest, h2) = guard-ok _ saved_digest_mismatch _ h1 in
      let (u, profile, h3) =
        >>=-ok (validated_profile source_digest profile_digest wire_digest canonical_bytes p) _
          h2 in
      let (executable, h4) = guard-ok _ not_executable _ h3 in
      let (stages, compiled, h5) = >>=-ok (traverse compile_stage b.definition.stages) _ h4 in
      artifact-IsCompiled b p stages executable
        (Pairs-map compile_stage-IsExact b.definition.stages stages
          (traverse-ok compile_stage b.definition.stages stages compiled))
        h5

  -- The stages of a compiled recipe are the saved ones, in order, with every quantity exact: a quantity
  -- that the wire's units cannot hold is never rounded.
  pub compile_recipe-IsExact :
      (b : Bundle) (p : ProfileSnapshot) {c : CompiledRecipe}
      → compile_recipe source_digest profile_digest wire_digest canonical_bytes b p ≡ ok c
      → Pairs IsExact b.definition.stages c.recipe.stages
  unfolding wire_recipe
  compile_recipe-IsExact b p h =
      let i = compile_recipe-IsCompiled b p h in
      subst (λ r. Pairs IsExact b.definition.stages r.stages) (sym i.is_recipe) i.compiled
