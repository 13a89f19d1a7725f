-- ===== src/Compiler/Compile.antt =====
-- backend/app/services/v2_recipe_compiler.py: the compilation of a saved recipe to a recipe of the
-- device. The digests and the canonical JSON are parameters.
use smd_web_hmi.Prelude.{
  ℕ, ◌*◌, ◌/◌, ◌%◌, Bool, true, not, ◌&&◌, ◌||◌, Option, none, some, List, ltb, leb, ◌==◌, is_some,
  length, last?, if◌then◌else◌, Result, ok, err, ◌>>=◌, ◌>>◌, guard, traverse,
}
use smd_web_hmi.Recipe.Model.{HeaterMode, StageKind, Mode, heats_off, heats_hold}
use smd_web_hmi.Recipe.Model as Wire
use smd_web_hmi.Device.Model.{Profile}
use smd_web_hmi.Compiler.Definition.{
  Signal, furnace_c, burden_c, elapsed_s, ExitCondition, Stage, RecipeDefinition, is_standard,
}
use smd_web_hmi.Compiler.Standard.{definition_valid}
use smd_web_hmi.Compiler.Verdict.{SafetyProfile, Verdict, validate_for_device}

pub data CompileError : Type 0 where
  invalid_definition saved_digest_mismatch invalid_profile profile_digest_mismatch : CompileError
  profile_not_approved not_executable no_heater_mode off_conflict hold_conflict : CompileError
  precision_exceeds no_stage nitrogen_below_minimum cooling_timeout_exceeds : CompileError
  invalid_recipe : Wire.RecipeError → CompileError
  capacity_exceeded : CompileError

-- What the compiler reads of `ProfileSnapshot`.
pub record ProfileSnapshot : Type 0 where
  pub profile : Profile
  pub rules_reference : Option (List ℕ)

pub record Bundle : Type 0 where
  pub definition : RecipeDefinition
  pub digest : ℕ
  pub recipe_id : ℕ
  pub version : ℕ

pub record CompiledRecipe : Type 0 where
  pub recipe : Wire.Recipe
  pub digest : ℕ
  pub data_ : List ℕ
  pub source_digest : ℕ
  pub validation : Verdict

-- `milli`
unfoldable pub milli : ℕ → Result CompileError ℕ
milli v = if v % 1000 == 0 then ok (v / 1000) else err precision_exceeds

unfoldable pub milli_option : Option ℕ → Result CompileError (Option ℕ)
unfolding milli
milli_option none = ok none
milli_option (some v) = do x ← milli v; ok (some x)

-- The fields of `ProfileSnapshot` in their ranges.
unfoldable pub profile_fields : ProfileSnapshot → Bool
profile_fields p =
    let l = p.profile.limits in
    Wire.positive l.temperature_max_mc
    && Wire.positive l.ramp_max_mc_per_min
    && Wire.positive l.n2_max_ml_min
    && Wire.positive l.co_max_ml_min
    && Wire.uint l.co_min_furnace_mc
    && ltb 0 l.safe_end_burden_mc
    && leb l.safe_end_burden_mc 200000
    && Wire.positive l.minimum_n2_ml_min
    && Wire.positive l.purge_duration_ms
    && Wire.positive l.cooling_timeout_ms
    && leb 1 p.profile.resources.max_stages
    && leb p.profile.resources.max_stages 64
    && elim p.rules_reference [ none ↦ true | some t ↦ leb 1 (length t) && leb (length t) 128 ]

-- The limits that the verdict is asked for.
unfoldable pub safety_profile : ProfileSnapshot → SafetyProfile
safety_profile p =
    let l = p.profile.limits in
    record {
      version = p.profile.profile_digest;
      temperature_max_c = l.temperature_max_mc * 1000;
      ramp_max_c_min = l.ramp_max_mc_per_min * 1000;
      n2_max_l_min = l.n2_max_ml_min * 1000;
      co_max_l_min = l.co_max_ml_min * 1000;
      co_min_furnace_c = l.co_min_furnace_mc * 1000;
      safe_end_burden_c = l.safe_end_burden_mc * 1000;
      max_stages = p.profile.resources.max_stages;
      rules_reference = p.rules_reference;
    }

unfoldable pub default_mode : StageKind → Result CompileError HeaterMode
default_mode StageKind.ramp = ok HeaterMode.ramp
default_mode StageKind.hold = ok HeaterMode.hold
default_mode StageKind.cool = ok HeaterMode.off
default_mode StageKind.gas = err no_heater_mode

-- `stage.heater_mode or {...}.get(stage.kind)`
unfoldable pub mode_of : Stage → Result CompileError HeaterMode
unfolding default_mode
mode_of s = elim s.heater_mode [ some m ↦ ok m | none ↦ default_mode s.kind ]

unfoldable pub wire_signal : Signal → Wire.Signal
wire_signal furnace_c = Wire.furnace_mc
wire_signal burden_c = Wire.burden_mc
wire_signal elapsed_s = Wire.elapsed_ms

unfoldable pub or_zero : Option ℕ → ℕ
or_zero none = 0
or_zero (some v) = v

unfoldable pub compile_exit : ExitCondition → Result CompileError Wire.ExitCondition
unfolding milli wire_signal or_zero
compile_exit e = do
  value ← milli e.value
  stable ← milli (or_zero e.stable_s)
  ok record { source = wire_signal e.signal; op = e.comparison; value = value; stable_ms = stable }

-- A round of the loop over the stages.
unfoldable pub compile_stage : Stage → Result CompileError Wire.Stage
unfolding mode_of milli_option compile_exit
compile_stage s = do
  mode ← mode_of s
  guard (not (heats_off mode && (is_some s.furnace_target_c || is_some s.ramp_c_min))) off_conflict
  guard (not (heats_hold mode && is_some s.ramp_c_min)) hold_conflict
  target ← milli_option s.furnace_target_c
  rate ← milli_option s.ramp_c_min
  n2 ← milli s.n2_l_min
  co ← milli s.co_l_min
  exit ← compile_exit s.exit
  ok record {
    name = s.name;
    kind = s.kind;
    heater_mode = mode;
    target_mc = target;
    rate_mc_per_min = rate;
    n2_ml_min = n2;
    co_ml_min = co;
    exit = exit;
    timeout_ms = s.timeout_s * 1000;
  }

-- The checks of the last stage.
unfoldable pub check_final : Profile → Option Wire.Stage → Result CompileError (Unit {0})
check_final p none = err no_stage
check_final p (some s) = do
  guard (not (ltb s.n2_ml_min p.limits.minimum_n2_ml_min)) nitrogen_below_minimum
  guard (not (ltb p.limits.cooling_timeout_ms s.timeout_ms)) cooling_timeout_exceeds
  ok tt

unfoldable pub wire_recipe : Bundle → ProfileSnapshot → List Wire.Stage → Wire.Recipe
wire_recipe b p stages = record {
  schema_version = 2;
  recipe_id = b.recipe_id;
  version = b.version;
  name = b.definition.name;
  mode = b.definition.mode;
  rules_version = if is_standard b.definition.mode then p.rules_reference else none;
  safety_profile_digest = p.profile.profile_digest;
  stages = stages;
}

-- `Recipe.model_validate`
unfoldable pub checked : Wire.Recipe → Result CompileError (Unit {0})
checked r = elim (Wire.validate r) [ none ↦ ok tt | some e ↦ err (invalid_recipe e) ]

module _ (source_digest : RecipeDefinition → ℕ) (profile_digest : ProfileSnapshot → ℕ)
    (wire_digest : Wire.Recipe → ℕ) (canonical_bytes : Wire.Recipe → List ℕ) where
  -- `validated_profile`
  unfoldable pub validated_profile : ProfileSnapshot → Result CompileError (Unit {0})
  unfolding profile_fields
  validated_profile p = do
    guard (profile_fields p) invalid_profile
    guard (profile_digest p == p.profile.profile_digest) profile_digest_mismatch
    guard p.profile.approved profile_not_approved
    ok tt

  -- The artifact, from the compiled stages on.
  unfoldable pub artifact :
      Bundle → ProfileSnapshot → List Wire.Stage → Result CompileError CompiledRecipe
  unfolding check_final wire_recipe checked validate_for_device
  artifact b p stages = do
    let wire = wire_recipe b p stages
    check_final p.profile (last? stages)
    checked wire
    guard (leb (length (canonical_bytes wire)) 65536) capacity_exceeded
    ok record {
      recipe = wire;
      digest = wire_digest wire;
      data_ = canonical_bytes wire;
      source_digest = source_digest b.definition;
      validation = validate_for_device b.definition (some (safety_profile p)) true;
    }

  -- `compile_recipe`
  unfoldable pub compile_recipe : Bundle → ProfileSnapshot → Result CompileError CompiledRecipe
  unfolding artifact compile_stage validated_profile definition_valid validate_for_device
  compile_recipe b p = do
    guard (definition_valid b.definition) invalid_definition
    guard (source_digest b.definition == b.digest) saved_digest_mismatch
    validated_profile p
    guard (validate_for_device b.definition (some (safety_profile p)) true).executable
        not_executable
    stages ← traverse compile_stage b.definition.stages
    artifact b p stages
