-- ===== src/Compiler/Examples.antt =====
-- The theorems on the compiler at a recipe with a reducing stage.
use smd_web_hmi.Prelude.{◌≡◌, refl, true, none, some, [], ◌∷◌, ok, Pairs, arith}
use smd_web_hmi.Recipe.Model.{gte, lt, StageKind, custom, standard}
use smd_web_hmi.Compiler.Standard.{standard_stages, definition_valid}
use smd_web_hmi.Compiler.Immutable.{definition_valid-standard}
use smd_web_hmi.Recipe.Model as Wire
use smd_web_hmi.Device.Model.{Host}
use smd_web_hmi.Device.Examples.{bench, profile}
use smd_web_hmi.Compiler.Definition.{
  furnace_c, burden_c, Stage, RecipeDefinition, stage_fields, coherent_stage, is_standard,
  same_stage,
}
use smd_web_hmi.Compiler.Verdict.{validate_for_device}
use smd_web_hmi.Compiler.Exact.{IsExact, compile_recipe-IsExact}
use smd_web_hmi.Compiler.Accepts.{compile_recipe-raw_refused}
use smd_web_hmi.Compiler.Gas.{IsHot, validate_for_device-IsHot}
use smd_web_hmi.Device.Command.{raw_refused}
use smd_web_hmi.Compiler.Compile.{
  ProfileSnapshot, Bundle, CompiledRecipe, compile_recipe, safety_profile,
}

abbrev heating : Stage
heating = record {
  name = 104 ∷ [];
  kind = StageKind.ramp;
  furnace_target_c = some 900000000;
  ramp_c_min = some 10000000;
  n2_l_min = 5000000;
  co_l_min = 0;
  exit = record { signal = furnace_c; comparison = gte; value = 890500000; stable_s = none };
  timeout_s = 21600;
  heater_mode = none;
}

abbrev reducing : Stage
reducing = record heating { co_l_min = 1500000 }

abbrev cooling : Stage
cooling = record {
  name = 99 ∷ [];
  kind = StageKind.cool;
  furnace_target_c = none;
  ramp_c_min = none;
  n2_l_min = 5000000;
  co_l_min = 0;
  exit = record { signal = burden_c; comparison = lt; value = 150000000; stable_s = some 2500000 };
  timeout_s = 600;
  heater_mode = none;
}

abbrev definition : RecipeDefinition
definition = record {
  name = 114 ∷ [];
  mode = custom;
  description = [];
  stages = heating ∷ reducing ∷ cooling ∷ [];
}

abbrev bundle : Bundle
bundle = record { definition = definition; digest = 4; recipe_id = 3; version = 1 }

abbrev snapshot : ProfileSnapshot
snapshot = record { profile = profile; rules_reference = none }

abbrev wire_heating : Wire.Stage
wire_heating = record {
  name = 104 ∷ [];
  kind = StageKind.ramp;
  heater_mode = Wire.HeaterMode.ramp;
  target_mc = some 900000;
  rate_mc_per_min = some 10000;
  n2_ml_min = 5000;
  co_ml_min = 0;
  exit = record { source = Wire.furnace_mc; op = gte; value = 890500; stable_ms = 0 };
  timeout_ms = 21600000;
}

abbrev wire_cooling : Wire.Stage
wire_cooling = record {
  name = 99 ∷ [];
  kind = StageKind.cool;
  heater_mode = Wire.HeaterMode.off;
  target_mc = none;
  rate_mc_per_min = none;
  n2_ml_min = 5000;
  co_ml_min = 0;
  exit = record { source = Wire.burden_mc; op = lt; value = 150000; stable_ms = 2500 };
  timeout_ms = 600000;
}

abbrev compiled : CompiledRecipe
compiled = record {
  recipe = record {
    schema_version = 2;
    recipe_id = 3;
    version = 1;
    name = 114 ∷ [];
    mode = custom;
    rules_version = none;
    safety_profile_digest = 7;
    stages = wire_heating ∷ record wire_heating { co_ml_min = 1500 } ∷ wire_cooling ∷ [];
  };
  digest = 5;
  data_ = 1 ∷ [];
  source_digest = 4;
  validation = validate_for_device definition (some (safety_profile snapshot)) true;
}

compiles : compile_recipe (λ r. 4) (λ p. 7) (λ r. 5) (λ r. 1 ∷ []) bundle snapshot ≡ ok compiled
unfolding compile_recipe stage_fields coherent_stage Wire.is_ramp Wire.is_hold Wire.is_cool
    is_standard safety_profile Wire.is_gte Wire.heats_off Wire.heats_hold Wire.validate
    Wire.stages_valid Wire.stage_valid Wire.recipe_fields Wire.recipe_coherent Wire.safe_final
compiles = refl

compile_recipe-IsExact_example : Pairs IsExact definition.stages compiled.recipe.stages
compile_recipe-IsExact_example =
    compile_recipe-IsExact (λ r. 4) (λ p. 7) (λ r. 5) (λ r. 1 ∷ []) bundle snapshot compiles

abbrev reader : Host
reader = record bench { load = λ raw. some compiled.recipe }

compile_recipe-raw_refused_example : raw_refused reader profile (some (1 ∷ [])) ≡ none
compile_recipe-raw_refused_example =
    compile_recipe-raw_refused (λ r. 4) (λ p. 7) (λ r. 5) (λ r. 1 ∷ []) bundle snapshot reader
      compiles refl

passes : (validate_for_device definition (some (safety_profile snapshot)) true).executable ≡ true
unfolding validate_for_device safety_profile is_standard Wire.is_cool Wire.is_gte
passes = refl

validate_for_device-IsHot_example : IsHot 500000000 (heating ∷ [])
unfolding safety_profile
validate_for_device-IsHot_example =
    validate_for_device-IsHot definition (safety_profile snapshot) true (heating ∷ []) reducing
      (cooling ∷ []) passes refl (omega arith) (omega arith)

abbrev template : RecipeDefinition
template = record { name = 71 ∷ []; mode = standard; description = []; stages = standard_stages }

template-valid : definition_valid template ≡ true
unfolding definition_valid standard_stages stage_fields coherent_stage is_standard Wire.is_ramp
    Wire.is_hold Wire.is_cool Wire.is_gte same_stage
template-valid = refl

definition_valid-standard_example : template.stages ≡ standard_stages
definition_valid-standard_example = definition_valid-standard template template-valid refl
