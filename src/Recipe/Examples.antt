-- ===== src/Recipe/Examples.antt =====
-- A recipe of two stages, and the theorems on recipes at it.
use smd_web_hmi.Prelude.{◌≤◌, ◌<◌, ◌≡◌, refl, true, none, some, [], ◌∷◌, get_elem?, last?, length}
use smd_web_hmi.Recipe.Model.{
  is_cool, stages_valid, stage_valid, recipe_fields, recipe_coherent, safe_final, furnace_mc,
  burden_mc, gte, lt, ramp, cool, HeaterMode, custom, Stage, Recipe, off, validate,
}
use smd_web_hmi.Recipe.Shape.{validate-final, next_stage, cool_stage_last}

abbrev pub heating : Stage
heating = record {
  name = 104 ∷ [];
  kind = ramp;
  heater_mode = HeaterMode.ramp;
  target_mc = some 900000;
  rate_mc_per_min = some 10000;
  n2_ml_min = 5000;
  co_ml_min = 0;
  exit = record { source = furnace_mc; op = gte; value = 20000; stable_ms = 1000 };
  timeout_ms = 600000;
}

abbrev pub ending : Stage
ending = record {
  name = 99 ∷ [];
  kind = cool;
  heater_mode = off;
  target_mc = none;
  rate_mc_per_min = none;
  n2_ml_min = 5000;
  co_ml_min = 0;
  exit = record { source = burden_mc; op = lt; value = 200000; stable_ms = 0 };
  timeout_ms = 600000;
}

abbrev pub recipe : Recipe
recipe = record {
  schema_version = 2;
  recipe_id = 1;
  version = 1;
  name = 114 ∷ [];
  mode = custom;
  rules_version = none;
  safety_profile_digest = 7;
  stages = heating ∷ ending ∷ [];
}

pub recipe-valid : validate recipe ≡ none
unfolding validate stages_valid stage_valid recipe_fields recipe_coherent safe_final
recipe-valid = refl

validate-final_example :
    (s : Stage) × (last? recipe.stages ≡ some s)
    × (is_cool s.kind ≡ true)
    × (s.heater_mode ≡ off)
    × (s.target_mc ≡ none)
    × (s.co_ml_min ≡ 0)
    × (0 < s.n2_ml_min)
    × (s.exit.source ≡ burden_mc)
    × (s.exit.op ≡ lt)
    × (s.exit.value ≤ 200000)
validate-final_example = validate-final recipe recipe-valid

next_stage_example : (t : Stage) × (get_elem? recipe.stages 1 ≡ some t)
unfolding is_cool
next_stage_example = next_stage recipe 0 {s = heating} recipe-valid refl refl

cool_stage_last_example : 2 ≡ length recipe.stages
unfolding is_cool
cool_stage_last_example = cool_stage_last recipe 1 {s = ending} recipe-valid refl refl
