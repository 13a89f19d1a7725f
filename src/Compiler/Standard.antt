-- ===== src/Compiler/Standard.antt =====
-- The standard stages and the deviations from them, and the validator of `RecipeDefinition`, of
-- backend/app/services/recipe_definition.py.
use smd_web_hmi.Prelude.{
  ℕ, ◌+◌, Bool, true, false, not, ◌&&◌, none, some, List, [], ◌∷◌, leb, length, all, if◌then◌else◌,
}
use smd_web_hmi.Recipe.Model.{gte, lt, StageKind}
use smd_web_hmi.Compiler.Definition.{
  Signal, furnace_c, burden_c, elapsed_s, Stage, RecipeDefinition, is_standard, stage_fields,
  coherent_stage, same_stage,
}

-- A row of the loop of `_standard_stages`.
unfoldable pub standard_ramp : List ℕ → ℕ → ℕ → Signal → ℕ → ℕ → ℕ → Stage
standard_ramp name target rate exit_signal exit_value n2 co = record {
  name = name;
  kind = StageKind.ramp;
  furnace_target_c = some target;
  ramp_c_min = some rate;
  n2_l_min = n2;
  co_l_min = co;
  exit = record { signal = exit_signal; comparison = gte; value = exit_value; stable_s = none };
  timeout_s = 21600;
  heater_mode = none;
}

unfoldable pub standard_hold : Stage
standard_hold = record {
  name =
      26009 ∷ 23618 ∷ 36798 ∷ 21040 ∷ 49 ∷ 53 ∷ 56 ∷ 48 ∷ 8451 ∷ 21518 ∷ 20445 ∷ 25345 ∷ 51 ∷ 48
      ∷ 20998 ∷ 38047 ∷ [];
  kind = StageKind.hold;
  furnace_target_c = some 1600000000;
  ramp_c_min = none;
  n2_l_min = 3500000;
  co_l_min = 1500000;
  exit = record { signal = elapsed_s; comparison = gte; value = 1800000000; stable_s = none };
  timeout_s = 3600;
  heater_mode = none;
}

unfoldable pub standard_cool : Stage
standard_cool = record {
  name = 27694 ∷ 27668 ∷ 32622 ∷ 25442 ∷ 24182 ∷ 20919 ∷ 21364 ∷ [];
  kind = StageKind.cool;
  furnace_target_c = none;
  ramp_c_min = none;
  n2_l_min = 2000000;
  co_l_min = 0;
  exit = record { signal = burden_c; comparison = lt; value = 200000000; stable_s = none };
  timeout_s = 86400;
  heater_mode = none;
}

-- `_standard_stages`
unfoldable pub standard_stages : List Stage
unfolding standard_ramp standard_hold standard_cool
standard_stages =
    standard_ramp (27694 ∷ 27668 ∷ 20445 ∷ 25252 ∷ 21319 ∷ 28201 ∷ 33267 ∷ 53 ∷ 48 ∷ 48 ∷ 8451 ∷ [])
      500000000 10000000 furnace_c 500000000 5000000 0
    ∷ standard_ramp
        (36824 ∷ 21407 ∷ 27668 ∷ 27675 ∷ 21319 ∷ 28201 ∷ 33267 ∷ 57 ∷ 48 ∷ 48 ∷ 8451 ∷ []) 900000000
        10000000 furnace_c 900000000 3500000 1500000
    ∷ standard_ramp (21319 ∷ 28201 ∷ 33267 ∷ 49 ∷ 49 ∷ 48 ∷ 48 ∷ 8451 ∷ []) 1100000000 2000000
        furnace_c 1100000000 3500000 1500000
    ∷ standard_ramp
        (31243 ∷ 24207 ∷ 33267 ∷ 49 ∷ 54 ∷ 48 ∷ 48 ∷ 8451 ∷ 65292 ∷ 31561 ∷ 24453 ∷ 26009 ∷ 23618
          ∷ 49 ∷ 53 ∷ 56 ∷ 48 ∷ 8451 ∷ [])
        1600000000 5000000 burden_c 1580000000 3500000 1500000
    ∷ standard_hold
    ∷ standard_cool
    ∷ []

pub data Deviation : Type 0 where
  added_or_removed modified : ℕ → Deviation

-- The loop of `deviations`, from the stage with the number `i` on.
unfoldable pub differences : ℕ → List Stage → List Stage → List Deviation
differences i [] [] = []
differences i (s ∷ ss) [] = added_or_removed i ∷ differences (i + 1) ss []
differences i [] (t ∷ ts) = added_or_removed i ∷ differences (i + 1) [] ts
differences i (s ∷ ss) (t ∷ ts) =
    let rest = differences (i + 1) ss ts in if same_stage s t then rest else modified i ∷ rest

unfoldable pub same_stages : List Stage → List Stage → Bool
same_stages [] [] = true
same_stages (s ∷ ss) (t ∷ ts) = same_stage s t && same_stages ss ts
same_stages _ _ = false

-- `deviations`
unfoldable pub deviations : List Stage → List Deviation
unfolding same_stages differences
deviations stages =
    if same_stages stages standard_stages then [] else differences 1 stages standard_stages

unfoldable pub is_nil : List Deviation → Bool
is_nil [] = true
is_nil (d ∷ ds) = false

-- `RecipeDefinition.model_validate`
unfoldable pub definition_valid : RecipeDefinition → Bool
unfolding is_nil deviations
definition_valid r =
    leb 1 (length r.name)
    && leb (length r.name) 100
    && leb (length r.description) 2000
    && leb 1 (length r.stages)
    && leb (length r.stages) 64
    && all (λ s. stage_fields s && coherent_stage s) r.stages
    && not (is_standard r.mode && not (is_nil (deviations r.stages)))
