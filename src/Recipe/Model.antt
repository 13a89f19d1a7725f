-- ===== src/Recipe/Model.antt =====
-- Recipe, Stage, ExitCondition and their validators, of
-- backend/app/hostcomm/v2_contract/recipe.py. The strictness of pydantic about JSON types and keys
-- is in the types; a text is the list of its code points, a digest the number that it spells.
use smd_web_hmi.Prelude.{
  ℕ, Bool, true, false, not, ◌&&◌, ◌||◌, Option, none, some, List, [], ◌∷◌, ltb, leb, ◌==◌, is_some,
  if◌then◌else◌, length, any, last?, but_last, raise_first,
}

pub data Signal : Type 0 where
  furnace_mc burden_mc elapsed_ms : Signal

pub data Comparison : Type 0 where
  gte lt : Comparison

pub data StageKind : Type 0 where
  ramp hold gas cool : StageKind

pub data HeaterMode : Type 0 where
  off ramp hold : HeaterMode

pub data Mode : Type 0 where
  standard custom : Mode

pub record ExitCondition : Type 0 where
  pub source : Signal
  pub op : Comparison
  pub value : ℕ
  pub stable_ms : ℕ

pub record Stage : Type 0 where
  pub name : List ℕ
  pub kind : StageKind
  pub heater_mode : HeaterMode
  pub target_mc : Option ℕ
  pub rate_mc_per_min : Option ℕ
  pub n2_ml_min : ℕ
  pub co_ml_min : ℕ
  pub exit : ExitCondition
  pub timeout_ms : ℕ

pub record Recipe : Type 0 where
  pub schema_version : ℕ
  pub recipe_id : ℕ
  pub version : ℕ
  pub name : List ℕ
  pub mode : Mode
  pub rules_version : Option (List ℕ)
  pub safety_profile_digest : ℕ
  pub stages : List Stage

abbrev pub safe_integer : ℕ
safe_integer = 9007199254740991

unfoldable pub is_elapsed : Signal → Bool
is_elapsed elapsed_ms = true
is_elapsed _ = false

unfoldable pub is_burden : Signal → Bool
is_burden burden_mc = true
is_burden _ = false

unfoldable pub is_gte : Comparison → Bool
is_gte gte = true
is_gte lt = false

unfoldable pub is_cool : StageKind → Bool
is_cool cool = true
is_cool _ = false

unfoldable pub is_ramp : StageKind → Bool
is_ramp ramp = true
is_ramp _ = false

unfoldable pub is_hold : StageKind → Bool
is_hold hold = true
is_hold _ = false

unfoldable pub heats_off : HeaterMode → Bool
heats_off off = true
heats_off _ = false

unfoldable pub heats_ramp : HeaterMode → Bool
heats_ramp ramp = true
heats_ramp _ = false

unfoldable pub heats_hold : HeaterMode → Bool
heats_hold hold = true
heats_hold _ = false

pub data RecipeError : Type 0 where
  field_range target_null rate_ramp ramp_mode ramp_exit hold_mode cool_mode stable_timeout
        elapsed_exit rules_missing cool_early final_stage :
      RecipeError

unfoldable pub xor : Bool → Bool → Bool
xor true b = not b
xor false b = b

abbrev pub uint : ℕ → Bool
uint n = leb n safe_integer

abbrev optional : (ℕ → Bool) → Option ℕ → Bool
optional p none = true
optional p (some n) = p n

abbrev pub positive : ℕ → Bool
positive n = ltb 0 n && leb n safe_integer

-- The range constraints on the fields of a stage and of its exit condition.
unfoldable pub stage_fields : Stage → Bool
stage_fields s =
    leb 1 (length s.name)
    && leb (length s.name) 80
    && optional uint s.target_mc
    && optional positive s.rate_mc_per_min
    && uint s.n2_ml_min
    && uint s.co_ml_min
    && uint s.exit.value
    && uint s.exit.stable_ms
    && ltb 0 s.timeout_ms
    && leb s.timeout_ms 604800000

-- `Stage.coherent`
unfoldable pub stage_coherent : Stage → Option RecipeError
unfolding is_elapsed is_gte is_cool is_ramp is_hold heats_off heats_ramp heats_hold xor
stage_coherent s = raise_first (
    (xor (heats_off s.heater_mode) (not (is_some s.target_mc)), target_null)
    ∷ (xor (heats_ramp s.heater_mode) (is_some s.rate_mc_per_min), rate_ramp)
    ∷ (is_ramp s.kind && not (heats_ramp s.heater_mode), ramp_mode)
    ∷ (is_ramp s.kind && is_elapsed s.exit.source, ramp_exit)
    ∷ (
      is_hold s.kind && (not (heats_hold s.heater_mode) || not (is_elapsed s.exit.source)),
      hold_mode,
    )
    ∷ (is_cool s.kind && (not (heats_off s.heater_mode) || not (s.co_ml_min == 0)), cool_mode)
    ∷ (leb s.timeout_ms s.exit.stable_ms, stable_timeout)
    ∷ (
      is_elapsed s.exit.source
          && (not (is_gte s.exit.op)
              || (not (s.exit.stable_ms == 0) || leb s.timeout_ms s.exit.value)),
      elapsed_exit,
    )
    ∷ [])

-- `Stage.model_validate`
unfoldable pub stage_valid : Stage → Option RecipeError
unfolding stage_fields stage_coherent
stage_valid s = if stage_fields s then stage_coherent s else some field_range

-- Every stage validates before the recipe's own validator runs.
unfoldable pub stages_valid : List Stage → Option RecipeError
stages_valid [] = none
stages_valid (s ∷ rest) =
    let others = stages_valid rest in elim (stage_valid s) [ some e ↦ some e | none ↦ others ]

unfoldable pub recipe_fields : Recipe → Bool
recipe_fields r =
    (r.schema_version == 2)
    && positive r.version
    && leb 1 (length r.name)
    && leb (length r.name) 100
    && elim r.rules_version [ none ↦ true | some t ↦ leb 1 (length t) && leb (length t) 128 ]
    && leb 1 (length r.stages)
    && leb (length r.stages) 64

abbrev is_standard : Mode → Bool
is_standard standard = true
is_standard custom = false

-- The condition on the last stage.
unfoldable pub safe_final : Option Stage → Bool
unfolding is_burden is_gte is_cool
safe_final none = false
safe_final (some s) =
    is_cool s.kind
    && ltb 0 s.n2_ml_min
    && is_burden s.exit.source
    && not (is_gte s.exit.op)
    && ltb 0 s.exit.value
    && leb s.exit.value 200000

-- `Recipe.coherent`
unfoldable pub recipe_coherent : Recipe → Option RecipeError
recipe_coherent r = raise_first (
    (is_standard r.mode && not (is_some r.rules_version), rules_missing)
    ∷ (any (λ s. is_cool s.kind) (but_last r.stages), cool_early)
    ∷ (not (safe_final (last? r.stages)), final_stage)
    ∷ [])

-- `Recipe.model_validate`
unfoldable pub validate : Recipe → Option RecipeError
validate r = elim (stages_valid r.stages) [
  | some e ↦ some e
  | none ↦ if recipe_fields r then recipe_coherent r else some field_range
]
