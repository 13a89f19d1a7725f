-- ===== src/Compiler/Verdict.antt =====
-- `validate_for_device` of backend/app/services/recipe_definition.py: the limits of a device, and the
-- errors of a recipe under them.
use smd_web_hmi.Prelude.{
  ℕ, ◌+◌, min, Bool, true, false, not, ◌&&◌, ◌||◌, Option, none, some, List, [], ◌∷◌, ◌++◌, ltb,
  leb, ◌==◌, length, last?, if◌then◌else◌,
}
use smd_web_hmi.Recipe.Model.{is_gte, is_cool, heats_off, HeaterMode}
use smd_web_hmi.Compiler.Definition.{Stage, RecipeDefinition, is_burden, is_furnace, is_standard}
use smd_web_hmi.Compiler.Standard.{Deviation, deviations}

pub record SafetyProfile : Type 0 where
  pub version : ℕ
  pub temperature_max_c : ℕ
  pub ramp_max_c_min : ℕ
  pub n2_max_l_min : ℕ
  pub co_max_l_min : ℕ
  pub co_min_furnace_c : ℕ
  pub safe_end_burden_c : ℕ
  pub max_stages : ℕ
  pub rules_reference : Option (List ℕ)

unfoldable pub reference_fits : Option (List ℕ) → Bool
reference_fits none = true
reference_fits (some text) = leb (length text) 1000

-- `SafetyProfile.model_validate`
unfoldable pub limits_valid : SafetyProfile → Bool
unfolding reference_fits
limits_valid p =
    ltb 0 p.temperature_max_c
    && ltb 0 p.ramp_max_c_min
    && ltb 0 p.n2_max_l_min
    && ltb 0 p.co_max_l_min
    && ltb 0 p.safe_end_burden_c
    && leb p.safe_end_burden_c 200000000
    && ltb 0 p.max_stages
    && leb p.max_stages 64
    && reference_fits p.rules_reference

pub data VerdictError : Type 0 where
  device_missing_recipe_v1 device_safety_profile_missing_or_invalid : VerdictError
  device_max_stages standard_rules_not_confirmed safe_cooling_end_required : VerdictError
  temperature_max ramp_max n2_max co_max : ℕ → VerdictError
  co_before_required_temperature co_target_below_required_temperature : ℕ → VerdictError

pub record Verdict : Type 0 where
  pub executable : Bool
  pub errors : List VerdictError
  pub deviations : List Deviation
  pub limits : Option SafetyProfile

-- `if test: errors.append(error)`
unfoldable pub when : Bool → VerdictError → List VerdictError
when true e = e ∷ []
when false e = []

-- `value is not None and value > maximum`
unfoldable pub over : Option ℕ → ℕ → Bool
over none maximum = false
over (some v) maximum = ltb maximum v

-- `not limits.rules_reference`
unfoldable pub is_empty : Option (List ℕ) → Bool
is_empty none = true
is_empty (some []) = true
is_empty (some (c ∷ cs)) = false

unfoldable pub is_off : Option HeaterMode → Bool
is_off none = false
is_off (some m) = heats_off m

-- `furnace_target_c is not None and furnace_target_c < co_min_furnace_c`
unfoldable pub below : Option ℕ → ℕ → Bool
below none limit = false
below (some v) limit = ltb v limit

-- The errors of the stage with the number `i`, when the furnace is proved to have `minimum`.
unfoldable pub stage_errors : SafetyProfile → ℕ → ℕ → Stage → List VerdictError
unfolding when over below
stage_errors p i minimum s =
    when (over s.furnace_target_c p.temperature_max_c) (temperature_max i)
    ++ when (over s.ramp_c_min p.ramp_max_c_min) (ramp_max i)
    ++ when (ltb p.n2_max_l_min s.n2_l_min) (n2_max i)
    ++ when (ltb p.co_max_l_min s.co_l_min) (co_max i)
    ++ when (ltb 0 s.co_l_min && ltb minimum p.co_min_furnace_c) (co_before_required_temperature i)
    ++ when (ltb 0 s.co_l_min && below s.furnace_target_c p.co_min_furnace_c)
        (co_target_below_required_temperature i)

-- `last_declared_target` after a stage.
unfoldable pub declared : Option ℕ → Option ℕ → Option ℕ
declared last none = last
declared last (some target) = some target

-- `minimum_furnace` after the exit of a stage, before it is limited by the last target.
unfoldable pub proved : ℕ → Stage → ℕ
unfolding is_off is_furnace
proved minimum s =
    if is_cool s.kind || is_off s.heater_mode
    then 0
    else (if is_furnace s.exit.signal
        then (if is_gte s.exit.comparison then s.exit.value else 0)
        else minimum)

unfoldable pub limited : ℕ → Option ℕ → ℕ
limited minimum none = minimum
limited minimum (some target) = min minimum target

-- The loop over the stages, from the number `i` on.
unfoldable pub check_stages : SafetyProfile → ℕ → ℕ → Option ℕ → List Stage → List VerdictError
unfolding stage_errors declared proved limited
check_stages p i minimum last [] = []
check_stages p i minimum last (s ∷ rest) =
    let target = declared last s.furnace_target_c in
    stage_errors p i minimum s
    ++ check_stages p (i + 1) (limited (proved minimum s) target) target rest

-- `recipe.stages[-1]` does not end the run safely.
unfoldable pub ends_unsafe : SafetyProfile → Option Stage → Bool
unfolding is_burden
ends_unsafe p none = true
ends_unsafe p (some s) =
    not (is_cool s.kind)
    || not (s.co_l_min == 0)
    || leb s.n2_l_min 0
    || not (is_burden s.exit.signal)
    || is_gte s.exit.comparison
    || ltb p.safe_end_burden_c s.exit.value

unfoldable pub no_errors : List VerdictError → Bool
no_errors [] = true
no_errors (e ∷ es) = false

-- The errors of a recipe under valid limits.
unfoldable pub limit_errors : RecipeDefinition → SafetyProfile → List VerdictError
unfolding when is_empty check_stages ends_unsafe
limit_errors r p =
    when (ltb p.max_stages (length r.stages)) device_max_stages
    ++ when (is_standard r.mode && is_empty p.rules_reference) standard_rules_not_confirmed
    ++ check_stages p 1 0 none r.stages
    ++ when (ends_unsafe p (last? r.stages)) safe_cooling_end_required

unfoldable pub verdict : RecipeDefinition → List VerdictError → Option SafetyProfile → Verdict
unfolding no_errors deviations
verdict r errors limits = record {
  executable = no_errors errors;
  errors = errors;
  deviations = deviations r.stages;
  limits = limits;
}

unfoldable pub valid_limits : Option SafetyProfile → Option SafetyProfile
unfolding limits_valid
valid_limits none = none
valid_limits (some p) = if limits_valid p then some p else none

unfoldable pub judge : RecipeDefinition → List VerdictError → Option SafetyProfile → Verdict
unfolding verdict limit_errors
judge r missing none = verdict r (missing ++ device_safety_profile_missing_or_invalid ∷ []) none
judge r missing (some p) = verdict r (missing ++ limit_errors r p) (some p)

-- `validate_for_device`; the capability is whether `recipe_v1` is among the capabilities.
unfoldable pub validate_for_device : RecipeDefinition → Option SafetyProfile → Bool → Verdict
unfolding judge when valid_limits
validate_for_device r profile capability =
    judge r (when (not capability) device_missing_recipe_v1) (valid_limits profile)
