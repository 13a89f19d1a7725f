-- ===== src/Compiler/Definition.antt =====
-- The editable recipes of backend/app/services/recipe_definition.py: `Stage` and its validators, and the
-- equality of stages. A decimal quantity is the number of its millionths, a text the list of its code
-- points.
use smd_web_hmi.Prelude.{
  ℕ, ◌*◌, Bool, true, false, not, ◌&&◌, ◌||◌, Option, none, some, List, [], ◌∷◌, ltb, leb, ◌==◌,
  ◌==?◌, is_some, length,
}
use smd_web_hmi.Recipe.Model.{
  Comparison, gte, lt, is_gte, StageKind, HeaterMode, Mode, standard, custom, is_cool, is_ramp,
  is_hold,
}

pub data Signal : Type 0 where
  furnace_c burden_c elapsed_s : Signal

pub record ExitCondition : Type 0 where
  pub signal : Signal
  pub comparison : Comparison
  pub value : ℕ
  pub stable_s : Option ℕ

pub record Stage : Type 0 where
  pub name : List ℕ
  pub kind : StageKind
  pub furnace_target_c : Option ℕ
  pub ramp_c_min : Option ℕ
  pub n2_l_min : ℕ
  pub co_l_min : ℕ
  pub exit : ExitCondition
  pub timeout_s : ℕ
  pub heater_mode : Option HeaterMode

pub record RecipeDefinition : Type 0 where
  pub name : List ℕ
  pub mode : Mode
  pub description : List ℕ
  pub stages : List Stage

unfoldable pub is_elapsed : Signal → Bool
is_elapsed elapsed_s = true
is_elapsed _ = false

unfoldable pub is_furnace : Signal → Bool
is_furnace furnace_c = true
is_furnace _ = false

unfoldable pub is_burden : Signal → Bool
is_burden burden_c = true
is_burden _ = false

unfoldable pub is_standard : Mode → Bool
is_standard standard = true
is_standard custom = false

unfoldable pub is_positive : Option ℕ → Bool
is_positive none = true
is_positive (some v) = ltb 0 v

-- The constraints on the fields of a stage.
unfoldable pub stage_fields : Stage → Bool
unfolding is_positive
stage_fields s =
    leb 1 (length s.name)
    && leb (length s.name) 80
    && is_positive s.ramp_c_min
    && ltb 0 s.timeout_s
    && leb s.timeout_s 604800

-- `self.exit.value >= self.timeout_s`
unfoldable pub ends_late : Stage → Bool
ends_late s = leb (s.timeout_s * 1000000) s.exit.value

-- `Stage.coherent_stage`
unfoldable pub coherent_stage : Stage → Bool
unfolding is_elapsed ends_late
coherent_stage s =
    not (is_ramp s.kind && (not (is_some s.furnace_target_c) || not (is_some s.ramp_c_min)))
    && not (is_hold s.kind && (not (is_some s.furnace_target_c) || not (is_elapsed s.exit.signal)))
    && not (is_elapsed s.exit.signal && (not (is_gte s.exit.comparison) || ends_late s))
    && not (is_cool s.kind && not (s.co_l_min == 0))

unfoldable pub same_text : List ℕ → List ℕ → Bool
same_text [] [] = true
same_text (x ∷ xs) (y ∷ ys) = (x == y) && same_text xs ys
same_text _ _ = false

abbrev pub kind_code : StageKind → ℕ
kind_code StageKind.ramp = 0
kind_code StageKind.hold = 1
kind_code StageKind.gas = 2
kind_code StageKind.cool = 3

abbrev pub signal_code : Signal → ℕ
signal_code furnace_c = 0
signal_code burden_c = 1
signal_code elapsed_s = 2

abbrev pub comparison_code : Comparison → ℕ
comparison_code gte = 0
comparison_code lt = 1

abbrev pub mode_code : Option HeaterMode → ℕ
mode_code none = 0
mode_code (some HeaterMode.off) = 1
mode_code (some HeaterMode.ramp) = 2
mode_code (some HeaterMode.hold) = 3

-- `==` on the dumps of two stages.
unfoldable pub same_stage : Stage → Stage → Bool
unfolding same_text
same_stage s t =
    same_text s.name t.name
    && (kind_code s.kind == kind_code t.kind)
    && (s.furnace_target_c ==? t.furnace_target_c)
    && (s.ramp_c_min ==? t.ramp_c_min)
    && (s.n2_l_min == t.n2_l_min)
    && (s.co_l_min == t.co_l_min)
    && (signal_code s.exit.signal == signal_code t.exit.signal)
    && (comparison_code s.exit.comparison == comparison_code t.exit.comparison)
    && (s.exit.value == t.exit.value)
    && (s.exit.stable_s ==? t.exit.stable_s)
    && (s.timeout_s == t.timeout_s)
    && (mode_code s.heater_mode == mode_code t.heater_mode)
