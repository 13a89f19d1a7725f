-- ===== src/Compiler/Immutable.antt =====
-- `RecipeDefinition.standard_is_immutable` of backend/app/services/recipe_definition.py: a recipe in the
-- standard mode is the standard.
use smd_web_hmi.Prelude.{
  ℕ, ◌+◌, ◌≡◌, refl, sym, ap, ◌∙◌, true, not, ◌&&◌, Option, none, some, List, [], ◌∷◌, ◌==◌, ◌==?◌,
  ==_eq, ==?_eq, &&-true, Bool-cases, inl, inr, if-false, code_injective, get_elem?, arith,
}
use smd_web_hmi.Recipe.Model.{Comparison, gte, lt, StageKind, HeaterMode, standard}
use smd_web_hmi.Compiler.Definition.{
  Signal, furnace_c, burden_c, elapsed_s, Stage, RecipeDefinition, is_standard, same_text,
  same_stage, kind_code, signal_code, comparison_code, mode_code,
}
use smd_web_hmi.Compiler.Standard.{
  same_stages, differences, deviations, is_nil, definition_valid, standard_stages,
}

kinds : List StageKind
kinds = StageKind.ramp ∷ StageKind.hold ∷ StageKind.gas ∷ StageKind.cool ∷ []

get_elem?-kind_code : (k : StageKind) → get_elem? kinds (kind_code k) ≡ some k
unfolding kinds
get_elem?-kind_code StageKind.ramp = refl
get_elem?-kind_code StageKind.hold = refl
get_elem?-kind_code StageKind.gas = refl
get_elem?-kind_code StageKind.cool = refl

signals : List Signal
signals = furnace_c ∷ burden_c ∷ elapsed_s ∷ []

get_elem?-signal_code : (s : Signal) → get_elem? signals (signal_code s) ≡ some s
unfolding signals
get_elem?-signal_code furnace_c = refl
get_elem?-signal_code burden_c = refl
get_elem?-signal_code elapsed_s = refl

comparisons : List Comparison
comparisons = gte ∷ lt ∷ []

get_elem?-comparison_code : (c : Comparison) → get_elem? comparisons (comparison_code c) ≡ some c
unfolding comparisons
get_elem?-comparison_code gte = refl
get_elem?-comparison_code lt = refl

modes : List (Option HeaterMode)
modes = none ∷ some HeaterMode.off ∷ some HeaterMode.ramp ∷ some HeaterMode.hold ∷ []

get_elem?-mode_code : (m : Option HeaterMode) → get_elem? modes (mode_code m) ≡ some m
unfolding modes
get_elem?-mode_code none = refl
get_elem?-mode_code (some HeaterMode.off) = refl
get_elem?-mode_code (some HeaterMode.ramp) = refl
get_elem?-mode_code (some HeaterMode.hold) = refl

same_text-eq : (xs ys : List ℕ) → same_text xs ys ≡ true → xs ≡ ys
unfolding same_text
same_text-eq [] [] h = refl
same_text-eq [] (y ∷ ys) h = cc
same_text-eq (x ∷ xs) [] h = cc
same_text-eq (x ∷ xs) (y ∷ ys) h =
    let (first, rest) = &&-true (x == y) (same_text xs ys) h in
    λ i. ==_eq x y first i ∷ same_text-eq xs ys rest i

same_stage-eq : (s t : Stage) → same_stage s t ≡ true → s ≡ t
unfolding same_stage
same_stage-eq s t h =
    let (h1, mode) = &&-true _ (mode_code s.heater_mode == mode_code t.heater_mode) h in
    let (h2, timeout) = &&-true _ (s.timeout_s == t.timeout_s) h1 in
    let (h3, stable) = &&-true _ (s.exit.stable_s ==? t.exit.stable_s) h2 in
    let (h4, value) = &&-true _ (s.exit.value == t.exit.value) h3 in
    let (h5, comparison) =
      &&-true _ (comparison_code s.exit.comparison == comparison_code t.exit.comparison) h4 in
    let (h6, signal) = &&-true _ (signal_code s.exit.signal == signal_code t.exit.signal) h5 in
    let (h7, co) = &&-true _ (s.co_l_min == t.co_l_min) h6 in
    let (h8, n2) = &&-true _ (s.n2_l_min == t.n2_l_min) h7 in
    let (h9, rate) = &&-true _ (s.ramp_c_min ==? t.ramp_c_min) h8 in
    let (h10, target) = &&-true _ (s.furnace_target_c ==? t.furnace_target_c) h9 in
    let (name, kind) =
      &&-true (same_text s.name t.name) (kind_code s.kind == kind_code t.kind) h10 in
    λ i. record {
      name = same_text-eq s.name t.name name i;
      kind = code_injective kind_code kinds get_elem?-kind_code s.kind t.kind kind i;
      furnace_target_c = ==?_eq s.furnace_target_c t.furnace_target_c target i;
      ramp_c_min = ==?_eq s.ramp_c_min t.ramp_c_min rate i;
      n2_l_min = ==_eq s.n2_l_min t.n2_l_min n2 i;
      co_l_min = ==_eq s.co_l_min t.co_l_min co i;
      exit = record {
        signal =
            code_injective signal_code signals get_elem?-signal_code s.exit.signal t.exit.signal
              signal i;
        comparison =
            code_injective comparison_code comparisons get_elem?-comparison_code s.exit.comparison
              t.exit.comparison comparison i;
        value = ==_eq s.exit.value t.exit.value value i;
        stable_s = ==?_eq s.exit.stable_s t.exit.stable_s stable i;
      };
      timeout_s = ==_eq s.timeout_s t.timeout_s timeout i;
      heater_mode =
          code_injective mode_code modes get_elem?-mode_code s.heater_mode t.heater_mode mode i;
    }

same_stages-eq : (ss ts : List Stage) → same_stages ss ts ≡ true → ss ≡ ts
unfolding same_stages
same_stages-eq [] [] h = refl
same_stages-eq [] (t ∷ ts) h = cc
same_stages-eq (s ∷ ss) [] h = cc
same_stages-eq (s ∷ ss) (t ∷ ts) h =
    let (first, rest) = &&-true (same_stage s t) (same_stages ss ts) h in
    λ i. same_stage-eq s t first i ∷ same_stages-eq ss ts rest i

-- The loop finds no difference only between equal recipes.
differences-same_stages :
    (i : ℕ) (ss ts : List Stage) → is_nil (differences i ss ts) ≡ true → same_stages ss ts ≡ true
unfolding differences same_stages is_nil
differences-same_stages i [] [] h = refl
differences-same_stages i [] (t ∷ ts) h = cc
differences-same_stages i (s ∷ ss) [] h = cc
differences-same_stages i (s ∷ ss) (t ∷ ts) h =
    ground (arith, differences-same_stages (i + 1) ss ts)

deviations-eq : (ss : List Stage) → is_nil (deviations ss) ≡ true → ss ≡ standard_stages
unfolding deviations
deviations-eq ss h = elim (Bool-cases (same_stages ss standard_stages)) [
  | inl same ↦ same_stages-eq ss standard_stages same
  | inr other ↦ same_stages-eq ss standard_stages (
      differences-same_stages 1 ss standard_stages
        (ap is_nil (sym (if-false [] (differences 1 ss standard_stages) other)) ∙ h))
]

immutable :
    (r : RecipeDefinition)
    → not (is_standard r.mode && not (is_nil (deviations r.stages))) ≡ true
    → r.mode ≡ standard
    → is_nil (deviations r.stages) ≡ true
unfolding is_standard
immutable r h mode = ground arith

-- A definition in the standard mode that passes the validator has exactly the standard stages.
pub definition_valid-standard :
    (r : RecipeDefinition)
    → definition_valid r ≡ true
    → r.mode ≡ standard
    → r.stages ≡ standard_stages
unfolding definition_valid
definition_valid-standard r h mode = deviations-eq r.stages (
    immutable r (&&-true _ (not (is_standard r.mode && not (is_nil (deviations r.stages)))) h).1
      mode)
