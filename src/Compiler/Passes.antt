-- ===== src/Compiler/Passes.antt =====
-- What a verdict of `validate_for_device` in backend/app/services/recipe_definition.py that lets a recipe
-- pass says of its stages.
use smd_web_hmi.Prelude.{
  ℕ, ◌+◌, ◌≤◌, ◌≡◌, refl, Bool, true, false, ◌&&◌, Option, none, some, List, [], ◌∷◌, ◌++◌, ltb,
  arith, All, last?, length,
}
use mathlib.Core.Path.{subst}
use smd_web_hmi.Compiler.Definition.{Stage, RecipeDefinition}
use smd_web_hmi.Compiler.Verdict.{
  SafetyProfile, VerdictError, when, over, below, stage_errors, check_stages, ends_unsafe,
  limit_errors, no_errors, verdict, judge, valid_limits, validate_for_device,
}

pub append-eq-nil : {A : Type 0} (xs ys : List A) → xs ++ ys ≡ [] → (xs ≡ []) × (ys ≡ [])
append-eq-nil [] ys h = (refl, h)
append-eq-nil (x ∷ xs) ys h = cc

append-eq-nils :
    {A : Type 0} (a b c d : List A)
    → a ++ b ++ c ++ d ≡ []
    → (a ≡ []) × (b ≡ []) × (c ≡ []) × (d ≡ [])
append-eq-nils a b c d h =
    let (h1, is_d) = append-eq-nil (a ++ b ++ c) d h in
    let (h2, is_c) = append-eq-nil (a ++ b) c h1 in
    let (is_a, is_b) = append-eq-nil a b h2 in (is_a, is_b, is_c, is_d)

nil-append : {A : Type 0} (xs : List A) (x : A) → xs ++ x ∷ [] ≡ [] → ⊥
nil-append [] x h = cc
nil-append (y ∷ ys) x h = cc

no_errors-nil : (errors : List VerdictError) → no_errors errors ≡ true → errors ≡ []
unfolding no_errors
no_errors-nil [] h = refl
no_errors-nil (e ∷ es) h = cc

judge-errors :
    (r : RecipeDefinition) (missing : List VerdictError) (limits : Option SafetyProfile)
    → (judge r missing limits).executable ≡ true
    → (p : SafetyProfile) × (limits ≡ some p) × (limit_errors r p ≡ [])
unfolding judge verdict
judge-errors r missing none h = elim (nil-append missing _ (no_errors-nil _ h)) [ ]
judge-errors r missing (some p) h = (p, refl, (append-eq-nil missing _ (no_errors-nil _ h)).1)

valid_limits-some :
    (p : SafetyProfile) {p' : SafetyProfile} → valid_limits (some p) ≡ some p' → p' ≡ p
unfolding valid_limits
valid_limits-some p h = ground arith

-- A verdict that lets a recipe pass finds no error in it under the limits.
pub executable-limit_errors :
    (r : RecipeDefinition) (p : SafetyProfile) (capability : Bool)
    → (validate_for_device r (some p) capability).executable ≡ true
    → limit_errors r p ≡ []
unfolding validate_for_device valid_limits
executable-limit_errors r p capability h =
    let (p', is_p, none_) = judge-errors r _ (valid_limits (some p)) h in
    subst (λ q. limit_errors r q ≡ []) (valid_limits-some p is_p) none_

pub check_stages-All :
    (p : SafetyProfile) (i minimum : ℕ) (last : Option ℕ) (stages : List Stage)
    → check_stages p i minimum last stages ≡ []
    → All (λ s. (j : ℕ) × (m : ℕ) × (stage_errors p j m s ≡ [])) stages
unfolding check_stages
check_stages-All p i minimum last [] h = tt
check_stages-All p i minimum last (s ∷ rest) h =
    let (own, others) = append-eq-nil _ _ h in
    ((i, minimum, own), check_stages-All p (i + 1) _ _ rest others)

-- The limits of a device hold at a stage.
pub record IsWithin (p : SafetyProfile) (s : Stage) : Type 0 where
  pub target : over s.furnace_target_c p.temperature_max_c ≡ false
  pub rate : over s.ramp_c_min p.ramp_max_c_min ≡ false
  pub n2 : s.n2_l_min ≤ p.n2_max_l_min
  pub co : s.co_l_min ≤ p.co_max_l_min
  pub co_target : (ltb 0 s.co_l_min && below s.furnace_target_c p.co_min_furnace_c) ≡ false

pub stage_errors-IsWithin :
    (p : SafetyProfile) (i minimum : ℕ) (s : Stage) → stage_errors p i minimum s ≡ [] → IsWithin p s
unfolding stage_errors when
stage_errors-IsWithin p i minimum s h = record {
  target = ground arith;
  rate = ground arith;
  n2 = ground arith;
  co = ground arith;
  co_target = ground arith;
}

when-nil : (test : Bool) (e : VerdictError) → when test e ≡ [] → test ≡ false
unfolding when
when-nil true e h = cc
when-nil false e h = refl

ltb-false : (a b : ℕ) → ltb a b ≡ false → b ≤ a
ltb-false a b h = ground arith

-- The errors of a recipe, part by part.
pub limit_errors-parts :
    (r : RecipeDefinition) (p : SafetyProfile)
    → limit_errors r p ≡ []
    → (length r.stages ≤ p.max_stages)
      × (check_stages p 1 0 none r.stages ≡ [])
      × (ends_unsafe p (last? r.stages) ≡ false)
unfolding limit_errors
limit_errors-parts r p h =
    let (many, rules, stages, ends) = append-eq-nils _ _ _ _ h in
    (ltb-false p.max_stages (length r.stages) (when-nil _ _ many), stages, when-nil _ _ ends)
