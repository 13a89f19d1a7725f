-- ===== src/Compiler/Gas.antt =====
-- Carbon monoxide in a recipe that `validate_for_device` of backend/app/services/recipe_definition.py
-- lets pass: the furnace was measured hot enough before.
use smd_web_hmi.Prelude.{
  ℕ, ◌+◌, ◌≤◌, ◌<◌, ◌≡◌, inl, inr, Bool, true, false, ◌||◌, Option, none, some, List, [], ◌∷◌, ◌++◌,
  arith, Bool-cases,
}
use mathlib.Core.Path.{subst}
use smd_web_hmi.Recipe.Model.{is_gte, is_cool}
use smd_web_hmi.Compiler.Definition.{Stage, RecipeDefinition, is_furnace}
use smd_web_hmi.Compiler.Passes.{append-eq-nil, executable-limit_errors, limit_errors-parts}
use smd_web_hmi.Compiler.Verdict.{
  SafetyProfile, is_off, when, stage_errors, declared, proved, limited, check_stages,
  validate_for_device,
}

-- The last target that stages declare, the latest stage first.
unfoldable pub last_target : List Stage → Option ℕ
last_target [] = none
last_target (s ∷ before) = declared (last_target before) s.furnace_target_c

-- No target holds the furnace below the minimum.
unfoldable pub AllowsHeat : ℕ → Option ℕ → Type 0
AllowsHeat m none = Unit
AllowsHeat m (some target) = m ≤ target

-- The stages before a stage, the latest first, prove a furnace of `m`: one of them ends when the furnace
-- is measured to have at least that, and after it nothing lets it cool down.
pub data IsHot (m : ℕ) : List Stage → Type 0 where
  measured :
      (s : Stage) (before : List Stage)
      → is_cool s.kind || is_off s.heater_mode ≡ false
      → is_furnace s.exit.signal ≡ true
      → is_gte s.exit.comparison ≡ true
      → m ≤ s.exit.value
      → AllowsHeat m (last_target (s ∷ before))
      → IsHot m (s ∷ before)
  held :
      (s : Stage) (before : List Stage)
      → is_cool s.kind || is_off s.heater_mode ≡ false
      → is_furnace s.exit.signal ≡ false
      → IsHot m before
      → AllowsHeat m (last_target (s ∷ before))
      → IsHot m (s ∷ before)

-- The stages of a list put before others, in reverse.
abbrev pub reverse_onto : List Stage → List Stage → List Stage
reverse_onto [] before = before
reverse_onto (s ∷ rest) before = reverse_onto rest (s ∷ before)

limited-le :
    (m minimum : ℕ) (last : Option ℕ) → m ≤ limited minimum last → (m ≤ minimum) × AllowsHeat m last
unfolding limited AllowsHeat
limited-le m minimum none h = (h, tt)
limited-le m minimum (some target) h = (omega (arith, h), omega (arith, h))

proved-IsHot :
    (m minimum : ℕ) (s : Stage) (before : List Stage)
    → 0 < m
    → (m ≤ minimum → IsHot m before)
    → m ≤ proved minimum s
    → AllowsHeat m (last_target (s ∷ before))
    → IsHot m (s ∷ before)
unfolding proved
proved-IsHot m minimum s before pos inv le allows =
    elim (Bool-cases (is_cool s.kind || is_off s.heater_mode)) [
      | inl off ↦ ground arith
      | inr on ↦ elim (Bool-cases (is_furnace s.exit.signal)) [
        | inl furnace ↦ elim (Bool-cases (is_gte s.exit.comparison)) [
          | inl rising ↦ measured s before on furnace rising (ground arith) allows
          | inr falling ↦ ground arith
        ]
        | inr other ↦ held s before on other (inv (ground arith)) allows
      ]
    ]

no_minimum : {m : ℕ} → 0 < m → m ≤ 0 → ⊥
no_minimum pos le = omega (arith, pos, le)

stage_errors-minimum :
    (p : SafetyProfile) (i minimum : ℕ) (s : Stage)
    → stage_errors p i minimum s ≡ []
    → 0 < s.co_l_min
    → p.co_min_furnace_c ≤ minimum
unfolding stage_errors when
stage_errors-minimum p i minimum s h co = ground arith

-- The loop from a stage on, behind stages that prove its minimum.
check_stages-IsHot :
    (p : SafetyProfile) (i minimum : ℕ) (before earlier : List Stage) (s : Stage)
    (later : List Stage)
    → 0 < p.co_min_furnace_c
    → (p.co_min_furnace_c ≤ minimum → IsHot p.co_min_furnace_c before)
    → check_stages p i minimum (last_target before) (earlier ++ s ∷ later) ≡ []
    → 0 < s.co_l_min
    → IsHot p.co_min_furnace_c (reverse_onto earlier before)
unfolding check_stages last_target
check_stages-IsHot p i minimum before [] s later pos inv h co =
    inv (stage_errors-minimum p i minimum s (append-eq-nil _ _ h).0 co)
check_stages-IsHot p i minimum before (e ∷ earlier) s later pos inv h co =
    let target = last_target (e ∷ before) in
    check_stages-IsHot p (i + 1) (limited (proved minimum e) target) (e ∷ before) earlier s later
      pos
      (λ le.
        let (le', allows) = limited-le p.co_min_furnace_c (proved minimum e) target le in
        proved-IsHot p.co_min_furnace_c minimum e before pos inv le' allows)
      (append-eq-nil _ _ h).1 co

-- A recipe that is let pass by limits with a minimum for carbon monoxide: before each stage with carbon
-- monoxide the furnace was measured to have that minimum, and since then nothing lets it cool down.
pub validate_for_device-IsHot :
    (r : RecipeDefinition) (p : SafetyProfile) (capability : Bool) (earlier : List Stage)
    (s : Stage) (later : List Stage)
    → (validate_for_device r (some p) capability).executable ≡ true
    → r.stages ≡ earlier ++ s ∷ later
    → 0 < p.co_min_furnace_c
    → 0 < s.co_l_min
    → IsHot p.co_min_furnace_c (reverse_onto earlier [])
unfolding last_target
validate_for_device-IsHot r p capability earlier s later h split pos co =
    let passed = (limit_errors-parts r p (executable-limit_errors r p capability h)).1 in
    check_stages-IsHot p 1 0 [] earlier s later pos (λ le. elim (no_minimum pos le) [ ])
      (subst (λ ss. check_stages p 1 0 none ss ≡ []) split passed) co
