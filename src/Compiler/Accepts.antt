-- ===== src/Compiler/Accepts.antt =====
-- The device accepts what the HMI compiles: `compile_recipe` of backend/app/services/v2_recipe_compiler.py
-- with `validate_recipe` of backend/app/hostcomm/v2_simulator/state.py.
use smd_web_hmi.Prelude.{
  ℕ, ◌*◌, ◌≤◌, ◌≡◌, refl, sym, ap, ◌∙◌, true, false, ◌||◌, Option, none, some, List, [], ◌∷◌, any,
  All, last?, arith, ok, Pairs, Pairs-length, Pairs-last,
}
use mathlib.Core.Path.{subst}
use smd_web_hmi.Recipe.Model as Wire
use smd_web_hmi.Device.Model.{Profile, Host}
use smd_web_hmi.Device.Stage.{validate_recipe_bytes}
use smd_web_hmi.Device.Command.{
  stage_exceeds, recipe_refused, raw_refused, final_unsafe, refused_result,
}
use smd_web_hmi.Device.Command
use smd_web_hmi.Compiler.Definition.{Stage, RecipeDefinition}
use smd_web_hmi.Compiler.Verdict.{SafetyProfile, over, ends_unsafe, stage_errors}
use smd_web_hmi.Compiler.Passes.{
  IsWithin, stage_errors-IsWithin, check_stages-All, executable-limit_errors, limit_errors-parts,
}
use smd_web_hmi.Compiler.Compile.{
  ProfileSnapshot, Bundle, CompiledRecipe, safety_profile, check_final, wire_recipe, compile_recipe,
}
use smd_web_hmi.Compiler.Exact.{IsSame, IsExact, IsCompiled, compile_recipe-IsCompiled}

over-milli :
    (o : Option ℕ) (maximum : ℕ) (w : Option ℕ)
    → IsSame o w
    → over o (maximum * 1000) ≡ false
    → Command.over w maximum ≡ false
unfolding over
over-milli none maximum none h fits = refl
over-milli none maximum (some x) h fits = cc
over-milli (some v) maximum none h fits = cc
over-milli (some v) maximum (some x) h fits = ground arith

stage_exceeds-exact :
    (p : ProfileSnapshot) (s : Stage) (w : Wire.Stage)
    → IsExact s w
    → IsWithin (safety_profile p) s
    → stage_exceeds p.profile w ≡ false
unfolding stage_exceeds safety_profile
stage_exceeds-exact p s w e f =
    let target =
      over-milli s.furnace_target_c p.profile.limits.temperature_max_mc w.target_mc e.target
        f.target in
    let rate =
      over-milli s.ramp_c_min p.profile.limits.ramp_max_mc_per_min w.rate_mc_per_min e.rate
        f.rate in
    ground (arith, target, rate, e.n2, e.co, f.n2, f.co)

any-stage_exceeds :
    (p : ProfileSnapshot) (ss : List Stage) (ws : List Wire.Stage)
    → Pairs IsExact ss ws
    → All (λ s. (j : ℕ) × (m : ℕ) × (stage_errors (safety_profile p) j m s ≡ [])) ss
    → any (stage_exceeds p.profile) ws ≡ false
any-stage_exceeds p [] [] e f = refl
any-stage_exceeds p [] (w ∷ ws) e f = elim e [ ]
any-stage_exceeds p (s ∷ ss) [] e f = elim e [ ]
any-stage_exceeds p (s ∷ ss) (w ∷ ws) (e, es) ((j, m, f), fs) =
    let first = stage_exceeds-exact p s w e (stage_errors-IsWithin (safety_profile p) j m s f) in
    let rest = any-stage_exceeds p ss ws es fs in
    ap (λ b. b || any (stage_exceeds p.profile) ws) first ∙ rest

ends_unsafe-value :
    (p : SafetyProfile) (s : Stage)
    → ends_unsafe p (some s) ≡ false
    → s.exit.value ≤ p.safe_end_burden_c
unfolding ends_unsafe
ends_unsafe-value p s h = ground arith

check_final-nitrogen :
    (p : Profile) (w : Wire.Stage)
    → check_final p (some w) ≡ ok tt
    → p.limits.minimum_n2_ml_min ≤ w.n2_ml_min
unfolding check_final
check_final-nitrogen p w h = ground arith

final_unsafe-exact :
    (p : ProfileSnapshot) (ss : List Stage) (ws : List Wire.Stage) (last : Option Wire.Stage)
    → last? ws ≡ last
    → Pairs IsExact ss ws
    → ends_unsafe (safety_profile p) (last? ss) ≡ false
    → check_final p.profile last ≡ ok tt
    → final_unsafe p.profile last ≡ false
unfolding check_final safety_profile
final_unsafe-exact p ss ws none is_last e ends final = ground arith
final_unsafe-exact p ss ws (some w) is_last e ends final =
    let (s, is_s, exact) = Pairs-last IsExact ss ws e is_last in
    let value =
      ends_unsafe-value (safety_profile p) s
        (subst (λ o. ends_unsafe (safety_profile p) o ≡ false) is_s ends) in
    let nitrogen = check_final-nitrogen p.profile w final in
    ground (arith, value, nitrogen, exact.value)

module _ (source_digest : RecipeDefinition → ℕ) (profile_digest : ProfileSnapshot → ℕ)
    (wire_digest : Wire.Recipe → ℕ) (canonical_bytes : Wire.Recipe → List ℕ) where
  recipe_refused-compiled :
      (b : Bundle) (p : ProfileSnapshot) {c : CompiledRecipe}
      → IsCompiled source_digest profile_digest wire_digest canonical_bytes b p c
      → recipe_refused p.profile c.recipe ≡ none
  unfolding recipe_refused
  recipe_refused-compiled b p {c} i =
      let (many, stages, ends) =
        limit_errors-parts b.definition (safety_profile p)
          (executable-limit_errors b.definition (safety_profile p) true i.executable) in
      let exceeds =
        any-stage_exceeds p b.definition.stages i.stages i.compiled
          (check_stages-All (safety_profile p) 1 0 none b.definition.stages stages) in
      let final =
        final_unsafe-exact p b.definition.stages i.stages (last? i.stages) refl i.compiled ends
          i.final in
      let same_length = Pairs-length IsExact b.definition.stages i.stages i.compiled in
      subst (λ r. recipe_refused p.profile r ≡ none) (sym i.is_recipe)
        (unfold wire_recipe safety_profile in ground (arith, many, exceeds, final, same_length))

  raw_refused-loaded :
      (h : Host) (p : Profile) (raw : List ℕ) (r : Wire.Recipe)
      → h.load raw ≡ some r
      → Wire.validate r ≡ none
      → recipe_refused p r ≡ none
      → raw_refused h p (some raw) ≡ none
  unfolding raw_refused validate_recipe_bytes
  raw_refused-loaded h p raw r loads valid fits = ground arith

  -- A device with the profile for which a recipe was compiled, and which reads the bytes of the artifact as
  -- the compiled recipe, accepts it: the recipe passes the validators and the limits of the device.
  pub compile_recipe-raw_refused :
      (b : Bundle) (p : ProfileSnapshot) (h : Host) {c : CompiledRecipe}
      → compile_recipe source_digest profile_digest wire_digest canonical_bytes b p ≡ ok c
      → h.load c.data_ ≡ some c.recipe
      → raw_refused h p.profile (some c.data_) ≡ none
  compile_recipe-raw_refused b p h {c} compiled loads =
      let i =
        compile_recipe-IsCompiled source_digest profile_digest wire_digest canonical_bytes b p
          compiled in
      raw_refused-loaded h p.profile c.data_ c.recipe loads i.valid (recipe_refused-compiled b p i)
