-- ===== src/Recipe/Shape.antt =====
-- What a validated recipe of backend/app/hostcomm/v2_contract/recipe.py looks like.
use smd_web_hmi.Prelude.{
  ℕ, zero, suc, ◌≤◌, ◌<◌, ◌≡◌, ◌≢◌, refl, ap, inl, inr, Bool, true, false, not, none, some, List,
  [], ◌∷◌, arith, is_some, length, get_elem?, any, last?, but_last, Option-cases,
}
use smd_web_hmi.Recipe.Model.{
  Stage, Recipe, burden_mc, lt, stage_valid, off, is_cool, heats_off, heats_ramp, stages_valid,
  safe_final, recipe_coherent, validate,
}

-- An element that `p` holds of, and that `p` holds of no element before the last, is the last.
any-but_last {ℓ} :
    {A : Type ℓ} (p : A → Bool) (xs : List A) (i : ℕ) {a : A}
    → any p (but_last xs) ≡ false
    → get_elem? xs i ≡ some a
    → p a ≡ true
    → suc i ≡ length xs
any-but_last p [] i n g h = cc
any-but_last p (x ∷ []) zero n g h = refl
any-but_last p (x ∷ []) (suc i) n g h = cc
any-but_last p (x ∷ y ∷ ys) zero n g h = ground arith
any-but_last p (x ∷ y ∷ ys) (suc i) n g h =
    omega (arith, any-but_last p (y ∷ ys) i (ground arith) g h)

last?-get_elem? {ℓ} :
    {A : Type ℓ} (xs : List A) (i : ℕ) {a b : A}
    → last? xs ≡ some b
    → get_elem? xs i ≡ some a
    → (suc i ≡ length xs → a ≡ b) × (suc i ≢ length xs → (c : A) × (get_elem? xs (suc i) ≡ some c))
last?-get_elem? [] i l g = cc
last?-get_elem? (x ∷ []) zero l g = (λ _. cc, λ h. absurd (h refl))
last?-get_elem? (x ∷ []) (suc i) l g = cc
last?-get_elem? (x ∷ y ∷ ys) zero l g = (λ e. absurd (omega (arith, e)), λ _. (y, refl))
last?-get_elem? (x ∷ y ∷ ys) (suc i) l g =
    let rest = last?-get_elem? (y ∷ ys) i l g in
    (λ e. rest.0 (omega arith), λ n. rest.1 (λ e. n (omega arith)))

last?-stages_valid :
    (xs : List Stage) {s : Stage}
    → stages_valid xs ≡ none
    → last? xs ≡ some s
    → stage_valid s ≡ none
unfolding stages_valid
last?-stages_valid [] v l = cc
last?-stages_valid (x ∷ []) v l = ground arith
last?-stages_valid (x ∷ y ∷ ys) v l = last?-stages_valid (y ∷ ys) (ground arith) l

-- The parts of a successful validation.
validate_parts :
    (r : Recipe)
    → validate r ≡ none
    → (s : Stage) × (last? r.stages ≡ some s)
      × (stages_valid r.stages ≡ none)
      × (any (λ t. is_cool t.kind) (but_last r.stages) ≡ false)
      × (safe_final (some s) ≡ true)
unfolding validate recipe_coherent
validate_parts r v = elim (Option-cases (last? r.stages)) [
  | inl e ↦ absurd (unfold safe_final in ground arith)
  | inr (s, e) ↦ (s, e, ground arith, ground arith, ground arith)
]

-- Every validated recipe ends in a cooling stage with the heater off, no CO, nitrogen, and a burden
-- temperature of at most 200 °C to fall below.
pub validate-final :
    (r : Recipe)
    → validate r ≡ none
    → (s : Stage) × (last? r.stages ≡ some s)
      × (is_cool s.kind ≡ true)
      × (s.heater_mode ≡ off)
      × (s.target_mc ≡ none)
      × (s.co_ml_min ≡ 0)
      × (0 < s.n2_ml_min)
      × (s.exit.source ≡ burden_mc)
      × (s.exit.op ≡ lt)
      × (s.exit.value ≤ 200000)
unfolding stage_valid safe_final
validate-final r v =
    let (s, l, all, early, final) = validate_parts r v in
    let good : stage_valid s ≡ none = last?-stages_valid r.stages all l in
    (
      s,
      l,
      ground arith,
      ground arith,
      ground arith,
      ground arith,
      ground arith,
      ground arith,
      ground arith,
      ground arith,
    )

final_cool : {s f : Stage} → safe_final (some f) ≡ true → s ≡ f → is_cool s.kind ≡ true
unfolding safe_final
final_cool safe e = ground (arith, ap (λ (t : Stage). is_cool t.kind) e)

-- In a validated recipe a stage other than a cooling one is followed by a stage.
pub next_stage :
    (r : Recipe) (i : ℕ) {s : Stage}
    → validate r ≡ none
    → get_elem? r.stages i ≡ some s
    → is_cool s.kind ≡ false
    → (t : Stage) × (get_elem? r.stages (suc i) ≡ some t)
next_stage r i {s} v g k =
    let (final, l, all, early, safe) = validate_parts r v in
    let (same, more) = last?-get_elem? r.stages i l g in more (λ e. cc (final_cool safe (same e)))

-- In a validated recipe a cooling stage is the last stage.
pub cool_stage_last :
    (r : Recipe) (i : ℕ) {s : Stage}
    → validate r ≡ none
    → get_elem? r.stages i ≡ some s
    → is_cool s.kind ≡ true
    → suc i ≡ length r.stages
cool_stage_last r i v g k = any-but_last (λ t. is_cool t.kind) r.stages i (validate_parts r v).3 g k

-- In a validated recipe each stage validates.
pub get_elem?-stages_valid :
    (xs : List Stage) (i : ℕ) {s : Stage}
    → stages_valid xs ≡ none
    → get_elem? xs i ≡ some s
    → stage_valid s ≡ none
unfolding stages_valid
get_elem?-stages_valid [] i v g = cc
get_elem?-stages_valid (x ∷ xs) zero v g = ground arith
get_elem?-stages_valid (x ∷ xs) (suc i) v g = get_elem?-stages_valid xs i (ground arith) g

-- A stage of a validated recipe names a target if it heats, and a rate if it ramps.
pub stage_heating :
    (s : Stage)
    → stage_valid s ≡ none
    → (is_some s.target_mc ≡ not (heats_off s.heater_mode))
      × (is_some s.rate_mc_per_min ≡ heats_ramp s.heater_mode)
unfolding stage_valid
stage_heating s v = (ground arith, ground arith)

pub validate-stages_valid : (r : Recipe) → validate r ≡ none → stages_valid r.stages ≡ none
validate-stages_valid r v = (validate_parts r v).2
