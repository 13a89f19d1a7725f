-- ===== src/Device/Sound/Invariant.antt =====
-- What holds of the device between two operations: the run agrees with its phase, and the recipe,
-- the times and the sample that the phase needs are there.
use smd_web_hmi.Prelude.{
  ℕ, suc, ◌+◌, ◌≤◌, ◌<◌, ◌≡◌, refl, inl, inr, Bool, true, false, not, ◌&&◌, ◌||◌, Option, none,
  some, List, [], ◌∷◌, Result, ok, err, arith, leb, ◌==◌, is_some, length, get_elem?, Option-cases,
  sym, ◌∙◌,
}
use native.Mathlib.Numerals.{add-one}
use smd_web_hmi.Recipe.Model.{Recipe, Stage, recipe_fields, validate, is_cool}
use smd_web_hmi.Recipe.Shape.{next_stage}
use smd_web_hmi.Device.Model.{Phase, SampleRef, ActiveRecipe, Data, Host, Store, Device, Error}
use smd_web_hmi.Device.Tests.{
  is_idle, is_preparing, is_measuring, is_disposal, is_cooling, is_completed, is_fault,
}
use smd_web_hmi.Device.Store.{is_candidate, in_order, index_in_range, run_valid}
use smd_web_hmi.Device.Stage.{validate_recipe_bytes, running_recipe, stage_at}

abbrev pub is_ok {ℓ} : {A : Type ℓ} → Result Error A → Bool
is_ok (ok _) = true
is_ok (err _) = false

-- A recipe that is active can be read back.
unfoldable pub loads : Host → Option ActiveRecipe → Bool
loads h none = true
loads h (some a) = is_ok (validate_recipe_bytes h a.raw)

abbrev present_in : Option ℕ → Result Error Recipe → Bool
present_in i (err e) = false
present_in i (ok r) = is_ok (stage_at r i)

-- The active recipe can be read back and has the stage of the index.
unfoldable pub stage_present : Host → Option ActiveRecipe → Option ℕ → Bool
stage_present h a i = present_in i (running_recipe h a)

-- A boundary taken in this boot is no newer than the newest sample.
unfoldable pub recent : ℕ → ℕ → Option SampleRef → Bool
recent boot seq none = true
recent boot seq (some r) = not (r.boot_id == boot) || leb r.sample_seq seq

unfoldable pub newest : ℕ → ℕ → Option SampleRef → Bool
newest boot seq none = true
newest boot seq (some r) = (r.boot_id == boot) && (r.sample_seq == seq)

-- The phases that the device takes.
unfoldable pub known : Phase → Bool
known Phase.booting = false
known Phase.maintenance = false
known _ = true

-- `P` is what holds of the store behind the data.
pub record IsSoundData (live : Bool) (h : Host) (P : Type 0) (c : Data) : Type 0 where
  pub stored : P
  pub phase : known c.run.state ≡ true
  pub idle_id : is_some c.run.run_id ≡ not (is_idle c.run.state)
  pub idle_recipe : is_some c.run.recipe_digest ≡ not (is_idle c.run.state)
  pub idle_profile : is_some c.run.safety_profile_digest ≡ not (is_idle c.run.state)
  pub idle_stage : is_idle c.run.state ≡ true → c.run.stage_index ≡ none
  pub idle_start : is_idle c.run.state ≡ true → c.run.measurement_start ≡ none
  pub early_start : is_preparing c.run.state ≡ true → c.run.measurement_start ≡ none
  pub early_end :
      (is_idle c.run.state || (is_preparing c.run.state || is_measuring c.run.state)) ≡ true
      → (c.run.measurement_end ≡ none) × (c.run.measurement_complete ≡ false)
  pub measuring_start : is_measuring c.run.state ≡ true → is_some c.run.measurement_start ≡ true
  pub complete_bounds :
      c.run.measurement_complete ≡ true
      → (is_some c.run.measurement_start ≡ true) × (is_some c.run.measurement_end ≡ true)
  pub candidate : is_candidate c.run.outcome ≡ c.run.measurement_complete
  pub safe_phase : c.run.safe_complete ≡ is_completed c.run.state
  pub safe_bound : is_some c.run.safe_boundary ≡ is_completed c.run.state
  pub start_end : in_order c.run.measurement_start c.run.measurement_end ≡ true
  pub end_safe : in_order c.run.measurement_end c.run.safe_boundary ≡ true
  pub start_safe : in_order c.run.measurement_start c.run.safe_boundary ≡ true
  pub start_recent : recent c.boot_id c.sample_seq c.run.measurement_start ≡ true
  pub end_recent : recent c.boot_id c.sample_seq c.run.measurement_end ≡ true
  pub latest : newest c.boot_id c.sample_seq c.latest_sample ≡ true
  pub sampled : (live || is_cooling c.run.state) ≡ true → is_some c.latest_sample ≡ true
  pub recipe : loads h c.active_recipe ≡ true
  pub staged :
      is_idle c.run.state ≡ false → stage_present h c.active_recipe c.run.stage_index ≡ true
  pub disposing :
      (is_disposal c.run.state || (is_cooling c.run.state || is_fault c.run.state)) ≡ true
      → is_some c.disposal_started ≡ true
  pub cooling : is_cooling c.run.state ≡ true → is_some c.cooling_started ≡ true

-- The data in the store are sound too, if there are any.
unfoldable pub IsStored : Host → Store → Type 0
IsStored h s = (c : Data) → s.state ≡ some c → IsSoundData false h (Unit {0}) c

pub IsStored-same : (h : Host) (s t : Store) → t.state ≡ s.state → IsStored h s → IsStored h t
unfolding IsStored
IsStored-same h s t e i c is_c = i c (sym e ∙ is_c)

pub IsStored-data :
    (h : Host) (s : Store) (c : Data)
    → s.state ≡ some c
    → IsStored h s
    → IsSoundData false h (Unit {0}) c
unfolding IsStored
IsStored-data h s c is_c i = i c is_c

abbrev pub IsSound : Bool → Device → Type 0
IsSound live d = IsSoundData live d.host (IsStored d.host d.store) d.content

-- Data that are sound are so with another store.
pub with_stored :
    {live : Bool} {h : Host} {P Q : Type 0} {c : Data}
    → IsSoundData live h P c
    → Q
    → IsSoundData live h Q c
with_stored s q = ground arith

-- Data that are sound while the device runs can be stored.
pub storable :
    {live : Bool} {h : Host} {P : Type 0} {c : Data}
    → IsSoundData live h P c
    → IsSoundData false h (Unit {0}) c
storable s = ground arith

validate-length : (r : Recipe) → validate r ≡ none → (0 < length r.stages) × (length r.stages ≤ 64)
unfolding validate recipe_fields
validate-length r v = ground arith

get_elem?-lt {ℓ} :
    {A : Type ℓ} (xs : List A) (i : ℕ) {a : A} → get_elem? xs i ≡ some a → i < length xs
get_elem?-lt [] i g = cc
get_elem?-lt (x ∷ xs) ℕ.zero g = omega arith
get_elem?-lt (x ∷ xs) (suc i) g = omega (arith, get_elem?-lt xs i g)

-- What a stage that is present gives.
pub record IsStaged (h : Host) (a : Option ActiveRecipe) (i : ℕ) : Type 0 where
  pub recipe : Recipe
  pub stage : Stage
  pub runs : running_recipe h a ≡ ok recipe
  pub valid : validate recipe ≡ none
  pub at : get_elem? recipe.stages i ≡ some stage

stage_of :
    (h : Host) (raw : List ℕ) (i : Option ℕ)
    → present_in i (validate_recipe_bytes h raw) ≡ true
    → (r : Recipe) × (validate_recipe_bytes h raw ≡ ok r)
      × (validate r ≡ none)
      × (is_ok (stage_at r i) ≡ true)
unfolding validate_recipe_bytes
stage_of h raw i p = elim (Option-cases (h.load raw)) [
  | inl e ↦ absurd (ground arith)
  | inr (r, e) ↦ (r, ground arith, ground arith, ground arith)
]

pub stage_present-IsStaged :
    (h : Host) (a : Option ActiveRecipe) (i : ℕ)
    → stage_present h a (some i) ≡ true
    → IsStaged h a i
unfolding stage_present running_recipe stage_at
stage_present-IsStaged h none i p = absurd (ground arith)
stage_present-IsStaged h (some a) i p =
    let (r, runs, valid, at) = stage_of h a.raw (some i) p in
    elim (Option-cases (get_elem? r.stages i)) [
      | inl e ↦ absurd (ground arith)
      | inr (s, e) ↦ record { recipe = r; stage = s; runs = runs; valid = valid; at = e }
    ]

pub IsStaged-stage_present :
    (h : Host) (a : Option ActiveRecipe) (i : ℕ)
    → IsStaged h a i
    → stage_present h a (some i) ≡ true
unfolding stage_present stage_at
IsStaged-stage_present h a i s = ground (arith, s.runs, s.at)

-- A stage that is present stands at an index that the wire allows.
pub index-stage_present :
    (h : Host) (a : Option ActiveRecipe) (i : Option ℕ)
    → stage_present h a i ≡ true
    → index_in_range i ≡ true
unfolding index_in_range
index-stage_present h a none p = refl
index-stage_present h a (some i) p =
    let s = stage_present-IsStaged h a i p in
    ground (arith, get_elem?-lt s.recipe.stages i s.at, validate-length s.recipe s.valid)

-- After a stage other than a cooling one a stage is present.
pub next-stage_present :
    (h : Host) (a : Option ActiveRecipe) (i : ℕ) (s : IsStaged h a i)
    → is_cool s.stage.kind ≡ false
    → stage_present h a (some (i + 1)) ≡ true
next-stage_present h a i s k =
    let (t, g) = next_stage s.recipe i s.valid s.at k in
    IsStaged-stage_present h a (i + 1)
      (record { recipe = s.recipe; stage = t; runs = s.runs; valid = s.valid; at = rw add-one g })

get_elem?-zero {ℓ} :
    {A : Type ℓ} (xs : List A) → 0 < length xs → (a : A) × (get_elem? xs 0 ≡ some a)
get_elem?-zero [] h = absurd (omega arith)
get_elem?-zero (x ∷ xs) h = (x, refl)

-- An active recipe that loads has a first stage.
pub first-stage_present :
    (h : Host) (a : ActiveRecipe)
    → loads h (some a) ≡ true
    → stage_present h (some a) (some 0) ≡ true
unfolding loads validate_recipe_bytes running_recipe
first-stage_present h a p = elim (Option-cases (h.load a.raw)) [
  | inl e ↦ absurd (ground arith)
  | inr (r, e) ↦
      let valid : validate r ≡ none = ground arith in
      let (s, at) = get_elem?-zero r.stages (validate-length r valid).0 in
      IsStaged-stage_present h (some a) 0
        (record { recipe = r; stage = s; runs = ground arith; valid = valid; at = at })
]

-- The validator of the wire's run status accepts the run of a sound device.
pub IsSoundData-run_valid :
    {live : Bool} {h : Host} {P : Type 0} {c : Data}
    → IsSoundData live h P c
    → run_valid c.run ≡ true
unfolding run_valid known
IsSoundData-run_valid {live} {h} {P} {c} s =
    ground (arith, index-stage_present h c.active_recipe c.run.stage_index)
