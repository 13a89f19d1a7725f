-- ===== src/Recipe.antt =====
-- The immutable recipe artifact, backend/app/hostcomm/v2_contract/recipe.py.
pub mod Model
pub mod Shape
pub mod Examples
