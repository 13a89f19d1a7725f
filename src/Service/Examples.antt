-- ===== src/Service/Examples.antt =====
-- The theorems on the services at concrete states.
use smd_web_hmi.Prelude.{
  ℕ, ◌+◌, ◌≡◌, ◌⊎◌, refl, Bool, true, false, none, some, List, [], ◌∷◌, leb, ◌==◌, ok, arith,
}
use smd_web_hmi.Service.Ownership.{
  Request, Ownership, admin, operator, may_take_over, change_owner, assert_control_owner,
  change_owner-keeps, assert_control_owner-owner,
}
use smd_web_hmi.Service.SamplingHealth.{
  track, init, record_failure, record_success, failures_in_a_row, track-reports,
}

abbrev owned : Ownership
owned = record { username = some 1; audit = [] }

abbrev takeover : Request
takeover = record {
  username = 2;
  role = admin;
  takeover = true;
  has_reason = true;
  release = false;
}

change_owner-keeps_example :
    ((change_owner takeover owned).1 ≡ owned)
    ⊎ (◌≡◌ {A = ℕ} 1 2 × (takeover.release ≡ true))
    ⊎ ((takeover.takeover ≡ true)
        × (may_take_over takeover.role ≡ true)
        × (takeover.has_reason ≡ true))
change_owner-keeps_example = change_owner-keeps takeover owned 1 refl

assert_control_owner-owner_example :
    let (result, next) = assert_control_owner false 2 operator owned in
    (result ≡ ok tt → next.username ≡ some 2)
    × (next ≡ owned ⊎ (owned.username ≡ none))
    × ((assert_control_owner true 2 operator owned).1 ≡ owned)
assert_control_owner-owner_example = assert_control_owner-owner 2 operator owned

abbrev failing : List Bool
failing = true ∷ true ∷ []

track-reports_example :
    let h = track failing (init 3) in
    ((record_failure h).0 ≡ (failures_in_a_row failing + 1 == 3))
    × ((record_success h).0 ≡ leb 3 (failures_in_a_row failing))
track-reports_example = track-reports 3 failing (omega arith)
