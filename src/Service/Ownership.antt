-- ===== src/Service/Ownership.antt =====
-- The controlling user, backend/app/services/control_ownership.py. The row with its audit trail is a
-- state; users are numbers, `reason` is whether it has a character that is not blank. The time stamps
-- and the texts of the audit rows are not kept.
use smd_web_hmi.Prelude.{
  ℕ, ◌≡◌, ◌⊎◌, refl, inl, inr, Bool, true, false, not, ◌&&◌, ◌||◌, Option, none, some, List, [],
  ◌∷◌, ◌++◌, ◌==◌, ◌==?◌, Result, ok, err, if◌then◌else◌, arith, Bool-cases, Option-cases,
}

pub data Role : Type 0 where
  operator admin maintainer viewer : Role

pub data OperationError : Type 0 where
  operator_permission_denied control_owned : OperationError

pub data Action : Type 0 where
  control_release control_transfer : Action

-- An `OperatorAction` row.
pub record AuditRow : Type 0 where
  pub operator_id : ℕ
  pub operator_role : Role
  pub action_type : Action
  pub previous : Option ℕ
  pub next : Option ℕ

pub record Ownership : Type 0 where
  pub username : Option ℕ
  pub audit : List AuditRow

pub record Request : Type 0 where
  pub username : ℕ
  pub role : Role
  pub takeover : Bool
  pub has_reason : Bool
  pub release : Bool

unfoldable pub may_operate : Role → Bool
may_operate viewer = false
may_operate _ = true

unfoldable pub may_take_over : Role → Bool
may_take_over admin = true
may_take_over maintainer = true
may_take_over _ = false

-- `previous and previous != username`
unfoldable pub held_by_other : Option ℕ → ℕ → Bool
held_by_other none user = false
held_by_other (some owner) user = not (owner == user)

unfoldable pub set_owner : Request → Ownership → Ownership
set_owner r s =
    let next = if r.release then none else some r.username in
    record {
      username = next;
      audit =
          s.audit
          ++ (record {
            operator_id = r.username;
            operator_role = r.role;
            action_type = if r.release then control_release else control_transfer;
            previous = s.username;
            next = next;
          }
              ∷ []);
    }

unfoldable pub change_owner : Request → Ownership → Result OperationError (Option ℕ) × Ownership
unfolding may_operate may_take_over held_by_other set_owner
change_owner r s =
    if not (may_operate r.role)
    then (err operator_permission_denied, s)
    else (if (s.username ==? some r.username) && not r.release
        then (ok s.username, s)
        else (if held_by_other s.username r.username
              && (not r.takeover || not (may_take_over r.role) || not r.has_reason)
            then (err control_owned, s)
            else (ok (set_owner r s).username, set_owner r s)))

unfoldable pub discard :
    Result OperationError (Option ℕ) × Ownership → Result OperationError (Unit {0}) × Ownership
discard (ok _, s) = (ok tt, s)
discard (err e, s) = (err e, s)

-- `assert_control_owner`: a stop needs no ownership, another action takes it if it is free.
unfoldable pub assert_control_owner :
    Bool → ℕ → Role → Ownership → Result OperationError (Unit {0}) × Ownership
unfolding change_owner discard
assert_control_owner is_stop user role s =
    if is_stop
    then (ok tt, s)
    else discard (
        change_owner
          record {
            username = user;
            role = role;
            takeover = false;
            has_reason = true;
            release = false;
          }
          s)

-- An owner loses the control only to a release of its own, or to an administrator or maintainer who
-- asks for a takeover and gives a reason; in all other cases the state is as it was.
pub change_owner-keeps :
    (r : Request) (s : Ownership) (owner : ℕ)
    → s.username ≡ some owner
    → ((change_owner r s).1 ≡ s)
      ⊎ ((owner ≡ r.username) × (r.release ≡ true))
      ⊎ ((r.takeover ≡ true) × (may_take_over r.role ≡ true) × (r.has_reason ≡ true))
unfolding change_owner held_by_other set_owner
change_owner-keeps r s owner h = elim (Bool-cases (owner == r.username && r.release)) [
  | inl own ↦ inr (inl (ground arith, ground arith))
  | inr other ↦ elim (Bool-cases (r.takeover && may_take_over r.role && r.has_reason)) [
    | inl taken ↦ inr (inr (ground arith, ground arith, ground arith))
    | inr refused ↦ inl (ground arith)
  ]
]

-- A control request that is not refused is made by the owner or makes its user the owner, and one
-- that is refused, or that stops, changes nothing.
pub assert_control_owner-owner :
    (user : ℕ) (role : Role) (s : Ownership)
    → let (result, next) = assert_control_owner false user role s in
      (result ≡ ok tt → next.username ≡ some user)
      × (next ≡ s ⊎ (s.username ≡ none))
      × ((assert_control_owner true user role s).1 ≡ s)
unfolding assert_control_owner change_owner held_by_other set_owner discard may_take_over
    may_operate
assert_control_owner-owner user role s = elim (Option-cases s.username) [
  | inl free ↦ (λ h. ground arith, inr free, refl)
  | inr (owner, held) ↦ (λ h. ground (arith, held), inl (ground (arith, held)), refl)
]
