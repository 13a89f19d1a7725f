-- ===== src/Lease/Examples.antt =====
-- The theorems on the lease at concrete histories.
use smd_web_hmi.Prelude.{
  ℕ, ◌≤◌, ◌<◌, ◌≡◌, ◌≢◌, ◌+◌, ◌⊎◌, refl, inl, true, false, Option, none, some, ok,
}
use smd_web_hmi.Lease.Defs.{LeaseContext, Frame, init, reset, token, clear, expire, confirm}
use smd_web_hmi.Lease.Trace.{
  Step, Reach, here, next, stale_token-clear, stale_token-confirm, confirm_deadline,
  Reach-init-IsRevocable, IsConfirmed, acquire_evidence,
}

-- A connected context, a status that shows its lease 9, and the context that confirms it.
abbrev connected : LeaseContext
connected = reset (some 3) (some 4) (init 1)

abbrev shown : Frame
shown = record {
  session_id = 3;
  boot_id = 4;
  uptime_ms = 1000;
  payload = record {
    state_revision = 5;
    lease_id = some 9;
    lease_owner_controller_id = some 1;
    lease_owner_session_id = some 3;
    lease_expires_uptime_ms = some 9000;
  };
}

abbrev leased : LeaseContext
leased = (confirm shown (token connected) (some 9) 100 200 connected).1

abbrev adopting : Reach connected leased
adopting = next here (Step.confirm shown (token connected) (some 9) 100 200)

adopts : leased.lease_id ≡ some 9
unfolding confirm reset init
adopts = refl

leased_differs : leased.lease_id ≢ connected.lease_id
unfolding confirm reset init
leased_differs e = cc

-- The lease runs out, and the context is back at the lease, session and boot of the token.
abbrev returned : LeaseContext
returned = (expire 9000 leased).1

abbrev returning : Reach leased returned
returning = next here (Step.expire 9000)

returned_same : returned.lease_id ≡ connected.lease_id
unfolding confirm reset init expire
returned_same = refl

stale_token-clear_example : clear (token connected) returned ≡ (false, returned)
stale_token-clear_example = stale_token-clear adopting (inl leased_differs) returning

stale_token-confirm_example :
    confirm shown (token connected) (some 9) 300 400 returned ≡ (ok false, (expire 400 returned).1)
stale_token-confirm_example =
    stale_token-confirm adopting (inl leased_differs) returning shown (some 9) 300 400

confirms : (confirm shown (token connected) (some 9) 100 200 connected).0 ≡ ok true
unfolding confirm reset init
confirms = refl

confirm_deadline_example :
    (leased.lease_id ≡ some 9)
    × ◌≢◌ {A = Option ℕ} (some 9) none
    × (200 < leased.expires_at)
    × ((leased.expires_at ≡ connected.expires_at) ⊎ (leased.expires_at ≤ 100 + 8000))
confirm_deadline_example =
    confirm_deadline shown (token connected) (some 9) 100 200 connected confirms

abbrev lost : LeaseContext
lost = (expire 9000 leased).1

abbrev losing : Reach (init 1) lost
losing =
    next
      (next (next here (Step.reset (some 3) (some 4)))
        (Step.confirm shown (token connected) (some 9) 100 200))
      (Step.expire 9000)

lost_revoked : lost.revoked ≡ true
unfolding confirm reset init expire
lost_revoked = refl

Reach-init-IsRevocable_example : lost.lease_id ≡ none
Reach-init-IsRevocable_example = Reach-init-IsRevocable 1 losing lost_revoked

leased_held : leased.lease_id ≢ none
unfolding confirm reset init
leased_held e = cc

acquire_evidence_example : IsConfirmed connected leased
acquire_evidence_example =
    acquire_evidence (Step.confirm shown (token connected) (some 9) 100 200) leased_held
      leased_differs
