-- ===== src/Lease/Fencing.antt =====
-- Generations fence the lease of backend/app/hostcomm/v2_lease.py: each method alone.
use smd_web_hmi.Prelude.{Result, ok, err, ℕ, ◌≤◌, ◌≡◌, Option, arith, ==?_eq}
use smd_web_hmi.Lease.Defs.{
  LeaseToken, LeaseContext, Frame, clear, expire, drop_foreign, renew_observed, observe_status,
  adopt, confirm, heartbeat, reset, LeaseError,
}

-- From `c` to `c'` the generation does not fall, and while it stays, so does the lease's identity.
pub record IsFenced (c c' : LeaseContext) : Type 0 where
  pub grows : c.generation ≤ c'.generation
  pub lease : c'.generation ≡ c.generation → c'.lease_id ≡ c.lease_id
  pub session : c'.generation ≡ c.generation → c'.session_id ≡ c.session_id
  pub boot : c'.generation ≡ c.generation → c'.boot_id ≡ c.boot_id

pub IsFenced-refl : (c : LeaseContext) → IsFenced c c
IsFenced-refl c = ground arith

pub IsFenced-trans : {a b c : LeaseContext} → IsFenced a b → IsFenced b c → IsFenced a c
IsFenced-trans p q = ground arith

pub reset-IsFenced : (s b : Option ℕ) (c : LeaseContext) → IsFenced c (reset s b c)
unfolding reset
reset-IsFenced s b c = ground arith

pub clear-IsFenced : (t : LeaseToken) (c : LeaseContext) → IsFenced c (clear t c).1
unfolding clear
clear-IsFenced t c = ground arith

pub expire-IsFenced : (now : ℕ) (c : LeaseContext) → IsFenced c (expire now c).1
unfolding expire
expire-IsFenced now c = ground arith

drop_foreign-IsFenced : (f : Frame) (c : LeaseContext) → IsFenced c (drop_foreign f c)
unfolding drop_foreign
drop_foreign-IsFenced f c = ground arith

renew_observed-IsFenced :
    (f : Frame) (started : ℕ) (c : LeaseContext) → IsFenced c (renew_observed f started c).1
unfolding renew_observed
renew_observed-IsFenced f started c = ground arith

pub observe_status-IsFenced :
    (f : Frame) (started now : ℕ) (c : LeaseContext) → IsFenced c (observe_status f started now c).1
unfolding observe_status
observe_status-IsFenced f started now c = ground arith

adopt-IsFenced :
    (f : Frame) (lease : Option ℕ) (now : ℕ) (r : Result LeaseError ℕ) (c : LeaseContext)
    → IsFenced c (adopt f lease now r c).1
unfolding adopt
adopt-IsFenced f lease now (err e) c = ground arith
adopt-IsFenced f lease now (ok at) c = ground (arith, ==?_eq c.lease_id lease)

pub confirm-IsFenced :
    (f : Frame) (t : LeaseToken) (lease : Option ℕ) (started now : ℕ) (c : LeaseContext)
    → IsFenced c (confirm f t lease started now c).1
unfolding confirm
confirm-IsFenced f t lease started now c = ground (arith, ==?_eq c.lease_id lease)

pub heartbeat-IsFenced :
    (f : Frame) (t : LeaseToken) (requested : Option ℕ) (started now : ℕ) (c : LeaseContext)
    → IsFenced c (heartbeat f t requested started now c).1
unfolding heartbeat
heartbeat-IsFenced f t requested started now c = ground arith
