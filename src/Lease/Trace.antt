-- ===== src/Lease/Trace.antt =====
-- Histories of a lease context: any sequence of calls of the methods of
-- backend/app/hostcomm/v2_lease.py, and the writes of `renewals_paused` by v2_transport.py.
use smd_web_hmi.Prelude.{
  ℕ, ◌+◌, ◌≤◌, ◌<◌, ◌≡◌, ◌≢◌, ◌⊎◌, refl, Bool, true, false, Option, none, some, ok, arith, ==?_eq,
  ap, ◌∙◌,
}
use smd_web_hmi.Lease.Defs
use smd_web_hmi.Lease.Defs.{LeaseToken, LeaseContext, Frame, LeaseError, token, deadline}
use smd_web_hmi.Lease.Fencing.{
  IsFenced, IsFenced-refl, IsFenced-trans, reset-IsFenced, clear-IsFenced, expire-IsFenced,
  observe_status-IsFenced, confirm-IsFenced, heartbeat-IsFenced,
}

pub data Step (c : LeaseContext) : LeaseContext → Type 0 where
  reset : (s b : Option ℕ) → Step c (Defs.reset s b c)
  clear : (t : LeaseToken) → Step c (Defs.clear t c).1
  expire : (now : ℕ) → Step c (Defs.expire now c).1
  observe_status : (f : Frame) (started now : ℕ) → Step c (Defs.observe_status f started now c).1
  confirm :
      (f : Frame) (t : LeaseToken) (lease : Option ℕ) (started now : ℕ)
      → Step c (Defs.confirm f t lease started now c).1
  heartbeat :
      (f : Frame) (t : LeaseToken) (requested : Option ℕ) (started now : ℕ)
      → Step c (Defs.heartbeat f t requested started now c).1
  set_paused : (b : Bool) → Step c (record c { renewals_paused = b })

pub data Reach (c : LeaseContext) : LeaseContext → Type 0 where
  here : Reach c c
  next : {d e : LeaseContext} → Reach c d → Step d e → Reach c e

Step-IsFenced : {c d : LeaseContext} → Step c d → IsFenced c d
Step-IsFenced {c} (reset s b) = reset-IsFenced s b c
Step-IsFenced {c} (clear t) = clear-IsFenced t c
Step-IsFenced {c} (expire now) = expire-IsFenced now c
Step-IsFenced {c} (observe_status f started now) = observe_status-IsFenced f started now c
Step-IsFenced {c} (confirm f t lease started now) = confirm-IsFenced f t lease started now c
Step-IsFenced {c} (heartbeat f t r started now) = heartbeat-IsFenced f t r started now c
Step-IsFenced {c} (set_paused b) = ground arith

pub Reach-IsFenced : {c d : LeaseContext} → Reach c d → IsFenced c d
Reach-IsFenced {c} here = IsFenced-refl c
Reach-IsFenced (next r s) = IsFenced-trans (Reach-IsFenced r) (Step-IsFenced s)

-- `d` holds another lease, session or boot than `c`.
abbrev pub IsChanged : LeaseContext → LeaseContext → Type 0
IsChanged c d = (d.lease_id ≢ c.lease_id) ⊎ (d.session_id ≢ c.session_id) ⊎ (d.boot_id ≢ c.boot_id)

-- A change at any time leaves a later generation for good.
changed-generation :
    {c m d : LeaseContext} → Reach c m → IsChanged c m → Reach m d → c.generation < d.generation
changed-generation before changed after =
    ground (arith, Reach-IsFenced before, Reach-IsFenced after)

-- A token that was taken before the context held another lease, session or boot clears nothing, also
-- when later calls have brought all of them back to what the token names.
pub stale_token-clear :
    {c m d : LeaseContext}
    → Reach c m
    → IsChanged c m
    → Reach m d
    → Defs.clear (token c) d ≡ (false, d)
unfolding Defs.clear
stale_token-clear {c} {m} {d} before changed after =
    ground (arith, changed-generation before changed after)

-- Under a token that was taken before the context held another lease, session or boot, a confirmation
-- reports no lease and changes at most what `expire` changes, whatever the frame shows.
pub stale_token-confirm :
    {c m d : LeaseContext}
    → Reach c m
    → IsChanged c m
    → Reach m d
    → (f : Frame) (lease : Option ℕ) (started now : ℕ)
    → Defs.confirm f (token c) lease started now d ≡ (ok false, (Defs.expire now d).1)
unfolding Defs.confirm
stale_token-confirm {c} {m} {d} before changed after f lease started now =
    ground (arith, changed-generation before changed after)

-- A context that was revoked holds no lease.
abbrev pub IsRevocable : LeaseContext → Type 0
IsRevocable c = c.revoked ≡ true → c.lease_id ≡ none

Step-IsRevocable : {c d : LeaseContext} → Step c d → IsRevocable c → IsRevocable d
unfolding Defs.reset Defs.clear Defs.expire Defs.observe_status Defs.confirm Defs.heartbeat
Step-IsRevocable {c} (reset s b) h = ground arith
Step-IsRevocable {c} (clear t) h = ground arith
Step-IsRevocable {c} (expire now) h = ground arith
Step-IsRevocable {c} (observe_status f started now) h = ground arith
Step-IsRevocable {c} (confirm f t lease started now) h = ground (arith, ==?_eq c.lease_id lease)
Step-IsRevocable {c} (heartbeat f t r started now) h = ground arith
Step-IsRevocable {c} (set_paused b) h = ground arith

-- The lease that a confirmation adopts or keeps is the one asked for, it has not run out, and its
-- deadline is the one already held or at most eight seconds after the request.
pub confirm_deadline :
    (f : Frame) (t : LeaseToken) (lease : Option ℕ) (started now : ℕ) (c : LeaseContext)
    → (Defs.confirm f t lease started now c).0 ≡ ok true
    → let d = (Defs.confirm f t lease started now c).1 in
      (d.lease_id ≡ lease)
      × (lease ≢ none)
      × (now < d.expires_at)
      × ((d.expires_at ≡ c.expires_at) ⊎ (d.expires_at ≤ started + 8000))
unfolding Defs.confirm
confirm_deadline f t lease started now c h = ground (arith, ==?_eq c.lease_id lease)

-- However the context got there from its construction, after a revocation it holds no lease.
pub Reach-init-IsRevocable :
    (controller : ℕ) {d : LeaseContext} (r : Reach (Defs.init controller) d)
    → d.revoked ≡ true
    → d.lease_id ≡ none
unfolding Defs.init
Reach-init-IsRevocable controller here h = refl
Reach-init-IsRevocable controller (next r s) h =
    Step-IsRevocable s (Reach-init-IsRevocable controller r) h

-- Device evidence of a lease: a frame of this connection names it, with this controller and session
-- as its owner.
pub record IsOwnedBy (c : LeaseContext) (held : Option ℕ) (f : Frame) : Type 0 where
  pub session : some f.session_id ≡ c.session_id
  pub boot : some f.boot_id ≡ c.boot_id
  pub lease : f.payload.lease_id ≡ held
  pub controller : f.payload.lease_owner_controller_id ≡ some c.controller_id
  pub owner : f.payload.lease_owner_session_id ≡ c.session_id

confirm_evidence :
    (f : Frame) (t : LeaseToken) (lease : Option ℕ) (started now : ℕ) (c : LeaseContext)
    → let d = (Defs.confirm f t lease started now c).1 in
      d.lease_id ≢ none → d.lease_id ≢ c.lease_id → IsOwnedBy c d.lease_id f
unfolding Defs.confirm
confirm_evidence f t lease started now c held changed = ground (
  arith,
  ==?_eq (some f.session_id) c.session_id,
  ==?_eq (some f.boot_id) c.boot_id,
  ==?_eq f.payload.lease_id lease,
  ==?_eq f.payload.lease_owner_controller_id (some c.controller_id),
  ==?_eq f.payload.lease_owner_session_id c.session_id,
)

-- A call of `confirm` from `c` that reported the lease of `d`, with the frame as evidence of it.
pub record IsConfirmed (c d : LeaseContext) : Type 0 where
  pub frame : Frame
  pub asked : LeaseToken
  pub started : ℕ
  pub now : ℕ
  pub outcome : Defs.confirm frame asked d.lease_id started now c ≡ (ok true, d)
  pub owned : IsOwnedBy c d.lease_id frame

confirm-IsConfirmed :
    (f : Frame) (t : LeaseToken) (lease : Option ℕ) (started now : ℕ) (c : LeaseContext)
    → let d = (Defs.confirm f t lease started now c).1 in
      d.lease_id ≢ none
      → d.lease_id ≢ c.lease_id
      → (d.lease_id ≡ lease) × ((Defs.confirm f t lease started now c).0 ≡ ok true)
unfolding Defs.confirm
confirm-IsConfirmed f t lease started now c held changed =
    (ground arith, ground (arith, ==?_eq c.lease_id lease))

-- A step to a lease that was not held before is a call of `confirm` for that lease, which reported it, on a
-- frame of this connection that names it, with this controller and session as its owner.
pub acquire_evidence :
    {c d : LeaseContext} (s : Step c d)
    → d.lease_id ≢ none
    → d.lease_id ≢ c.lease_id
    → IsConfirmed c d
unfolding Defs.reset Defs.clear Defs.expire Defs.observe_status Defs.heartbeat
acquire_evidence {c} (reset s b) held changed = absurd (ground arith)
acquire_evidence {c} (clear t) held changed = absurd (ground arith)
acquire_evidence {c} (expire now) held changed = absurd (ground arith)
acquire_evidence {c} (observe_status f started now) held changed = absurd (ground arith)
acquire_evidence {c} (confirm f t lease started now) held changed =
    let (same, confirmed) = confirm-IsConfirmed f t lease started now c held changed in
    record {
      frame = f;
      asked = t;
      started = started;
      now = now;
      outcome =
          ap (λ l. Defs.confirm f t l started now c) same
          ∙ (λ i. (confirmed i, (Defs.confirm f t lease started now c).1));
      owned = confirm_evidence f t lease started now c held changed;
    }
acquire_evidence {c} (heartbeat f t r started now) held changed = absurd (ground arith)
acquire_evidence {c} (set_paused b) held changed = absurd (changed refl)
