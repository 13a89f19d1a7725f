-- ===== src/Lease/Defs.antt =====
-- LeaseToken and LeaseContext of backend/app/hostcomm/v2_lease.py.
use smd_web_hmi.Prelude.{
  ℕ, ◌+◌, ◌-◌, Bool, true, false, not, ◌&&◌, ◌||◌, Option, none, some, Result, ok, err, ltb, leb,
  max, ◌==◌, ◌==?◌, is_some, if◌then◌else◌,
}

pub record LeaseToken : Type 0 where
  pub session_id : Option ℕ
  pub boot_id : Option ℕ
  pub lease_id : Option ℕ
  pub generation : ℕ

pub record LeaseContext : Type 0 where
  pub controller_id : ℕ
  pub generation : ℕ
  pub session_id : Option ℕ
  pub boot_id : Option ℕ
  pub lease_id : Option ℕ
  pub expires_at : ℕ
  pub minimum_revision : ℕ
  pub status_revision : ℕ
  pub observed_order : Option (ℕ × ℕ)
  pub renewals_paused : Bool
  pub revoked : Bool

-- What the methods read of a frame's payload: a status snapshot's revision is that of its run.
pub record Payload : Type 0 where
  pub state_revision : ℕ
  pub lease_id : Option ℕ
  pub lease_owner_controller_id : Option ℕ
  pub lease_owner_session_id : Option ℕ
  pub lease_expires_uptime_ms : Option ℕ

pub record Frame : Type 0 where
  pub session_id : ℕ
  pub boot_id : ℕ
  pub uptime_ms : ℕ
  pub payload : Payload

-- The `ValueError`s, by message.
pub data LeaseError : Type 0 where
  lifetime context_expired not_confirmed renewal_expired : LeaseError

abbrev Method : Type 0 → Type 0
Method A = LeaseContext → Result LeaseError A × LeaseContext

unfoldable pub reset : Option ℕ → Option ℕ → LeaseContext → LeaseContext
reset session boot c = record {
  controller_id = c.controller_id;
  generation = c.generation + 1;
  session_id = session;
  boot_id = boot;
  lease_id = none;
  expires_at = 0;
  minimum_revision = 0;
  status_revision = 0;
  observed_order = none;
  renewals_paused = false;
  revoked = false;
}

-- `__init__`
unfoldable pub init : ℕ → LeaseContext
unfolding reset
init controller = reset none none (record {
  controller_id = controller;
  generation = 0;
  session_id = none;
  boot_id = none;
  lease_id = none;
  expires_at = 0;
  minimum_revision = 0;
  status_revision = 0;
  observed_order = none;
  renewals_paused = false;
  revoked = false;
})

unfoldable pub token : LeaseContext → LeaseToken
token c = record {
  session_id = c.session_id;
  boot_id = c.boot_id;
  lease_id = c.lease_id;
  generation = c.generation;
}

unfoldable pub same_token : LeaseToken → LeaseToken → Bool
same_token s t =
    (s.session_id ==? t.session_id)
    && (s.boot_id ==? t.boot_id)
    && (s.lease_id ==? t.lease_id)
    && (s.generation == t.generation)

unfoldable pub clear : LeaseToken → LeaseContext → Bool × LeaseContext
unfolding same_token token
clear t c =
    if same_token t (token c)
    then (
      true,
      record c {
        lease_id = none;
        expires_at = 0;
        generation = c.generation + 1;
        renewals_paused = false;
      },
    )
    else (false, c)

unfoldable pub expire : ℕ → LeaseContext → Bool × LeaseContext
unfolding clear
expire now c =
    if is_some c.lease_id && leb c.expires_at now
    then (true, record (clear (token c) c).1 { revoked = true })
    else (c.revoked, c)

unfoldable pub same_connection : Frame → LeaseContext → Bool
same_connection f c = (some f.session_id ==? c.session_id) && (some f.boot_id ==? c.boot_id)

unfoldable pub or_zero : Option ℕ → ℕ
or_zero none = 0
or_zero (some n) = n

-- `_deadline`; the subtraction is truncated, and what is not positive is refused.
unfoldable pub deadline : Frame → ℕ → Result LeaseError ℕ
unfolding or_zero
deadline f started =
    let remaining = or_zero f.payload.lease_expires_uptime_ms - f.uptime_ms in
    if ltb 0 remaining && leb remaining 8000 then ok (started + remaining) else err lifetime

-- `order < self.observed_order`
unfoldable pub below : ℕ × ℕ → Option (ℕ × ℕ) → Bool
below (a, b) none = false
below (a, b) (some (c, d)) = ltb a c || (a == c) && ltb b d

unfoldable pub order : Frame → ℕ × ℕ
order f = (f.payload.state_revision, f.uptime_ms)

unfoldable pub owned : Frame → LeaseContext → Bool
owned f c =
    is_some f.payload.lease_id
    && (f.payload.lease_owner_controller_id ==? some c.controller_id)
    && (f.payload.lease_owner_session_id ==? c.session_id)

unfoldable pub observe : Frame → LeaseContext → LeaseContext
unfolding order
observe f c = record c {
  minimum_revision = max c.minimum_revision f.payload.state_revision;
  observed_order = some (order f);
  status_revision = f.payload.state_revision;
}

-- A lease that the device no longer reports as ours is dropped.
unfoldable pub drop_foreign : Frame → LeaseContext → LeaseContext
unfolding clear owned
drop_foreign f c =
    if is_some c.lease_id && (not (owned f c) || not (f.payload.lease_id ==? c.lease_id))
    then (clear (token c) c).1
    else c

unfoldable pub set_deadline :
    Result LeaseError ℕ → LeaseContext → Result LeaseError Bool × LeaseContext
set_deadline (ok at) c = (ok true, record c { expires_at = at })
set_deadline (err e) c = (err e, c)

unfoldable pub renew_observed : Frame → ℕ → LeaseContext → Result LeaseError Bool × LeaseContext
unfolding owned deadline set_deadline
renew_observed f started c =
    if owned f c && (c.lease_id ==? f.payload.lease_id)
    then set_deadline (deadline f started) c
    else (ok true, c)

unfoldable pub observe_status : Frame → ℕ → ℕ → LeaseContext → Result LeaseError Bool × LeaseContext
unfolding same_connection expire below order observe drop_foreign renew_observed
observe_status f started now c =
    if not (same_connection f c)
    then (ok false, c)
    else let (gone, c') = expire now c in
      if gone
        || (below (order f) c'.observed_order || ltb f.payload.state_revision c'.minimum_revision)
      then (ok false, c')
      else renew_observed f started (drop_foreign f (observe f c'))

-- The lease identity, the owner and the revision that a confirmation must show.
unfoldable pub refused : Frame → Option ℕ → LeaseContext → Bool
unfolding owned
refused f lease c =
    ltb f.payload.state_revision c.minimum_revision
    || (not (is_some lease)
        || (not (f.payload.lease_id ==? lease)
            || (not (f.payload.lease_owner_controller_id ==? some c.controller_id)
                || not (f.payload.lease_owner_session_id ==? c.session_id))))

-- `confirm` from the comparison of orders on.
unfoldable pub adopt :
    Frame
    → Option ℕ
    → ℕ
    → Result LeaseError ℕ
    → LeaseContext
    → Result LeaseError Bool × LeaseContext
unfolding below order observe
adopt f lease now (err e) c = (err e, c)
adopt f lease now (ok at) c =
    if below (order f) c.observed_order
    then (ok (c.lease_id ==? lease), c)
    else if leb at now
    then (ok false, c)
    else (
      ok true,
      observe f (record c {
        generation = if c.lease_id ==? lease then c.generation else c.generation + 1;
        lease_id = lease;
        expires_at = at;
      }),
    )

unfoldable pub confirm :
    Frame → LeaseToken → Option ℕ → ℕ → ℕ → LeaseContext → Result LeaseError Bool × LeaseContext
unfolding same_connection expire same_token token refused adopt deadline
confirm f t lease started now c =
    let (gone, c') = expire now c in
    if gone || (not (same_token t (token c')) || (not (same_connection f c') || c'.renewals_paused))
    then (ok false, c')
    else if refused f lease c'
    then (ok false, c')
    else adopt f lease now (deadline f started) c'

-- `heartbeat` from the computation of the deadline on.
unfoldable pub renew :
    Frame → ℕ → Result LeaseError ℕ → LeaseContext → Result LeaseError (Unit {0}) × LeaseContext
unfolding below order
renew f now (err e) c = (err e, c)
renew f now (ok at) c =
    if leb at now
    then (err renewal_expired, c)
    else if below (order f) c.observed_order
    then (ok tt, c)
    else (ok tt, record c { observed_order = some (order f); expires_at = at })

unfoldable pub heartbeat :
    Frame
    → LeaseToken
    → Option ℕ
    → ℕ
    → ℕ
    → LeaseContext
    → Result LeaseError (Unit {0}) × LeaseContext
unfolding same_connection expire same_token token deadline renew
heartbeat f t requested started now c =
    if not (same_connection f c)
    then (ok tt, c)
    else let (gone, c1) = expire now c in
      if gone
      then (err context_expired, c1)
      else let c2 = record c1 {
        minimum_revision = max c1.minimum_revision f.payload.state_revision;
      } in
        if not (is_some requested) || not (same_token t (token c2))
        then (ok tt, c2)
        else if not (f.payload.lease_id ==? requested)
        then (err not_confirmed, c2)
        else renew f now (deadline f started) c2

pub record Evidence : Type 0 where
  pub session_id : Option ℕ
  pub boot_id : Option ℕ
  pub lease_id : Option ℕ
  pub minimum_state_revision : ℕ
  pub valid : Bool
  pub renewals_paused : Bool
  pub expires_monotonic : ℕ

unfoldable pub evidence : ℕ → LeaseContext → Evidence × LeaseContext
unfolding expire
evidence now c =
    let c' = (expire now c).1 in
    (
      record {
        session_id = c'.session_id;
        boot_id = c'.boot_id;
        lease_id = c'.lease_id;
        minimum_state_revision = c'.minimum_revision;
        valid = is_some c'.lease_id && (ltb now c'.expires_at && not c'.renewals_paused);
        renewals_paused = c'.renewals_paused;
        expires_monotonic = c'.expires_at;
      },
      c',
    )
