-- ===== src/Device/Lease.antt =====
-- The device's side of the lease in backend/app/hostcomm/v2_simulator/state.py.
use smd_web_hmi.Prelude.{
  ℕ, ◌+◌, Bool, true, false, not, ◌&&◌, Option, none, some, Result, ok, ltb, ◌==◌, ◌==?◌, is_some,
  if◌then◌else◌,
}
use smd_web_hmi.Device.Model.{Lease, aborted, lease_lost, Data, Device, Error}
use smd_web_hmi.Device.Log.{revision, on_content}
use smd_web_hmi.Device.Store.{commit}
use smd_web_hmi.Device.Stop.{stop}
use smd_web_hmi.Device.Alarm.{raise_uncommitted, default_severity}

unfoldable pub drop_lease : Data → Data
unfolding revision
drop_lease c = revision (record c { lease = none })

-- `lose_lease` once the lease and the session are known to match.
unfoldable pub lose_held : ℕ → Device → Device
unfolding drop_lease
lose_held now d =
    let d' = on_content drop_lease d in
    if is_some d.content.run.run_id && not d.content.run.safe_complete
    then raise_uncommitted now lease_lost (default_severity lease_lost) (stop now aborted d')
    else d'

unfoldable pub concerns : Option ℕ → Lease → Bool
concerns none l = true
concerns (some session) l = l.session_id == session

unfoldable pub lose_if : ℕ → Option ℕ → Option Lease → Device → Result Error (Unit {0}) × Device
unfolding concerns
lose_if now session none d = (ok tt, d)
lose_if now session (some l) d = if concerns session l then commit (lose_held now d) else (ok tt, d)

-- `lose_lease`
unfoldable pub lose_lease : ℕ → Option ℕ → Device → Result Error (Unit {0}) × Device
unfolding lose_if
lose_lease now session d = lose_if now session d.content.lease d

unfoldable pub holds : ℕ → ℕ → Option ℕ → Lease → Bool
holds now session lease l =
    (some l.id ==? lease) && ((l.session_id == session) && ltb now l.expires)

-- `lease_valid`
unfoldable pub lease_valid : ℕ → ℕ → Option ℕ → Data → Bool
unfolding holds
lease_valid now session lease c = elim c.lease [ none ↦ false | some l ↦ holds now session lease l ]

pub record Heartbeat : Type 0 where
  pub lease_id : Option ℕ
  pub lease_expires_uptime_ms : Option ℕ
  pub state_revision : ℕ

unfoldable pub extend : ℕ → Option Lease → Option Lease
extend now none = none
extend now (some l) = some (record l { expires = now + 8000 })

unfoldable pub lease_id_of : Option Lease → Option ℕ
lease_id_of none = none
lease_id_of (some l) = some l.id

unfoldable pub expires_of : Option Lease → Option ℕ
expires_of none = none
expires_of (some l) = some l.expires

-- `heartbeat`
unfoldable pub heartbeat : ℕ → ℕ → Option ℕ → Device → Heartbeat × Device
unfolding lease_valid extend lease_id_of expires_of on_content
heartbeat now session lease d =
    let d' =
      if lease_valid now session lease d.content
      then on_content (λ c. record c { lease = extend now c.lease }) d
      else d in
    (
      record {
        lease_id = lease_id_of d'.content.lease;
        lease_expires_uptime_ms = expires_of d'.content.lease;
        state_revision = d'.content.run.state_revision;
      },
      d',
    )
