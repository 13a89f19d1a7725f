-- ===== src/Device/Execute.antt =====
-- The transaction of one command in backend/app/hostcomm/v2_simulator/state.py: `command` and
-- `_evict_history`.
use smd_web_hmi.Prelude.{
  ℕ, zero, suc, ◌-◌, Bool, true, false, not, ◌&&◌, ◌||◌, Option, none, some, List, [], ◌∷◌, Result,
  ok, err, ◌==◌, ◌==?◌, is_some, length, if◌then◌else◌,
}
use smd_web_hmi.Device.Model.{
  Reason, accepted_ok, permission_denied, operation_conflict, busy, storage_unavailable, preparing,
  pending, aborted, invalid, accepted, applied, rejected, unknown, Operation, Data, Device, Error,
  device, storage,
}
use smd_web_hmi.Device.Tests.{is_accepted, is_not_found}
use smd_web_hmi.Device.Log.{revision, on_content, emit_run_changed}
use smd_web_hmi.Device.Store.{commit}
use smd_web_hmi.Device.Stop.{stop}
use smd_web_hmi.Device.Lease.{lease_id_of, expires_of}
use smd_web_hmi.Device.Command.{
  Request, acquire_lease, start_run, stop_run, ack_run, Command, Session, lookup, refusal,
  put_operation, put_highwater, apply,
}

unfoldable pub evictable : Option ℕ → Operation → Bool
evictable run o = not (is_accepted o.status) && (not (is_some o.run_id) || not (o.run_id ==? run))

-- The loop of `_evict_history`, which drops at most `excess` results, the oldest first; with what
-- is kept comes the excess that is left.
unfoldable pub evict : ℕ → Option ℕ → List Operation → List Operation × ℕ
unfolding evictable
evict excess run [] = ([], excess)
evict zero run (o ∷ os) = (o ∷ os, zero)
evict (suc n) run (o ∷ os) =
    let dropped = evict n run os in
    let kept = evict (suc n) run os in if evictable run o then dropped else (o ∷ kept.0, kept.1)

-- `_evict_history`: `none` where it raises `busy`.
unfoldable pub evict_history : Data → Option Data
unfolding evict
evict_history c =
    let (kept, left) =
      evict (length c.operations - c.profile.resources.command_result_slots) c.run.run_id
        c.operations in
    if left == 0 then some (record c { operations = kept }) else none

abbrev pub is_start : Request → Bool
is_start (start_run _ _ _) = true
is_start _ = false

abbrev pub is_stop : Request → Bool
is_stop (stop_run _) = true
is_stop _ = false

abbrev pub is_acquire : Request → Bool
is_acquire acquire_lease = true
is_acquire _ = false

-- `params.get("run_id")`
abbrev pub run_param : Request → Option ℕ
run_param (start_run run _ _) = some run
run_param (stop_run run) = some run
run_param (ack_run run) = some run
run_param _ = none

-- The result of the permission check: `none` is acceptance.
unfoldable pub new_result : Command → Option Reason → Data → Operation
new_result p refused c = record {
  controller_epoch = p.controller_epoch;
  operation_id = p.operation_id;
  command_seq = p.command_seq;
  result_boot_id = some c.boot_id;
  request_digest = some p.request_digest;
  status = elim refused [ none ↦ accepted | some _ ↦ rejected ];
  reason = elim refused [ none ↦ accepted_ok | some code ↦ code ];
  state_revision = c.run.state_revision;
  run_id = none;
  lease_id = none;
  lease_expires_uptime_ms = none;
}

-- The reservation of a run by an accepted `start_run`.
unfoldable pub reserve : Request → Data → Data
unfolding revision
reserve (start_run run digest profile) c = revision (record c {
  run = record c.run {
    run_id = some run;
    state = preparing;
    outcome = pending;
    recipe_digest = some digest;
    safety_profile_digest = some c.profile.profile_digest;
    stage_index = some 0;
  };
  first_drip_latched = false;
  stable_started = none;
  ramp_initial_mc = none;
})
reserve _ c = c

unfoldable pub reserved_result : Request → Data → Operation → Operation
reserved_result q c r =
    if is_start q
    then record r { run_id = c.run.run_id; state_revision = c.run.state_revision }
    else r

-- The data of the first transaction, before the history is evicted, and its result.
unfoldable pub admitted : Command → Option Reason → Data → Data × Operation
unfolding new_result reserve reserved_result
admitted p refused c =
    let c' = if is_some refused then c else reserve p.request c in
    let r =
      if is_some refused
      then new_result p refused c
      else reserved_result p.request c' (new_result p refused c) in
    (
      record c' {
        operations = put_operation r c'.operations;
        highwater = put_highwater p.controller_epoch p.command_seq c'.highwater;
      },
      r,
    )

unfoldable pub applied_result : Command → Data → Operation → Operation
applied_result p c r =
    let r' = record r {
      status = applied;
      state_revision = c.run.state_revision;
      run_id = run_param p.request;
    } in
    if is_acquire p.request
    then record r' { lease_id = lease_id_of c.lease; lease_expires_uptime_ms = expires_of c.lease }
    else r'

unfoldable pub unknown_result : Operation → Operation
unknown_result r = record r { status = unknown; reason = storage_unavailable }

-- The result object is shared with the history: a change of it shows there.
unfoldable pub settle_result : Operation → Device → Device
settle_result r = on_content (λ c. record c { operations = put_operation r c.operations })

-- The second transaction, after the command has been carried out.
unfoldable pub confirm :
    Operation → Result Error (Unit {0}) × Device → Result Error Operation × Device
unfolding settle_result unknown_result
confirm r (ok u, d) = (ok r, d)
confirm r (err storage, d) = (ok (unknown_result r), settle_result (unknown_result r) d)
confirm r (err e, d) = (err e, d)

unfoldable pub finish_apply :
    Command → Operation → Result Error (Unit {0}) × Device → Result Error Operation × Device
unfolding applied_result settle_result confirm
finish_apply p r (err e, d) = (err e, d)
finish_apply p r (ok u, d) =
    let r' = applied_result p d.content r in confirm r' (commit (settle_result r' d))

unfoldable pub carry_out :
    ℕ → Session → Command → Option (List ℕ) → Operation → Device → Result Error Operation × Device
unfolding confirm finish_apply apply
carry_out now s p raw r d =
    if is_start p.request
    then confirm r (commit (emit_run_changed now d))
    else finish_apply p r (apply now s p.request raw d)

-- A protective stop is carried out in memory though its intent cannot be stored.
unfoldable pub invalidate : Data → Data
invalidate c = record c {
  run = record c.run { outcome = if c.run.measurement_complete then c.run.outcome else invalid };
}

unfoldable pub without_storage :
    ℕ → Command → Option Reason → Operation → Data → Device → Result Error Operation × Device
unfolding invalidate unknown_result
without_storage now p refused r before d =
    let d' = record d { content = before; pending_records = [] } in
    if is_stop p.request && not (is_some refused)
    then (ok (unknown_result r), on_content invalidate (stop now aborted d'))
    else (err (device storage_unavailable), d')

unfoldable pub after_intent :
    ℕ
    → Session
    → Command
    → Option (List ℕ)
    → Option Reason
    → Operation
    → Data
    → Result Error (Unit {0}) × Device
    → Result Error Operation × Device
unfolding without_storage carry_out
after_intent now s p raw refused r before (ok u, d) =
    if is_some refused then (ok r, d) else carry_out now s p raw r d
after_intent now s p raw refused r before (err storage, d) =
    without_storage now p refused r before d
after_intent now s p raw refused r before (err e, d) = (err e, d)

-- The first transaction, on what the eviction of the history has left.
unfoldable pub store_intent :
    ℕ
    → Session
    → Command
    → Option (List ℕ)
    → Option Reason
    → Operation
    → Option Data
    → Device
    → Result Error Operation × Device
unfolding after_intent
store_intent now s p raw refused r none d = (err (device busy), d)
store_intent now s p raw refused r (some c) d =
    after_intent now s p raw refused r d.content (commit (record d { content = c }))

unfoldable pub transact :
    ℕ
    → Session
    → Command
    → Option (List ℕ)
    → Option Reason
    → Device
    → Result Error Operation × Device
unfolding admitted evict_history store_intent
transact now s p raw refused d =
    let a = admitted p refused d.content in
    store_intent now s p raw refused a.1 (evict_history a.0) d

-- Only a `DeviceError` of the permission check becomes a rejection.
unfoldable pub judge :
    ℕ
    → Session
    → Command
    → Option (List ℕ)
    → Option Error
    → Device
    → Result Error Operation × Device
unfolding transact
judge now s p raw none d = transact now s p raw none d
judge now s p raw (some (device code)) d = transact now s p raw (some code) d
judge now s p raw (some e) d = (err e, d)

-- A result that is kept answers a repetition of its request.
unfoldable pub replay : Command → Operation → Result Error Operation
replay p prior =
    if is_some prior.request_digest && not (prior.request_digest ==? some p.request_digest)
    then err (device operation_conflict)
    else ok prior

-- `command` once the prior result has been looked up.
unfoldable pub answer :
    ℕ
    → Session
    → Command
    → Option (List ℕ)
    → Result Error Operation
    → Device
    → Result Error Operation × Device
unfolding refusal judge replay
answer now s p raw (err e) d = (err e, d)
answer now s p raw (ok prior) d =
    if is_not_found prior.status
    then judge now s p raw (refusal now d.host s p raw d.content) d
    else (replay p prior, d)

-- `command`
unfoldable pub command :
    ℕ → Session → Command → Option (List ℕ) → Device → Result Error Operation × Device
unfolding lookup answer
command now s p raw d =
    if not s.is_control || not (p.controller_epoch == s.epoch)
    then (err (device permission_denied), d)
    else answer now s p raw (lookup p.controller_epoch p.operation_id p.command_seq d.content) d
