-- ===== src/Device/Log.antt =====
-- Revisions, log rows, events and samples of backend/app/hostcomm/v2_simulator/state.py.
use smd_web_hmi.Prelude.{ℕ, ◌+◌, Option, none, some, [], ◌∷◌, ◌++◌}
use smd_web_hmi.Device.Model.{
  SampleRef, EventKind, run_changed, Payload, telemetry, event, Data, Device,
}

-- `revision`
unfoldable pub revision : Data → Data
revision d = record d { run = record d.run { state_revision = d.run.state_revision + 1 } }

unfoldable pub on_content : (Data → Data) → Device → Device
on_content f d = record d { content = f d.content }

-- `record`: `written` is the boot and the uptime that the row of an event carries.
unfoldable pub record_row : Payload → Option (ℕ × ℕ) → Device → Device
record_row payload written d =
    let seq : ℕ = d.content.record_seq + 1 in
    record d {
      content = record d.content { record_seq = seq };
      pending_records =
          d.pending_records
          ++ (record {
            log_id = d.content.log_id;
            record_seq = seq;
            payload = payload;
            written = written;
          })
            ∷ [];
      notifications = d.notifications ++ payload ∷ [];
    }

-- `event`
unfoldable pub emit : ℕ → EventKind → Device → Device
unfolding record_row
emit now kind d =
    let seq : ℕ = d.content.event_seq + 1 in
    record_row
      (event (record {
        event_id = d.host.uuid4 d.drawn;
        event_seq = seq;
        run_id = d.content.run.run_id;
        event_uptime_ms = now;
        kind = kind;
      }))
      (some (d.content.boot_id, now))
      (record d { drawn = d.drawn + 1; content = record d.content { event_seq = seq } })

unfoldable pub emit_run_changed : ℕ → Device → Device
unfolding emit
emit_run_changed now d = emit now (run_changed d.content.run) d

unfoldable pub next_ref : Data → SampleRef
next_ref d = record { boot_id = d.boot_id; sample_seq = d.sample_seq + 1 }

-- `sample`; the reference that it returns is the new `latest_sample`, `next_ref` of the old data.
unfoldable pub sample : ℕ → Device → Device
unfolding record_row next_ref
sample now d =
    let ref : SampleRef = next_ref d.content in
    record_row
      (telemetry (record {
        sample = ref;
        sample_uptime_ms = now;
        run_id = d.content.run.run_id;
        state_revision = d.content.run.state_revision;
        values = d.content.values;
        first_drip_latched = d.content.first_drip_latched;
        detector_good = d.content.detector_good;
      }))
      none
      (record d {
        content = record d.content { sample_seq = ref.sample_seq; latest_sample = some ref };
      })
