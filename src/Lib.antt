-- ===== src/Lib.antt =====
-- Verification library of the SMD web HMI, the host of a softening and melting test furnace.
--
-- The backend speaks HostComm 2.0 to the furnace's controller: framed JSON messages carry the
-- controller lease, atomic recipe uploads, commands, telemetry, events and log transfers. A simulated
-- device with durable state answers for the controller, and the services of the backend keep the
-- evidence that a test was measured without a gap.
--
-- Lease: `LeaseContext` of backend/app/hostcomm/v2_lease.py, the host's evidence of its controller
--   lease. Defs has one function per method, Trace the histories of calls.
-- Recipe: the device's recipe artifact, backend/app/hostcomm/v2_contract/recipe.py. Model has the
--   validators, Shape what they make sure of.
-- Device: the simulated device, `DeviceState` of backend/app/hostcomm/v2_simulator/state.py with
--   `DeviceStore.save` of storage.py and the messages that its state keeps. Model is the data; Log,
--   Store, Stop, Alarm, Lease, Stage, Tick, Command, Execute and Boot are the methods, in the order in
--   which they call each other; Sound is the invariant of the state and of what is stored, Trace the
--   histories, in which a restart reads the store again. A device runs the stages of a recipe of
--   Recipe.Model.
-- Codec: `FrameDecoder`, `encode_message` and `RecipeAssembler` of
--   backend/app/hostcomm/v2_contract/codec.py, and `FrameParser` of backend/app/hostcomm/protocol.py.
-- Transfer: `LogTransfer` of backend/app/hostcomm/v2_simulator/transfers.py and the log messages of
--   v2_contract/messages.py.
-- Telemetry: backend/app/services/telemetry_integrity.py.
-- Service: backend/app/services/control_ownership.py and sampling_health.py.
-- Coordinator: `V2OperationCoordinator` of backend/app/services/v2_operations.py on the tables of
--   backend/app/db/v2_models.py. Model is the data, Intent the transactions, Submit the calls that wait
--   for the device, with what other calls do meanwhile; Trace is the histories of transactions. Board
--   puts the simulated device of Device behind the transport, by Device.Answers.
-- Compiler: the editable recipes of backend/app/services/recipe_definition.py (Definition, Standard,
--   Verdict) and their compilation to recipes of the device in v2_recipe_compiler.py (Compile); the
--   other modules prove what a recipe that compiles has. Its decimal quantities are millionths.
-- Archive: the transfers and cursors of `V2SourceLogStore` in backend/app/services/v2_source_logs.py.
--   Receive has the calls, Validate `validate_log_transfer` of v2_contract/codec.py, Verify the
--   verified interval of a log, Trace the histories of calls; the others are proofs on them.
-- Prelude: tests, lists, results and signed integers that all of them use.
--
-- Identifiers, digests and the decimal strings of 64-bit numbers are read as numbers, times are
-- milliseconds, and base64 text is the bytes that it encodes. Signed measurements are integers of the
-- model. Counters of the device are unbounded: their bound of 64 bits is not modelled. The clock is
-- read once per operation. Fresh identifiers, the decoding of stored recipe bytes, failures of the
-- disk, SHA-256, the JSON library and the message adapters are parameters. A measured point of good
-- quality has a value by its type. The tables of Coordinator and Archive have no time stamps; a
-- transaction is one step, and one that raises leaves the tables as they were.
--
-- No definition runs on fuel but `deliver` of Transfer.Delivery, the rounds of a client: one round per
-- 1536 bytes is enough.
--
-- Not modelled: `status` and `catalog` of the device state, which only read it, the fault
-- injection and the sockets of the simulator's server, the HostComm 1.0 client and mock device,
-- the lease calls of the operation coordinator, the end of a log transfer with the records that it
-- stores, the database beyond the tables above, the HTTP interface, reports and floating-point
-- metrics, the frontend and the desktop packages, which are input and output or declarations for
-- the most part.
pub mod Prelude
pub mod Lease
pub mod Recipe
pub mod Device
pub mod Codec
pub mod Transfer
pub mod Telemetry
pub mod Service
pub mod Coordinator
pub mod Compiler
pub mod Archive
