-- ===== src/Device.antt =====
-- The inert device of the simulator, backend/app/hostcomm/v2_simulator/state.py and storage.py.
pub mod Model
pub mod Tests
pub mod Log
pub mod Store
pub mod Stop
pub mod Alarm
pub mod Lease
pub mod Stage
pub mod Tick
pub mod Command
pub mod Execute
pub mod Answers
pub mod Boot
pub mod Sound
pub mod Trace
pub mod Examples
