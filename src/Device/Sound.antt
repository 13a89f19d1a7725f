-- ===== src/Device/Sound.antt =====
-- The invariant of the simulated device of backend/app/hostcomm/v2_simulator/state.py, and that each
-- operation keeps it.
pub mod Invariant
pub mod Steps
pub mod Stages
pub mod Ticks
pub mod Commands
pub mod Restart
