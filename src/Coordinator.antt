-- ===== src/Coordinator.antt =====
-- The host's durable command identity, backend/app/services/v2_operations.py.
pub mod Model
pub mod Equality
pub mod Intent
pub mod Submit
pub mod Keeps
pub mod Trace
pub mod Growth
pub mod Safety
pub mod Numbers
pub mod Restart
pub mod Board
pub mod Examples
