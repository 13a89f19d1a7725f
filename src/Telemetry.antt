-- ===== src/Telemetry.antt =====
-- The evidence that no telemetry sample was lost, backend/app/services/telemetry_integrity.py.
pub mod Cursor
pub mod Continuity
pub mod Examples
