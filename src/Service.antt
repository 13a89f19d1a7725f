-- ===== src/Service.antt =====
-- Services of the HMI: who may control (backend/app/services/control_ownership.py), and the alarm on
-- failing writes (sampling_health.py).
pub mod Ownership
pub mod SamplingHealth
pub mod Examples
