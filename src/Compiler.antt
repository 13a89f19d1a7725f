-- ===== src/Compiler.antt =====
-- The editable recipes of the HMI and their compilation to recipes of the device.
pub mod Definition
pub mod Standard
pub mod Verdict
pub mod Compile
pub mod Passes
pub mod Gas
pub mod Exact
pub mod Accepts
pub mod Immutable
pub mod Examples
