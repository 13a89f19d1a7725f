-- ===== src/Lease.antt =====
-- The controller's lease evidence, backend/app/hostcomm/v2_lease.py.
-- Identifiers are 32 hexadecimal digits and are read as the number that they spell; so are the
-- decimal strings of the wire. Local monotonic times are in milliseconds (the source has seconds
-- as floats). `observed_order` is `none` for the source's initial pair (-1, -1), below every other.
pub mod Defs
pub mod Fencing
pub mod Trace
pub mod Examples
