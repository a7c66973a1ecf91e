-- ===== src/Tracee.antt =====
-- The traced process as the handlers see it: src/tracee.
pub mod Regs
