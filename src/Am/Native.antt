-- ===== src/Am/Native.antt =====
-- abstract-machine/am/src/native: a machine that is a process of the host.
pub mod Audio
pub mod PageMap
