-- ===== src/Am.antt =====
-- abstract-machine/am: the runtime that programs use for pages, devices and traps, on several machines.
pub mod Vme
pub mod Apic
pub mod Boot
mod Bytes
pub mod Canvas
pub mod Clock
pub mod Devices
pub mod Disk
pub mod Gpu
pub mod Native
pub mod Keys
pub mod Ports
pub mod Smp
pub mod Trap
pub mod Ioe
