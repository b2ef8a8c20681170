-- ===== src/Guest.antt =====
-- guest_linux.go: what the guest reports, its reading of the kernel command line, and its init.
pub mod Types
pub mod Cmdline
pub mod Interface
pub mod Net
pub mod Disk
pub mod Survey
pub mod Init
