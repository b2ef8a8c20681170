-- ===== src/Host.antt =====
-- host_linux.go: the checks of the host.
pub mod Machine
pub mod Platform
pub mod Virt
pub mod Cpu
pub mod Tuning
pub mod Devices
pub mod Syscalls
pub mod Memory
pub mod Config
pub mod Preflight
