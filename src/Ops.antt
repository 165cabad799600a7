-- ===== src/Ops.antt =====
-- The operations on a machine, a module per source file.
pub mod DeleteVm
pub mod Storage
pub mod Lifecycle
pub mod Hardware
pub mod Clipboard
pub mod Serial
pub mod Snapshot
pub mod Usb
pub mod Dvd
pub mod SharedFolder
pub mod Network
pub mod PortForwarding
