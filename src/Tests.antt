-- ===== src/Tests.antt =====
-- Runs of the operations against a host that answers from a script, and the theorems applied to them.
pub mod Scripted
mod Operations
mod Lifecycle
mod Choices
mod Snapshots
mod Network
mod Server
mod Folders
mod Drives
