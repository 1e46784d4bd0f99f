-- ===== src/Libvirt.antt =====
-- cross-node-rental/src/workspace/libvirt_provider.rs: the tenants that run as virtual machines,
-- one module for each part of the file.
pub mod Text
pub mod Validate
pub mod Host
pub mod Poll
pub mod Ports
pub mod Runtime
pub mod Setup
mod Samples
mod Tests
