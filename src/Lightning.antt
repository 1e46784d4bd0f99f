-- ===== src/Lightning.antt =====
-- cross-node-rental/src/ldk_bolt12_capabilities.rs: the capabilities of a Lightning node, one module
-- for each group of handlers.
pub mod Node
pub mod Numerals
pub mod Request
pub mod Channels
pub mod Peers
pub mod Payments
pub mod Misc
pub mod L402
pub mod Listing
pub mod Advertised
pub mod Dispatch
mod Tests
