-- ===== src/Slm.antt =====
-- slm-edge-inference: local inference on a small node. Models, the memory budget, the provider
-- interface with its mock, the lifecycle manager and the router.
pub mod Models
pub mod Memory
pub mod Provider
pub mod Mock
pub mod Ollama
pub mod Lifecycle
pub mod Router
pub mod Config
pub mod Subsystem
pub mod Endpoints
