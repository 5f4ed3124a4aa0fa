-- ===== src/Engine.antt =====
-- The persistent engine: core/persistent_engine.
pub mod State
pub mod Device
pub mod Cuda
pub mod AesKey
pub mod Keys
pub mod Rotation
pub mod Tuning
pub mod Queue
pub mod Lifecycle
pub mod Shutdown
