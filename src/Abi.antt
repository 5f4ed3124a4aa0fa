-- ===== src/Abi.antt =====
-- The C ABI over the engine, engine/abi/smoke_engine_abi.cpp: the rotation probe, and the rotation calls
-- with the latch that guards signing.
pub mod Probe
pub mod Rotation
pub mod Health
pub mod ProbeRun
