-- ===== src/Tests.antt =====
-- Concrete states, and each theorem that has hypotheses applied to one of them.
mod Worlds
mod RotationTests
mod QueueTests
mod AbiTests
mod LatchTests
mod ShutdownTests
mod FastPathTests
mod MldsaTests
mod RingTests
