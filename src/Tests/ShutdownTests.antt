-- ===== src/Tests/ShutdownTests.antt =====
-- A shutdown whose kernel is busy at the first query.
use gpu_rotation_engine.Base.{
  ℕ, zero, suc, ◌+◌, ◌<◌, ◌≡◌, refl, true, false, some, arith, not, ◌==◌,
}
use gpu_rotation_engine.Engine.Cuda.{Outcome}
use gpu_rotation_engine.Engine.Lifecycle.{engine_shutdown}
use gpu_rotation_engine.Engine.Shutdown.{ExitsAfter, engine_shutdown-stops}
use gpu_rotation_engine.Tests.Worlds.{world}

abbrev busy_once : ℕ → Outcome
busy_once n = record { success = not (n == 2); not_ready = true; progress = 0 }

exits_at_second : ExitsAfter busy_once 2 1
exits_at_second = record { busy = busy_first; done = refl }
  where
    busy_first :
        (j : ℕ)
        → j < 1
        → ((busy_once (2 + j)).success ≡ false) × ((busy_once (2 + j)).not_ready ≡ true)
    busy_first zero l = (refl, refl)
    busy_first (suc j) l = absurd (omega arith)

engine_shutdown-stops_example : (engine_shutdown (world busy_once)).0 ≡ some tt
engine_shutdown-stops_example =
    (engine_shutdown-stops 1 (world busy_once) refl refl refl (omega arith) exits_at_second).0
