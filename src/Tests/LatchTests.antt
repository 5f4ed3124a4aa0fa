-- ===== src/Tests/LatchTests.antt =====
-- The latches and recovery at concrete states.
use gpu_rotation_engine.Base.{◌≡◌, refl, true, false, [], ◌∷◌}
use gpu_rotation_engine.Engine.Cuda.{World, ◌>>=◌, gets, guard, modify, memcpy_async, settled}
use gpu_rotation_engine.Engine.Cuda.Run.{Ends, CallFailed}
use gpu_rotation_engine.Engine.Rotation.{
  engine_commit_rotation_async, engine_rotation_force_recovery,
}
use gpu_rotation_engine.Engine.Rotation.Recovery.{engine_rotation_force_recovery-Recovered}
use gpu_rotation_engine.Abi.Rotation.{
  SmokeEngine, commit_rotation_async, call, checked, on_engine, smoke_engine_commit_rotation_async,
}
use gpu_rotation_engine.Abi.Rotation.Covered.{call_all, call_all-Covered}
use gpu_rotation_engine.Tests.Worlds.{healthy, handle, world}

abbrev engine : SmokeEngine
engine = record { persistent_engine = true; world = world healthy; latch = false }

call_all-Covered_example : (call_all (commit_rotation_async ∷ []) engine).latch ≡ true
unfolding call_all call smoke_engine_commit_rotation_async checked on_engine
    engine_commit_rotation_async ◌>>=◌ gets guard modify memcpy_async
call_all-Covered_example = call_all-Covered (commit_rotation_async ∷ []) engine (λ e. cc) refl

-- A latch that is stuck.
abbrev stuck : World
stuck = record (world healthy) { handle = record handle { rotation_pending_fence = true } }

engine_rotation_force_recovery-Recovered_example :
    Ends
      (λ _ v.
        (v.h_init.active_epoch ≡ 0)
        × (v.rotation_pending_fence ≡ false)
        × (v.device.active_epoch ≡ 0)
        × ((settled v).active_epoch ≡ 0))
      (CallFailed stuck)
      (engine_rotation_force_recovery stuck)
engine_rotation_force_recovery-Recovered_example =
    engine_rotation_force_recovery-Recovered 0 stuck refl refl tt
