-- ===== src/Engine/Lifecycle.antt =====
-- Start and shutdown of the engine, core/persistent_engine/engine_host.cpp: `engine_start` and
-- `engine_shutdown`. The whole state is copied to the device before the kernel is launched, which is
-- one call of the runtime; shutting down waits for the kernel by at most 1000 queries.
use gpu_rotation_engine.Base.{ℕ, zero, suc, true, false, none, some, if◌then◌else◌}
use gpu_rotation_engine.Engine.State.{EngineState}
use gpu_rotation_engine.Engine.Device.{Write}
use gpu_rotation_engine.Engine.Cuda.{
  M, ◌>>=◌, ◌>>◌, pure, guard, gets, modify, next_call, checked_call, memcpy_async, synchronize,
}

-- A checked cudaMemcpy of a whole `EngineState` to the device. It is not ordered with what is queued on
-- `comm_stream`, which stays queued.
unfoldable pub memcpy_state : EngineState → M (Unit {0})
unfolding next_call
memcpy_state st w =
    let (o, w') = next_call w in
    if o.success then (some tt, record w' { device = st }) else (none, w')

-- The copy has the shutdown flag down; the host's own flag is put back whether or not it succeeds.
unfoldable pub engine_start : M (Unit {0})
engine_start = do
  d_state ← gets (λ w. w.d_state)
  guard d_state
  stream ← gets (λ w. w.stream)
  guard stream
  running ← gets (λ w. w.running)
  if running then pure tt else launch
  where
    launch : M (Unit {0})
    launch = do
      h_init ← gets (λ w. w.h_init)
      memcpy_state (record h_init { shutdown_flag = 0 })
      checked_call
      modify (λ h. record h { running = true })

-- `n` more queries of the kernel's stream: success ends the loop, an error other than "not ready" too.
unfoldable pub await_exit : ℕ → M (Unit {0})
unfolding next_call
await_exit zero w = (none, w)
await_exit (suc n) w =
    let (o, w') = next_call w in
    let rest = await_exit n w' in
    if o.success
    then (some tt, record w' { handle = record (w'.handle) { running = false } })
    else if o.not_ready
    then rest
    else (none, w')

unfoldable pub engine_shutdown : M (Unit {0})
engine_shutdown = do running ← gets (λ w. w.running); if running then stop else pure tt
  where
    stop : M (Unit {0})
    stop = do memcpy_async (Write.shutdown_flag 1); synchronize; await_exit 1000
