-- ===== src/Engine/Cuda.antt =====
-- The CUDA runtime as the host sees it (core/persistent_engine/engine_host.cpp).
-- The runtime is not part of the program: `runtime n` is its answer to the n-th call, and every
-- theorem holds for every `runtime`. Before each call the stream may have carried out any number of
-- the writes queued on it, oldest first (`progress`); a synchronisation that succeeds leaves none.
-- A handle that is null is refused by each function before anything else; here a handle is a value.
pub mod Run
pub mod Force
pub mod Copy
use gpu_rotation_engine.Base.{
  ℕ, suc, ◌+◌, ◌≡◌, refl, ap, Bool, true, false, Option, none, some, List, [], ◌∷◌, ◌++◌, take,
  drop, if◌then◌else◌,
}
use gpu_rotation_engine.Engine.State.{EngineState}
use gpu_rotation_engine.Engine.Device.{Write, apply_all}

-- One answer of the runtime. `not_ready` tells cudaErrorNotReady from other errors.
pub record Outcome : Type 0 where
  pub success : Bool
  pub not_ready : Bool
  pub progress : ℕ

-- The fields of `EngineHandle`; pointers and streams are true when they are not null.
pub record EngineHandle : Type 0 where
  pub d_state : Bool
  pub h_init : EngineState
  pub stream : Bool
  pub comm_stream : Bool
  pub running : Bool
  pub host_req_counter : ℕ
  pub rotation_pending_fence : Bool

-- The handle, the device memory behind `d_state`, the writes queued on `comm_stream`, and the runtime.
pub record World : Type 0 where
  pub handle : EngineHandle
  pub open handle use *
  pub device : EngineState
  pub pending : List Write
  pub runtime : ℕ → Outcome
  pub calls : ℕ

-- A function that may return false (`none`) after it has changed the state.
abbrev pub M : Type 0 → Type 0
M A = World → Option A × World

infixl 5 ◌>>=◌ ◌>>◌
unfoldable pub ◌>>=◌ : {A B : Type 0} → M A → (A → M B) → M B
◌>>=◌ m f h = elim (m h).0 [ none ↦ (none, (m h).1) | some a ↦ f a (m h).1 ]

abbrev pub ◌>>◌ : {B : Type 0} → M (Unit {0}) → M B → M B
m >> k = m >>= λ _. k

unfoldable pub pure : {A : Type 0} → A → M A
pure a h = (some a, h)

unfoldable pub guard : Bool → M (Unit {0})
guard b h = if b then (some tt, h) else (none, h)

-- A null pointer is refused.
unfoldable pub non_null : {A : Type 0} → Option A → M A
non_null p h = (p, h)

unfoldable pub gets : {A : Type 0} → (World → A) → M A
gets f w = (some (f w), w)

unfoldable pub modify : (EngineHandle → EngineHandle) → M (Unit {0})
modify f w = (some tt, record w { handle = f w.handle })

-- The stream carries out the oldest `n` writes.
unfoldable pub drain : ℕ → World → World
drain n w = record w { device = apply_all (take n w.pending) w.device; pending = drop n w.pending }

-- The next call of the runtime: what it answers, and the state in which it finds the stream.
unfoldable pub next_call : World → Outcome × World
unfolding drain
next_call w = let o = w.runtime w.calls in (o, record (drain o.progress w) { calls = suc w.calls })

-- A checked call that queues no write: `if (!check_cuda (...)) return false`.
unfoldable pub checked_call : M (Unit {0})
unfolding next_call
checked_call w = let (o, w') = next_call w in if o.success then (some tt, w') else (none, w')

-- A checked cudaMemcpyAsync or cudaMemsetAsync to the device on `comm_stream`.
unfoldable pub memcpy_async : Write → M (Unit {0})
unfolding next_call
memcpy_async x w =
    let (o, w') = next_call w in
    if o.success then (some tt, record w' { pending = w'.pending ++ (x ∷ []) }) else (none, w')

-- Several of them in a row, each checked.
unfoldable pub memcpy_all : List Write → M (Unit {0})
unfolding memcpy_async
memcpy_all [] = pure tt
memcpy_all (x ∷ xs) = memcpy_async x >> memcpy_all xs

-- What the device holds once the queued writes are carried out.
abbrev pub settled : World → EngineState
settled w = apply_all w.pending w.device

-- A checked cudaStreamSynchronize.
unfoldable pub synchronize : M (Unit {0})
unfolding next_call
synchronize w =
    let (o, w') = next_call w in
    if o.success then (some tt, record w' { device = settled w'; pending = [] }) else (none, w')
