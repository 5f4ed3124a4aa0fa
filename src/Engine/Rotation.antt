-- ===== src/Engine/Rotation.antt =====
-- Key rotation, core/persistent_engine/engine_host.cpp: `engine_rotate_key`, the staged steps
-- (prepare, commit, rollback), their asynchronous forms with the fence, and recovery. Each function
-- holds `rotation_mutex` throughout or runs alone, so it is one step here.
pub mod Spec
pub mod Prepare
pub mod Safety
pub mod Rotated
pub mod Cycle
pub mod Direct
pub mod Undo
pub mod InnerLatch
pub mod LatchCalls
pub mod Recovery
use gpu_rotation_engine.Base.{
  ℕ, suc, Bool, true, false, not, Option, none, some, List, [], ◌∷◌, Two, put, ◌==◌, other_slot,
  if◌then◌else◌,
}
use gpu_rotation_engine.Engine.State.{
  Keyslot, zero_keyslot, EngineState, keyslot_p256, policy_disabled,
}
use gpu_rotation_engine.Engine.Device.{SlotField, Write}
use gpu_rotation_engine.Engine.Cuda.{
  EngineHandle, World, M, ◌>>=◌, ◌>>◌, pure, guard, non_null, gets, modify, drain, next_call,
  checked_call, memcpy_async, memcpy_all, synchronize,
}
use gpu_rotation_engine.Engine.Keys.{
  compute_integrity_tag_host, next_version, key_writes, store_key, engine_set_key_typed_impl,
  engine_set_key_typed,
}

-- The inactive slot, by the host's copy of the epoch.
abbrev pub next_slot : EngineHandle → ℕ
next_slot h = other_slot h.h_init.active_epoch

-- RotationPolicy::DISABLED: write slot 0, no epoch flip.
unfoldable pub rotate_in_place : List ℕ → M (Unit {0})
rotate_in_place key = do
  version ← gets (λ w. next_version w.handle 0)
  let tag = compute_integrity_tag_host 0 version key
  memcpy_all (key_writes 0 key tag version)
  synchronize
  modify (λ h. record h { h_init = store_key 0 key tag version h.h_init })

-- Otherwise: write the inactive slot, then flip the epoch.
unfoldable pub rotate_and_flip : List ℕ → M (Unit {0})
rotate_and_flip key = do
  next_epoch ← gets (λ w. next_slot w.handle)
  version ← gets (λ w. next_version w.handle next_epoch)
  let tag = compute_integrity_tag_host next_epoch version key
  memcpy_all (key_writes next_epoch key tag version)
  synchronize
  memcpy_async (Write.active_epoch next_epoch)
  synchronize
  modify (λ h. record h {
    h_init = record (store_key next_epoch key tag version h.h_init) { active_epoch = next_epoch };
  })

unfoldable pub engine_rotate_key : Option (List ℕ) → M (Unit {0})
engine_rotate_key private_key = do
  d_state ← gets (λ w. w.d_state)
  guard d_state
  key ← non_null private_key
  policy ← gets (λ w. w.h_init.tuning.rotation_policy)
  if policy == policy_disabled then rotate_in_place key else rotate_and_flip key

-- Two copies to the host and a synchronisation; what they read is the device's state then.
unfoldable pub engine_rotation_probe : M (Two Keyslot × ℕ)
engine_rotation_probe = do
  d_state ← gets (λ w. w.d_state)
  guard d_state
  checked_call
  checked_call
  synchronize
  gets (λ w. (w.device.keyslots, w.device.active_epoch))

-- Asks the device for the epoch.
unfoldable pub engine_prepare_next_key : Option (List ℕ) → M (Unit {0})
engine_prepare_next_key private_key = do
  d_state ← gets (λ w. w.d_state)
  guard d_state
  key ← non_null private_key
  probe ← engine_rotation_probe
  engine_set_key_typed (other_slot probe.1) keyslot_p256 (some key) 32

unfoldable pub engine_prepare_next_key_typed : ℕ → Option (List ℕ) → ℕ → M (Unit {0})
engine_prepare_next_key_typed key_type key_data key_len = do
  d_state ← gets (λ w. w.d_state)
  guard d_state
  bytes ← non_null key_data
  guard (not (key_len == 0))
  slot ← gets (λ w. next_slot w.handle)
  engine_set_key_typed slot key_type (some bytes) key_len

abbrev pub set_fence_latch : Bool → M (Unit {0})
set_fence_latch b = modify (λ h. record h { rotation_pending_fence = b })

unfoldable pub engine_prepare_next_key_typed_async : ℕ → Option (List ℕ) → ℕ → M (Unit {0})
engine_prepare_next_key_typed_async key_type key_data key_len = do
  d_state ← gets (λ w. w.d_state)
  guard d_state
  bytes ← non_null key_data
  guard (not (key_len == 0))
  slot ← gets (λ w. next_slot w.handle)
  engine_set_key_typed_impl slot key_type (some bytes) key_len
  set_fence_latch true

unfoldable pub engine_prepare_next_key_async : Option (List ℕ) → M (Unit {0})
engine_prepare_next_key_async private_key = do
  d_state ← gets (λ w. w.d_state)
  guard d_state
  key ← non_null private_key
  slot ← gets (λ w. next_slot w.handle)
  engine_set_key_typed_impl slot keyslot_p256 (some key) 32
  set_fence_latch true

-- The host's epoch is flipped before the synchronisation, and stays so if that fails.
unfoldable pub engine_commit_rotation : M (Unit {0})
engine_commit_rotation = do
  d_state ← gets (λ w. w.d_state)
  guard d_state
  next_epoch ← gets (λ w. next_slot w.handle)
  memcpy_async (Write.active_epoch next_epoch)
  modify (λ h. record h { h_init = record (h.h_init) { active_epoch = next_epoch } })
  synchronize

unfoldable pub engine_commit_rotation_async : M (Unit {0})
engine_commit_rotation_async = do
  d_state ← gets (λ w. w.d_state)
  guard d_state
  next_epoch ← gets (λ w. next_slot w.handle)
  memcpy_async (Write.active_epoch next_epoch)
  modify (λ h. record h { h_init = record (h.h_init) { active_epoch = next_epoch } })
  set_fence_latch true

unfoldable pub engine_rollback_rotation : M (Unit {0})
engine_rollback_rotation = do
  d_state ← gets (λ w. w.d_state)
  guard d_state
  slot ← gets (λ w. next_slot w.handle)
  memcpy_async (Write.keyslot slot SlotField.clear)
  synchronize
  modify (λ h. record h {
    h_init = record (h.h_init) { keyslots = put h.h_init.keyslots slot zero_keyslot };
  })

unfoldable pub engine_rotation_fence : M (Unit {0})
engine_rotation_fence = do synchronize; set_fence_latch false

unfoldable pub engine_rotation_pending_fence : World → Bool
engine_rotation_pending_fence w = w.rotation_pending_fence

-- cudaStreamDestroy, unchecked. It returns at once, and what was queued on the stream is still carried
-- out, so the queue stays. It is the queue of the new stream too: a synchronisation of that one here
-- waits for the old stream's work as well.
unfoldable pub destroy_comm_stream : M (Unit {0})
unfolding next_call
destroy_comm_stream w =
    if w.comm_stream
    then (some tt, record ((next_call w).1) { handle = record (w.handle) { comm_stream = false } })
    else (some tt, w)

unfoldable pub engine_rotation_force_recovery : M (Unit {0})
unfolding destroy_comm_stream
engine_rotation_force_recovery = do
  d_state ← gets (λ w. w.d_state)
  guard d_state
  destroy_comm_stream
  checked_call
  modify (λ h. record h { comm_stream = true })
  checked_call
  device_epoch ← gets (λ w. w.device.active_epoch)
  modify (λ h. record h { h_init = record (h.h_init) { active_epoch = device_epoch } })
  set_fence_latch false
