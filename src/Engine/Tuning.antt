-- ===== src/Engine/Tuning.antt =====
-- Tuning, policies and the root seed, core/persistent_engine/engine_host.cpp. Most setters change the
-- host's copy first and then push it; the root seed is pushed first.
pub mod Policy
pub mod Divergence
use gpu_rotation_engine.Base.{
  ℕ, Bool, true, false, ◌&&◌, ◌||◌, not, Option, List, [], ◌∷◌, ◌==◌, if◌then◌else◌,
}
use gpu_rotation_engine.Engine.State.{
  EngineState, EngineTuning, EngineIntegrityStatus, zero_bytes, policy_disabled, policy_manual,
  policy_automatic,
}
use gpu_rotation_engine.Engine.Device.{TuningField, Write, set_tuning_field}
use gpu_rotation_engine.Engine.Cuda.{
  EngineHandle, World, M, ◌>>=◌, ◌>>◌, guard, non_null, gets, modify, checked_call, memcpy_async,
  memcpy_all, synchronize,
}

abbrev pub with_tuning : (EngineTuning → EngineTuning) → EngineState → EngineState
with_tuning f st = record st { tuning = f st.tuning }

-- Change the host's copy.
abbrev pub tune_host : (EngineTuning → EngineTuning) → M (Unit {0})
tune_host f = modify (λ h. record h { h_init = with_tuning f h.h_init })

unfoldable pub engine_set_tuning : EngineTuning → M (Unit {0})
engine_set_tuning tuning = do
  d_state ← gets (λ w. w.d_state)
  guard d_state
  tune_host (λ _. tuning)
  memcpy_async (Write.tuning (TuningField.whole tuning))
  synchronize

-- EngineProfile: 0 is latency first, 2 throughput, any other value balanced.
unfoldable pub profile_tuning : ℕ → EngineTuning → EngineTuning
profile_tuning profile t =
    if profile == 0
    then record t {
      microbatch_min = 1;
      microbatch_max = 16;
      depth_low_water = 2;
      depth_high_water = 16;
    }
    else if profile == 2
    then record t {
      microbatch_min = 4;
      microbatch_max = 64;
      depth_low_water = 8;
      depth_high_water = 48;
    }
    else record t {
      microbatch_min = 1;
      microbatch_max = 128;
      depth_low_water = 4;
      depth_high_water = 96;
    }

unfoldable pub engine_set_profile : ℕ → M (Unit {0})
engine_set_profile profile = do
  d_state ← gets (λ w. w.d_state)
  guard d_state
  tuning ← gets (λ w. w.h_init.tuning)
  engine_set_tuning (profile_tuning profile tuning)

-- The setters of one field: the host's copy, one copy to the device, a synchronisation.
unfoldable pub set_one : TuningField → M (Unit {0})
unfolding set_tuning_field
set_one f = do
  d_state ← gets (λ w. w.d_state)
  guard d_state
  tune_host (set_tuning_field f)
  memcpy_async (Write.tuning f)
  synchronize

unfoldable pub engine_set_nonce_mode : ℕ → M (Unit {0})
engine_set_nonce_mode mode = set_one (TuningField.nonce_mode mode)

unfoldable pub engine_set_low_s_enabled : Bool → M (Unit {0})
engine_set_low_s_enabled enabled =
    let value : ℕ = if enabled then 1 else 0 in set_one (TuningField.low_s_enabled value)

unfoldable pub engine_set_self_healing_enabled : Bool → M (Unit {0})
engine_set_self_healing_enabled enabled =
    let value : ℕ = if enabled then 1 else 0 in set_one (TuningField.self_healing_enabled value)

unfoldable pub engine_reseed_rng : Option (List ℕ) → M (Unit {0})
engine_reseed_rng seed = do
  d_state ← gets (λ w. w.d_state)
  guard d_state
  bytes ← non_null seed
  set_one (TuningField.rng_seed bytes)

abbrev pub policy_fields : ℕ → ℕ → ℕ → EngineTuning → EngineTuning
policy_fields policy interval idle_only t = record t {
  rotation_policy = policy;
  auto_rotate_interval_ops = interval;
  auto_rotate_idle_only = idle_only;
}

abbrev pub policy_writes : ℕ → ℕ → ℕ → List Write
policy_writes policy interval idle_only =
    Write.tuning (TuningField.rotation_policy policy)
    ∷ Write.tuning (TuningField.auto_rotate_interval_ops interval)
    ∷ Write.tuning (TuningField.auto_rotate_idle_only idle_only)
    ∷ []

-- Switching to DISABLED resets the epoch, on the host at once and on the device by a copy.
unfoldable pub reset_epoch : M (Unit {0})
reset_epoch = do
  modify (λ h. record h { h_init = record (h.h_init) { active_epoch = 0 } })
  memcpy_async (Write.active_epoch 0)

unfoldable pub engine_set_rotation_policy : ℕ → ℕ → ℕ → M (Unit {0})
engine_set_rotation_policy policy interval idle_only = do
  d_state ← gets (λ w. w.d_state)
  guard d_state
  guard (policy == policy_disabled || policy == policy_manual || policy == policy_automatic)
  tune_host (policy_fields policy interval idle_only)
  if policy == policy_disabled then reset_epoch else modify (λ h. h)
  memcpy_all (policy_writes policy interval idle_only)
  synchronize

engine_get_rotation_policy : World → ℕ
engine_get_rotation_policy w = w.h_init.tuning.rotation_policy

abbrev pub integrity_fields : ℕ → ℕ → ℕ → ℕ → EngineTuning → EngineTuning
integrity_fields mode interval idle_only repairs t = record t {
  integrity_mode = mode;
  integrity_scan_interval_ops = interval;
  integrity_scan_idle_only = idle_only;
  integrity_max_repair_attempts = repairs;
}

abbrev pub integrity_writes : ℕ → ℕ → ℕ → ℕ → List Write
integrity_writes mode interval idle_only repairs =
    Write.tuning (TuningField.integrity_mode mode)
    ∷ Write.tuning (TuningField.integrity_scan_interval_ops interval)
    ∷ Write.tuning (TuningField.integrity_scan_idle_only idle_only)
    ∷ Write.tuning (TuningField.integrity_max_repair_attempts repairs)
    ∷ []

-- IntegrityMode is 0, 1 or 2.
unfoldable pub engine_set_integrity_tuning : ℕ → ℕ → ℕ → ℕ → M (Unit {0})
engine_set_integrity_tuning mode interval idle_only repairs = do
  d_state ← gets (λ w. w.d_state)
  guard d_state
  guard (mode == 0 || mode == 1 || mode == 2)
  tune_host (integrity_fields mode interval idle_only repairs)
  memcpy_all (integrity_writes mode interval idle_only repairs)
  synchronize

unfoldable pub engine_get_integrity_status : M EngineIntegrityStatus
engine_get_integrity_status = do
  d_state ← gets (λ w. w.d_state)
  guard d_state
  checked_call
  synchronize
  gets (λ w. w.device.integrity_status)

engine_get_integrity_mode : World → ℕ
engine_get_integrity_mode w = w.h_init.tuning.integrity_mode

abbrev pub with_root_seed : List ℕ → ℕ → EngineState → EngineState
with_root_seed seed initialized st = record st {
  root_seed = seed;
  root_seed_initialized = initialized;
}

-- Pushed first; the host's copy follows a synchronisation that succeeded.
unfoldable pub push_root_seed : List ℕ → ℕ → M (Unit {0})
push_root_seed seed initialized = do
  memcpy_all (Write.root_seed seed ∷ Write.root_seed_initialized initialized ∷ [])
  synchronize
  modify (λ h. record h { h_init = with_root_seed seed initialized h.h_init })

unfoldable pub engine_set_root_seed : Option (List ℕ) → M (Unit {0})
engine_set_root_seed seed = do
  d_state ← gets (λ w. w.d_state)
  guard d_state
  bytes ← non_null seed
  push_root_seed bytes 1

unfoldable pub engine_clear_root_seed : M (Unit {0})
engine_clear_root_seed = do
  d_state ← gets (λ w. w.d_state)
  guard d_state
  push_root_seed zero_bytes 0

engine_is_root_seed_set : World → Bool
engine_is_root_seed_set w = not (w.h_init.root_seed_initialized == 0)

engine_is_self_healing_enabled : World → Bool
engine_is_self_healing_enabled w = not (w.h_init.tuning.self_healing_enabled == 0)

-- Errors are reported as a count of 0.
unfoldable pub engine_get_total_sign_ops : M ℕ
engine_get_total_sign_ops = do
  d_state ← gets (λ w. w.d_state)
  guard d_state
  checked_call
  synchronize
  gets (λ w. w.device.total_sign_ops)
