-- ===== src/Tests/AbiTests.antt =====
-- The probe, the rotation calls of the C ABI and the rotation policy at concrete states.
use gpu_rotation_engine.Base.{Copied, ◌≡◌, refl, true, false, some, [], replicate, arith, at, inl}
use gpu_rotation_engine.Engine.State.{
  keyslot_p256, keyslot_aes256, keyslot_hmac, zero_keyslot, policy_disabled,
}
use gpu_rotation_engine.Engine.Device.{apply_all}
use gpu_rotation_engine.Engine.Cuda.{World, settled}
use gpu_rotation_engine.Engine.Cuda.Run.{Ends, CallFailed}
use gpu_rotation_engine.Engine.Keys.{valid_key_len, padded_key}
use gpu_rotation_engine.Engine.Rotation.Cycle.{rotate_staged}
use gpu_rotation_engine.Engine.Rotation.Rotated.{Mirrors}
use gpu_rotation_engine.Engine.Tuning.{engine_set_rotation_policy}
use gpu_rotation_engine.Engine.Tuning.Policy.{with_policy, engine_set_rotation_policy-Set}
use gpu_rotation_engine.Engine.Tuning.Divergence.{switch_then_stage, stage-overwrites_active}
use gpu_rotation_engine.Abi.Probe.{
  rotation_probe_result, scalar_in_range, probe_is_zero_32, probe_below,
}
use gpu_rotation_engine.Abi.Health.{ActiveHealthy}
use gpu_rotation_engine.Abi.ProbeRun.{rotate_staged-ActiveHealthy, load_both, load_both-unhealthy}
use gpu_rotation_engine.Abi.Rotation.{
  SmokeEngine, error_device_failure, prepare_next_key, call, checked, smoke_engine_prepare_next_key,
  smoke_engine_prepare_next_key_typed_async, smoke_engine_prepare_next_key_async,
}
use gpu_rotation_engine.Abi.Rotation.Latch.{
  call-Refused, smoke_engine_prepare_next_key_typed_async-latched,
}
use gpu_rotation_engine.Abi.Rotation.Unlatched.{smoke_engine_prepare_next_key_async-unlatched}
use gpu_rotation_engine.Tests.Worlds.{healthy, failing_at, some_key, one_key, handle, world}

p256_len_ok : valid_key_len keyslot_p256 32 ≡ true
unfolding valid_key_len
p256_len_ok = refl

hmac_len_ok : valid_key_len keyslot_hmac 20 ≡ true
unfolding valid_key_len
hmac_len_ok = refl

scalar_ok : scalar_in_range (padded_key some_key 32) ≡ true
unfolding scalar_in_range probe_is_zero_32 probe_below padded_key
scalar_ok = refl

matching : Mirrors one_key one_key
matching = record {
  keyslots_agree = refl;
  epoch_agrees = refl;
  status_agrees = refl;
  epoch_in_range = omega arith;
}

rotate_staged-ActiveHealthy_example :
    Ends
      (λ _ v.
        ActiveHealthy (rotation_probe_result (λ n. 0) v.device.keyslots v.device.active_epoch))
      (CallFailed (world healthy))
      (rotate_staged keyslot_p256 (some some_key) 32 (world healthy))
unfolding apply_all
rotate_staged-ActiveHealthy_example =
    rotate_staged-ActiveHealthy (λ n. 0) (world healthy) keyslot_p256 some_key 32 refl p256_len_ok
      (omega arith) matching (omega arith) (λ _. scalar_ok) (omega arith)

-- The state of a fresh engine, both slots empty.
abbrev fresh : World
fresh = record (world healthy) {
  handle = record handle {
    h_init = record one_key { keyslots = record { zeroth = zero_keyslot; first = zero_keyslot } };
  };
}

load_both-unhealthy_example :
    Ends
      (λ _ v.
        (rotation_probe_result (λ n. 0) v.device.keyslots v.device.active_epoch).overall_healthy
        ≡ 0)
      (CallFailed fresh)
      (load_both keyslot_p256 (some some_key) 32 keyslot_hmac (some (replicate 20 3)) 20 fresh)
load_both-unhealthy_example =
    load_both-unhealthy (λ n. 0) fresh keyslot_p256 some_key 32 keyslot_hmac (replicate 20 3) 20
      refl refl p256_len_ok hmac_len_ok (omega arith) (omega arith)

abbrev engine : World → SmokeEngine
engine w = record { persistent_engine = true; world = w; latch = false }

call-Refused_example :
    (call (prepare_next_key (some some_key) 31) (engine (world healthy))).1 ≡ engine (world healthy)
unfolding call smoke_engine_prepare_next_key checked
call-Refused_example =
    call-Refused (prepare_next_key (some some_key) 31) (engine (world healthy)) (inl refl)

-- The fourth copy fails.
smoke_engine_prepare_next_key_typed_async-latched_example :
    (smoke_engine_prepare_next_key_typed_async keyslot_aes256
      (some some_key)
      32
      (engine (world (failing_at 3)))).1.latch
    ≡ true
smoke_engine_prepare_next_key_typed_async-latched_example =
    smoke_engine_prepare_next_key_typed_async-latched keyslot_aes256 (some some_key) 32
      (engine (world (failing_at 3))) refl refl

smoke_engine_prepare_next_key_async-unlatched_example :
    (smoke_engine_prepare_next_key_async (some some_key) 32 (engine (world (failing_at 1)))).0
    ≡ error_device_failure
smoke_engine_prepare_next_key_async-unlatched_example =
    (smoke_engine_prepare_next_key_async-unlatched some_key (engine (world (failing_at 1))) refl
      refl refl refl).0

engine_set_rotation_policy-Set_example :
    Ends
      (λ _ v.
        (v.device ≡ with_policy policy_disabled 7 1 (settled (world healthy)))
        × (v.h_init ≡ with_policy policy_disabled 7 1 one_key)
        × (v.device.keyslots ≡ (settled (world healthy)).keyslots)
        × (v.pending ≡ []))
      (CallFailed (world healthy))
      (engine_set_rotation_policy policy_disabled 7 1 (world healthy))
engine_set_rotation_policy-Set_example =
    engine_set_rotation_policy-Set policy_disabled 7 1 (world healthy) refl refl

-- Slot 1 is active on both sides.
abbrev second_active : World
second_active = record (world (failing_at 0)) {
  handle = record handle { h_init = record one_key { active_epoch = 1 } };
  device = record one_key { active_epoch = 1 };
}

stage-overwrites_active_example :
    Copied 32 some_key
      (at
        (switch_then_stage 0 1 keyslot_p256 some_key 32 second_active).1.device.keyslots
        1).private_d
unfolding apply_all
stage-overwrites_active_example =
    (stage-overwrites_active 0 1 keyslot_p256 some_key 32 second_active refl p256_len_ok
      (omega arith) refl refl (λ n h. ground (arith, h))).2
