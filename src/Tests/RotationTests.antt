-- ===== src/Tests/RotationTests.antt =====
-- Whole rotations and staging at concrete states.
use gpu_rotation_engine.Base.{◌≡◌, refl, true, false, some, none, [], ◌∷◌, replicate, arith}
use gpu_rotation_engine.Sha256.{sha256_hash, sha256_hash_host}
use gpu_rotation_engine.Sha256.Agree.{sha256_hash-eq-sha256_hash_host}
use gpu_rotation_engine.Engine.State.{keyslot_aes256}
use gpu_rotation_engine.Engine.Device.{apply_all}
use gpu_rotation_engine.Engine.Cuda.{drain}
use gpu_rotation_engine.Engine.Cuda.Run.{Ends, CallFailed}
use gpu_rotation_engine.Engine.Keys.{valid_key_len}
use gpu_rotation_engine.Engine.Rotation.Cycle.{
  rotate_staged, rotate_staged_async, rotate_staged-Rotated, rotate_staged_async-Rotated,
  rotate_staged-eq-rotate_staged_async,
}
use gpu_rotation_engine.Engine.Rotation.Rotated.{Mirrors, Rotated}
use gpu_rotation_engine.Engine.Rotation.Undo.{Undone, stage_and_undo, stage_and_undo-Undone}
use gpu_rotation_engine.Engine.Rotation.Safety.{
  prepare, prepare_typed_async, rollback, fence, stage_all, ActiveIs, stage_all-ActiveIs,
}
use gpu_rotation_engine.Tests.Worlds.{healthy, failing_at, some_key, loaded_slot, one_key, world}

aes_len_ok : valid_key_len keyslot_aes256 32 ≡ true
unfolding valid_key_len
aes_len_ok = refl

agreed : Mirrors one_key one_key
agreed = record {
  keyslots_agree = refl;
  epoch_agrees = refl;
  status_agrees = refl;
  epoch_in_range = omega arith;
}

sha256_hash-eq-sha256_hash_host_example :
    sha256_hash (replicate 60 1) ≡ sha256_hash_host (replicate 60 1)
sha256_hash-eq-sha256_hash_host_example = sha256_hash-eq-sha256_hash_host (replicate 60 1)

rotate_staged-Rotated_example :
    Ends
      (λ _. Rotated (world healthy) keyslot_aes256 some_key 32)
      (CallFailed (world healthy))
      (rotate_staged keyslot_aes256 (some some_key) 32 (world healthy))
unfolding apply_all
rotate_staged-Rotated_example =
    rotate_staged-Rotated (world healthy) keyslot_aes256 some_key 32 refl aes_len_ok (omega arith)
      agreed

rotate_staged_async-Rotated_example :
    Ends
      (λ _ v.
        Rotated (world healthy) keyslot_aes256 some_key 32 v × (v.rotation_pending_fence ≡ false))
      (CallFailed (world healthy))
      (rotate_staged_async keyslot_aes256 (some some_key) 32 (world healthy))
unfolding apply_all
rotate_staged_async-Rotated_example =
    rotate_staged_async-Rotated (world healthy) keyslot_aes256 some_key 32 refl aes_len_ok
      (omega arith) agreed

rotate_staged-eq-rotate_staged_async_example :
    (rotate_staged keyslot_aes256 (some some_key) 32 (world healthy)).1.device
    ≡ (rotate_staged_async keyslot_aes256 (some some_key) 32 (world healthy)).1.device
rotate_staged-eq-rotate_staged_async_example =
    (rotate_staged-eq-rotate_staged_async (world healthy) keyslot_aes256 some_key 32 refl aes_len_ok
      (omega arith) (λ n. refl) refl).2

-- The third call fails, in the middle of the first prepare.
stage_all-ActiveIs_example :
    ActiveIs 0 loaded_slot
      (drain 2 (
        stage_all
          (prepare_typed_async keyslot_aes256 (some some_key) 32
            ∷ rollback
            ∷ prepare none
            ∷ fence
            ∷ [])
          (world (failing_at 3)))).device
stage_all-ActiveIs_example =
    stage_all-ActiveIs 0 loaded_slot (omega arith)
      (prepare_typed_async keyslot_aes256 (some some_key) 32 ∷ rollback ∷ prepare none ∷ fence ∷ [])
      2 (world (failing_at 3)) (refl, refl) refl refl

stage_and_undo-Undone_example :
    Ends
      (λ _. Undone (world healthy))
      (CallFailed (world healthy))
      (stage_and_undo keyslot_aes256 (some some_key) 32 (world healthy))
unfolding apply_all
stage_and_undo-Undone_example =
    stage_and_undo-Undone (world healthy) keyslot_aes256 some_key 32 refl aes_len_ok (omega arith)
      agreed
