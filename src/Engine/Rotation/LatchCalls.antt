-- ===== src/Engine/Rotation/LatchCalls.antt =====
-- The engine's rotation calls and the latch of the handle: only the asynchronous calls close it, and only
-- when they succeed; the fence and recovery open it, and only when they succeed.
use gpu_rotation_engine.Base.{ℕ, refl, Bool, false, Option, List, ◌==◌}
use gpu_rotation_engine.Engine.Cuda.{modify, synchronize}
use gpu_rotation_engine.Engine.Keys.{engine_set_key_typed_impl, engine_set_key_typed}
use gpu_rotation_engine.Engine.Rotation.{
  rotate_in_place, rotate_and_flip, engine_rotate_key, engine_rotation_probe,
  engine_prepare_next_key, engine_prepare_next_key_typed, engine_prepare_next_key_async,
  engine_commit_rotation, engine_commit_rotation_async, engine_rollback_rotation,
  engine_rotation_fence, engine_rotation_force_recovery, set_fence_latch,
}
use gpu_rotation_engine.Engine.Rotation.InnerLatch.{
  Keeps, FailsKeeping, Opens, Keeps-bind, FailsKeeping-bind, Opens-bind, Keeps-if, Keeps-guard,
  Keeps-gets, Keeps-non_null, Keeps-modify, Keeps-checked_call, Keeps-memcpy_async,
  Keeps-synchronize, Keeps-memcpy_all, Keeps-destroy,
}

Keeps-impl :
    (slot key_type : ℕ) (key : Option (List ℕ)) (key_len : ℕ)
    → Keeps (engine_set_key_typed_impl slot key_type key key_len)
unfolding engine_set_key_typed_impl
Keeps-impl slot key_type key key_len = Keeps-bind _ _ (Keeps-gets _) (λ on.
    Keeps-bind _ _ (Keeps-guard on) (λ _. Keeps-bind _ _ (Keeps-non_null key) (λ _.
      Keeps-bind _ _ (Keeps-guard _) (λ _. Keeps-bind _ _ (Keeps-guard _) (λ _.
        Keeps-bind _ _ (Keeps-gets _)
          (λ _. Keeps-bind _ _ (Keeps-memcpy_all _) (λ _. Keeps-modify _ (λ h. refl))))))))

Keeps-set_key :
    (slot key_type : ℕ) (key : Option (List ℕ)) (key_len : ℕ)
    → Keeps (engine_set_key_typed slot key_type key key_len)
unfolding engine_set_key_typed
Keeps-set_key slot key_type key key_len =
    Keeps-bind _ _ (Keeps-impl slot key_type key key_len) (λ _. Keeps-synchronize)

Keeps-probe : Keeps engine_rotation_probe
unfolding engine_rotation_probe
Keeps-probe = Keeps-bind _ _ (Keeps-gets _) (λ on. Keeps-bind _ _ (Keeps-guard on) (λ _.
    Keeps-bind _ _ Keeps-checked_call (λ _.
      Keeps-bind _ _ Keeps-checked_call
        (λ _. Keeps-bind _ _ Keeps-synchronize (λ _. Keeps-gets _)))))

pub Keeps-prepare : (key : Option (List ℕ)) → Keeps (engine_prepare_next_key key)
unfolding engine_prepare_next_key
Keeps-prepare key = Keeps-bind _ _ (Keeps-gets _) (λ on. Keeps-bind _ _ (Keeps-guard on) (λ _.
    Keeps-bind _ _ (Keeps-non_null key)
      (λ _. Keeps-bind _ _ Keeps-probe (λ _. Keeps-set_key _ _ _ _))))

pub Keeps-prepare_typed :
    (key_type : ℕ) (key : Option (List ℕ)) (key_len : ℕ)
    → Keeps (engine_prepare_next_key_typed key_type key key_len)
unfolding engine_prepare_next_key_typed
Keeps-prepare_typed key_type key key_len = Keeps-bind _ _ (Keeps-gets _) (λ on.
    Keeps-bind _ _ (Keeps-guard on) (λ _. Keeps-bind _ _ (Keeps-non_null key) (λ _.
      Keeps-bind _ _ (Keeps-guard _)
        (λ _. Keeps-bind _ _ (Keeps-gets _) (λ _. Keeps-set_key _ _ _ _)))))

pub Keeps-rotate_key : (key : Option (List ℕ)) → Keeps (engine_rotate_key key)
unfolding engine_rotate_key rotate_in_place rotate_and_flip
Keeps-rotate_key key = Keeps-bind _ _ (Keeps-gets _) (λ on. Keeps-bind _ _ (Keeps-guard on) (λ _.
    Keeps-bind _ _ (Keeps-non_null key) (λ bytes. Keeps-bind _ _ (Keeps-gets _) (λ policy.
      Keeps-if (policy == 0) (rotate_in_place bytes) (rotate_and_flip bytes)
        (Keeps-bind _ _ (Keeps-gets _) (λ _.
          Keeps-bind _ _ (Keeps-memcpy_all _)
            (λ _. Keeps-bind _ _ Keeps-synchronize (λ _. Keeps-modify _ (λ h. refl)))))
        (Keeps-bind _ _ (Keeps-gets _) (λ _. Keeps-bind _ _ (Keeps-gets _) (λ _.
          Keeps-bind _ _ (Keeps-memcpy_all _) (λ _. Keeps-bind _ _ Keeps-synchronize (λ _.
            Keeps-bind _ _ (Keeps-memcpy_async _)
              (λ _. Keeps-bind _ _ Keeps-synchronize (λ _. Keeps-modify _ (λ h. refl))))))))))))

pub Keeps-commit : Keeps engine_commit_rotation
unfolding engine_commit_rotation
Keeps-commit = Keeps-bind _ _ (Keeps-gets _) (λ on. Keeps-bind _ _ (Keeps-guard on) (λ _.
    Keeps-bind _ _ (Keeps-gets _) (λ _.
      Keeps-bind _ _ (Keeps-memcpy_async _)
        (λ _. Keeps-bind _ _ (Keeps-modify _ (λ h. refl)) (λ _. Keeps-synchronize)))))

pub Keeps-rollback : Keeps engine_rollback_rotation
unfolding engine_rollback_rotation
Keeps-rollback = Keeps-bind _ _ (Keeps-gets _) (λ on. Keeps-bind _ _ (Keeps-guard on) (λ _.
    Keeps-bind _ _ (Keeps-gets _) (λ _.
      Keeps-bind _ _ (Keeps-memcpy_async _)
        (λ _. Keeps-bind _ _ Keeps-synchronize (λ _. Keeps-modify _ (λ h. refl))))))

-- Setting the latch does not fail.
latch_returns : (b : Bool) → FailsKeeping (set_fence_latch b)
unfolding modify
latch_returns b w e = cc

latch-Opens : Opens (set_fence_latch false)
unfolding modify
latch-Opens w a e = refl

pub prepare_async-FailsKeeping :
    (key : Option (List ℕ)) → FailsKeeping (engine_prepare_next_key_async key)
unfolding engine_prepare_next_key_async
prepare_async-FailsKeeping key = FailsKeeping-bind _ _ (Keeps-gets _) (λ on.
    FailsKeeping-bind _ _ (Keeps-guard on) (λ _. FailsKeeping-bind _ _ (Keeps-non_null key) (λ _.
      FailsKeeping-bind _ _ (Keeps-gets _)
        (λ _. FailsKeeping-bind _ _ (Keeps-impl _ _ _ _) (λ _. latch_returns _)))))

pub commit_async-FailsKeeping : FailsKeeping engine_commit_rotation_async
unfolding engine_commit_rotation_async
commit_async-FailsKeeping = FailsKeeping-bind _ _ (Keeps-gets _) (λ on.
    FailsKeeping-bind _ _ (Keeps-guard on) (λ _. FailsKeeping-bind _ _ (Keeps-gets _) (λ _.
      FailsKeeping-bind _ _ (Keeps-memcpy_async _)
        (λ _. FailsKeeping-bind _ _ (Keeps-modify _ (λ h. refl)) (λ _. latch_returns _)))))

pub fence-FailsKeeping : FailsKeeping engine_rotation_fence
unfolding engine_rotation_fence
fence-FailsKeeping = FailsKeeping-bind _ _ Keeps-synchronize (λ _. latch_returns _)

pub fence-Opens : Opens engine_rotation_fence
unfolding engine_rotation_fence
fence-Opens = Opens-bind synchronize _ (λ _. latch-Opens)

pub recovery-FailsKeeping : FailsKeeping engine_rotation_force_recovery
unfolding engine_rotation_force_recovery
recovery-FailsKeeping = FailsKeeping-bind _ _ (Keeps-gets _) (λ on.
    FailsKeeping-bind _ _ (Keeps-guard on) (λ _. FailsKeeping-bind _ _ Keeps-destroy (λ _.
      FailsKeeping-bind _ _ Keeps-checked_call (λ _.
        FailsKeeping-bind _ _ (Keeps-modify _ (λ h. refl)) (λ _.
          FailsKeeping-bind _ _ Keeps-checked_call (λ _.
            FailsKeeping-bind _ _ (Keeps-gets _)
              (λ _. FailsKeeping-bind _ _ (Keeps-modify _ (λ h. refl)) (λ _. latch_returns _))))))))

pub recovery-Opens : Opens engine_rotation_force_recovery
unfolding engine_rotation_force_recovery
recovery-Opens = Opens-bind _ _ (λ _. Opens-bind _ _ (λ _. Opens-bind _ _ (λ _. Opens-bind _ _ (λ _.
    Opens-bind _ _
      (λ _. Opens-bind _ _ (λ _. Opens-bind _ _ (λ _. Opens-bind _ _ (λ _. latch-Opens))))))))
