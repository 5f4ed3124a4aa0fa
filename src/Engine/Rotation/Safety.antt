-- ===== src/Engine/Rotation/Safety.antt =====
-- Staging a key never disturbs the active one: whatever the runtime answers, and however far the
-- stream has got, the active slot and the epoch on the device stay as they are.
use gpu_rotation_engine.Base.{
  ℕ, ◌<◌, ◌≡◌, ◌≢◌, ◌∙◌, not, some, Option, List, [], ◌∷◌, arith, ◌==◌, ltb, Two, at, at-put_ne,
  other_slot, other_slot_lem, All, All-append, inl, inr, Bool-cases,
}
use gpu_rotation_engine.Engine.State.{
  Keyslot, EngineState, keyslot_p256, keyslot_aes256, engine_max_key_slots,
}
use gpu_rotation_engine.Engine.Device.{SlotField, StatusField, Write, apply}
use gpu_rotation_engine.Engine.Cuda.{
  World, EngineHandle, M, gets, drain, checked_call, memcpy_async, memcpy_all, synchronize,
}
use gpu_rotation_engine.Engine.Cuda.Run.{Ends, returned, Ends-bind, Ends-gets}
use gpu_rotation_engine.Engine.Cuda.Force.{
  Stable, InForce, drain-InForce, checked_call-InForce, memcpy_async-InForce, memcpy_all-InForce,
  synchronize-InForce, modify-InForce, Ends-always, Ends-both, Ends-test, Ends-pointer,
}
use gpu_rotation_engine.Engine.Keys.{
  typed_key_writes, round_key_writes, valid_key_len, store_typed_key, engine_set_key_typed_impl,
  engine_set_key_typed,
}
use gpu_rotation_engine.Engine.Rotation.{
  next_slot, engine_rotation_probe, engine_prepare_next_key, engine_prepare_next_key_typed,
  engine_prepare_next_key_typed_async, engine_prepare_next_key_async, engine_rollback_rotation,
  engine_rotation_fence,
}

-- The calls that stage a rotation without committing it.
pub data Staging : Type 0 where
  prepare : Option (List ℕ) → Staging
  prepare_typed : ℕ → Option (List ℕ) → ℕ → Staging
  prepare_async : Option (List ℕ) → Staging
  prepare_typed_async : ℕ → Option (List ℕ) → ℕ → Staging
  rollback : Staging
  fence : Staging

unfoldable pub stage : Staging → M (Unit {0})
stage (prepare key) = engine_prepare_next_key key
stage (prepare_typed key_type key key_len) = engine_prepare_next_key_typed key_type key key_len
stage (prepare_async key) = engine_prepare_next_key_async key
stage (prepare_typed_async key_type key key_len) =
    engine_prepare_next_key_typed_async key_type key key_len
stage rollback = engine_rollback_rotation
stage fence = engine_rotation_fence

-- Each call is made whether or not those before it succeeded.
unfoldable pub stage_all : List Staging → World → World
stage_all [] w = w
stage_all (s ∷ ss) w = stage_all ss (stage s w).1

-- The epoch on the device, and what its slot holds.
abbrev pub ActiveIs : ℕ → Keyslot → EngineState → Type 0
ActiveIs e active d = (at d.keyslots e ≡ active) × (d.active_epoch ≡ e)

abbrev pub HostEpochIs : ℕ → EngineHandle → Type 0
HostEpochIs e h = h.h_init.active_epoch ≡ e

module _ (e : ℕ) (active : Keyslot) (e_ok : e < 2) where
  abbrev Undisturbed : World → Type 0
  Undisturbed = InForce (ActiveIs e active) (HostEpochIs e)

  slot_write-Stable :
      (slot : ℕ) (f : SlotField)
      → slot < 2
      → slot ≢ e
      → Stable (ActiveIs e active) (Write.keyslot slot f)
  unfolding apply
  slot_write-Stable slot f s_ok ne d (k, a) = (at-put_ne d.keyslots slot e _ s_ok e_ok ne ∙ k, a)

  status_write-Stable :
      (slot : ℕ) (f : StatusField) → Stable (ActiveIs e active) (Write.status slot f)
  unfolding apply
  status_write-Stable slot f d p = p

  typed_key_writes-Stable :
      (slot key_type key_len : ℕ) (key tag : List ℕ) (version : ℕ)
      → slot < 2
      → slot ≢ e
      → All (Stable (ActiveIs e active)) (typed_key_writes slot key_type key_len key tag version)
  unfolding typed_key_writes
  typed_key_writes-Stable slot key_type key_len key tag version s_ok ne = (
    field _,
    (
      field _,
      (
        field _,
        (
          field _,
          All-append (Stable (ActiveIs e active)) (round_key_writes slot key_type key) _ round_keys
              (
                field _,
                (
                  field _,
                  (
                    field _,
                    (field _, (status_write-Stable slot _, (status_write-Stable slot _, tt))),
                  ),
                ),
              ),
        ),
      ),
    ),
  )
    where
      field : (f : SlotField) → Stable (ActiveIs e active) (Write.keyslot slot f)
      field f = slot_write-Stable slot f s_ok ne

      round_keys : All (Stable (ActiveIs e active)) (round_key_writes slot key_type key)
      round_keys = elim (Bool-cases (key_type == keyslot_aes256)) [
        | inl y ↦ rw y (field _, tt)
        | inr n ↦ rw n tt
      ]

  impl_keeps :
      (slot key_type : ℕ) (key : Option (List ℕ)) (key_len : ℕ) (w : World)
      → slot < 2
      → slot ≢ e
      → Undisturbed w
      → Ends (λ _. Undisturbed) Undisturbed (engine_set_key_typed_impl slot key_type key key_len w)
  unfolding engine_set_key_typed_impl store_typed_key
  impl_keeps slot key_type key key_len w s_ok ne u = Ends-gets _ _ w (
      Ends-test w.d_state _ w u (λ _. Ends-pointer key _ w u (λ bytes.
        Ends-test (ltb slot engine_max_key_slots) _ w u (λ _.
          Ends-test (valid_key_len key_type key_len) _ w u (λ _. Ends-gets _ _ w (
            Ends-bind (memcpy_all _) _ w
              (Ends-always _ (
                memcpy_all-InForce _ (typed_key_writes-Stable slot key_type key_len _ _ _ s_ok ne)
                  u))
              (λ _ v q. Ends-always _ (modify-InForce _ (λ h. h) q))))))))

  set_key_keeps :
      (slot key_type : ℕ) (key : Option (List ℕ)) (key_len : ℕ) (w : World)
      → slot < 2
      → slot ≢ e
      → Undisturbed w
      → Ends (λ _. Undisturbed) Undisturbed (engine_set_key_typed slot key_type key key_len w)
  unfolding engine_set_key_typed
  set_key_keeps slot key_type key key_len w s_ok ne u =
      Ends-bind (engine_set_key_typed_impl slot key_type key key_len) _ w
        (impl_keeps slot key_type key key_len w s_ok ne u)
        (λ _ v q. Ends-always _ (synchronize-InForce q))

  other_ne : (a : ℕ) → a ≡ e → other_slot a ≢ e
  other_ne a h = omega arith

  -- What the probe reads is the epoch that the device keeps.
  probe_keeps :
      (w : World)
      → Undisturbed w
      → Ends
          (λ (r : Two Keyslot × ℕ) v. Undisturbed v × (r.1 ≡ e))
          Undisturbed
          (engine_rotation_probe w)
  unfolding engine_rotation_probe gets
  probe_keeps w u = Ends-bind (gets (λ w. w.d_state)) _ w (returned u) (λ b v p.
      Ends-test b _ v p (λ _.
        Ends-bind checked_call _ v (Ends-always _ (checked_call-InForce p)) (λ _ v p.
          Ends-bind checked_call _ v (Ends-always _ (checked_call-InForce p)) (λ _ v p.
            Ends-bind synchronize _ v (Ends-always _ (synchronize-InForce p))
              (λ _ v p. returned (p, p.now.1))))))

  stage_keeps :
      (s : Staging) (w : World) → Undisturbed w → Ends (λ _. Undisturbed) Undisturbed (stage s w)
  unfolding stage engine_prepare_next_key engine_prepare_next_key_typed
      engine_prepare_next_key_typed_async engine_prepare_next_key_async engine_rollback_rotation
      engine_rotation_fence
  stage_keeps (prepare key) w u = Ends-gets _ _ w (
      Ends-test w.d_state _ w u (λ _. Ends-pointer key _ w u (λ bytes.
        Ends-bind engine_rotation_probe _ w (probe_keeps w u) (λ r v q.
          set_key_keeps (other_slot r.1) keyslot_p256 (some bytes) 32 v (other_slot_lem r.1).0
            (other_ne r.1 q.1) q.0))))
  stage_keeps (prepare_typed key_type key key_len) w u = Ends-gets _ _ w (
      Ends-test w.d_state _ w u (λ _. Ends-pointer key _ w u (λ bytes.
        Ends-test (not (key_len == 0)) _ w u (λ _. Ends-gets _ _ w (
          set_key_keeps (next_slot w.handle) key_type (some bytes) key_len w
            (other_slot_lem w.h_init.active_epoch).0 (other_ne w.h_init.active_epoch u.host) u)))))
  stage_keeps (prepare_async key) w u = Ends-gets _ _ w (
      Ends-test w.d_state _ w u (λ _. Ends-pointer key _ w u (λ bytes. Ends-gets _ _ w (
        Ends-bind (engine_set_key_typed_impl _ keyslot_p256 (some bytes) 32) _ w
          (impl_keeps (next_slot w.handle) keyslot_p256 (some bytes) 32 w
            (other_slot_lem w.h_init.active_epoch).0 (other_ne w.h_init.active_epoch u.host) u)
          (λ _ v q. Ends-always _ (modify-InForce _ (λ h. h) q))))))
  stage_keeps (prepare_typed_async key_type key key_len) w u = Ends-gets _ _ w (
      Ends-test w.d_state _ w u (λ _. Ends-pointer key _ w u (λ bytes.
        Ends-test (not (key_len == 0)) _ w u (λ _. Ends-gets _ _ w (
          Ends-bind (engine_set_key_typed_impl _ key_type (some bytes) key_len) _ w
            (impl_keeps (next_slot w.handle) key_type (some bytes) key_len w
              (other_slot_lem w.h_init.active_epoch).0 (other_ne w.h_init.active_epoch u.host) u)
            (λ _ v q. Ends-always _ (modify-InForce _ (λ h. h) q)))))))
  stage_keeps rollback w u = Ends-gets _ _ w (
      Ends-test w.d_state _ w u (λ _. Ends-gets _ _ w (
        Ends-bind (memcpy_async _) _ w
          (Ends-always _ (
            memcpy_async-InForce _
              (slot_write-Stable (next_slot w.handle) SlotField.clear
                (other_slot_lem w.h_init.active_epoch).0 (other_ne w.h_init.active_epoch u.host))
              u))
          (λ _ v q.
            Ends-bind synchronize _ v (Ends-always _ (synchronize-InForce q))
              (λ _ v q. Ends-always _ (modify-InForce _ (λ h. h) q))))))
  stage_keeps fence w u =
      Ends-bind synchronize _ w (Ends-always _ (synchronize-InForce u))
        (λ _ v q. Ends-always _ (modify-InForce _ (λ h. h) q))

  stage_all_keeps : (ss : List Staging) (w : World) → Undisturbed w → Undisturbed (stage_all ss w)
  unfolding stage_all
  stage_all_keeps [] w u = u
  stage_all_keeps (s ∷ ss) w u = stage_all_keeps ss (stage s w).1 (Ends-both (stage_keeps s w u))

  -- Let nothing be queued and the host's epoch agree with the device. After any calls that stage keys
  -- (prepares of every kind, rollbacks, fences), succeeded or failed, and however many of the writes
  -- then queued are carried out, the device has the same epoch and the same key in its active slot.
  pub stage_all-ActiveIs :
      (ss : List Staging) (n : ℕ) (w : World)
      → ActiveIs e active w.device
      → HostEpochIs e w.handle
      → w.pending ≡ []
      → ActiveIs e active (drain n (stage_all ss w)).device
  stage_all-ActiveIs ss n w a h p =
      (drain-InForce n (stage_all_keeps ss w (record { host = h; now = a; queued = rw p tt }))).now
