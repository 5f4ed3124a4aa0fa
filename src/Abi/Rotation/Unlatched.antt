-- ===== src/Abi/Rotation/Unlatched.antt =====
-- The untyped asynchronous prepare when a copy fails half way.
use gpu_rotation_engine.Base.{
  ℕ, suc, ◌≡◌, refl, ap, ◌∙◌, Bool, true, false, Option, none, some, List, ◌∷◌, arith, at,
  at-put_self, ltb, other_slot_lem, if◌then◌else◌,
}
use gpu_rotation_engine.Engine.State.{Keyslot, EngineState, keyslot_p256, engine_max_key_slots}
use gpu_rotation_engine.Engine.Device.{SlotField, Write, apply}
use gpu_rotation_engine.Engine.Cuda.{World, M, ◌>>◌, memcpy_async, memcpy_all, settled}
use gpu_rotation_engine.Engine.Cuda.Run.{
  Ends, returned, failed, After, After-start, Ends-bind, Ends-gets, Ends-guard, Ends-non_null,
}
use gpu_rotation_engine.Engine.Cuda.Copy.{copy_accepted, copy_refused}
use gpu_rotation_engine.Engine.Keys.{typed_key_writes, valid_key_len, engine_set_key_typed_impl}
use gpu_rotation_engine.Engine.Rotation.{next_slot, engine_prepare_next_key_async}
use gpu_rotation_engine.Abi.Rotation.{
  status_ok, error_not_initialized, error_device_failure, SmokeEngine, Result, on_engine, checked,
  smoke_engine_prepare_next_key_async,
}

module _ (w : World) (ok : (w.runtime w.calls).success ≡ true)
    (bad : (w.runtime (suc w.calls)).success ≡ false) where
  one_copy :
      (x y : Write) (xs : List Write)
      → Ends (λ _ _. ⊥) (After w (apply x (settled w)) w.handle) (memcpy_all (x ∷ y ∷ xs) w)
  unfolding memcpy_all
  one_copy x y xs =
      Ends-bind (memcpy_async x) (λ _. memcpy_async y >> memcpy_all xs) w
        (relax (copy_accepted (After-start w) x ok))
        (λ _ v (a, c).
          Ends-bind (memcpy_async y) (λ _. memcpy_all xs) v
            (keep_state (
              copy_refused a y (
                ap (λ r. (r v.calls).success) a.runtime_is
                ∙ ap (λ n. (w.runtime n).success) c
                ∙ bad)))
            (λ _ _ z. absurd z))
    where
      relax :
          {Q : Unit {0} → World → Type 0} {E : World → Type 0} {r : Option (Unit {0}) × World}
          → Ends Q (λ _. ⊥) r
          → Ends Q E r
      relax (returned q) = returned q
      relax (failed z) = absurd z

      keep_state :
          {Q : Unit {0} → World → Type 0} {E : World → Type 0} {F : World → Type 0}
          {r : Option (Unit {0}) × World}
          → Ends Q (λ v. E v × F v) r
          → Ends Q E r
      keep_state (returned q) = returned q
      keep_state (failed e) = failed e.0

  stops_early :
      (key : List ℕ)
      → w.d_state ≡ true
      → Ends
          (λ _ _. ⊥)
          (After w
            (apply
              (Write.keyslot (next_slot w.handle) (SlotField.key_type keyslot_p256))
              (settled w))
            w.handle)
          (engine_prepare_next_key_async (some key) w)
  unfolding engine_prepare_next_key_async engine_set_key_typed_impl typed_key_writes valid_key_len
  stops_early key ready = Ends-gets _ _ w (
      Ends-guard w.d_state _ w ready (
        Ends-non_null key _ w (
          Ends-gets _ _ w (
            Ends-bind (engine_set_key_typed_impl (next_slot w.handle) keyslot_p256 (some key) 32) _
              w
              (Ends-gets _ _ w (
                Ends-guard w.d_state _ w ready (
                  Ends-non_null key _ w (
                    Ends-guard (ltb (next_slot w.handle) engine_max_key_slots) _ w
                      (ground (arith, (other_slot_lem w.h_init.active_epoch).0))
                      (Ends-guard true _ w refl (
                        Ends-gets _ _ w
                          (Ends-bind (memcpy_all _) _ w (one_copy _ _ _) (λ _ _ z. absurd z))))))))
              (λ _ _ z. absurd z)))))

-- If the first copy of an untyped asynchronous prepare is accepted and the second is refused, the call
-- reports a device failure, the inactive slot gets the new key's type once the queue is carried out,
-- and neither latch is closed by the call.
pub smoke_engine_prepare_next_key_async-unlatched :
    (key : List ℕ) (s : SmokeEngine)
    → s.persistent_engine ≡ true
    → s.world.d_state ≡ true
    → (s.world.runtime s.world.calls).success ≡ true
    → (s.world.runtime (suc s.world.calls)).success ≡ false
    → let r = smoke_engine_prepare_next_key_async (some key) 32 s in
      (r.0 ≡ error_device_failure)
      × ((at (settled r.1.world).keyslots (next_slot s.world.handle)).key_type ≡ keyslot_p256)
      × (r.1.latch ≡ s.latch)
      × (r.1.world.rotation_pending_fence ≡ s.world.rotation_pending_fence)
unfolding smoke_engine_prepare_next_key_async checked on_engine apply
smoke_engine_prepare_next_key_async-unlatched key s there ready ok bad =
    outer s.persistent_engine there
  where
    m : M (Unit {0})
    m = engine_prepare_next_key_async (some key)

    Claim : Result → Type 0
    Claim r =
        (r.0 ≡ error_device_failure)
        × ((at (settled r.1.world).keyslots (next_slot s.world.handle)).key_type ≡ keyslot_p256)
        × (r.1.latch ≡ s.latch)
        × (r.1.world.rotation_pending_fence ≡ s.world.rotation_pending_fence)

    inner :
        (r : Option (Unit {0}) × World)
        → Ends
            (λ _ _. ⊥)
            (After s.world
              (apply
                (Write.keyslot (next_slot s.world.handle) (SlotField.key_type keyslot_p256))
                (settled s.world))
              s.world.handle)
            r
        → Claim (elim r.0 as (λ _. Result) [
          | none ↦ (error_device_failure, record s { world = r.1 })
          | some _ ↦ (status_ok, record s { world = r.1; latch = true })
        ])
    inner r (returned z) = absurd z
    inner r (failed {w = v} a) = (
      refl,
      ap (λ (t : EngineState). (at t.keyslots (next_slot s.world.handle)).key_type) a.settled_is
          ∙ ap (λ (t : Keyslot). t.key_type)
              (at-put_self (settled s.world).keyslots (next_slot s.world.handle) _),
      refl,
      ap (λ h. h.rotation_pending_fence) a.handle_is,
    )

    outer :
        (b : Bool)
        → b ≡ true
        → Claim (if b then on_engine m (λ _. true) s else (error_not_initialized, s))
    outer true e = inner (m s.world) (stops_early s.world ok bad key ready)
    outer false e = cc
