-- ===== src/Engine/Rotation/Prepare.antt =====
-- How the prepare steps end: the inactive slot receives the key, the rest stays.
use gpu_rotation_engine.Base.{
  ℕ, ◌≡◌, ◌≢◌, refl, ap, ◌∙◌, subst, true, not, some, List, arith, ◌==◌, other_slot, other_slot_lem,
}
use gpu_rotation_engine.Engine.State.{EngineState, keyslot_p256}
use gpu_rotation_engine.Engine.Cuda.{EngineHandle, World}
use gpu_rotation_engine.Engine.Cuda.Run.{
  Ends, After, CallFailed, Ends-bind, Ends-guard, Ends-gets, Ends-non_null, modify-Ends, at_handle,
}
use gpu_rotation_engine.Engine.Keys.{valid_key_len, engine_set_key_typed_impl, engine_set_key_typed}
use gpu_rotation_engine.Engine.Keys.Spec.{install, loaded, impl-Ends, engine_set_key_typed-Ends}
use gpu_rotation_engine.Engine.Rotation.{
  next_slot, engine_rotation_probe, engine_prepare_next_key, engine_prepare_next_key_typed,
  engine_prepare_next_key_typed_async, engine_prepare_next_key_async,
}
use gpu_rotation_engine.Engine.Rotation.Spec.{with_latch, Done, engine_rotation_probe-Ends}

p256_len : valid_key_len keyslot_p256 32 ≡ true
unfolding valid_key_len
p256_len = refl

not_zero : (n : ℕ) → n ≢ 0 → not (n == 0) ≡ true
not_zero n h = ground arith

module _ {w : World} {d : EngineState} {k : EngineHandle} {w' : World} (a : After w d k w')
    (ready : k.d_state ≡ true) where
  module _ (key_type : ℕ) (bytes : List ℕ) (key_len : ℕ)
      (len_ok : valid_key_len key_type key_len ≡ true) (len_pos : key_len ≢ 0) where
    pub engine_prepare_next_key_typed-Ends :
        Ends
          (λ _.
            Done w
              (install k (next_slot k) key_type bytes key_len d)
              (loaded k (next_slot k) key_type bytes key_len))
          (CallFailed w)
          (engine_prepare_next_key_typed key_type (some bytes) key_len w')
    unfolding engine_prepare_next_key_typed
    engine_prepare_next_key_typed-Ends =
        at_handle
          (λ k.
            k.d_state ≡ true
            → Ends
                (λ _.
                  Done w (install k (next_slot k) key_type bytes key_len d)
                    (loaded k (next_slot k) key_type bytes key_len))
                (CallFailed w) (engine_prepare_next_key_typed key_type (some bytes) key_len w'))
          a
          (λ b on. Ends-gets _ _ w' (
            Ends-guard w'.d_state _ w' on (
              Ends-non_null bytes _ w' (
                Ends-guard _ _ w' (not_zero key_len len_pos) (
                  Ends-gets _ _ w' (
                    engine_set_key_typed-Ends (next_slot w'.handle) key_type bytes key_len
                      (other_slot_lem w'.h_init.active_epoch).0 len_ok b on))))))
          ready

    pub engine_prepare_next_key_typed_async-Ends :
        Ends
          (λ _.
            After w
              (install k (next_slot k) key_type bytes key_len d)
              (with_latch true (loaded k (next_slot k) key_type bytes key_len)))
          (CallFailed w)
          (engine_prepare_next_key_typed_async key_type (some bytes) key_len w')
    unfolding engine_prepare_next_key_typed_async
    engine_prepare_next_key_typed_async-Ends =
        at_handle
          (λ k.
            k.d_state ≡ true
            → Ends
                (λ _.
                  After w (install k (next_slot k) key_type bytes key_len d)
                    (with_latch true (loaded k (next_slot k) key_type bytes key_len)))
                (CallFailed w)
                (engine_prepare_next_key_typed_async key_type (some bytes) key_len w'))
          a
          (λ b on. Ends-gets _ _ w' (
            Ends-guard w'.d_state _ w' on (
              Ends-non_null bytes _ w' (
                Ends-guard _ _ w' (not_zero key_len len_pos) (
                  Ends-gets _ _ w' (
                    Ends-bind (engine_set_key_typed_impl _ key_type (some bytes) key_len) _ w'
                      (impl-Ends (next_slot w'.handle) key_type bytes key_len
                        (other_slot_lem w'.h_init.active_epoch).0 len_ok b on)
                      (λ _ v c. modify-Ends c _ _)))))))
          ready

  -- The synchronous form for P-256 keys goes by the device's epoch.
  pub engine_prepare_next_key-Ends :
      (key : List ℕ)
      → Ends
          (λ _.
            Done w
              (install k (other_slot d.active_epoch) keyslot_p256 key 32 d)
              (loaded k (other_slot d.active_epoch) keyslot_p256 key 32))
          (CallFailed w)
          (engine_prepare_next_key (some key) w')
  unfolding engine_prepare_next_key
  engine_prepare_next_key-Ends key = Ends-gets _ _ w' (
      Ends-guard w'.d_state _ w' (ap (λ h. h.d_state) a.handle_is ∙ ready) (
        Ends-non_null key _ w' (
          Ends-bind engine_rotation_probe _ w' (engine_rotation_probe-Ends a ready) (λ r v c.
            subst
              (λ e.
                Ends
                  (λ _.
                    Done w (install k (other_slot e) keyslot_p256 key 32 d)
                      (loaded k (other_slot e) keyslot_p256 key 32))
                  (CallFailed w)
                  (engine_set_key_typed (other_slot r.1) keyslot_p256 (some key) 32 v))
              (ap (λ p. p.1) c.1)
              (engine_set_key_typed-Ends (other_slot r.1) keyslot_p256 key 32 (other_slot_lem r.1).0
                p256_len c.0.0 ready)))))

  pub engine_prepare_next_key_async-Ends :
      (key : List ℕ)
      → Ends
          (λ _.
            After w
              (install k (next_slot k) keyslot_p256 key 32 d)
              (with_latch true (loaded k (next_slot k) keyslot_p256 key 32)))
          (CallFailed w)
          (engine_prepare_next_key_async (some key) w')
  unfolding engine_prepare_next_key_async
  engine_prepare_next_key_async-Ends key =
      at_handle
        (λ k.
          k.d_state ≡ true
          → Ends
              (λ _.
                After w (install k (next_slot k) keyslot_p256 key 32 d)
                  (with_latch true (loaded k (next_slot k) keyslot_p256 key 32)))
              (CallFailed w) (engine_prepare_next_key_async (some key) w'))
        a
        (λ b on. Ends-gets _ _ w' (
          Ends-guard w'.d_state _ w' on (
            Ends-non_null key _ w' (
              Ends-gets _ _ w' (
                Ends-bind (engine_set_key_typed_impl _ keyslot_p256 (some key) 32) _ w'
                  (impl-Ends (next_slot w'.handle) keyslot_p256 key 32
                    (other_slot_lem w'.h_init.active_epoch).0 p256_len b on)
                  (λ _ v c. modify-Ends c _ _))))))
        ready
