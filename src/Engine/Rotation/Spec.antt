-- ===== src/Engine/Rotation/Spec.antt =====
-- How each rotation step ends: the effect on the device and on the host's copy, in full.
use gpu_rotation_engine.Base.{ℕ, ◌≡◌, ap, Bool, true, false, [], put, Two}
use gpu_rotation_engine.Engine.State.{Keyslot, zero_keyslot, EngineState}
use gpu_rotation_engine.Engine.Device.{SlotField, Write, apply}
use gpu_rotation_engine.Engine.Cuda.{
  EngineHandle, World, gets, modify, checked_call, memcpy_async, synchronize,
}
use gpu_rotation_engine.Engine.Cuda.Run.{
  Ends, returned, After, CallFailed, Ends-bind, Ends-guard, Ends-gets, checked_call-Ends,
  memcpy_async-Ends, modify-Ends, synchronize-Ends, at_handle,
}
use gpu_rotation_engine.Engine.Rotation.{
  next_slot, engine_rotation_probe, engine_commit_rotation, engine_commit_rotation_async,
  engine_rollback_rotation, engine_rotation_fence,
}

abbrev pub with_epoch : ℕ → EngineState → EngineState
with_epoch e st = record st { active_epoch = e }

abbrev pub with_latch : Bool → EngineHandle → EngineHandle
with_latch b h = record h { rotation_pending_fence = b }

abbrev pub with_host : (EngineState → EngineState) → EngineHandle → EngineHandle
with_host f h = record h { h_init = f h.h_init }

abbrev pub cleared : ℕ → EngineState → EngineState
cleared slot st = record st { keyslots = put st.keyslots slot zero_keyslot }

-- Nothing is queued any more and the device holds `d`.
abbrev pub Done : World → EngineState → EngineHandle → World → Type 0
Done w d k v = After w d k v × (v.pending ≡ []) × (v.device ≡ d)

pub modify-Done :
    {w : World} {d : EngineState} {k : EngineHandle} {v : World}
    → Done w d k v
    → (f : EngineHandle → EngineHandle) → Ends (λ _. Done w d (f k)) (CallFailed w) (modify f v)
unfolding modify
modify-Done (a, p, e) f = returned (
  record {
    settled_is = a.settled_is;
    handle_is = ap f a.handle_is;
    runtime_is = a.runtime_is;
    calls_le = a.calls_le;
  },
  p,
  e,
)

gets-device :
    {w : World} {d : EngineState} {k : EngineHandle} {v : World}
    → Done w d k v
    → Ends {A = Two Keyslot × ℕ}
        (λ r u. Done w d k u × (r ≡ (d.keyslots, d.active_epoch)))
        (CallFailed w)
        (gets (λ u. (u.device.keyslots, u.device.active_epoch)) v)
unfolding gets
gets-device (a, p, e) = returned ((a, p, e), ap (λ s. (s.keyslots, s.active_epoch)) e)

module _ {w : World} {d : EngineState} {k : EngineHandle} {w' : World} (a : After w d k w')
    (ready : k.d_state ≡ true) where
  pub engine_commit_rotation-Ends :
      Ends
        (λ _. Done w (with_epoch (next_slot k) d) (with_host (with_epoch (next_slot k)) k))
        (CallFailed w)
        (engine_commit_rotation w')
  unfolding engine_commit_rotation apply
  engine_commit_rotation-Ends =
      at_handle
        (λ k.
          k.d_state ≡ true
          → Ends (λ _. Done w (with_epoch (next_slot k) d) (with_host (with_epoch (next_slot k)) k))
              (CallFailed w) (engine_commit_rotation w'))
        a
        (λ b on. Ends-gets _ _ w' (
          Ends-guard w'.d_state _ w' on (
            Ends-gets _ _ w' (
              Ends-bind (memcpy_async (Write.active_epoch (next_slot w'.handle))) _ w'
                (memcpy_async-Ends b _)
                (λ _ v c.
                  Ends-bind (modify _) _ v (modify-Ends c _ _) (λ _ u e. synchronize-Ends e))))))
        ready

  pub engine_commit_rotation_async-Ends :
      Ends
        (λ _.
          After w
            (with_epoch (next_slot k) d)
            (with_latch true (with_host (with_epoch (next_slot k)) k)))
        (CallFailed w)
        (engine_commit_rotation_async w')
  unfolding engine_commit_rotation_async apply
  engine_commit_rotation_async-Ends =
      at_handle
        (λ k.
          k.d_state ≡ true
          → Ends
              (λ _.
                After w (with_epoch (next_slot k) d)
                  (with_latch true (with_host (with_epoch (next_slot k)) k)))
              (CallFailed w) (engine_commit_rotation_async w'))
        a
        (λ b on. Ends-gets _ _ w' (
          Ends-guard w'.d_state _ w' on (
            Ends-gets _ _ w' (
              Ends-bind (memcpy_async (Write.active_epoch (next_slot w'.handle))) _ w'
                (memcpy_async-Ends b _)
                (λ _ v c.
                  Ends-bind (modify _) _ v (modify-Ends c _ _) (λ _ u e. modify-Ends e _ _))))))
        ready

  pub engine_rollback_rotation-Ends :
      Ends
        (λ _. Done w (cleared (next_slot k) d) (with_host (cleared (next_slot k)) k))
        (CallFailed w)
        (engine_rollback_rotation w')
  unfolding engine_rollback_rotation apply
  engine_rollback_rotation-Ends =
      at_handle
        (λ k.
          k.d_state ≡ true
          → Ends (λ _. Done w (cleared (next_slot k) d) (with_host (cleared (next_slot k)) k))
              (CallFailed w) (engine_rollback_rotation w'))
        a
        (λ b on. Ends-gets _ _ w' (
          Ends-guard w'.d_state _ w' on (
            Ends-gets _ _ w' (
              Ends-bind (memcpy_async (Write.keyslot (next_slot w'.handle) SlotField.clear)) _ w'
                (memcpy_async-Ends b _)
                (λ _ v c.
                  Ends-bind synchronize _ v (synchronize-Ends c) (λ _ u e. modify-Done e _))))))
        ready

  pub engine_rotation_fence-Ends :
      Ends (λ _. Done w d (with_latch false k)) (CallFailed w) (engine_rotation_fence w')
  unfolding engine_rotation_fence
  engine_rotation_fence-Ends =
      Ends-bind synchronize _ w' (synchronize-Ends a) (λ _ v c. modify-Done c _)

  pub engine_rotation_probe-Ends :
      Ends
        (λ r v. Done w d k v × (r ≡ (d.keyslots, d.active_epoch)))
        (CallFailed w)
        (engine_rotation_probe w')
  unfolding engine_rotation_probe
  engine_rotation_probe-Ends =
      at_handle
        (λ k.
          k.d_state ≡ true
          → Ends (λ r v. Done w d k v × (r ≡ (d.keyslots, d.active_epoch))) (CallFailed w)
              (engine_rotation_probe w'))
        a
        (λ b on. Ends-gets _ _ w' (
          Ends-guard w'.d_state _ w' on (
            Ends-bind checked_call _ w' (checked_call-Ends b) (λ _ v c.
              Ends-bind checked_call _ v (checked_call-Ends c) (λ _ u e.
                Ends-bind synchronize _ u (synchronize-Ends e) (λ _ t f. gets-device f))))))
        ready
