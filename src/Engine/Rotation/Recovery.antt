-- ===== src/Engine/Rotation/Recovery.antt =====
-- Recovery from a stuck fence, `engine_rotation_force_recovery`.
use gpu_rotation_engine.Base.{
  ℕ, ◌≡◌, refl, Bool, true, false, Option, none, some, All, if◌then◌else◌,
}
use gpu_rotation_engine.Engine.State.{EngineState}
use gpu_rotation_engine.Engine.Cuda.{EngineHandle, World, modify, next_call, checked_call, settled}
use gpu_rotation_engine.Engine.Cuda.Run.{
  Ends, returned, failed, After, After-start, After-next_call, CallFailed, Ends-bind, Ends-imp,
  Ends-guard, Ends-gets, checked_call-Ends, modify-Ends,
}
use gpu_rotation_engine.Engine.Cuda.Force.{
  Stable, InForce, next_call-InForce, checked_call-InForce, modify-InForce, apply_all_stable,
  Ends-always,
}
use gpu_rotation_engine.Engine.Rotation.{destroy_comm_stream, engine_rotation_force_recovery}

-- The epoch on the device, now and whatever of the queue is carried out.
abbrev pub EpochIs : ℕ → EngineState → Type 0
EpochIs e d = d.active_epoch ≡ e

abbrev Settled : ℕ → World → Type 0
Settled e = InForce (EpochIs e) (λ _. Unit {0})

-- Some state of device and handle is reached, with no call failed on the way.
abbrev Reaches : World → World → Type 0
Reaches w v = (d : EngineState) × (k : EngineHandle) × After w d k v

-- Two accounts of one run, put together.
Ends-pair :
    {A : Type 0} {Q R : A → World → Type 0} {E F : World → Type 0} (r : Option A × World)
    → Ends Q E r
    → Ends R F r
    → Ends (λ a v. Q a v × R a v) (λ v. E v × F v) r
Ends-pair (none, v) (failed e) (failed f) = failed (e, f)
Ends-pair (some a, v) (returned q) (returned r) = returned (q, r)

destroy-Reaches :
    {w : World} (v : World)
    → Reaches w v
    → Ends (λ _. Reaches w) (CallFailed w) (destroy_comm_stream v)
unfolding destroy_comm_stream next_call
destroy-Reaches {w} v (d, k, a) = go v.comm_stream
  where
    go :
        (b : Bool)
        → Ends
            (λ _. Reaches w)
            (CallFailed w)
            (if b
              then (
                some tt,
                record ((next_call v).1) { handle = record (v.handle) { comm_stream = false } },
              )
              else (some tt, v))
    go true =
        let n = After-next_call a in
        returned (
          d,
          record (v.handle) { comm_stream = false },
          record {
            settled_is = n.settled_is;
            handle_is = refl;
            runtime_is = n.runtime_is;
            calls_le = n.calls_le;
          },
        )
    go false = returned (d, k, a)

checked-Reaches :
    {w : World} (v : World) → Reaches w v → Ends (λ _. Reaches w) (CallFailed w) (checked_call v)
checked-Reaches v (d, k, a) = Ends-imp (λ _ u b. (d, k, b)) (λ u e. e) (checked_call-Ends a)

modify-Reaches :
    {w : World} (f : EngineHandle → EngineHandle) (v : World)
    → Reaches w v
    → Ends (λ _. Reaches w) (CallFailed w) (modify f v)
modify-Reaches f v (d, k, a) = Ends-imp (λ _ u b. (d, f k, b)) (λ u e. e) (modify-Ends a _ f)

recovery-Reaches :
    (w : World)
    → w.d_state ≡ true
    → Ends (λ _. Reaches w) (CallFailed w) (engine_rotation_force_recovery w)
unfolding engine_rotation_force_recovery
recovery-Reaches w ready = Ends-gets _ _ w (
    Ends-guard w.d_state _ w ready (
      Ends-bind destroy_comm_stream _ w (destroy-Reaches w (settled w, w.handle, After-start w))
        (λ _ v a. Ends-bind checked_call _ v (checked-Reaches v a) (λ _ v a.
          Ends-bind (modify _) _ v (modify-Reaches _ v a) (λ _ v a.
            Ends-bind checked_call _ v (checked-Reaches v a) (λ _ v a. Ends-gets _ _ v (
              Ends-bind (modify _) _ v (modify-Reaches _ v a) (λ _ v a. modify-Reaches _ v a))))))))

destroy-Settled :
    (e : ℕ) (w : World)
    → Settled e w
    → Ends (λ _. Settled e) (λ _. Unit {0}) (destroy_comm_stream w)
unfolding destroy_comm_stream
destroy-Settled e w f = go w.comm_stream
  where
    go :
        (b : Bool)
        → Ends
            (λ _. Settled e)
            (λ _. Unit {0})
            (if b
              then (
                some tt,
                record ((next_call w).1) { handle = record (w.handle) { comm_stream = false } },
              )
              else (some tt, w))
    go true =
        let g = next_call-InForce f in
        returned (record { host = tt; now = g.now; queued = g.queued })
    go false = returned f

-- Whatever holds at the end of a run, failed or not, holds after it returned.
whenever :
    {A : Type 0} {F : World → Type 0} (r : Option A × World)
    → F r.1
    → Ends (λ _. F) (λ _. Unit {0}) r
whenever r f = Ends-imp (λ _ _ q. q) (λ _ _. tt) (Ends-always r f)

-- A change of the handle, with the fact that it makes true.
set_host :
    {P : EngineState → Type 0} {G H : EngineHandle → Type 0} (f : EngineHandle → EngineHandle)
    (v : World)
    → InForce P G v
    → H (f v.handle)
    → Ends (λ _. InForce P H) (λ _. Unit {0}) (modify f v)
unfolding modify
set_host f v g h = returned (record { host = h; now = g.now; queued = g.queued })

abbrev pub RecoveredHandle : ℕ → EngineHandle → Type 0
RecoveredHandle e h = (h.h_init.active_epoch ≡ e) × (h.rotation_pending_fence ≡ false)

recovery-Settled :
    (e : ℕ) (w : World)
    → w.d_state ≡ true
    → Settled e w
    → Ends
        (λ _. InForce (EpochIs e) (RecoveredHandle e))
        (λ _. Unit {0})
        (engine_rotation_force_recovery w)
unfolding engine_rotation_force_recovery
recovery-Settled e w ready f = Ends-gets _ _ w (
    Ends-guard w.d_state _ w ready (
      Ends-bind destroy_comm_stream _ w (destroy-Settled e w f) (λ _ v g.
        Ends-bind checked_call _ v (whenever {F = Settled e} _ (checked_call-InForce g)) (λ _ v g.
          Ends-bind (modify _) _ v (whenever {F = Settled e} _ (modify-InForce _ (λ h. h) g))
            (λ _ v g.
              Ends-bind checked_call _ v (whenever {F = Settled e} _ (checked_call-InForce g))
                (λ _ v g. Ends-gets _ _ v (
                  Ends-bind (modify _) _ v
                    (set_host {H = λ h. h.h_init.active_epoch ≡ e} _ v g g.now)
                    (λ _ v g. set_host _ v g (g.host, refl)))))))))

-- Let the device's epoch be `e`, and let no queued write be able to change it. Then recovery, in
-- whatever state the stream and the latch are, ends with the host's epoch `e`, the latch open, and `e`
-- on the device, also once all that is queued is carried out; or else some call of the runtime was
-- answered with an error.
pub engine_rotation_force_recovery-Recovered :
    (e : ℕ) (w : World)
    → w.d_state ≡ true
    → w.device.active_epoch ≡ e
    → All (Stable (EpochIs e)) w.pending
    → Ends
        (λ _ v.
          (v.h_init.active_epoch ≡ e)
          × (v.rotation_pending_fence ≡ false)
          × (v.device.active_epoch ≡ e)
          × ((settled v).active_epoch ≡ e))
        (CallFailed w)
        (engine_rotation_force_recovery w)
engine_rotation_force_recovery-Recovered e w ready now queued =
    Ends-imp
      (λ _ v (_, g).
        (g.host.0, g.host.1, g.now, apply_all_stable (EpochIs e) v.pending v.device g.queued g.now))
      (λ v (c, _). c)
      (Ends-pair _ (recovery-Reaches w ready)
        (recovery-Settled e w ready (record { host = tt; now = now; queued = queued })))
