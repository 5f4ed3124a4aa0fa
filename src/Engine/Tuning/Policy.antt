-- ===== src/Engine/Tuning/Policy.antt =====
-- How `engine_set_rotation_policy` ends.
use gpu_rotation_engine.Base.{
  ℕ, ◌≡◌, refl, ap, ◌∙◌, Bool, true, false, ◌||◌, [], ◌==◌, if◌then◌else◌,
}
use gpu_rotation_engine.Engine.State.{EngineState, policy_disabled, policy_manual, policy_automatic}
use gpu_rotation_engine.Engine.Device.{apply, apply_all, set_tuning_field}
use gpu_rotation_engine.Engine.Cuda.{
  EngineHandle, World, ◌>>◌, modify, memcpy_all, synchronize, settled,
}
use gpu_rotation_engine.Engine.Cuda.Run.{
  Ends, After, After-start, CallFailed, Ends-bind, Ends-imp, Ends-guard, Ends-gets, modify-Ends,
  memcpy_async-Ends, memcpy_all-Ends, synchronize-Ends,
}
use gpu_rotation_engine.Engine.Rotation.Spec.{with_epoch, with_host, Done}
use gpu_rotation_engine.Engine.Tuning.{
  with_tuning, tune_host, policy_fields, policy_writes, reset_epoch, engine_set_rotation_policy,
}

-- The policy, and the epoch that DISABLED resets, on either side.
abbrev pub with_policy : ℕ → ℕ → ℕ → EngineState → EngineState
with_policy policy interval idle_only st =
    with_tuning (policy_fields policy interval idle_only)
      (if policy == policy_disabled then with_epoch 0 st else st)

abbrev pub known_policy : ℕ → Bool
known_policy policy =
    policy == policy_disabled || policy == policy_manual || policy == policy_automatic

-- The branch that resets the epoch, or does not.
maybe_reset :
    {w : World} {d : EngineState} {k : EngineHandle} {v : World} (b : Bool)
    → After w d k v
    → Ends
        (λ _.
          After w
            (if b then with_epoch 0 d else d)
            (with_host (λ s. if b then with_epoch 0 s else s) k))
        (CallFailed w)
        ((if b then reset_epoch else modify (λ h. h)) v)
unfolding reset_epoch apply
maybe_reset {v = v} true a =
    Ends-bind (modify _) _ v (modify-Ends a _ _) (λ _ u b. memcpy_async-Ends b _)
maybe_reset false a = modify-Ends a _ _

module _ (policy interval idle_only : ℕ) where
  after_policy : Bool → EngineState → EngineState
  after_policy b st =
      with_tuning (policy_fields policy interval idle_only) (if b then with_epoch 0 st else st)

  -- The host's change of the tuning, then the rest.
  rest_of_set :
      (b : Bool) (w : World)
      → Ends
          (λ _. Done w (after_policy b (settled w)) (with_host (after_policy b) w.handle))
          (CallFailed w)
          ((tune_host (policy_fields policy interval idle_only)
              >> ((if b then reset_epoch else modify (λ h. h))
                  >> (memcpy_all (policy_writes policy interval idle_only) >> synchronize)))
            w)
  unfolding after_policy apply apply_all set_tuning_field
  rest_of_set true w = Ends-bind (tune_host _) _ w (modify-Ends (After-start w) _ _) (λ _ v a.
      Ends-bind (if true then reset_epoch else modify (λ h. h)) _ v (maybe_reset true a) (λ _ u b.
        Ends-bind (memcpy_all (policy_writes policy interval idle_only)) _ u (memcpy_all-Ends _ b)
          (λ _ t c. synchronize-Ends c)))
  rest_of_set false w = Ends-bind (tune_host _) _ w (modify-Ends (After-start w) _ _) (λ _ v a.
      Ends-bind (if false then reset_epoch else modify (λ h. h)) _ v (maybe_reset false a) (λ _ u b.
        Ends-bind (memcpy_all (policy_writes policy interval idle_only)) _ u (memcpy_all-Ends _ b)
          (λ _ t c. synchronize-Ends c)))

  -- Setting a known policy ends with its three fields on the device and in the host's copy, with the
  -- epoch reset to 0 on both if it is DISABLED and as it was otherwise, with the keys as they were and
  -- nothing queued; or else some call of the runtime was answered with an error.
  pub engine_set_rotation_policy-Set :
      (w : World)
      → w.d_state ≡ true
      → known_policy policy ≡ true
      → Ends
          (λ _ v.
            (v.device ≡ with_policy policy interval idle_only (settled w))
            × (v.h_init ≡ with_policy policy interval idle_only w.h_init)
            × (v.device.keyslots ≡ (settled w).keyslots)
            × (v.pending ≡ []))
          (CallFailed w)
          (engine_set_rotation_policy policy interval idle_only w)
  unfolding engine_set_rotation_policy after_policy
  engine_set_rotation_policy-Set w ready known = Ends-gets _ _ w (
      Ends-guard w.d_state _ w ready (
        Ends-guard (known_policy policy) _ w known (
          Ends-imp
            (λ _ v (a, p, e). (
              e,
              ap (λ h. h.h_init) a.handle_is,
              ap (λ (s : EngineState). s.keyslots) e ∙ same_keys (policy == policy_disabled),
              p,
            ))
            (λ v e. e) (rest_of_set (policy == policy_disabled) w))))
    where
      same_keys :
          (b : Bool)
          → (if b then with_epoch 0 (settled w) else settled w).keyslots ≡ (settled w).keyslots
      same_keys true = refl
      same_keys false = refl
