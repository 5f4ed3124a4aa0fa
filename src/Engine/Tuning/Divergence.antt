-- ===== src/Engine/Tuning/Divergence.antt =====
-- A failed switch to DISABLED parts the host's epoch from the device's, and the next staged key then
-- goes to the slot that is active on the device.
use gpu_rotation_engine.Base.{
  ℕ, suc, min, Copied, subst, sym, ◌<◌, ◌≡◌, ◌≢◌, refl, ap, ◌∙◌, true, false, Option, some, List,
  arith, at,
}
use gpu_rotation_engine.Engine.State.{EngineState, policy_disabled}
use gpu_rotation_engine.Engine.Device.{Write}
use gpu_rotation_engine.Engine.Cuda.{EngineHandle, World, modify, memcpy_async, settled}
use gpu_rotation_engine.Engine.Cuda.Run.{
  Ends, returned, failed, After, After-start, CallFailed, Ends-bind, Ends-imp, Ends-returned,
  Ends-guard, Ends-gets,
}
use gpu_rotation_engine.Engine.Cuda.Copy.{copy_refused}
use gpu_rotation_engine.Engine.Keys.{valid_key_len, store_typed_key}
use gpu_rotation_engine.Engine.Keys.Spec.{padded_key-Copied}
use gpu_rotation_engine.Engine.Rotation.{engine_prepare_next_key_typed}
use gpu_rotation_engine.Engine.Rotation.Spec.{with_epoch, with_host}
use gpu_rotation_engine.Engine.Rotation.Prepare.{engine_prepare_next_key_typed-Ends}
use gpu_rotation_engine.Engine.Tuning.{
  with_tuning, tune_host, policy_fields, reset_epoch, engine_set_rotation_policy,
}

-- The handle that the failed switch leaves.
abbrev pub half_disabled : ℕ → ℕ → EngineHandle → EngineHandle
half_disabled interval idle_only k =
    with_host
      (λ st. with_epoch 0 (with_tuning (policy_fields policy_disabled interval idle_only) st)) k

-- A change of the host's fields makes no call.
modify_quiet :
    {w : World} {d : EngineState} {k : EngineHandle} {v : World} {n : ℕ} {E : World → Type 0}
    (f : EngineHandle → EngineHandle)
    → After w d k v
    → v.calls ≡ n
    → Ends (λ _ u. After w d (f k) u × (u.calls ≡ n)) E (modify f v)
unfolding modify
modify_quiet f a c = returned (
  record {
    settled_is = a.settled_is;
    handle_is = ap f a.handle_is;
    runtime_is = a.runtime_is;
    calls_le = a.calls_le;
  },
  c,
)

-- If the first copy of a switch to DISABLED is refused, the device keeps its epoch, while the host's is
-- already 0.
switch_fails :
    (interval idle_only : ℕ) (w : World)
    → w.d_state ≡ true
    → (w.runtime w.calls).success ≡ false
    → Ends
        (λ _ _. ⊥)
        (λ v.
          After w (settled w) (half_disabled interval idle_only w.handle) v
          × (v.calls ≡ suc w.calls))
        (engine_set_rotation_policy policy_disabled interval idle_only w)
unfolding engine_set_rotation_policy reset_epoch
switch_fails interval idle_only w ready bad = Ends-gets _ _ w (
    Ends-guard w.d_state _ w ready (
      Ends-guard true _ w refl (
        Ends-bind (tune_host _) _ w (modify_quiet _ (After-start w) refl) (λ _ v (a, c).
          Ends-bind reset_epoch _ v
            (Ends-bind (modify _) _ v (modify_quiet _ a c) (λ _ u (b, c). refused b c))
            (λ _ _ z. absurd z)))))
  where
    refused :
        {u : World} {k : EngineHandle}
        → After w (settled w) k u
        → u.calls ≡ w.calls
        → Ends
            (λ _ _. ⊥)
            (λ v. After w (settled w) k v × (v.calls ≡ suc w.calls))
            (memcpy_async (Write.active_epoch 0) u)
    refused {u} b c =
        Ends-imp (λ _ _ z. z) (λ v (a, e). (a, e ∙ ap suc c))
          (copy_refused b (Write.active_epoch 0)
            (ap (λ r. (r u.calls).success) b.runtime_is ∙ ap (λ n. (w.runtime n).success) c ∙ bad))

module _ (interval idle_only key_type : ℕ) (bytes : List ℕ) (key_len : ℕ) where
  -- The switch, its failure left unheeded, then a key staged for the next rotation.
  abbrev pub switch_then_stage : World → Option (Unit {0}) × World
  switch_then_stage w =
      engine_prepare_next_key_typed key_type (some bytes) key_len
        (engine_set_rotation_policy policy_disabled interval idle_only w).1

  -- Let the device's epoch be 1. If the first copy of a switch to DISABLED is refused and every later
  -- call succeeds, then staging a key of a legal length succeeds, the device's epoch is still 1, and
  -- in the device's slot 1, its active one, stand the bytes of the staged key, up to 32 of them, with
  -- zeros behind.
  pub stage-overwrites_active :
      (w : World)
      → w.d_state ≡ true
      → valid_key_len key_type key_len ≡ true
      → key_len ≢ 0
      → (settled w).active_epoch ≡ 1
      → (w.runtime w.calls).success ≡ false
      → ((n : ℕ) → w.calls < n → (w.runtime n).success ≡ true)
      → ((switch_then_stage w).0 ≡ some tt)
        × ((switch_then_stage w).1.device.active_epoch ≡ 1)
        × Copied (min key_len 32) bytes (at (switch_then_stage w).1.device.keyslots 1).private_d
  unfolding store_typed_key
  stage-overwrites_active w ready len_ok len_pos e bad later =
      staged (switch_fails interval idle_only w ready bad)
    where
      Claim : Option (Unit {0}) × World → Type 0
      Claim r =
          (r.0 ≡ some tt)
          × (r.1.device.active_epoch ≡ 1)
          × Copied (min key_len 32) bytes (at r.1.device.keyslots 1).private_d

      no_failure :
          (v : World)
          → v.calls ≡ suc w.calls
          → v.runtime ≡ w.runtime
          → (u : World) → CallFailed v u
          → ⊥
      no_failure v c same u (n, low, high, wrong) =
          let right : (w.runtime n).success ≡ true = later n (omega (arith, c)) in
          cc (right, wrong, ap (λ r. (r n).success) same)

      staged :
          {r : Option (Unit {0}) × World}
          → Ends
              (λ _ _. ⊥)
              (λ v.
                After w (settled w) (half_disabled interval idle_only w.handle) v
                × (v.calls ≡ suc w.calls))
              r
          → Claim (engine_prepare_next_key_typed key_type (some bytes) key_len r.1)
      staged (returned z) = absurd z
      staged (failed {w = v} (a, c)) =
          let two =
            engine_prepare_next_key_typed-Ends {w = v} {d = settled w}
              {k = half_disabled interval idle_only w.handle} {w' = v}
              (record {
                settled_is = a.settled_is;
                handle_is = a.handle_is;
                runtime_is = refl;
                calls_le = omega arith;
              })
              ready key_type bytes key_len len_ok len_pos in
          let (t, g, (b, p, f)) =
            Ends-returned (Ends-imp (λ _ u q. q) (no_failure v c a.runtime_is) two) in
          (
            g,
            ap (λ (st : EngineState). st.active_epoch) f ∙ e,
            subst (Copied (min key_len 32) bytes)
                (sym (ap (λ (st : EngineState). (at st.keyslots 1).private_d) f))
                (padded_key-Copied bytes key_len),
          )
