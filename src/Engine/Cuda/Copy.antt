-- ===== src/Engine/Cuda/Copy.antt =====
-- A single copy whose call is known to succeed, or to fail.
use gpu_rotation_engine.Base.{suc, ◌≡◌, refl, ap, ◌∙◌, true, false, [], ◌∷◌, arith}
use gpu_rotation_engine.Engine.State.{EngineState}
use gpu_rotation_engine.Engine.Device.{Write, apply, apply_all, apply_all-append}
use gpu_rotation_engine.Engine.Cuda.{EngineHandle, World, next_call, memcpy_async}
use gpu_rotation_engine.Engine.Cuda.Run.{Ends, After, Ends-if, After-next_call}

module _ {w : World} {d : EngineState} {k : EngineHandle} {w' : World} (a : After w d k w') where
  -- A copy whose call succeeds, and one whose call fails.
  pub copy_accepted :
      (x : Write)
      → (w'.runtime w'.calls).success ≡ true
      → Ends
          (λ _ v. After w (apply x d) k v × (v.calls ≡ suc w'.calls))
          (λ _. ⊥)
          (memcpy_async x w')
  unfolding memcpy_async next_call apply_all
  copy_accepted x ok =
      Ends-if (w'.runtime w'.calls).success _ _ _
        (λ _. (
          record {
            settled_is =
                apply_all-append (next_call w').1.pending (x ∷ []) (next_call w').1.device
                ∙ ap (apply x) (After-next_call a).settled_is;
            handle_is = a.handle_is;
            runtime_is = a.runtime_is;
            calls_le = omega (arith, a.calls_le);
          },
          refl,
        ))
        (λ e. cc)

  pub copy_refused :
      (x : Write)
      → (w'.runtime w'.calls).success ≡ false
      → Ends (λ _ _. ⊥) (λ v. After w d k v × (v.calls ≡ suc w'.calls)) (memcpy_async x w')
  unfolding memcpy_async next_call
  copy_refused x bad =
      Ends-if (w'.runtime w'.calls).success _ _ _ (λ e. cc) (λ _. (After-next_call a, refl))
