-- ===== src/Engine/Rotation/Cycle.antt =====
-- Whole rotations: prepare, commit and fence in one run.
use gpu_rotation_engine.Base.{ℕ, ◌≡◌, ◌≢◌, ap, ◌∙◌, sym, Bool, true, false, some, Option, List, []}
use gpu_rotation_engine.Engine.Cuda.{World, M, ◌>>◌, settled}
use gpu_rotation_engine.Engine.Cuda.Run.{
  Ends, After-start, CallFailed, Ends-bind, Ends-imp, not-CallFailed, Ends-returned,
}
use gpu_rotation_engine.Engine.Keys.{store_typed_key, valid_key_len}
use gpu_rotation_engine.Engine.Rotation.{
  engine_prepare_next_key_typed, engine_prepare_next_key_typed_async, engine_commit_rotation,
  engine_commit_rotation_async, engine_rotation_fence,
}
use gpu_rotation_engine.Engine.Rotation.Spec.{
  with_host, with_latch, Done, engine_commit_rotation-Ends, engine_commit_rotation_async-Ends,
  engine_rotation_fence-Ends,
}
use gpu_rotation_engine.Engine.Rotation.Prepare.{
  engine_prepare_next_key_typed-Ends, engine_prepare_next_key_typed_async-Ends,
}
use gpu_rotation_engine.Engine.Rotation.Rotated.{Rotated, rotated, rotated-Rotated, Mirrors}

-- The two ways to rotate to a key of any type.
unfoldable pub rotate_staged : ℕ → Option (List ℕ) → ℕ → M (Unit {0})
rotate_staged key_type key_data key_len = do
  engine_prepare_next_key_typed key_type key_data key_len
  engine_commit_rotation

unfoldable pub rotate_staged_async : ℕ → Option (List ℕ) → ℕ → M (Unit {0})
rotate_staged_async key_type key_data key_len = do
  engine_prepare_next_key_typed_async key_type key_data key_len
  engine_commit_rotation_async
  engine_rotation_fence

module _ (w : World) (key_type : ℕ) (bytes : List ℕ) (key_len : ℕ) (ready : w.d_state ≡ true)
    (len_ok : valid_key_len key_type key_len ≡ true) (len_pos : key_len ≢ 0) where
  rotate_staged-Done :
      Ends
        (λ _.
          Done w
            (rotated w.handle key_type bytes key_len (settled w))
            (with_host (rotated w.handle key_type bytes key_len) w.handle))
        (CallFailed w)
        (rotate_staged key_type (some bytes) key_len w)
  unfolding rotate_staged store_typed_key
  rotate_staged-Done =
      Ends-bind (engine_prepare_next_key_typed key_type (some bytes) key_len) _ w
        (engine_prepare_next_key_typed-Ends (After-start w) ready key_type bytes key_len len_ok
          len_pos)
        (λ _ v a. engine_commit_rotation-Ends a.0 ready)

  rotate_staged_async-Done :
      Ends
        (λ _.
          Done w
            (rotated w.handle key_type bytes key_len (settled w))
            (with_latch false (with_host (rotated w.handle key_type bytes key_len) w.handle)))
        (CallFailed w)
        (rotate_staged_async key_type (some bytes) key_len w)
  unfolding rotate_staged_async store_typed_key
  rotate_staged_async-Done =
      Ends-bind (engine_prepare_next_key_typed_async key_type (some bytes) key_len) _ w
        (engine_prepare_next_key_typed_async-Ends (After-start w) ready key_type bytes key_len
          len_ok len_pos)
        (λ _ v a.
          Ends-bind engine_commit_rotation_async _ v (engine_commit_rotation_async-Ends a ready)
            (λ _ u b. engine_rotation_fence-Ends b ready))

  -- If the host's copy agrees with the device, a staged rotation to a key of a legal length ends with
  -- the new key active, the key that was active before in the other slot, nothing queued and the
  -- host's copy in agreement; or else some call of the runtime was answered with an error. The active
  -- slot has the key's bytes with zeros behind them up to 32; of a longer key, which an HMAC key may
  -- be, it has the first 32 bytes only.
  pub rotate_staged-Rotated :
      Mirrors (settled w) w.h_init
      → Ends
          (λ _. Rotated w key_type bytes key_len)
          (CallFailed w)
          (rotate_staged key_type (some bytes) key_len w)
  rotate_staged-Rotated m =
      Ends-imp
        (λ _ v (a, p, e).
          rotated-Rotated key_type bytes key_len w v m p e (ap (λ h. h.h_init) a.handle_is))
        (λ v e. e) rotate_staged-Done

  -- If the host's copy agrees with the device, an asynchronous rotation to a key of a legal length, its
  -- fence included, ends with the new key active, the key that was active before in the other slot,
  -- nothing queued, the host's copy in agreement and the latch open; or else some call of the runtime
  -- was answered with an error. The active slot has the key's bytes with zeros behind them up to 32;
  -- of a longer key, which an HMAC key may be, it has the first 32 bytes only.
  pub rotate_staged_async-Rotated :
      Mirrors (settled w) w.h_init
      → Ends
          (λ _ v. Rotated w key_type bytes key_len v × (v.rotation_pending_fence ≡ false))
          (CallFailed w)
          (rotate_staged_async key_type (some bytes) key_len w)
  rotate_staged_async-Rotated m =
      Ends-imp
        (λ _ v (a, p, e). (
          rotated-Rotated key_type bytes key_len w v m p e (ap (λ h. h.h_init) a.handle_is),
          ap (λ h. h.rotation_pending_fence) a.handle_is,
        ))
        (λ v e. e) rotate_staged_async-Done

  -- If the runtime answers every call with success and no fence was pending, the two ways return
  -- alike and leave the same device, the same handle and nothing queued.
  pub rotate_staged-eq-rotate_staged_async :
      ((n : ℕ) → (w.runtime n).success ≡ true)
      → w.rotation_pending_fence ≡ false
      → let s = rotate_staged key_type (some bytes) key_len w in
        let a = rotate_staged_async key_type (some bytes) key_len w in
        (s.0 ≡ some tt)
        × (a.0 ≡ some tt)
        × (s.1.device ≡ a.1.device)
        × (s.1.handle ≡ a.1.handle)
        × (s.1.pending ≡ [])
        × (a.1.pending ≡ [])
  rotate_staged-eq-rotate_staged_async ok open_latch =
      let no_failure = λ (v : World). not-CallFailed w v ok in
      let s = Ends-returned (Ends-imp (λ _ v q. q) no_failure rotate_staged-Done) in
      let a = Ends-returned (Ends-imp (λ _ v q. q) no_failure rotate_staged_async-Done) in
      let latched =
        λ (b : Bool). with_latch b (with_host (rotated w.handle key_type bytes key_len) w.handle) in
      (
        s.1,
        a.1,
        s.2.2 ∙ sym a.2.2,
        s.2.0.handle_is ∙ ap latched open_latch ∙ sym a.2.0.handle_is,
        s.2.1,
        a.2.1,
      )
