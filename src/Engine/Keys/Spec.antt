-- ===== src/Engine/Keys/Spec.antt =====
-- How the typed key load ends, from any state that `After` describes.
use gpu_rotation_engine.Base.{
  ℕ, ◌<◌, ◌≡◌, subst, true, some, List, [], arith, ltb, min, take, replicate, ◌++◌, Copied,
  Copied-take, padded-Copied, leb, if◌then◌else◌,
}
use gpu_rotation_engine.Engine.State.{EngineState, engine_max_key_slots}
use gpu_rotation_engine.Engine.Cuda.{EngineHandle, World, memcpy_all, synchronize}
use gpu_rotation_engine.Engine.Cuda.Run.{
  Ends, After, CallFailed, Ends-bind, Ends-guard, Ends-gets, Ends-non_null, memcpy_all-Ends,
  modify-Ends, synchronize-Ends,
}
use gpu_rotation_engine.Engine.Keys.{
  compute_integrity_tag_host, next_version, valid_key_len, padded_key, typed_key_writes,
  store_typed_key, engine_set_key_typed_impl, engine_set_key_typed,
}
use gpu_rotation_engine.Engine.Keys.Install.{typed_key_writes_install}

-- A key load as a function on an `EngineState`, the version and the tag taken from the handle.
abbrev pub install : EngineHandle → ℕ → ℕ → List ℕ → ℕ → EngineState → EngineState
install k slot key_type bytes key_len =
    store_typed_key slot key_type key_len (padded_key bytes key_len)
      (compute_integrity_tag_host slot (next_version k slot) (padded_key bytes key_len))
      (next_version k slot)

abbrev pub loaded : EngineHandle → ℕ → ℕ → List ℕ → ℕ → EngineHandle
loaded k slot key_type bytes key_len = record k {
  h_init = install k slot key_type bytes key_len k.h_init;
}

module _ (slot key_type : ℕ) (bytes : List ℕ) (key_len : ℕ) (slot_ok : slot < 2)
    (len_ok : valid_key_len key_type key_len ≡ true) where
  impl_here :
      {w : World} {d : EngineState} {w' : World}
      → After w d w'.handle w'
      → w'.handle.d_state ≡ true
      → Ends
          (λ _.
            After w
              (install w'.handle slot key_type bytes key_len d)
              (loaded w'.handle slot key_type bytes key_len))
          (CallFailed w)
          (engine_set_key_typed_impl slot key_type (some bytes) key_len w')
  unfolding engine_set_key_typed_impl
  impl_here {w} {d} {w'} a ready =
      let key = padded_key bytes key_len in
      let version = next_version w'.handle slot in
      let tag = compute_integrity_tag_host slot version key in
      rw (← typed_key_writes_install slot key_type key_len key tag version d slot_ok) (
        Ends-gets _ _ w' (
          Ends-guard w'.d_state _ w' ready (
            Ends-non_null bytes _ w' (
              Ends-guard (ltb slot engine_max_key_slots) _ w' lt_test (
                Ends-guard (valid_key_len key_type key_len) _ w' len_ok (
                  Ends-gets _ _ w' (
                    Ends-bind (memcpy_all (typed_key_writes slot key_type key_len key tag version))
                      _ w' (memcpy_all-Ends _ a) (λ _ v b. modify-Ends b _ _))))))))
    where
      lt_test : ltb slot engine_max_key_slots ≡ true
      lt_test = ground arith

  pub impl-Ends :
      {w : World} {d : EngineState} {k : EngineHandle} {w' : World}
      → After w d k w'
      → k.d_state ≡ true
      → Ends
          (λ _.
            After w
              (install k slot key_type bytes key_len d)
              (loaded k slot key_type bytes key_len))
          (CallFailed w)
          (engine_set_key_typed_impl slot key_type (some bytes) key_len w')
  impl-Ends {w} {d} {k} {w'} a ready =
      subst
        (λ k.
          After w d k w'
          → k.d_state ≡ true
          → Ends
              (λ _.
                After w (install k slot key_type bytes key_len d)
                  (loaded k slot key_type bytes key_len))
              (CallFailed w) (engine_set_key_typed_impl slot key_type (some bytes) key_len w'))
        a.handle_is impl_here a ready

  -- With the synchronisation the device holds the key at the end.
  pub engine_set_key_typed-Ends :
      {w : World} {d : EngineState} {k : EngineHandle} {w' : World}
      → After w d k w'
      → k.d_state ≡ true
      → Ends
          (λ _ v.
            After w
              (install k slot key_type bytes key_len d)
              (loaded k slot key_type bytes key_len)
              v
            × (v.pending ≡ [])
            × (v.device ≡ install k slot key_type bytes key_len d))
          (CallFailed w)
          (engine_set_key_typed slot key_type (some bytes) key_len w')
  unfolding engine_set_key_typed
  engine_set_key_typed-Ends {w} {d} {k} {w'} a ready =
      Ends-bind (engine_set_key_typed_impl slot key_type (some bytes) key_len) (λ _. synchronize) w'
        (impl-Ends a ready) (λ _ v b. synchronize-Ends b)

-- The key material of a slot: as many of the given bytes as there are, up to 32, and zeros.
pub padded_key-Copied :
    (bytes : List ℕ) (key_len : ℕ) → Copied (min key_len 32) bytes (padded_key bytes key_len)
unfolding padded_key
padded_key-Copied bytes key_len =
    let copy_len : (if leb key_len 32 then key_len else 32) ≡ min key_len 32 = ground arith in
    rw copy_len (
      Copied-take (min key_len 32) 32 bytes (take (min key_len 32) bytes ++ replicate 32 0)
        (omega arith) (padded-Copied (min key_len 32) 32 bytes))
