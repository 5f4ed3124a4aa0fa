-- ===== src/Engine/Rotation/Undo.antt =====
-- A staged key taken back by `engine_rollback_rotation`.
use gpu_rotation_engine.Base.{
  ℕ, ◌<◌, ◌≡◌, ◌≢◌, sym, ap, ◌∙◌, subst, true, some, Option, List, [], arith, Two, at, put,
  at-put_self, at-put_ne, other_slot,
}
use gpu_rotation_engine.Engine.State.{Keyslot, zero_keyslot, EngineState}
use gpu_rotation_engine.Engine.Cuda.{World, M, ◌>>◌, settled}
use gpu_rotation_engine.Engine.Cuda.Run.{Ends, After-start, CallFailed, Ends-bind, Ends-imp}
use gpu_rotation_engine.Engine.Keys.{valid_key_len, store_typed_key}
use gpu_rotation_engine.Engine.Keys.Spec.{install}
use gpu_rotation_engine.Engine.Rotation.{
  next_slot, engine_prepare_next_key_typed, engine_rollback_rotation,
}
use gpu_rotation_engine.Engine.Rotation.Spec.{
  cleared, with_host, Done, engine_rollback_rotation-Ends,
}
use gpu_rotation_engine.Engine.Rotation.Prepare.{engine_prepare_next_key_typed-Ends}
use gpu_rotation_engine.Engine.Rotation.Rotated.{Mirrors, installed-Mirrors, installed-keeps}

unfoldable pub stage_and_undo : ℕ → Option (List ℕ) → ℕ → M (Unit {0})
stage_and_undo key_type key_data key_len = do
  engine_prepare_next_key_typed key_type key_data key_len
  engine_rollback_rotation

-- The slot that is not active is wiped, the active one and the epoch are as before, nothing is queued
-- and the host's copy agrees.
pub record Undone (w v : World) : Type 0 where
  pub wiped : at v.device.keyslots (other_slot v.device.active_epoch) ≡ zero_keyslot
  pub active_kept :
      at v.device.keyslots v.device.active_epoch ≡ at (settled w).keyslots (settled w).active_epoch
  pub epoch_kept : v.device.active_epoch ≡ (settled w).active_epoch
  pub nothing_queued : v.pending ≡ []
  pub mirrored : Mirrors v.device v.h_init

module _ (w : World) (key_type : ℕ) (bytes : List ℕ) (key_len : ℕ) (ready : w.d_state ≡ true)
    (len_ok : valid_key_len key_type key_len ≡ true) (len_pos : key_len ≢ 0)
    (m : Mirrors (settled w) w.h_init) where
  slot : ℕ
  slot = next_slot w.handle

  undone : EngineState → EngineState
  undone st = cleared slot (install w.handle slot key_type bytes key_len st)

  stage_and_undo-Done :
      Ends
        (λ _. Done w (undone (settled w)) (with_host undone w.handle))
        (CallFailed w)
        (stage_and_undo key_type (some bytes) key_len w)
  unfolding stage_and_undo store_typed_key undone slot
  stage_and_undo-Done =
      Ends-bind (engine_prepare_next_key_typed key_type (some bytes) key_len) _ w
        (engine_prepare_next_key_typed-Ends (After-start w) ready key_type bytes key_len len_ok
          len_pos)
        (λ _ v a. engine_rollback_rotation-Ends a.0 ready)

  undone-Mirrors : Mirrors (undone (settled w)) (undone w.h_init)
  unfolding undone slot store_typed_key
  undone-Mirrors =
      let i =
        installed-Mirrors key_type bytes key_len w.handle (next_slot w.handle) (settled w) m in
      record {
        keyslots_agree =
            ap {A = Two Keyslot} {B = Two Keyslot} (λ t. put t (next_slot w.handle) zero_keyslot)
              i.keyslots_agree;
        epoch_agrees = i.epoch_agrees;
        status_agrees = i.status_agrees;
        epoch_in_range = i.epoch_in_range;
      }

  -- If the host's copy agrees with the device, staging a key of a legal length and rolling it back ends
  -- with the inactive slot wiped, the active slot and the epoch as they were, nothing queued and the
  -- host's copy in agreement; or else some call of the runtime was answered with an error.
  pub stage_and_undo-Undone :
      Ends (λ _. Undone w) (CallFailed w) (stage_and_undo key_type (some bytes) key_len w)
  unfolding undone slot store_typed_key
  stage_and_undo-Undone =
      Ends-imp
        (λ _ v (a, p, e). record {
          wiped =
              ap (λ (s : EngineState). at s.keyslots (other_slot s.active_epoch)) e
              ∙ ap (λ n. at (undone (settled w)).keyslots n) same_slot
              ∙ at-put_self (install w.handle slot key_type bytes key_len (settled w)).keyslots slot
                  zero_keyslot;
          active_kept =
              ap (λ (s : EngineState). at s.keyslots s.active_epoch) e
              ∙ at-put_ne (install w.handle slot key_type bytes key_len (settled w)).keyslots slot
                  (settled w).active_epoch zero_keyslot slot_ok m.epoch_in_range slot_ne
              ∙ installed-keeps key_type bytes key_len w.handle slot (settled w).active_epoch
                  (settled w) slot_ok m.epoch_in_range slot_ne;
          epoch_kept = ap (λ (s : EngineState). s.active_epoch) e;
          nothing_queued = p;
          mirrored =
              subst (λ s. Mirrors s v.h_init) (sym e)
                (subst (Mirrors (undone (settled w))) (sym (ap (λ h. h.h_init) a.handle_is))
                  undone-Mirrors);
        })
        (λ v e. e) stage_and_undo-Done
    where
      same_slot : other_slot (settled w).active_epoch ≡ slot
      same_slot = ap other_slot (sym m.epoch_agrees)

      slot_ok : slot < 2
      slot_ok = omega arith

      slot_ne : slot ≢ (settled w).active_epoch
      slot_ne = omega (arith, m.epoch_agrees, m.epoch_in_range)
