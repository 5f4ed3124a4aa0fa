-- ===== src/Engine/Rotation/Rotated.antt =====
-- The states that a whole rotation leaves, and what its client sees of them.
use gpu_rotation_engine.Base.{
  ℕ, ◌+◌, ◌%◌, ◌^◌, min, Copied, ◌<◌, ◌≡◌, ◌≢◌, refl, ap, ◌∙◌, sym, subst, List, [], arith, at, put,
  at-put_self, at-put_ne, other_slot,
}
use gpu_rotation_engine.Engine.State.{Keyslot, EngineState, EngineIntegrityStatus, fault_none}
use gpu_rotation_engine.Engine.Cuda.{World, EngineHandle, settled}
use gpu_rotation_engine.Engine.Keys.{
  compute_integrity_tag_host, next_version, padded_key, store_typed_key, typed_keyslot,
  fresh_status,
}
use gpu_rotation_engine.Engine.Keys.Spec.{install, padded_key-Copied}
use gpu_rotation_engine.Engine.Rotation.{next_slot}
use gpu_rotation_engine.Engine.Rotation.Spec.{with_epoch}

-- The host's copy agrees with the device on the keys, the epoch and the integrity status.
pub record Mirrors (d h : EngineState) : Type 0 where
  pub keyslots_agree : h.keyslots ≡ d.keyslots
  pub epoch_agrees : h.active_epoch ≡ d.active_epoch
  pub status_agrees : h.integrity_status ≡ d.integrity_status
  pub epoch_in_range : d.active_epoch < 2

-- The slot holds this key, with its mirror, no fault, and the tag over slot, version and key.
pub record Holds (slot key_type : ℕ) (key : List ℕ) (key_len : ℕ) (k : Keyslot) : Type 0 where
  pub type_is : k.key_type ≡ key_type
  pub key_is : k.private_d ≡ key
  pub mirror_is : k.private_d_mirror ≡ key
  pub len_is : k.key_len ≡ key_len
  pub no_fault : k.fault_flags ≡ fault_none
  pub epoch_is_version : k.epoch ≡ k.integrity_version
  pub tag_is : k.integrity_tag ≡ compute_integrity_tag_host slot k.integrity_version key

-- What the client of a rotation sees on the device: the bytes of the new key, up to 32 of them, stand in
-- the active slot with zeros behind, the key that was active before is in the other slot, nothing is
-- queued, and the host's copy agrees.
pub record Rotated (w : World) (key_type : ℕ) (bytes : List ℕ) (key_len : ℕ) (v : World)
    : Type 0 where
  pub flipped : v.device.active_epoch ≡ other_slot (settled w).active_epoch
  pub new_key :
      Holds v.device.active_epoch key_type
        (padded_key bytes key_len)
        key_len
        (at v.device.keyslots v.device.active_epoch)
  pub new_bytes :
      Copied (min key_len 32) bytes (at v.device.keyslots v.device.active_epoch).private_d
  pub new_version :
      (at v.device.keyslots v.device.active_epoch).integrity_version
      ≡ ((at w.h_init.keyslots v.device.active_epoch).integrity_version + 1) % 2 ^ 32
  pub old_key :
      at v.device.keyslots (other_slot v.device.active_epoch)
      ≡ at (settled w).keyslots (settled w).active_epoch
  pub nothing_queued : v.pending ≡ []
  pub mirrored : Mirrors v.device v.h_init

-- The states of device and host after a rotation, as functions of those before.
abbrev pub rotated : EngineHandle → ℕ → List ℕ → ℕ → EngineState → EngineState
rotated k key_type bytes key_len st =
    with_epoch (next_slot k) (install k (next_slot k) key_type bytes key_len st)

module _ (key_type : ℕ) (bytes : List ℕ) (key_len : ℕ) where
  installed-Holds :
      (k : EngineHandle) (slot : ℕ) (st : EngineState)
      → Holds slot key_type
          (padded_key bytes key_len)
          key_len
          (at (install k slot key_type bytes key_len st).keyslots slot)
  unfolding store_typed_key
  installed-Holds k slot st =
      subst (Holds slot key_type (padded_key bytes key_len) key_len)
        (sym (at-put_self st.keyslots slot _))
        (record {
          type_is = refl;
          key_is = refl;
          mirror_is = refl;
          len_is = refl;
          no_fault = refl;
          epoch_is_version = refl;
          tag_is = refl;
        })

  pub installed-keeps :
      (k : EngineHandle) (slot other : ℕ) (st : EngineState)
      → slot < 2
      → other < 2
      → slot ≢ other
      → at (install k slot key_type bytes key_len st).keyslots other ≡ at st.keyslots other
  unfolding store_typed_key
  installed-keeps k slot other st h g ne = at-put_ne st.keyslots slot other _ h g ne

  pub installed-Mirrors :
      (k : EngineHandle) (slot : ℕ) (d : EngineState)
      → Mirrors d k.h_init
      → Mirrors
          (install k slot key_type bytes key_len d)
          (install k slot key_type bytes key_len k.h_init)
  unfolding store_typed_key
  installed-Mirrors k slot d m = record {
    keyslots_agree =
        ap
          (λ t. put t slot (
            typed_keyslot key_type key_len (padded_key bytes key_len)
              (compute_integrity_tag_host slot (next_version k slot) (padded_key bytes key_len))
              (next_version k slot) (at t slot)))
          m.keyslots_agree;
    epoch_agrees = m.epoch_agrees;
    status_agrees =
        ap {A = EngineIntegrityStatus} {B = EngineIntegrityStatus}
          (λ t. record t {
            slots = put t.slots slot (fresh_status (at t.slots slot) (next_version k slot));
          })
          m.status_agrees;
    epoch_in_range = m.epoch_in_range;
  }

  -- The end of a rotation, from the states that it ends in.
  pub rotated-Rotated :
      (w v : World)
      → Mirrors (settled w) w.h_init
      → v.pending ≡ []
      → v.device ≡ rotated w.handle key_type bytes key_len (settled w)
      → v.h_init ≡ rotated w.handle key_type bytes key_len w.h_init
      → Rotated w key_type bytes key_len v
  unfolding store_typed_key
  rotated-Rotated w v m p e f = record {
    flipped = ap (λ s. s.active_epoch) e ∙ ap other_slot m.epoch_agrees;
    new_key =
        subst
          (λ s.
            Holds s.active_epoch key_type (padded_key bytes key_len) key_len
              (at s.keyslots s.active_epoch))
          (sym e) (installed-Holds w.handle (next_slot w.handle) (settled w));
    new_bytes =
        subst
          (λ (s : EngineState).
            Copied (min key_len 32) bytes (at s.keyslots s.active_epoch).private_d)
          (sym e)
          (subst (Copied (min key_len 32) bytes)
            (sym (installed-Holds w.handle slot (settled w)).key_is)
            (padded_key-Copied bytes key_len));
    new_version =
        ap (λ (s : EngineState). (at s.keyslots s.active_epoch).integrity_version) e
        ∙ version_of_new
        ∙ ap (λ (s : EngineState). next_version w.handle s.active_epoch) (sym e);
    old_key =
        subst
          (λ s.
            at s.keyslots (other_slot s.active_epoch)
            ≡ at (settled w).keyslots (settled w).active_epoch)
          (sym e) (kept ∙ ap (at (settled w).keyslots) back);
    nothing_queued = p;
    mirrored =
        subst (λ s. Mirrors s v.h_init) (sym e)
          (subst (Mirrors after_device) (sym f) after_mirrors);
  }
    where
      slot : ℕ
      slot = next_slot w.handle

      after_device : EngineState
      after_device = rotated w.handle key_type bytes key_len (settled w)

      back : other_slot slot ≡ (settled w).active_epoch
      back = omega (arith, m.epoch_agrees, m.epoch_in_range)

      version_of_new :
          (at after_device.keyslots slot).integrity_version ≡ next_version w.handle slot
      version_of_new =
          ap (λ (t : Keyslot). t.integrity_version) (at-put_self (settled w).keyslots slot _)

      kept : at after_device.keyslots (other_slot slot) ≡ at (settled w).keyslots (other_slot slot)
      kept =
          installed-keeps w.handle slot (other_slot slot) (settled w) (omega arith) (omega arith)
            (omega arith)

      after_mirrors : Mirrors after_device (rotated w.handle key_type bytes key_len w.h_init)
      after_mirrors =
          let i = installed-Mirrors w.handle slot (settled w) m in
          record {
            keyslots_agree = i.keyslots_agree;
            epoch_agrees = refl;
            status_agrees = i.status_agrees;
            epoch_in_range = omega arith;
          }
