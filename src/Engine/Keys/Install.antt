-- ===== src/Engine/Keys/Install.antt =====
-- What the copies of a key load do to the device is what the host does to its own copy.
use gpu_rotation_engine.Base.{ℕ, zero, suc, ◌<◌, ◌≡◌, refl, inl, inr, List, arith, ◌==◌, Bool-cases}
use gpu_rotation_engine.Engine.State.{EngineState, keyslot_aes256}
use gpu_rotation_engine.Engine.Device.{apply, apply_all}
use gpu_rotation_engine.Engine.Keys.{key_writes, store_key, typed_key_writes, store_typed_key}

pub key_writes_install :
    (slot : ℕ) (key tag : List ℕ) (version : ℕ) (d : EngineState)
    → slot < 2
    → apply_all (key_writes slot key tag version) d ≡ store_key slot key tag version d
unfolding apply_all apply key_writes store_key
key_writes_install zero key tag version d h = refl
key_writes_install (suc zero) key tag version d h = refl
key_writes_install (suc (suc n)) key tag version d h = absurd (omega arith)

pub typed_key_writes_install :
    (slot key_type key_len : ℕ) (key tag : List ℕ) (version : ℕ) (d : EngineState)
    → slot < 2
    → apply_all (typed_key_writes slot key_type key_len key tag version) d
      ≡ store_typed_key slot key_type key_len key tag version d
unfolding apply_all apply typed_key_writes store_typed_key
typed_key_writes_install zero key_type key_len key tag version d h =
    elim (Bool-cases (key_type == keyslot_aes256)) [ inl e ↦ rw e | inr e ↦ rw e ]
typed_key_writes_install (suc zero) key_type key_len key tag version d h =
    elim (Bool-cases (key_type == keyslot_aes256)) [ inl e ↦ rw e | inr e ↦ rw e ]
typed_key_writes_install (suc (suc n)) key_type key_len key tag version d h = absurd (omega arith)
