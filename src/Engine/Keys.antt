-- ===== src/Engine/Keys.antt =====
-- Key loading, core/persistent_engine/engine_host.cpp: `engine_set_key`, `engine_set_key_typed` and
-- its wrappers. A function that the source declares to return bool is an action that may fail.
-- A key argument is the list of the bytes behind the pointer, `none` for a null pointer. Rows of
-- checked copies are `memcpy_all`; the wipes of stack copies leave no state and are not modelled.
pub mod Install
pub mod Spec
use gpu_rotation_engine.Base.{
  ℕ, ◌+◌, ◌-◌, ◌*◌, ◌/◌, ◌%◌, ◌^◌, Bool, true, false, ◌&&◌, ◌||◌, not, Option, none, some, List, [],
  ◌∷◌, ◌++◌, take, replicate, Two, at, put, ltb, leb, ◌==◌, if◌then◌else◌,
}
use gpu_rotation_engine.Sha256.{sha256_hash_host}
use gpu_rotation_engine.Engine.State.{
  Keyslot, KeyslotIntegrityStatus, EngineState, engine_max_key_slots, fault_none, keyslot_empty,
  keyslot_p256, keyslot_aes256, keyslot_hmac, keyslot_hmac_max_len,
}
use gpu_rotation_engine.Engine.Device.{SlotField, StatusField, Write}
use gpu_rotation_engine.Engine.AesKey.{aes256_expand_key_host}
use gpu_rotation_engine.Engine.Cuda.{
  EngineHandle, World, M, ◌>>=◌, ◌>>◌, pure, guard, non_null, gets, modify, memcpy_all, synchronize,
}

-- "smoke:keyslot-tag"
abbrev pub tag_prefix : List ℕ
tag_prefix =
    b's' ∷ b'm' ∷ b'o' ∷ b'k' ∷ b'e' ∷ b':' ∷ b'k' ∷ b'e' ∷ b'y' ∷ b's' ∷ b'l' ∷ b'o' ∷ b't' ∷ b'-'
    ∷ b't' ∷ b'a' ∷ b'g' ∷ []

-- A uint32_t as four bytes, big-endian.
abbrev pub be32 : ℕ → List ℕ
be32 v = v / 2 ^ 24 % 256 ∷ v / 2 ^ 16 % 256 ∷ v / 2 ^ 8 % 256 ∷ v % 256 ∷ []

-- tag = SHA-256 (prefix || slot_index || integrity_version || private_d)
unfoldable pub compute_integrity_tag_host : ℕ → ℕ → List ℕ → List ℕ
compute_integrity_tag_host slot_index integrity_version private_d =
    sha256_hash_host
      (tag_prefix ++ (be32 slot_index ++ (be32 integrity_version ++ take 32 private_d)))

-- `integrity_version + 1` on uint32_t, from the host's copy of the slot.
abbrev pub next_version : EngineHandle → ℕ → ℕ
next_version h slot = ((at h.h_init.keyslots slot).integrity_version + 1) % 2 ^ 32

-- The copies that install a key and its integrity fields, without type and length.
unfoldable pub key_writes : ℕ → List ℕ → List ℕ → ℕ → List Write
key_writes slot key tag version =
    Write.keyslot slot (SlotField.private_d key)
    ∷ Write.keyslot slot (SlotField.private_d_mirror key)
    ∷ Write.keyslot slot (SlotField.integrity_version version)
    ∷ Write.keyslot slot (SlotField.fault_flags fault_none)
    ∷ Write.keyslot slot (SlotField.integrity_tag tag)
    ∷ Write.status slot (StatusField.version version)
    ∷ Write.status slot (StatusField.flags fault_none)
    ∷ []

abbrev pub fresh_status : KeyslotIntegrityStatus → ℕ → KeyslotIntegrityStatus
fresh_status s version = record s { integrity_version = version; fault_flags = fault_none }

-- The host's copy of the same.
unfoldable pub store_key : ℕ → List ℕ → List ℕ → ℕ → EngineState → EngineState
store_key slot key tag version st = record st {
  keyslots = put st.keyslots slot (record (at st.keyslots slot) {
    private_d = key;
    private_d_mirror = key;
    integrity_tag = tag;
    integrity_version = version;
    fault_flags = fault_none;
  });
  integrity_status = record (st.integrity_status) {
    slots =
        put st.integrity_status.slots slot
          (fresh_status (at st.integrity_status.slots slot) version);
  };
}

unfoldable pub engine_set_key : Option (List ℕ) → M (Unit {0})
engine_set_key private_key = do
  d_state ← gets (λ w. w.d_state)
  guard d_state
  key ← non_null private_key
  version ← gets (λ w. next_version w.handle 0)
  let tag = compute_integrity_tag_host 0 version key
  memcpy_all (key_writes 0 key tag version)
  synchronize
  modify (λ h. record h { h_init = store_key 0 key tag version h.h_init })

-- The switch over `key_type`: which lengths each type takes; other types are refused.
unfoldable pub valid_key_len : ℕ → ℕ → Bool
valid_key_len key_type key_len =
    if key_type == keyslot_p256
    then key_len == 32
    else if key_type == keyslot_aes256
    then key_len == 32
    else if key_type == keyslot_hmac
    then not (key_len == 0) && leb key_len keyslot_hmac_max_len
    else key_type == keyslot_empty

-- The first `min (key_len, 32)` bytes, zero-padded to 32.
unfoldable pub padded_key : List ℕ → ℕ → List ℕ
padded_key key_data key_len =
    let copy_len = if leb key_len 32 then key_len else 32 in
    take 32 (take copy_len key_data ++ replicate 32 0)

abbrev pub round_key_writes : ℕ → ℕ → List ℕ → List Write
round_key_writes slot key_type key =
    if key_type == keyslot_aes256
    then Write.keyslot slot (SlotField.aes_roundkeys (aes256_expand_key_host key)) ∷ []
    else []

unfoldable pub typed_key_writes : ℕ → ℕ → ℕ → List ℕ → List ℕ → ℕ → List Write
typed_key_writes slot key_type key_len key tag version =
    Write.keyslot slot (SlotField.key_type key_type)
    ∷ Write.keyslot slot (SlotField.key_len key_len)
    ∷ Write.keyslot slot (SlotField.private_d key)
    ∷ Write.keyslot slot (SlotField.private_d_mirror key)
    ∷ (round_key_writes slot key_type key
        ++ (Write.keyslot slot (SlotField.integrity_version version)
            ∷ Write.keyslot slot (SlotField.epoch version)
            ∷ Write.keyslot slot (SlotField.fault_flags fault_none)
            ∷ Write.keyslot slot (SlotField.integrity_tag tag)
            ∷ Write.status slot (StatusField.version version)
            ∷ Write.status slot (StatusField.flags fault_none)
            ∷ []))

-- A slot with the key installed.
abbrev pub typed_keyslot : ℕ → ℕ → List ℕ → List ℕ → ℕ → Keyslot → Keyslot
typed_keyslot key_type key_len key tag version k = record k {
  key_type = key_type;
  key_len = key_len;
  private_d = key;
  private_d_mirror = key;
  integrity_tag = tag;
  integrity_version = version;
  epoch = version;
  fault_flags = fault_none;
  aes_roundkeys =
      if key_type == keyslot_aes256 then aes256_expand_key_host key else k.aes_roundkeys;
}

unfoldable pub store_typed_key : ℕ → ℕ → ℕ → List ℕ → List ℕ → ℕ → EngineState → EngineState
store_typed_key slot key_type key_len key tag version st = record st {
  keyslots =
      put st.keyslots slot (typed_keyslot key_type key_len key tag version (at st.keyslots slot));
  integrity_status = record (st.integrity_status) {
    slots =
        put st.integrity_status.slots slot
          (fresh_status (at st.integrity_status.slots slot) version);
  };
}

unfoldable pub engine_set_key_typed_impl : ℕ → ℕ → Option (List ℕ) → ℕ → M (Unit {0})
engine_set_key_typed_impl slot key_type key_data key_len = do
  d_state ← gets (λ w. w.d_state)
  guard d_state
  bytes ← non_null key_data
  guard (ltb slot engine_max_key_slots)
  guard (valid_key_len key_type key_len)
  version ← gets (λ w. next_version w.handle slot)
  let key = padded_key bytes key_len
  let tag = compute_integrity_tag_host slot version key
  memcpy_all (typed_key_writes slot key_type key_len key tag version)
  modify (λ h. record h { h_init = store_typed_key slot key_type key_len key tag version h.h_init })

unfoldable pub engine_set_key_typed : ℕ → ℕ → Option (List ℕ) → ℕ → M (Unit {0})
engine_set_key_typed slot key_type key_data key_len = do
  engine_set_key_typed_impl slot key_type key_data key_len
  synchronize

engine_set_key_p256 : Option (List ℕ) → M (Unit {0})
engine_set_key_p256 private_key = engine_set_key_typed 0 keyslot_p256 private_key 32

engine_set_key_aes256 : ℕ → Option (List ℕ) → M (Unit {0})
engine_set_key_aes256 slot key = engine_set_key_typed slot keyslot_aes256 key 32

engine_set_key_hmac : ℕ → Option (List ℕ) → ℕ → M (Unit {0})
engine_set_key_hmac slot key key_len = engine_set_key_typed slot keyslot_hmac key key_len

engine_get_key_type : World → ℕ → ℕ
engine_get_key_type w slot =
    if leb engine_max_key_slots slot then keyslot_empty else (at w.h_init.keyslots slot).key_type
