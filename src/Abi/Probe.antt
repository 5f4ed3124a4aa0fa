-- ===== src/Abi/Probe.antt =====
-- The checks of `smoke_engine_rotation_probe`, engine/abi/smoke_engine_abi.cpp, with the result records
-- of include/smoke_rotation_probe.h. A check is 0 when it passes. The arrays compared byte by byte are
-- lists of one length.
use gpu_rotation_engine.Base.{
  ℕ, ◌-◌, ◌^◌, Bool, true, false, ◌&&◌, ◌||◌, not, List, [], ◌∷◌, ◌++◌, take, get_or, bytes_eq, Two,
  at, ltb, leb, ◌==◌, if◌then◌else◌,
}
use gpu_rotation_engine.Sha256.{sha256_hash}
use gpu_rotation_engine.Engine.State.{
  Keyslot, fault_none, keyslot_empty, keyslot_p256, keyslot_aes256,
}
use gpu_rotation_engine.Engine.Keys.{tag_prefix, be32}

-- Big-endian bytes of the order of P-256.
abbrev pub probe_p256_n : List ℕ
probe_p256_n =
    0xFF ∷ 0xFF ∷ 0xFF ∷ 0xFF ∷ 0x00 ∷ 0x00 ∷ 0x00 ∷ 0x00 ∷ 0xFF ∷ 0xFF ∷ 0xFF ∷ 0xFF ∷ 0xFF ∷ 0xFF
    ∷ 0xFF ∷ 0xFF ∷ 0xBC ∷ 0xE6 ∷ 0xFA ∷ 0xAD ∷ 0xA7 ∷ 0x17 ∷ 0x9E ∷ 0x84 ∷ 0xF3 ∷ 0xB9 ∷ 0xCA
    ∷ 0xC2 ∷ 0xFC ∷ 0x63 ∷ 0x25 ∷ 0x51 ∷ []

-- The result of `probe_bigendian_cmp32` is negative, as the probe tests it.
unfoldable pub probe_below : List ℕ → List ℕ → Bool
probe_below [] b = false
probe_below (x ∷ xs) [] = false
probe_below (x ∷ xs) (y ∷ ys) =
    let rest = probe_below xs ys in if ltb x y then true else if ltb y x then false else rest

unfoldable pub probe_is_zero_32 : List ℕ → Bool
probe_is_zero_32 [] = true
probe_is_zero_32 (x ∷ xs) = (x == 0) && probe_is_zero_32 xs

unfoldable pub probe_compute_integrity_tag : ℕ → ℕ → List ℕ → List ℕ
probe_compute_integrity_tag slot_index integrity_version private_d =
    sha256_hash (tag_prefix ++ (be32 slot_index ++ (be32 integrity_version ++ take 32 private_d)))

-- Only the fields that the host code sets.
pub record SmokeSlotProbeResult : Type 0 where
  pub slot_index : ℕ
  pub epoch : ℕ
  pub key_type : ℕ
  pub key_len : ℕ
  pub check_scalar_range : ℕ
  pub check_mirror_match : ℕ
  pub check_integrity_tag : ℕ
  pub check_no_fault_flags : ℕ
  pub check_version_monotonic : ℕ
  pub check_key_len_valid : ℕ
  pub check_packing_sanity : ℕ
  pub check_on_curve : ℕ
  pub check_not_infinity : ℕ
  pub d_top_byte : ℕ
  pub pub_x_top_byte : ℕ
  pub fault_flags : ℕ
  pub integrity_version : ℕ
  pub healthy : ℕ

abbrev pub probe_unchecked : ℕ
probe_unchecked = 2 ^ 32 - 1

-- 0 for a check that passes, 1 for one that does not.
abbrev pub check : Bool → ℕ
check passes = if passes then 0 else 1

-- 0 stands for a type whose length is not checked.
abbrev pub expected_key_len : ℕ → ℕ
expected_key_len key_type = if key_type == keyslot_p256 || key_type == keyslot_aes256 then 32 else 0

abbrev pub key_len_ok : Keyslot → Bool
key_len_ok slot =
    let expected = expected_key_len slot.key_type in
    if ltb 0 expected then slot.key_len == expected else true

unfoldable pub scalar_in_range : List ℕ → Bool
scalar_in_range d = not (probe_is_zero_32 d) && probe_below d probe_p256_n

abbrev pub top4_zero : List ℕ → Bool
top4_zero d =
    (get_or d 0 0 == 0) && ((get_or d 1 0 == 0) && ((get_or d 2 0 == 0) && (get_or d 3 0 == 0)))

-- A slot that is empty.
abbrev pub empty_slot : ℕ → Keyslot → SmokeSlotProbeResult
empty_slot i slot = record {
  slot_index = i;
  epoch = slot.epoch;
  key_type = slot.key_type;
  key_len = slot.key_len;
  check_scalar_range = 0;
  check_mirror_match = 0;
  check_integrity_tag = 0;
  check_no_fault_flags = 0;
  check_version_monotonic = 0;
  check_key_len_valid = 0;
  check_packing_sanity = 0;
  check_on_curve = probe_unchecked;
  check_not_infinity = probe_unchecked;
  d_top_byte = get_or slot.private_d 0 0;
  pub_x_top_byte = get_or slot.pub_x 0 0;
  fault_flags = slot.fault_flags;
  integrity_version = slot.integrity_version;
  healthy = 1;
}

-- The correctness invariants that `healthy` takes together.
abbrev pub all_pass : SmokeSlotProbeResult → Bool
all_pass sp =
    (sp.check_scalar_range == 0)
    && ((sp.check_mirror_match == 0)
        && ((sp.check_integrity_tag == 0)
            && ((sp.check_no_fault_flags == 0)
                && ((sp.check_version_monotonic == 0) && (sp.check_key_len_valid == 0)))))

abbrev pub checked_slot : ℕ → Keyslot → SmokeSlotProbeResult
checked_slot i slot =
    let p256 = slot.key_type == keyslot_p256 in
    record (empty_slot i slot) {
      check_mirror_match = check (bytes_eq slot.private_d slot.private_d_mirror);
      check_no_fault_flags = check (slot.fault_flags == fault_none);
      check_version_monotonic = check (leb 1 slot.integrity_version);
      check_key_len_valid = check (key_len_ok slot);
      check_integrity_tag = check (
          bytes_eq (probe_compute_integrity_tag i slot.integrity_version slot.private_d)
            slot.integrity_tag);
      check_scalar_range = if p256 then check (scalar_in_range slot.private_d) else 0;
      check_packing_sanity = if p256 then check (not (top4_zero slot.private_d)) else 0;
    }

unfoldable pub probe_slot : ℕ → Keyslot → SmokeSlotProbeResult
probe_slot i slot =
    if slot.key_type == keyslot_empty
    then empty_slot i slot
    else record (checked_slot i slot) { healthy = if all_pass (checked_slot i slot) then 1 else 0 }

pub record SmokeRotationProbeResult : Type 0 where
  pub active_epoch : ℕ
  pub num_slots : ℕ
  pub overall_healthy : ℕ
  pub slots : Two SmokeSlotProbeResult
  pub check_active_slot_loaded : ℕ
  pub check_epoch_in_range : ℕ
  pub check_epochs_distinct : ℕ

-- `slots[active_epoch].key_type`: read without a bound, so `stray` says what stands behind the array.
abbrev pub active_type : (ℕ → ℕ) → Two SmokeSlotProbeResult → ℕ → ℕ
active_type stray slots e = if ltb e 2 then (at slots e).key_type else stray e

-- What the probe computes from the slots and the epoch that it has read from the device.
unfoldable pub rotation_probe_result : (ℕ → ℕ) → Two Keyslot → ℕ → SmokeRotationProbeResult
rotation_probe_result stray keyslots e =
    let slots : Two SmokeSlotProbeResult = record {
      zeroth = probe_slot 0 keyslots.zeroth;
      first = probe_slot 1 keyslots.first;
    } in
    let both_loaded =
      not (slots.zeroth.key_type == keyslot_empty) && not (slots.first.key_type == keyslot_empty) in
    let in_range = check (ltb e 2) in
    let loaded = check (not (active_type stray slots e == keyslot_empty)) in
    let distinct =
      if both_loaded then check (not (slots.zeroth.epoch == slots.first.epoch)) else 0 in
    record {
      active_epoch = e;
      num_slots = 2;
      slots = slots;
      check_epoch_in_range = in_range;
      check_active_slot_loaded = loaded;
      check_epochs_distinct = distinct;
      overall_healthy =
          if not (slots.zeroth.healthy == 0)
            && (not (slots.first.healthy == 0)
                && ((in_range == 0) && ((loaded == 0) && (distinct == 0))))
          then 1
          else 0;
    }
