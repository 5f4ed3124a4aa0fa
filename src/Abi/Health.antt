-- ===== src/Abi/Health.antt =====
-- A key that was loaded with its tag passes the probe.
use gpu_rotation_engine.Base.{
  ℕ, zero, suc, ◌<◌, ◌≡◌, ◌≢◌, refl, sym, ap, ◌∙◌, subst, Bool, true, false, ◌&&◌, not, List, arith,
  Two, at, bytes_eq, bytes_eq_refl, ltb, leb, ◌==◌, if◌then◌else◌, Bool-cases, inl, inr,
}
use gpu_rotation_engine.Sha256.Agree.{sha256_hash-eq-sha256_hash_host}
use gpu_rotation_engine.Engine.State.{Keyslot, fault_none, keyslot_empty, keyslot_p256}
use gpu_rotation_engine.Engine.Keys.{compute_integrity_tag_host, valid_key_len}
use gpu_rotation_engine.Engine.Rotation.Rotated.{Holds}
use gpu_rotation_engine.Abi.Probe.{
  probe_compute_integrity_tag, SmokeRotationProbeResult, check, key_len_ok, scalar_in_range,
  active_type, all_pass, checked_slot, probe_slot, rotation_probe_result,
}

-- The tag that the probe recomputes is the one that the engine stores.
pub probe_tag-eq-host_tag :
    (slot version : ℕ) (key : List ℕ)
    → probe_compute_integrity_tag slot version key ≡ compute_integrity_tag_host slot version key
unfolding probe_compute_integrity_tag compute_integrity_tag_host
probe_tag-eq-host_tag slot version key = sha256_hash-eq-sha256_hash_host _

check-true : {b : Bool} → b ≡ true → check b ≡ 0
check-true {b = true} e = refl
check-true {b = false} e = cc

valid_len :
    (key_type key_len : ℕ) (k : Keyslot)
    → valid_key_len key_type key_len ≡ true
    → k.key_type ≡ key_type
    → k.key_len ≡ key_len
    → key_len_ok k ≡ true
unfolding valid_key_len
valid_len key_type key_len k v t l = ground arith

-- A loaded slot passes, given a legal scalar if the key is for P-256, and a version that has not wrapped
-- to 0.
pub probe_slot-healthy :
    (i key_type key_len : ℕ) (key : List ℕ) (k : Keyslot)
    → Holds i key_type key key_len k
    → valid_key_len key_type key_len ≡ true
    → (key_type ≡ keyslot_p256 → scalar_in_range key ≡ true)
    → k.integrity_version ≢ 0
    → (probe_slot i k).healthy ≡ 1
unfolding probe_slot
probe_slot-healthy i key_type key_len key k h len_ok scalar version =
    elim (Bool-cases (k.key_type == keyslot_empty)) [
      | inl e ↦ rw e refl
      | inr e ↦ rw e (go (all_pass (checked_slot i k)) passes)
    ]
  where
    tag_ok :
        bytes_eq (probe_compute_integrity_tag i k.integrity_version k.private_d) k.integrity_tag
        ≡ true
    tag_ok =
        subst
          (λ t. bytes_eq (probe_compute_integrity_tag i k.integrity_version k.private_d) t ≡ true)
          (probe_tag-eq-host_tag i k.integrity_version k.private_d
            ∙ ap (compute_integrity_tag_host i k.integrity_version) h.key_is
            ∙ sym h.tag_is)
          (bytes_eq_refl (probe_compute_integrity_tag i k.integrity_version k.private_d))

    mirror_ok : bytes_eq k.private_d k.private_d_mirror ≡ true
    mirror_ok =
        subst (λ t. bytes_eq k.private_d t ≡ true) (h.key_is ∙ sym h.mirror_is)
          (bytes_eq_refl k.private_d)

    scalar_ok : (if k.key_type == keyslot_p256 then check (scalar_in_range k.private_d) else 0) ≡ 0
    scalar_ok = elim (Bool-cases (k.key_type == keyslot_p256)) [
      | inl e ↦
          rw e (check-true (ap scalar_in_range h.key_is ∙ scalar (ground (arith, e, h.type_is))))
      | inr e ↦ rw e refl
    ]

    flags_ok : (k.fault_flags == fault_none) ≡ true
    flags_ok = ground (arith, h.no_fault)

    version_ok : leb 1 k.integrity_version ≡ true
    version_ok = ground (arith, version)

    all_zero :
        {a b c d e f : ℕ}
        → a ≡ 0
        → b ≡ 0
        → c ≡ 0
        → d ≡ 0
        → e ≡ 0
        → f ≡ 0
        → ((a == 0) && ((b == 0) && ((c == 0) && ((d == 0) && ((e == 0) && (f == 0)))))) ≡ true
    all_zero p q r s t u = ground arith

    passes : all_pass (checked_slot i k) ≡ true
    passes =
        all_zero scalar_ok (check-true mirror_ok) (check-true tag_ok) (check-true flags_ok)
          (check-true version_ok)
          (check-true (valid_len key_type key_len k len_ok h.type_is h.len_is))

    go : (b : Bool) → b ≡ true → ◌≡◌ {A = ℕ} (if b then 1 else 0) 1
    go true e = refl
    go false e = cc

-- What the probe of a device shows of its active slot: in range, loaded and healthy.
pub record ActiveHealthy (r : SmokeRotationProbeResult) : Type 0 where
  pub healthy_is : (at r.slots r.active_epoch).healthy ≡ 1
  pub loaded_is : r.check_active_slot_loaded ≡ 0
  pub in_range_is : r.check_epoch_in_range ≡ 0

probe_slot-key_type : (i : ℕ) (k : Keyslot) → (probe_slot i k).key_type ≡ k.key_type
unfolding probe_slot
probe_slot-key_type i k = elim (Bool-cases (k.key_type == keyslot_empty)) [
  | inl e ↦ rw e refl
  | inr e ↦ rw e refl
]

slots_at :
    (stray : ℕ → ℕ) (t : Two Keyslot) (e n : ℕ)
    → n < 2
    → at (rotation_probe_result stray t e).slots n ≡ probe_slot n (at t n)
unfolding rotation_probe_result
slots_at stray t e zero h = refl
slots_at stray t e (suc zero) h = refl
slots_at stray t e (suc (suc n)) h = absurd (omega arith)

pub active_healthy :
    (stray : ℕ → ℕ) (t : Two Keyslot) (e : ℕ)
    → e < 2
    → (probe_slot e (at t e)).healthy ≡ 1
    → (at t e).key_type ≢ keyslot_empty
    → ActiveHealthy (rotation_probe_result stray t e)
unfolding rotation_probe_result
active_healthy stray t e h well loaded = record {
  healthy_is = ap (λ s. s.healthy) (slots_at stray t e e h) ∙ well;
  loaded_is = loaded_ok;
  in_range_is = in_range;
}
  where
    type_at : (at (rotation_probe_result stray t e).slots e).key_type ≡ (at t e).key_type
    type_at = ap (λ s. s.key_type) (slots_at stray t e e h) ∙ probe_slot-key_type e (at t e)

    in_range : (rotation_probe_result stray t e).check_epoch_in_range ≡ 0
    in_range = check-true {b = ltb e 2} (ground arith)

    loaded_ok : (rotation_probe_result stray t e).check_active_slot_loaded ≡ 0
    loaded_ok =
        check-true
          {b = not (active_type stray (rotation_probe_result stray t e).slots e == keyslot_empty)}
          (ground (arith, type_at))

pub probe_slot-fields :
    (i : ℕ) (k : Keyslot)
    → ((probe_slot i k).key_type ≡ k.key_type) × ((probe_slot i k).epoch ≡ k.epoch)
unfolding probe_slot
probe_slot-fields i k = elim (Bool-cases (k.key_type == keyslot_empty)) [
  | inl e ↦ rw e (refl, refl)
  | inr e ↦ rw e (refl, refl)
]
