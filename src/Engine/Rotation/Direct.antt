-- ===== src/Engine/Rotation/Direct.antt =====
-- `engine_rotate_key`, which writes a key and, unless the policy is DISABLED, flips the epoch.
use gpu_rotation_engine.Base.{
  ℕ, ◌<◌, ◌≡◌, refl, sym, ap, ◌∙◌, subst, Bool, true, false, some, List, [], arith, Two, at, put,
  at-put_self, at-put_ne, other_slot, other_slot_lem, ◌==◌, if◌then◌else◌,
}
use gpu_rotation_engine.Engine.State.{
  Keyslot, EngineState, EngineIntegrityStatus, fault_none, policy_disabled,
}
use gpu_rotation_engine.Engine.Device.{apply}
use gpu_rotation_engine.Engine.Cuda.{
  EngineHandle, World, memcpy_async, memcpy_all, synchronize, settled,
}
use gpu_rotation_engine.Engine.Cuda.Run.{
  Ends, After, After-start, CallFailed, Ends-bind, Ends-imp, Ends-guard, Ends-gets, Ends-non_null,
  memcpy_all-Ends, memcpy_async-Ends, synchronize-Ends,
}
use gpu_rotation_engine.Engine.Keys.{
  compute_integrity_tag_host, next_version, key_writes, store_key, fresh_status,
}
use gpu_rotation_engine.Engine.Keys.Install.{key_writes_install}
use gpu_rotation_engine.Engine.Rotation.{
  next_slot, rotate_in_place, rotate_and_flip, engine_rotate_key,
}
use gpu_rotation_engine.Engine.Rotation.Spec.{with_epoch, with_host, Done, modify-Done}
use gpu_rotation_engine.Engine.Rotation.Rotated.{Mirrors}

-- The key written to a slot, the version and the tag taken from the handle.
abbrev pub written : EngineHandle → ℕ → List ℕ → EngineState → EngineState
written k slot key =
    store_key slot key (compute_integrity_tag_host slot (next_version k slot) key)
      (next_version k slot)

module _ {w : World} {d : EngineState} {k : EngineHandle} {w' : World} (key : List ℕ) where
  written_all :
      (slot : ℕ) (tag : List ℕ) (version : ℕ)
      → slot < 2
      → After w d k w'
      → Ends
          (λ _. After w (store_key slot key tag version d) k)
          (CallFailed w)
          (memcpy_all (key_writes slot key tag version) w')
  written_all slot tag version h a =
      subst
        (λ s.
          Ends (λ _. After w s k) (CallFailed w) (memcpy_all (key_writes slot key tag version) w'))
        (key_writes_install slot key tag version d h) (memcpy_all-Ends _ a)

module _ {w : World} {d : EngineState} (key : List ℕ) {w' : World} where
  rotate_in_place-Ends :
      After w d w'.handle w'
      → Ends
          (λ _. Done w (written w'.handle 0 key d) (with_host (written w'.handle 0 key) w'.handle))
          (CallFailed w)
          (rotate_in_place key w')
  unfolding rotate_in_place
  rotate_in_place-Ends a = Ends-gets _ _ w' (
      Ends-bind (memcpy_all _) _ w' (written_all key 0 _ _ (omega arith) a)
        (λ _ v b. Ends-bind synchronize _ v (synchronize-Ends b) (λ _ u c. modify-Done c _)))

  rotate_and_flip-Ends :
      After w d w'.handle w'
      → let e = next_slot w'.handle in
        Ends
          (λ _.
            Done w
              (with_epoch e (written w'.handle e key d))
              (with_host (λ s. with_epoch e (written w'.handle e key s)) w'.handle))
          (CallFailed w)
          (rotate_and_flip key w')
  unfolding rotate_and_flip apply
  rotate_and_flip-Ends a = Ends-gets _ _ w' (
      Ends-gets _ _ w' (
        Ends-bind (memcpy_all _) _ w'
          (written_all key (next_slot w'.handle) _ _ (other_slot_lem w'.h_init.active_epoch).0 a)
          (λ _ v b. Ends-bind synchronize _ v (synchronize-Ends b) (λ _ u c.
            Ends-bind (memcpy_async _) _ u (memcpy_async-Ends c.0 _) (λ _ t f.
              Ends-bind synchronize _ t (synchronize-Ends f) (λ _ s g. modify-Done g _))))))

-- The slot holds the new key, its mirror and its tag, of the next version and without a fault; its type
-- is what it was; the other slot, the epoch aside, is as it was; the host's copy agrees.
pub record Replaced (w : World) (slot epoch : ℕ) (key : List ℕ) (v : World) : Type 0 where
  pub key_is : (at v.device.keyslots slot).private_d ≡ key
  pub mirror_is : (at v.device.keyslots slot).private_d_mirror ≡ key
  pub no_fault : (at v.device.keyslots slot).fault_flags ≡ fault_none
  pub version_is : (at v.device.keyslots slot).integrity_version ≡ next_version w.handle slot
  pub tag_is :
      (at v.device.keyslots slot).integrity_tag
      ≡ compute_integrity_tag_host slot (next_version w.handle slot) key
  pub type_kept : (at v.device.keyslots slot).key_type ≡ (at (settled w).keyslots slot).key_type
  pub other_kept :
      at v.device.keyslots (other_slot slot) ≡ at (settled w).keyslots (other_slot slot)
  pub epoch_is : v.device.active_epoch ≡ epoch
  pub nothing_queued : v.pending ≡ []
  pub mirrored : Mirrors v.device v.h_init

module _ (w : World) (key : List ℕ) (slot epoch : ℕ) (slot_ok : slot < 2) (epoch_ok : epoch < 2)
    (m : Mirrors (settled w) w.h_init) where
  after_write : EngineState → EngineState
  after_write s = with_epoch epoch (written w.handle slot key s)

  written_slot :
      (s : EngineState)
      → at (after_write s).keyslots slot ≡ record (at s.keyslots slot) {
        private_d = key;
        private_d_mirror = key;
        integrity_tag = compute_integrity_tag_host slot (next_version w.handle slot) key;
        integrity_version = next_version w.handle slot;
        fault_flags = fault_none;
      }
  unfolding after_write store_key
  written_slot s = at-put_self s.keyslots slot _

  written-Mirrors : Mirrors (after_write (settled w)) (after_write w.h_init)
  unfolding after_write store_key
  written-Mirrors = record {
    keyslots_agree =
        ap {A = Two Keyslot} {B = Two Keyslot}
          (λ t. put t slot (record (at t slot) {
            private_d = key;
            private_d_mirror = key;
            integrity_tag = compute_integrity_tag_host slot (next_version w.handle slot) key;
            integrity_version = next_version w.handle slot;
            fault_flags = fault_none;
          }))
          m.keyslots_agree;
    epoch_agrees = refl;
    status_agrees =
        ap {A = EngineIntegrityStatus} {B = EngineIntegrityStatus}
          (λ t. record t {
            slots = put t.slots slot (fresh_status (at t.slots slot) (next_version w.handle slot));
          })
          m.status_agrees;
    epoch_in_range = epoch_ok;
  }

  written-Replaced :
      (v : World)
      → v.device ≡ after_write (settled w)
      → v.h_init ≡ after_write w.h_init
      → v.pending ≡ []
      → Replaced w slot epoch key v
  unfolding after_write store_key
  written-Replaced v e f p =
      let here = ap (λ s. at s.keyslots slot) e ∙ written_slot (settled w) in
      record {
        key_is = ap (λ t. t.private_d) here;
        mirror_is = ap (λ t. t.private_d_mirror) here;
        no_fault = ap (λ t. t.fault_flags) here;
        version_is = ap (λ t. t.integrity_version) here;
        tag_is = ap (λ t. t.integrity_tag) here;
        type_kept = ap (λ t. t.key_type) here;
        other_kept =
            ap (λ s. at s.keyslots (other_slot slot)) e
            ∙ at-put_ne (settled w).keyslots slot (other_slot slot) _ slot_ok (omega arith)
                (omega arith);
        epoch_is = ap (λ s. s.active_epoch) e;
        nothing_queued = p;
        mirrored =
            subst (λ s. Mirrors s v.h_init) (sym e)
              (subst (Mirrors (after_write (settled w))) (sym f) written-Mirrors);
      }

-- Where `engine_rotate_key` writes, and the epoch that it leaves.
abbrev pub rotation_target : EngineHandle → ℕ
rotation_target k = if k.h_init.tuning.rotation_policy == policy_disabled then 0 else next_slot k

abbrev pub epoch_after : EngineHandle → ℕ
epoch_after k =
    if k.h_init.tuning.rotation_policy == policy_disabled
    then k.h_init.active_epoch
    else next_slot k

-- If the host's copy agrees with the device, `engine_rotate_key` ends with the key in slot 0 and the
-- epoch as it was, when the policy is DISABLED, and otherwise in the slot that was not active, which
-- is active now; the slot's type is not changed, the other slot is as it was, nothing is queued and
-- the host's copy agrees; or else some call of the runtime was answered with an error.
pub engine_rotate_key-Replaced :
    (w : World) (key : List ℕ)
    → w.d_state ≡ true
    → Mirrors (settled w) w.h_init
    → Ends
        (λ _. Replaced w (rotation_target w.handle) (epoch_after w.handle) key)
        (CallFailed w)
        (engine_rotate_key (some key) w)
unfolding engine_rotate_key after_write store_key
engine_rotate_key-Replaced w key ready m = Ends-gets _ _ w (
    Ends-guard w.d_state _ w ready (
      Ends-non_null key _ w
        (Ends-gets _ _ w (go (w.h_init.tuning.rotation_policy == policy_disabled)))))
  where
    host_epoch : ℕ
    host_epoch = w.h_init.active_epoch

    next : ℕ
    next = next_slot w.handle

    go :
        (b : Bool)
        → Ends
            (λ _. Replaced w (if b then 0 else next) (if b then host_epoch else next) key)
            (CallFailed w)
            ((if b then rotate_in_place key else rotate_and_flip key) w)
    go true =
        Ends-imp
          (λ _ v (a, p, e).
            written-Replaced w key 0 host_epoch (omega arith)
              (omega (arith, m.epoch_agrees, m.epoch_in_range)) m v
              (e ∙ ap (λ n. with_epoch n (written w.handle 0 key (settled w))) (sym m.epoch_agrees))
              (ap (λ h. h.h_init) a.handle_is) p)
          (λ v e. e) (rotate_in_place-Ends key (After-start w))
    go false =
        Ends-imp
          (λ _ v (a, p, e).
            written-Replaced w key next next (omega arith) (omega arith) m v e
              (ap (λ h. h.h_init) a.handle_is) p)
          (λ v e. e) (rotate_and_flip-Ends key (After-start w))
