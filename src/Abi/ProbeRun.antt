-- ===== src/Abi/ProbeRun.antt =====
-- The probe after whole rotations and loads.
use gpu_rotation_engine.Base.{
  ℕ, ◌+◌, ◌%◌, ◌^◌, ◌<◌, ◌≡◌, ◌≢◌, sym, ap, ◌∙◌, subst, Bool, true, false, ◌&&◌, not, some, Option,
  List, arith, at, if◌then◌else◌, ◌==◌, other_slot, Two,
}
use gpu_rotation_engine.Engine.State.{Keyslot, EngineState, keyslot_empty, keyslot_p256}
use gpu_rotation_engine.Engine.Cuda.{World, M, ◌>>◌, settled}
use gpu_rotation_engine.Engine.Cuda.Run.{Ends, CallFailed, After-start, Ends-imp, Ends-bind}
use gpu_rotation_engine.Engine.Keys.{
  padded_key, valid_key_len, next_version, store_typed_key, engine_set_key_typed,
}
use gpu_rotation_engine.Engine.Keys.Spec.{engine_set_key_typed-Ends}
use gpu_rotation_engine.Engine.Rotation.{next_slot}
use gpu_rotation_engine.Engine.Rotation.Cycle.{rotate_staged, rotate_staged-Rotated}
use gpu_rotation_engine.Engine.Rotation.Rotated.{Mirrors, Rotated}
use gpu_rotation_engine.Abi.Probe.{scalar_in_range, probe_slot, rotation_probe_result}
use gpu_rotation_engine.Abi.Health.{
  ActiveHealthy, active_healthy, probe_slot-healthy, probe_slot-fields,
}

module _ (stray : ℕ → ℕ) (w : World) (key_type : ℕ) (bytes : List ℕ) (key_len : ℕ)
    (ready : w.d_state ≡ true) (len_ok : valid_key_len key_type key_len ≡ true)
    (len_pos : key_len ≢ 0) (m : Mirrors (settled w) w.h_init) where
  -- After a staged rotation to a key of a legal length, a legal scalar if it is for P-256, in a slot
  -- whose version is not about to wrap, the probe finds the active slot in range, loaded and healthy; or
  -- else some call of the runtime was answered with an error.
  pub rotate_staged-ActiveHealthy :
      key_type ≢ keyslot_empty
      → (key_type ≡ keyslot_p256 → scalar_in_range (padded_key bytes key_len) ≡ true)
      → (at w.h_init.keyslots (next_slot w.handle)).integrity_version + 1 < 2 ^ 32
      → Ends
          (λ _ v.
            ActiveHealthy (rotation_probe_result stray v.device.keyslots v.device.active_epoch))
          (CallFailed w)
          (rotate_staged key_type (some bytes) key_len w)
  rotate_staged-ActiveHealthy loaded scalar version =
      Ends-imp good (λ v e. e)
        (rotate_staged-Rotated w key_type bytes key_len ready len_ok len_pos m)
    where
      good :
          (_ : Unit {0}) (v : World)
          → Rotated w key_type bytes key_len v
          → ActiveHealthy (rotation_probe_result stray v.device.keyslots v.device.active_epoch)
      good _ v r =
          active_healthy stray v.device.keyslots v.device.active_epoch (omega (arith, r.flipped))
            (probe_slot-healthy v.device.active_epoch key_type key_len (padded_key bytes key_len)
              (at v.device.keyslots v.device.active_epoch) r.new_key len_ok scalar
              (λ z.
                omega (arith, r.new_version ∙ ap (next_version w.handle) same_slot, z, version)))
            (λ z. loaded (sym r.new_key.type_is ∙ z))
        where
          same_slot : v.device.active_epoch ≡ next_slot w.handle
          same_slot = r.flipped ∙ ap other_slot (sym m.epoch_agrees)

-- Two loaded slots with one epoch make a device unhealthy.
same_epochs_unhealthy :
    (stray : ℕ → ℕ) (t : Two Keyslot) (e : ℕ)
    → t.zeroth.key_type ≢ keyslot_empty
    → t.first.key_type ≢ keyslot_empty
    → t.zeroth.epoch ≡ t.first.epoch
    → (rotation_probe_result stray t e).overall_healthy ≡ 0
unfolding rotation_probe_result
same_epochs_unhealthy stray t e z f same =
    let r = rotation_probe_result stray t e in
    refuse (not ((probe_slot 0 t.zeroth).healthy == 0)) (not ((probe_slot 1 t.first).healthy == 0))
      (r.check_epoch_in_range == 0) (r.check_active_slot_loaded == 0) distinct_fails
  where
    p0 :
        ((probe_slot 0 t.zeroth).key_type ≡ t.zeroth.key_type)
        × ((probe_slot 0 t.zeroth).epoch ≡ t.zeroth.epoch)
    p0 = probe_slot-fields 0 t.zeroth

    p1 :
        ((probe_slot 1 t.first).key_type ≡ t.first.key_type)
        × ((probe_slot 1 t.first).epoch ≡ t.first.epoch)
    p1 = probe_slot-fields 1 t.first

    distinct_fails : ((rotation_probe_result stray t e).check_epochs_distinct == 0) ≡ false
    distinct_fails = ground (arith, p0.0, p0.1, p1.0, p1.1, z, f, same)

    refuse :
        (a b c d : Bool) {x : Bool}
        → x ≡ false
        → ◌≡◌ {A = ℕ} (if a && (b && (c && (d && x))) then 1 else 0) 0
    refuse a b c d h = ground (arith, h)

-- Load a key into each slot.
unfoldable pub load_both : ℕ → Option (List ℕ) → ℕ → ℕ → Option (List ℕ) → ℕ → M (Unit {0})
load_both type_0 key_0 len_0 type_1 key_1 len_1 = do
  engine_set_key_typed 0 type_0 key_0 len_0
  engine_set_key_typed 1 type_1 key_1 len_1

-- If the two slots have the same version, as in a fresh engine, then loading a key of a legal length and
-- a type other than EMPTY into each leaves a device that the probe finds unhealthy, since versions are
-- counted per slot and the two epochs come out equal; or else some call of the runtime was answered
-- with an error.
pub load_both-unhealthy :
    (stray : ℕ → ℕ) (w : World) (type_0 : ℕ) (key_0 : List ℕ) (len_0 type_1 : ℕ) (key_1 : List ℕ)
    (len_1 : ℕ)
    → w.d_state ≡ true
    → w.h_init.keyslots.zeroth.integrity_version ≡ w.h_init.keyslots.first.integrity_version
    → valid_key_len type_0 len_0 ≡ true
    → valid_key_len type_1 len_1 ≡ true
    → type_0 ≢ keyslot_empty
    → type_1 ≢ keyslot_empty
    → Ends
        (λ _ v.
          (rotation_probe_result stray v.device.keyslots v.device.active_epoch).overall_healthy ≡ 0)
        (CallFailed w)
        (load_both type_0 (some key_0) len_0 type_1 (some key_1) len_1 w)
unfolding load_both store_typed_key
load_both-unhealthy stray w type_0 key_0 len_0 type_1 key_1 len_1 ready same v0 v1 n0 n1 =
    Ends-bind (engine_set_key_typed 0 type_0 (some key_0) len_0) _ w
      (engine_set_key_typed-Ends 0 type_0 key_0 len_0 (omega arith) v0 (After-start w) ready)
      (λ _ v a.
        Ends-imp
          (λ _ u b.
            subst
              (λ (s : EngineState).
                (rotation_probe_result stray s.keyslots s.active_epoch).overall_healthy ≡ 0)
              (sym b.2) (same_epochs_unhealthy stray _ _ n0 n1 (ap (λ n. (n + 1) % 2 ^ 32) same)))
          (λ u e. e) (engine_set_key_typed-Ends 1 type_1 key_1 len_1 (omega arith) v1 a.0 ready))
