-- ===== src/Engine/Device.antt =====
-- Writes from the host to the `EngineState` on the device: one constructor for each kind of target
-- that core/persistent_engine/engine_host.cpp hands to cudaMemcpyAsync or cudaMemsetAsync.
use gpu_rotation_engine.Base.{ℕ, ◌≡◌, refl, List, [], ◌∷◌, ◌++◌, at, put, update}
use gpu_rotation_engine.Engine.State.{
  Keyslot, zero_keyslot, Request, KeyslotIntegrityStatus, EngineTuning, EngineState,
}

-- A field of `keyslots[i]`; `clear` is the memset over the whole slot.
pub data SlotField : Type 0 where
  epoch key_type integrity_version fault_flags key_len : ℕ → SlotField
  private_d private_d_mirror integrity_tag aes_roundkeys : List ℕ → SlotField
  clear : SlotField

-- A field of `integrity_status.slots[i]`.
pub data StatusField : Type 0 where
  version flags : ℕ → StatusField

pub data TuningField : Type 0 where
  whole : EngineTuning → TuningField
  rng_seed : List ℕ → TuningField
  nonce_mode low_s_enabled rotation_policy auto_rotate_interval_ops : ℕ → TuningField
  auto_rotate_idle_only integrity_mode integrity_scan_interval_ops : ℕ → TuningField
  integrity_scan_idle_only integrity_max_repair_attempts self_healing_enabled : ℕ → TuningField

pub data Write : Type 0 where
  keyslot : ℕ → SlotField → Write
  status : ℕ → StatusField → Write
  active_epoch : ℕ → Write
  request : ℕ → Request → Write
  req_head : ℕ → Write
  response_ready : ℕ → ℕ → Write
  shutdown_flag : ℕ → Write
  tuning : TuningField → Write
  root_seed : List ℕ → Write
  root_seed_initialized : ℕ → Write

pub set_field : SlotField → Keyslot → Keyslot
set_field (SlotField.epoch v) k = record k { epoch = v }
set_field (SlotField.key_type v) k = record k { key_type = v }
set_field (SlotField.integrity_version v) k = record k { integrity_version = v }
set_field (SlotField.fault_flags v) k = record k { fault_flags = v }
set_field (SlotField.key_len v) k = record k { key_len = v }
set_field (SlotField.private_d v) k = record k { private_d = v }
set_field (SlotField.private_d_mirror v) k = record k { private_d_mirror = v }
set_field (SlotField.integrity_tag v) k = record k { integrity_tag = v }
set_field (SlotField.aes_roundkeys v) k = record k { aes_roundkeys = v }
set_field SlotField.clear k = zero_keyslot

pub set_status : StatusField → KeyslotIntegrityStatus → KeyslotIntegrityStatus
set_status (StatusField.version v) s = record s { integrity_version = v }
set_status (StatusField.flags v) s = record s { fault_flags = v }

unfoldable pub set_tuning_field : TuningField → EngineTuning → EngineTuning
set_tuning_field (TuningField.whole t') t = t'
set_tuning_field (TuningField.rng_seed v) t = record t { rng_seed = v }
set_tuning_field (TuningField.nonce_mode v) t = record t { nonce_mode = v }
set_tuning_field (TuningField.low_s_enabled v) t = record t { low_s_enabled = v }
set_tuning_field (TuningField.rotation_policy v) t = record t { rotation_policy = v }
set_tuning_field (TuningField.auto_rotate_interval_ops v) t = record t {
  auto_rotate_interval_ops = v;
}
set_tuning_field (TuningField.auto_rotate_idle_only v) t = record t { auto_rotate_idle_only = v }
set_tuning_field (TuningField.integrity_mode v) t = record t { integrity_mode = v }
set_tuning_field (TuningField.integrity_scan_interval_ops v) t = record t {
  integrity_scan_interval_ops = v;
}
set_tuning_field (TuningField.integrity_scan_idle_only v) t = record t {
  integrity_scan_idle_only = v;
}
set_tuning_field (TuningField.integrity_max_repair_attempts v) t = record t {
  integrity_max_repair_attempts = v;
}
set_tuning_field (TuningField.self_healing_enabled v) t = record t { self_healing_enabled = v }

-- The effect of one write on the device's memory.
unfoldable pub apply : Write → EngineState → EngineState
unfolding set_field set_status set_tuning_field
apply (Write.keyslot i f) d = record d {
  keyslots = put d.keyslots i (set_field f (at d.keyslots i));
}
apply (Write.status i f) d = record d {
  integrity_status = record (d.integrity_status) {
    slots = put d.integrity_status.slots i (set_status f (at d.integrity_status.slots i));
  };
}
apply (Write.active_epoch e) d = record d { active_epoch = e }
apply (Write.request i r) d = record d { requests = update d.requests i r }
apply (Write.req_head v) d = record d { req_head = v }
apply (Write.response_ready i v) d = record d { response_ready = update d.response_ready i v }
apply (Write.shutdown_flag v) d = record d { shutdown_flag = v }
apply (Write.tuning f) d = record d { tuning = set_tuning_field f d.tuning }
apply (Write.root_seed v) d = record d { root_seed = v }
apply (Write.root_seed_initialized v) d = record d { root_seed_initialized = v }

-- Writes take effect in the order in which they were queued.
unfoldable pub apply_all : List Write → EngineState → EngineState
apply_all [] d = d
apply_all (w ∷ ws) d = apply_all ws (apply w d)

pub apply_all-append :
    (ws vs : List Write) (d : EngineState) → apply_all (ws ++ vs) d ≡ apply_all vs (apply_all ws d)
unfolding apply_all
apply_all-append [] vs d = refl
apply_all-append (w ∷ ws) vs d = apply_all-append ws vs (apply w d)
