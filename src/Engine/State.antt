-- ===== src/Engine/State.antt =====
-- The records of core/persistent_engine/engine_state.cuh and the constants of engine_constants.cuh.
-- Enumerations over uint32_t are kept as their numbers, since they are cast from and to numbers.
-- Left out: padding fields, `mapped_ready_flags` (always null) and the microbatch debug counters.
use gpu_rotation_engine.Base.{ℕ, List, replicate, Two}

abbrev pub engine_queue_size : ℕ
engine_queue_size = 1024

abbrev pub engine_max_key_slots : ℕ
engine_max_key_slots = 2

abbrev pub fault_none : ℕ
fault_none = 0

-- KeyslotType
abbrev pub keyslot_empty : ℕ
keyslot_empty = 0

abbrev pub keyslot_p256 : ℕ
keyslot_p256 = 1

abbrev pub keyslot_aes256 : ℕ
keyslot_aes256 = 2

abbrev pub keyslot_hmac : ℕ
keyslot_hmac = 3

abbrev pub keyslot_hmac_max_len : ℕ
keyslot_hmac_max_len = 64

-- RotationPolicy
abbrev pub policy_disabled : ℕ
policy_disabled = 0

abbrev pub policy_manual : ℕ
policy_manual = 1

abbrev pub policy_automatic : ℕ
policy_automatic = 2

pub record Keyslot : Type 0 where
  pub epoch : ℕ
  pub key_type : ℕ
  pub private_d : List ℕ
  pub pub_x : List ℕ
  pub pub_y : List ℕ
  pub private_d_mirror : List ℕ
  pub integrity_tag : List ℕ
  pub integrity_version : ℕ
  pub fault_flags : ℕ
  pub key_len : ℕ
  pub aes_roundkeys : List ℕ

abbrev pub zero_bytes : List ℕ
zero_bytes = replicate 32 0

-- What `memset (&slot, 0, sizeof (Keyslot))` leaves.
abbrev pub zero_keyslot : Keyslot
zero_keyslot = record {
  epoch = 0;
  key_type = keyslot_empty;
  private_d = zero_bytes;
  pub_x = zero_bytes;
  pub_y = zero_bytes;
  private_d_mirror = zero_bytes;
  integrity_tag = zero_bytes;
  integrity_version = 0;
  fault_flags = fault_none;
  key_len = 0;
  aes_roundkeys = replicate 60 0;
}

pub record Request : Type 0 where
  pub request_id : ℕ
  pub input : List ℕ
  pub has_nonce : ℕ
  pub nonce_k : List ℕ

pub record EngineResponse : Type 0 where
  pub request_id : ℕ
  pub status : ℕ
  pub sig_r : List ℕ
  pub sig_s : List ℕ

pub record KeyslotIntegrityStatus : Type 0 where
  pub integrity_version : ℕ
  pub fault_flags : ℕ
  pub self_heal_count : ℕ

pub record EngineIntegrityStatus : Type 0 where
  pub slots : Two KeyslotIntegrityStatus
  pub last_scan_op_count : ℕ
  pub total_sign_ops : ℕ

pub record EngineTuning : Type 0 where
  pub microbatch_min : ℕ
  pub microbatch_max : ℕ
  pub depth_low_water : ℕ
  pub depth_high_water : ℕ
  pub nonce_mode : ℕ
  pub low_s_enabled : ℕ
  pub rng_seed : List ℕ
  pub rotation_policy : ℕ
  pub auto_rotate_interval_ops : ℕ
  pub auto_rotate_idle_only : ℕ
  pub integrity_mode : ℕ
  pub integrity_scan_interval_ops : ℕ
  pub integrity_scan_idle_only : ℕ
  pub integrity_max_repair_attempts : ℕ
  pub self_healing_enabled : ℕ

pub record EngineState : Type 0 where
  pub keyslots : Two Keyslot
  pub active_epoch : ℕ
  pub req_head : ℕ
  pub req_tail : ℕ
  pub resp_head : ℕ
  pub resp_tail : ℕ
  pub requests : ℕ → Request
  pub responses : ℕ → EngineResponse
  pub response_ready : ℕ → ℕ
  pub shutdown_flag : ℕ
  pub rng_counter : ℕ
  pub tuning : EngineTuning
  pub integrity_key : List ℕ
  pub total_sign_ops : ℕ
  pub integrity_status : EngineIntegrityStatus
  pub root_seed : List ℕ
  pub root_seed_initialized : ℕ
