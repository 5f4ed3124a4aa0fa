-- ===== src/Tests/Worlds.antt =====
-- Concrete states of the engine, and runtimes that succeed or fail where told.
use gpu_rotation_engine.Base.{ℕ, true, false, List, [], ◌∷◌, replicate, ◌==◌, not}
use gpu_rotation_engine.Engine.State.{
  Keyslot, KeyslotIntegrityStatus, EngineState, Request, EngineResponse, EngineTuning, zero_keyslot,
  zero_bytes, keyslot_p256,
}
use gpu_rotation_engine.Engine.Cuda.{Outcome, EngineHandle, World}

abbrev pub answered : Outcome
answered = record { success = true; not_ready = false; progress = 0 }

abbrev pub refused : Outcome
refused = record { success = false; not_ready = false; progress = 0 }

abbrev pub healthy : ℕ → Outcome
healthy _ = answered

-- Call number `n` fails.
abbrev pub failing_at : ℕ → ℕ → Outcome
failing_at n m = record { success = not (m == n); not_ready = false; progress = 1 }

abbrev pub some_key : List ℕ
some_key = 7 ∷ replicate 31 5

abbrev pub loaded_slot : Keyslot
loaded_slot = record zero_keyslot {
  epoch = 1;
  key_type = keyslot_p256;
  private_d = some_key;
  private_d_mirror = some_key;
  integrity_version = 1;
  key_len = 32;
}

abbrev pub no_status : KeyslotIntegrityStatus
no_status = record { integrity_version = 0; fault_flags = 0; self_heal_count = 0 }

abbrev pub tuning : EngineTuning
tuning = record {
  microbatch_min = 1;
  microbatch_max = 128;
  depth_low_water = 4;
  depth_high_water = 96;
  nonce_mode = 0;
  low_s_enabled = 1;
  rng_seed = zero_bytes;
  rotation_policy = 1;
  auto_rotate_interval_ops = 0;
  auto_rotate_idle_only = 1;
  integrity_mode = 0;
  integrity_scan_interval_ops = 10000;
  integrity_scan_idle_only = 1;
  integrity_max_repair_attempts = 1;
  self_healing_enabled = 0;
}

abbrev pub no_request : Request
no_request = record { request_id = 0; input = zero_bytes; has_nonce = 0; nonce_k = zero_bytes }

abbrev pub no_response : EngineResponse
no_response = record { request_id = 0; status = 0; sig_r = zero_bytes; sig_s = zero_bytes }

-- One P-256 key, in slot 0, which is active.
abbrev pub one_key : EngineState
one_key = record {
  keyslots = record { zeroth = loaded_slot; first = zero_keyslot };
  active_epoch = 0;
  req_head = 0;
  req_tail = 0;
  resp_head = 0;
  resp_tail = 0;
  requests = λ _. no_request;
  responses = λ _. no_response;
  response_ready = λ _. 0;
  shutdown_flag = 0;
  rng_counter = 0;
  tuning = tuning;
  integrity_key = zero_bytes;
  total_sign_ops = 0;
  integrity_status = record {
    slots = record { zeroth = no_status; first = no_status };
    last_scan_op_count = 0;
    total_sign_ops = 0;
  };
  root_seed = zero_bytes;
  root_seed_initialized = 0;
}

abbrev pub handle : EngineHandle
handle = record {
  d_state = true;
  h_init = one_key;
  stream = true;
  comm_stream = true;
  running = true;
  host_req_counter = 0;
  rotation_pending_fence = false;
}

abbrev pub world : (ℕ → Outcome) → World
world runtime = record {
  handle = handle;
  device = one_key;
  pending = [];
  runtime = runtime;
  calls = 0;
}
