-- ===== src/FastPath/Response.antt =====
-- `FastPathResponse` and the commit word of core/persistent_engine/engine_state.cuh. Left out of the
-- record are the padding, the three times, the two bytes that name epoch and slot, and the union's
-- view of the 64 bytes of output as r and s.
use gpu_rotation_engine.Base.{ℕ, ◌+◌, ◌*◌, ◌/◌, ◌%◌, ◌^◌, ◌<◌, ◌≡◌, List, arith}

pub record FastPathResponse : Type 0 where
  pub request_id : ℕ
  pub commit_info : ℕ
  pub seq : ℕ
  pub status : ℕ
  pub client_id : ℕ
  pub opcode : ℕ
  pub output_len : ℕ
  pub output_offset : ℕ
  pub output_bytes : ℕ
  pub output : List ℕ

-- Bits 0 to 15 are the length of the output, bits 16 to 23 the status.
unfoldable pub fast_path_commit_info : ℕ → ℕ → ℕ
fast_path_commit_info status output_len = output_len + status * 2 ^ 16

unfoldable pub fast_path_commit_output_len : ℕ → ℕ
fast_path_commit_output_len commit_info = commit_info % 2 ^ 16

unfoldable pub fast_path_commit_status : ℕ → ℕ
fast_path_commit_status commit_info = commit_info / 2 ^ 16 % 2 ^ 8

-- A status of a byte and a length of two bytes come back from the commit word they were packed in.
pub fast_path_commit_info-roundtrip :
    (status output_len : ℕ)
    → status < 2 ^ 8
    → output_len < 2 ^ 16
    → (fast_path_commit_status (fast_path_commit_info status output_len) ≡ status)
      × (fast_path_commit_output_len (fast_path_commit_info status output_len) ≡ output_len)
unfolding fast_path_commit_info fast_path_commit_output_len fast_path_commit_status
fast_path_commit_info-roundtrip status output_len hs hl = (omega arith, omega arith)
