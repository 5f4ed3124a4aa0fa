-- ===== src/Mldsa/Params.antt =====
-- `MLDSAModeParams` and the functions on it in core/persistent_engine/engine_state.cuh.
use gpu_rotation_engine.Base.{ℕ, if◌then◌else◌, ◌==◌}

abbrev pub mldsa_q : ℕ
mldsa_q = 8380417

abbrev pub mldsa_mode_44 : ℕ
mldsa_mode_44 = 0

abbrev pub mldsa_mode_65 : ℕ
mldsa_mode_65 = 1

abbrev pub mldsa_mode_87 : ℕ
mldsa_mode_87 = 2

pub record MldsaModeParams : Type 0 where
  pub k : ℕ
  pub l : ℕ
  pub n : ℕ
  pub sk_len : ℕ
  pub sk_simple_len : ℕ
  pub sig_len : ℕ

unfoldable pub mldsa_get_params : ℕ → MldsaModeParams
mldsa_get_params mode =
    if mode == mldsa_mode_44
    then record { k = 4; l = 4; n = 256; sk_len = 2560; sk_simple_len = 12416; sig_len = 2420 }
    else if mode == mldsa_mode_65
    then record { k = 6; l = 5; n = 256; sk_len = 4032; sk_simple_len = 17536; sig_len = 3309 }
    else if mode == mldsa_mode_87
    then record { k = 8; l = 7; n = 256; sk_len = 4896; sk_simple_len = 23680; sig_len = 4627 }
    else record { k = 0; l = 0; n = 256; sk_len = 0; sk_simple_len = 0; sig_len = 0 }

-- Packed is 0, expanded is 1.
unfoldable pub mldsa_detect_key_format : ℕ → ℕ → ℕ
mldsa_detect_key_format mode key_len =
    if key_len == (mldsa_get_params mode).sk_simple_len then 1 else 0
