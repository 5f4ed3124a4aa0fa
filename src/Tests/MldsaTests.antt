-- ===== src/Tests/MldsaTests.antt =====
-- Signatures and secret keys of ML-DSA at concrete values.
use gpu_rotation_engine.Base.{
  ◌++◌, ℕ, zero, suc, ◌*◌, ◌<◌, ◌≡◌, refl, inl, inr, some, List, ◌∷◌, All, arith, length, drop,
  replicate, length-replicate, All-replicate,
}
use gpu_rotation_engine.Mldsa.Params.{mldsa_get_params}
use gpu_rotation_engine.Mldsa.HintRows.{IsBit, weight}
use gpu_rotation_engine.Mldsa.Signature.{
  pack_signature_fips204, read_signature, mode_bound, in_bound,
}
use gpu_rotation_engine.Mldsa.SignatureRoundTrip.{
  with_trailing, read-pack_signature, read_signature-malleable,
}
use gpu_rotation_engine.Mldsa.SignatureParts.{IsSignature, Within}
use gpu_rotation_engine.Mldsa.ReadBounds.{WellFormed, read_signature-WellFormed}
use gpu_rotation_engine.Mldsa.SecretKey.{ExpandedKey, unpack_sk_fips204}
use gpu_rotation_engine.Mldsa.KeyBits.{Near}
use gpu_rotation_engine.Mldsa.KeyRoundTrip.{
  IsKey, packed_key_44, packed_key_65, unpack-pack_key_44, unpack-pack_key_65,
}
use gpu_rotation_engine.Mldsa.KeyOverread.{unpack_sk_fips204-overreads}
use gpu_rotation_engine.Mldsa.T0Bits.{pack_t0}

-- A seed, a z with a negative first coefficient, and a hint with one bit set.
abbrev seed : List ℕ
seed = replicate 32 7

abbrev some_z : ℕ → List ℕ
some_z n = 8380000 ∷ replicate n 5

abbrev some_hint : ℕ → List ℕ
some_hint n = 1 ∷ replicate n 0

weight-zeros : (n : ℕ) → weight (replicate n 0) ≡ 0
weight-zeros zero = refl
weight-zeros (suc n) = weight-zeros n

some-IsSignature : IsSignature 1 seed (some_z 1279) (some_hint 1535)
unfolding mldsa_get_params mode_bound in_bound
some-IsSignature = record {
  c_len = length-replicate {A = ℕ} 32 7;
  z_len = omega (arith, length-replicate {A = ℕ} 1279 5);
  z_within = ((omega arith, refl), All-replicate (Within 524092) 1279 5 (omega arith, refl));
  h_len = omega (arith, length-replicate {A = ℕ} 1535 0);
  h_bits = (inr refl, All-replicate IsBit 1535 0 (inl refl));
  h_weight = omega (arith, weight-zeros 1535);
}

read-pack_signature_example :
    (length (pack_signature_fips204 1 seed (some_z 1279) (some_hint 1535))
      ≡ (mldsa_get_params 1).sig_len)
    × (read_signature 1 (pack_signature_fips204 1 seed (some_z 1279) (some_hint 1535))
        ≡ some (seed, some_z 1279, some_hint 1535))
read-pack_signature_example =
    read-pack_signature 1 seed (some_z 1279) (some_hint 1535) (omega arith) some-IsSignature

read_signature-malleable_example :
    read_signature 1 (with_trailing 1 seed (some_z 1279) (some_hint 1535) (replicate 16 99))
    ≡ some (seed, some_z 1279, some_hint 1535)
read_signature-malleable_example =
    read_signature-malleable 1 seed (some_z 1279) (some_hint 1535) (replicate 16 99) (omega arith)
      some-IsSignature refl

read_signature-WellFormed_example : WellFormed 1 seed (some_z 1279) (some_hint 1535)
read_signature-WellFormed_example =
    read_signature-WellFormed 1 (pack_signature_fips204 1 seed (some_z 1279) (some_hint 1535)) seed
      (some_z 1279) (some_hint 1535) (omega arith)
      (read-pack_signature 1 seed (some_z 1279) (some_hint 1535) (omega arith) some-IsSignature).1

-- A key with l and k rows, all of whose coefficients are -1.
abbrev some_key : ℕ → ℕ → ExpandedKey
some_key l k = record {
  rho = replicate 32 1;
  rhoprime = replicate 32 2;
  tr = replicate 64 3;
  s1 = replicate (256 * l) 8380416;
  s2 = replicate (256 * k) 8380416;
  t0 = replicate (256 * k) 8380416;
}

some_key-IsKey : (eta l k : ℕ) → 0 < eta → IsKey eta l k (some_key l k)
some_key-IsKey eta l k pos = record {
  rho_len = length-replicate {A = ℕ} 32 1;
  rhoprime_len = length-replicate {A = ℕ} 32 2;
  tr_len = length-replicate {A = ℕ} 64 3;
  s1_coeffs = (length-replicate {A = ℕ} (256 * l) 8380416, minus_one (256 * l));
  s2_coeffs = (length-replicate {A = ℕ} (256 * k) 8380416, minus_one (256 * k));
  t0_len = length-replicate {A = ℕ} (256 * k) 8380416;
  t0_coeffs = All-replicate (Near 4096 4095) (256 * k) 8380416 (inr (omega arith, omega arith));
}
  where
    minus_one : (n : ℕ) → All (Near eta eta) (replicate n 8380416)
    minus_one n = All-replicate (Near eta eta) n 8380416 (inr (omega (arith, pos), omega arith))

unpack-pack_key_44_example :
    unpack_sk_fips204 0 (packed_key_44 (some_key 4 4)) (length (packed_key_44 (some_key 4 4))) 12416
    ≡ some (some_key 4 4)
unpack-pack_key_44_example =
    unpack-pack_key_44 (some_key 4 4) 12416 (some_key-IsKey 2 4 4 (omega arith)) (omega arith)

unpack-pack_key_65_example :
    unpack_sk_fips204 1 (packed_key_65 (some_key 5 6)) (length (packed_key_65 (some_key 5 6))) 17536
    ≡ some (some_key 5 6)
unpack-pack_key_65_example =
    unpack-pack_key_65 (some_key 5 6) 17536 (some_key-IsKey 4 5 6 (omega arith)) (omega arith)

-- 480 bytes behind the key: 12 zeros, and 288 coefficients of -1.
unpack_sk_fips204-overreads_example :
    (r : ExpandedKey) × (unpack_sk_fips204 2
        (replicate 4896 0 ++ (replicate 12 0 ++ pack_t0 36 (replicate 288 8380416)))
        4896
        23680
      ≡ some r)
    × (drop 1760 r.t0 ≡ replicate 288 8380416)
unpack_sk_fips204-overreads_example =
    unpack_sk_fips204-overreads (replicate 4896 0) (replicate 12 0) (replicate 288 8380416) 23680
      (length-replicate {A = ℕ} 4896 0) (length-replicate {A = ℕ} 12 0)
      (length-replicate {A = ℕ} 288 8380416)
      (All-replicate (Near 4096 4095) 288 8380416 (inr (omega arith, omega arith))) (omega arith)
