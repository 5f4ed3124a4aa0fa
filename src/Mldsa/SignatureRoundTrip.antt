-- ===== src/Mldsa/SignatureRoundTrip.antt =====
-- A signature that is packed is read back as what it was packed of.
use gpu_rotation_engine.Base.{
  ℕ, zero, suc, ◌+◌, ◌<◌, ◌≡◌, refl, ap, ◌∙◌, true, false, some, List, [], ◌++◌, arith, length,
  take, drop, replicate, ◌==◌, ==_refl, length-append, length-replicate, take_all,
}
use gpu_rotation_engine.Mldsa.Params.{mldsa_get_params}
use gpu_rotation_engine.Mldsa.Signature.{
  pack_signature_fips204_mldsa44, pack_signature_fips204_mldsa65, pack_signature_fips204_mldsa87,
  pack_signature_fips204, mode_bound, z_packed_len, unpack_z, unpack_hint, all_in_bound,
  read_signature,
}
use gpu_rotation_engine.Mldsa.SignatureParts.{
  IsSignature, parts, packed_z, packed_hint, packed_z_lem, trailing, packed_hint_lem,
}

known_mode : (mode : ℕ) → mode < 3 → ((mldsa_get_params mode).k == 0) ≡ false
unfolding mldsa_get_params
known_mode zero lt = refl
known_mode (suc zero) lt = refl
known_mode (suc (suc zero)) lt = refl
known_mode (suc (suc (suc mode))) lt = absurd (omega arith)

-- A signature with any bytes where the packer writes zeros behind the hint.
abbrev pub with_trailing : ℕ → List ℕ → List ℕ → List ℕ → List ℕ → List ℕ
with_trailing mode c z h t = c ++ (packed_z mode z ++ (packed_hint mode h ++ t))

length-with_trailing :
    (mode : ℕ) (c z h t : List ℕ)
    → mode < 3
    → IsSignature mode c z h
    → length t ≡ trailing mode
    → length (with_trailing mode c z h t) ≡ (mldsa_get_params mode).sig_len
length-with_trailing mode c z h t lt s t_len =
    let (z_back, z_len, inside) = packed_z_lem mode c z h lt s in
    let (h_back, total) = packed_hint_lem mode c z h lt s in
    let zs : List ℕ = packed_z mode z in
    let hs : List ℕ = packed_hint mode h in
    omega (
      arith,
      s.c_len,
      z_len,
      total,
      t_len,
      length-append c (zs ++ (hs ++ t)),
      length-append zs (hs ++ t),
      length-append hs t,
    )

read_signature_is :
    (mode : ℕ) (sig c z h : List ℕ)
    → mode < 3
    → length sig ≡ (mldsa_get_params mode).sig_len
    → take 32 sig ≡ c
    → unpack_z mode (drop 32 sig) ≡ z
    → unpack_hint mode (drop (32 + z_packed_len mode) sig) ≡ h
    → all_in_bound (mode_bound mode) z ≡ true
    → read_signature mode sig ≡ some (c, z, h)
unfolding read_signature
read_signature_is mode sig c z h lt len at_c at_z at_h inside =
    let right_len : (length sig == (mldsa_get_params mode).sig_len) ≡ true =
      ap (λ n. n == (mldsa_get_params mode).sig_len) len
      ∙ ==_refl (mldsa_get_params mode).sig_len in
    rw (known_mode mode lt, right_len, at_c, at_z, at_h, inside) refl

-- In each of the three modes, a packed z and a packed hint behind a seed, with any bytes of the right
-- number behind them, are read as that seed, that z and that hint: the last bytes of a signature,
-- 16 of them for ML-DSA-65 and 32 for ML-DSA-87, can be changed and it is read as before.
pub read_signature-malleable :
    (mode : ℕ) (c z h t : List ℕ)
    → mode < 3
    → IsSignature mode c z h
    → length t ≡ trailing mode
    → read_signature mode (with_trailing mode c z h t) ≡ some (c, z, h)
read_signature-malleable mode c z h t lt s t_len =
    let (z_back, z_len, inside) = packed_z_lem mode c z h lt s in
    let (h_back, total) = packed_hint_lem mode c z h lt s in
    let zs : List ℕ = packed_z mode z in
    let hs : List ℕ = packed_hint mode h in
    let (at_z, at_h, at_c) = parts (z_packed_len mode) c zs (hs ++ t) s.c_len z_len in
    read_signature_is mode (with_trailing mode c z h t) c z h lt
      (length-with_trailing mode c z h t lt s t_len) at_c
      (ap (unpack_z mode) at_z ∙ z_back (hs ++ t)) (ap (unpack_hint mode) at_h ∙ h_back t) inside

pack_signature_is :
    (mode : ℕ) (c z h : List ℕ)
    → mode < 3
    → length c ≡ 32
    → pack_signature_fips204 mode c z h ≡ with_trailing mode c z h (replicate (trailing mode) 0)
unfolding pack_signature_fips204 pack_signature_fips204_mldsa44 pack_signature_fips204_mldsa65
    pack_signature_fips204_mldsa87
pack_signature_is zero c z h lt len =
    ap (λ s. s ++ (packed_z 0 z ++ (packed_hint 0 h ++ []))) (take_all 32 c (omega (arith, len)))
pack_signature_is (suc zero) c z h lt len =
    ap (λ s. s ++ (packed_z 1 z ++ (packed_hint 1 h ++ replicate 16 0)))
      (take_all 32 c (omega (arith, len)))
pack_signature_is (suc (suc zero)) c z h lt len =
    ap (λ s. s ++ (packed_z 2 z ++ (packed_hint 2 h ++ replicate 32 0)))
      (take_all 32 c (omega (arith, len)))
pack_signature_is (suc (suc (suc mode))) c z h lt len = absurd (omega arith)

-- In each of the three modes, the signature packed of a seed of 32 bytes, a z within the verifier's
-- bound and a hint of at most omega bits has the length that the mode prescribes, and the verifier
-- reads from it that seed, that z and that hint.
pub read-pack_signature :
    (mode : ℕ) (c z h : List ℕ)
    → mode < 3
    → IsSignature mode c z h
    → (length (pack_signature_fips204 mode c z h) ≡ (mldsa_get_params mode).sig_len)
      × (read_signature mode (pack_signature_fips204 mode c z h) ≡ some (c, z, h))
read-pack_signature mode c z h lt s =
    let zeros : List ℕ = replicate (trailing mode) 0 in
    let packed : pack_signature_fips204 mode c z h ≡ with_trailing mode c z h zeros =
      pack_signature_is mode c z h lt s.c_len in
    let read : read_signature mode (pack_signature_fips204 mode c z h) ≡ some (c, z, h) =
      ap (read_signature mode) packed
      ∙ read_signature-malleable mode c z h zeros lt s (length-replicate (trailing mode) 0) in
    (
      ap length packed
          ∙ length-with_trailing mode c z h zeros lt s (length-replicate (trailing mode) 0),
      read,
    )
