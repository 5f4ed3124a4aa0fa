-- ===== src/Mldsa/Signature.antt =====
-- Whole signatures in core/persistent_engine/engine_host.cpp: `pack_signature_fips204` and what it
-- calls, and the part of `mldsa_verify_host_dispatch` that reads a signature, up to the bound on z.
use gpu_rotation_engine.Base.{
  ℕ, ◌+◌, ◌-◌, ◌*◌, ◌/◌, ◌^◌, Bool, true, not, ◌&&◌, Option, none, some, List, [], ◌∷◌, ◌++◌,
  length, take, drop, replicate, if◌then◌else◌, ltb, ◌==◌,
}
use gpu_rotation_engine.Mldsa.Params.{
  mldsa_q, mldsa_mode_44, mldsa_mode_65, mldsa_mode_87, mldsa_get_params,
}
use gpu_rotation_engine.Mldsa.ZCoeffs.{
  pack_z_coeffs_mldsa44, pack_z_coeffs_mldsa65, pack_z_coeffs_mldsa87, unpack_z_coeffs_mldsa44,
  unpack_z_coeffs_mldsa65, unpack_z_coeffs_mldsa87,
}
use gpu_rotation_engine.Mldsa.Hints.{
  encode_hint_sparse_mldsa44, encode_hint_sparse_mldsa65, encode_hint_sparse_mldsa87,
  decode_hint_sparse_mldsa44, decode_hint_sparse_mldsa65, decode_hint_sparse_mldsa87,
}

-- `h_section_size - h_written` zero bytes, none when that is not positive.
unfoldable pub pack_signature_fips204_mldsa44 : List ℕ → List ℕ → List ℕ → List ℕ
pack_signature_fips204_mldsa44 c_tilde z h =
    take 32 c_tilde
    ++ (pack_z_coeffs_mldsa44 z ++ (encode_hint_sparse_mldsa44 h ++ replicate (84 - (80 + 4)) 0))

unfoldable pub pack_signature_fips204_mldsa65 : List ℕ → List ℕ → List ℕ → List ℕ
pack_signature_fips204_mldsa65 c_tilde z h =
    take 32 c_tilde
    ++ (pack_z_coeffs_mldsa65 z ++ (encode_hint_sparse_mldsa65 h ++ replicate (77 - (55 + 6)) 0))

unfoldable pub pack_signature_fips204_mldsa87 : List ℕ → List ℕ → List ℕ → List ℕ
pack_signature_fips204_mldsa87 c_tilde z h =
    take 32 c_tilde
    ++ (pack_z_coeffs_mldsa87 z ++ (encode_hint_sparse_mldsa87 h ++ replicate (115 - (75 + 8)) 0))

unfoldable pub pack_signature_fips204 : ℕ → List ℕ → List ℕ → List ℕ → List ℕ
pack_signature_fips204 mode c_tilde z h =
    if mode == mldsa_mode_44
    then pack_signature_fips204_mldsa44 c_tilde z h
    else if mode == mldsa_mode_65
    then pack_signature_fips204_mldsa65 c_tilde z h
    else if mode == mldsa_mode_87
    then pack_signature_fips204_mldsa87 c_tilde z h
    else []

-- The constants of a mode: `gamma1 - beta`, and the length of the packed z.
unfoldable pub mode_bound : ℕ → ℕ
mode_bound mode =
    if mode == mldsa_mode_44
    then 2 ^ 17 - 39 * 2
    else if mode == mldsa_mode_65
    then 2 ^ 19 - 49 * 4
    else 2 ^ 19 - 60 * 2

unfoldable pub z_packed_len : ℕ → ℕ
z_packed_len mode =
    if mode == mldsa_mode_44 then 2304 else if mode == mldsa_mode_65 then 3200 else 4480

unfoldable pub unpack_z : ℕ → List ℕ → List ℕ
unpack_z mode bytes =
    if mode == mldsa_mode_44
    then unpack_z_coeffs_mldsa44 bytes
    else if mode == mldsa_mode_65
    then unpack_z_coeffs_mldsa65 bytes
    else unpack_z_coeffs_mldsa87 bytes

unfoldable pub unpack_hint : ℕ → List ℕ → List ℕ
unpack_hint mode bytes =
    if mode == mldsa_mode_44
    then decode_hint_sparse_mldsa44 bytes
    else if mode == mldsa_mode_65
    then decode_hint_sparse_mldsa65 bytes
    else decode_hint_sparse_mldsa87 bytes

-- `!(zi >= bound || zi <= -bound)`, on a coefficient below q taken to its centred form.
unfoldable pub in_bound : ℕ → ℕ → Bool
in_bound bound z = if ltb (mldsa_q / 2) z then ltb (mldsa_q - z) bound else ltb z bound

unfoldable pub all_in_bound : ℕ → List ℕ → Bool
all_in_bound bound [] = true
all_in_bound bound (z ∷ zs) = in_bound bound z && all_in_bound bound zs

-- The challenge seed, z and the hint that a signature is read as, none if it is refused before the
-- challenge is sampled. The length of the public key, which is tested before, is taken to be right.
unfoldable pub read_signature : ℕ → List ℕ → Option (List ℕ × List ℕ × List ℕ)
read_signature mode sig =
    let z = unpack_z mode (drop 32 sig) in
    let h = unpack_hint mode (drop (32 + z_packed_len mode) sig) in
    if (mldsa_get_params mode).k == 0
    then none
    else if not (length sig == (mldsa_get_params mode).sig_len)
    then none
    else if all_in_bound (mode_bound mode) z
    then some (take 32 sig, z, h)
    else none
