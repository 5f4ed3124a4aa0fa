-- ===== src/Mldsa/KeyOverread.antt =====
-- Reading of packed ML-DSA-87 keys behind their end.
use gpu_rotation_engine.Base.{
  ℕ, ◌≤◌, ◌≡◌, refl, sym, ap, ◌∙◌, false, some, List, [], ◌++◌, All, arith, length, drop, ltb,
  drop-drop, drop_left, length-append, length-drop, append-nil, append_assoc,
}
use gpu_rotation_engine.Mldsa.Params.{mldsa_get_params}
use gpu_rotation_engine.Mldsa.SecretKey.{
  ExpandedKey, mode_eta, packed_size, unpack_eta, t0_offset, unpack_sk_fips204,
  unpack_t0_13bit_coeffs,
}
use gpu_rotation_engine.Mldsa.KeyBits.{Near}
use gpu_rotation_engine.Mldsa.T0Bits.{pack_t0, unpack-pack_t0, drop-unpack_t0}
use gpu_rotation_engine.Mldsa.KeyRoundTrip.{unpack_is, not_less}

-- The t0 that the code takes from 2048 bytes on, with any 12 bytes and 288 packed coefficients behind
-- a key of 4896 bytes.
t0_behind :
    (key pad xs : List ℕ)
    → length key ≡ 4896
    → length pad ≡ 12
    → length xs ≡ 288
    → All (Near 4096 4095) xs
    → drop 1760 (unpack_t0_13bit_coeffs 2048 (drop 2048 (key ++ (pad ++ pack_t0 36 xs)))) ≡ xs
t0_behind key pad xs key_len pad_len xs_len near =
    let sk : List ℕ = key ++ (pad ++ pack_t0 36 xs) in
    let front : length (key ++ pad) ≡ 4908 =
      omega (arith, length-append key pad, key_len, pad_len) in
    let enough : 2860 ≤ length (drop 2048 sk) = omega (
      arith,
      length-drop 2048 sk,
      length-append key (pad ++ pack_t0 36 xs),
      length-append pad (pack_t0 36 xs),
      key_len,
      pad_len,
    ) in
    let behind : drop 2860 (drop 2048 sk) ≡ pack_t0 36 xs =
      drop-drop 2048 2860 4908 sk refl
      ∙ ap (drop 4908) (sym (append_assoc key pad (pack_t0 36 xs)))
      ∙ drop_left 4908 (key ++ pad) (pack_t0 36 xs) front in
    drop-unpack_t0 220 288 2048 1760 2860 (drop 2048 sk) refl refl refl enough
    ∙ ap (unpack_t0_13bit_coeffs 288) (behind ∙ sym (append-nil (pack_t0 36 xs)))
    ∙ unpack-pack_t0 36 288 xs [] xs_len (sym xs_len) near

-- For ML-DSA-87 the code takes eta for 4, where FIPS 204 has 2, and so looks for t0 too far behind.
-- Given room for the expanded form, it accepts any 4896 bytes as a key and takes the last 288
-- coefficients of t0 wholly from the bytes 12 to 480 behind the key's end: whatever coefficients from
-- -4095 to 4096 are packed there, those are the ones it takes.
pub unpack_sk_fips204-overreads :
    (key pad xs : List ℕ) (n : ℕ)
    → length key ≡ 4896
    → length pad ≡ 12
    → length xs ≡ 288
    → All (Near 4096 4095) xs
    → 23680 ≤ n
    → (r : ExpandedKey) × (unpack_sk_fips204 2 (key ++ (pad ++ pack_t0 36 xs)) 4896 n ≡ some r)
      × (drop 1760 r.t0 ≡ xs)
unfolding mldsa_get_params unpack_eta mode_eta packed_size t0_offset
unpack_sk_fips204-overreads key pad xs n key_len pad_len xs_len near room =
    let big : ltb n 23680 ≡ false = not_less _ n room in
    let sk : List ℕ = key ++ (pad ++ pack_t0 36 xs) in
    (
      _,
      unpack_is 2 sk 4896 n _ refl refl big refl refl refl refl refl refl,
      t0_behind key pad xs key_len pad_len xs_len near,
    )
