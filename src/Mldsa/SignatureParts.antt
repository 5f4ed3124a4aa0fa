-- ===== src/Mldsa/SignatureParts.antt =====
-- The packed parts of a signature: each is read back as what it was packed of.
use gpu_rotation_engine.Base.{
  ℕ, zero, suc, ◌+◌, ◌-◌, ◌*◌, ◌^◌, ◌≤◌, ◌<◌, ◌≡◌, inl, inr, refl, sym, ap, ◌∙◌, true, List, [],
  ◌∷◌, ◌++◌, All, arith, length, take, drop, if◌then◌else◌, ltb, ltb_cases, ◌==◌, append_assoc,
  length-append, take_left, drop_left,
}
use gpu_rotation_engine.Mldsa.Params.{mldsa_q, mldsa_get_params}
use gpu_rotation_engine.Mldsa.ZCoeffs.{
  pack_z_coeffs_mldsa44, pack_z_coeffs_mldsa65, pack_z_coeffs_mldsa87, unpack_z_coeffs_mldsa44,
  unpack_z_coeffs_mldsa65, unpack_z_coeffs_mldsa87,
}
use gpu_rotation_engine.Mldsa.ZRoundTrip.{
  Short, unpack-pack_18, unpack-pack_20, length-pack_18, length-pack_20,
}
use gpu_rotation_engine.Mldsa.Hints.{
  encode_hint_sparse_mldsa44, encode_hint_sparse_mldsa65, encode_hint_sparse_mldsa87,
  decode_hint_sparse_mldsa44, decode_hint_sparse_mldsa65, decode_hint_sparse_mldsa87,
}
use gpu_rotation_engine.Mldsa.HintRows.{IsBit, weight}
use gpu_rotation_engine.Mldsa.HintRoundTrip.{decode-encode_hint, length-encode_hint}
use gpu_rotation_engine.Mldsa.Signature.{
  mode_bound, z_packed_len, unpack_z, unpack_hint, in_bound, all_in_bound,
}

-- A coefficient below q that is nearer to 0 than the bound, on either side.
abbrev pub Within : ℕ → ℕ → Type 0
Within bound z = (z < mldsa_q) × (in_bound bound z ≡ true)

Within-Short : (bound gamma1 z : ℕ) → bound < gamma1 → Within bound z → Short gamma1 z
unfolding in_bound
Within-Short bound gamma1 z lt (z_lt, inside) = elim (ltb_cases 4190208 z) [
  | inl (high, e) ↦
      let near : ltb (8380417 - z) bound ≡ true = rw e at inside in
      inr (ground (arith, near, lt), z_lt)
  | inr (low, e) ↦ let near : ltb z bound ≡ true = rw e at inside in inl (ground (arith, near, lt))
]

All-Short :
    (bound gamma1 : ℕ) (zs : List ℕ)
    → bound < gamma1
    → All (Within bound) zs
    → All (Short gamma1) zs × (all_in_bound bound zs ≡ true)
unfolding all_in_bound
All-Short bound gamma1 [] lt p = (p, refl)
All-Short bound gamma1 (z ∷ zs) lt (p, ps) =
    let (short, inside) = All-Short bound gamma1 zs lt ps in
    ((Within-Short bound gamma1 z lt p, short), rw p.1 inside)

-- The number of hints a mode has bytes for.
abbrev pub mode_omega : ℕ → ℕ
mode_omega mode = if mode == 0 then 80 else if mode == 1 then 55 else 75

-- A signature's three parts as the signer makes them: a seed of 32 bytes, l polynomials within the
-- verifier's bound, and k rows of hint bits of which at most omega are set.
pub record IsSignature (mode : ℕ) (c_tilde z h : List ℕ) : Type 0 where
  pub c_len : length c_tilde ≡ 32
  pub z_len : length z ≡ 256 * (mldsa_get_params mode).l
  pub z_within : All (Within (mode_bound mode)) z
  pub h_len : length h ≡ 256 * (mldsa_get_params mode).k
  pub h_bits : All IsBit h
  pub h_weight : weight h ≤ mode_omega mode

-- Where the parts of a signature stand.
pub parts :
    (n : ℕ) (c zs t : List ℕ)
    → length c ≡ 32
    → length zs ≡ n
    → (drop 32 (c ++ (zs ++ t)) ≡ zs ++ t)
      × (drop (32 + n) (c ++ (zs ++ t)) ≡ t)
      × (take 32 (c ++ (zs ++ t)) ≡ c)
parts n c zs t c_len len = (
  drop_left 32 c (zs ++ t) c_len,
  ap (drop (32 + n)) (sym (append_assoc c zs t))
      ∙ drop_left (32 + n) (c ++ zs) t (omega (arith, c_len, len, length-append c zs)),
  take_left 32 c (zs ++ t) c_len,
)

-- The middle parts of a signature as `pack_signature_fips204` writes them.
abbrev pub packed_z : ℕ → List ℕ → List ℕ
packed_z mode z =
    if mode == 0
    then pack_z_coeffs_mldsa44 z
    else if mode == 1
    then pack_z_coeffs_mldsa65 z
    else pack_z_coeffs_mldsa87 z

abbrev pub packed_hint : ℕ → List ℕ → List ℕ
packed_hint mode h =
    if mode == 0
    then encode_hint_sparse_mldsa44 h
    else if mode == 1
    then encode_hint_sparse_mldsa65 h
    else encode_hint_sparse_mldsa87 h

pub packed_z_lem :
    (mode : ℕ) (c z h : List ℕ)
    → mode < 3
    → IsSignature mode c z h
    → ((rest : List ℕ) → unpack_z mode (packed_z mode z ++ rest) ≡ z)
      × (length (packed_z mode z) ≡ z_packed_len mode)
      × (all_in_bound (mode_bound mode) z ≡ true)
unfolding unpack_z mode_bound z_packed_len mldsa_get_params pack_z_coeffs_mldsa44
    pack_z_coeffs_mldsa65 pack_z_coeffs_mldsa87 unpack_z_coeffs_mldsa44 unpack_z_coeffs_mldsa65
    unpack_z_coeffs_mldsa87
packed_z_lem zero c z h lt s =
    let (short, inside) = All-Short (2 ^ 17 - 39 * 2) (2 ^ 17) z (omega arith) s.z_within in
    let len : length z ≡ 4 * (4 * 64) = s.z_len in
    (λ rest. unpack-pack_18 (4 * 64) z rest len short, length-pack_18 (4 * 64) z len, inside)
packed_z_lem (suc zero) c z h lt s =
    let (short, inside) = All-Short (2 ^ 19 - 49 * 4) (2 ^ 19) z (omega arith) s.z_within in
    let len : length z ≡ 4 * (5 * 64) = s.z_len in
    (λ rest. unpack-pack_20 (5 * 64) z rest len short, length-pack_20 (5 * 64) z len, inside)
packed_z_lem (suc (suc zero)) c z h lt s =
    let (short, inside) = All-Short (2 ^ 19 - 60 * 2) (2 ^ 19) z (omega arith) s.z_within in
    let len : length z ≡ 4 * (7 * 64) = s.z_len in
    (λ rest. unpack-pack_20 (7 * 64) z rest len short, length-pack_20 (7 * 64) z len, inside)
packed_z_lem (suc (suc (suc mode))) c z h lt s = absurd (omega arith)

-- The bytes a mode leaves behind the hint.
abbrev pub trailing : ℕ → ℕ
trailing mode = if mode == 0 then 0 else if mode == 1 then 16 else 32

pub packed_hint_lem :
    (mode : ℕ) (c z h : List ℕ)
    → mode < 3
    → IsSignature mode c z h
    → ((rest : List ℕ) → unpack_hint mode (packed_hint mode h ++ rest) ≡ h)
      × (32 + z_packed_len mode + length (packed_hint mode h) + trailing mode
          ≡ (mldsa_get_params mode).sig_len)
unfolding unpack_hint z_packed_len mldsa_get_params encode_hint_sparse_mldsa44
    encode_hint_sparse_mldsa65 encode_hint_sparse_mldsa87 decode_hint_sparse_mldsa44
    decode_hint_sparse_mldsa65 decode_hint_sparse_mldsa87
packed_hint_lem zero c z h lt s = (
  λ rest. decode-encode_hint 80 (omega arith) 4 h rest s.h_len s.h_bits s.h_weight,
  omega (arith, length-encode_hint 80 (omega arith) 4 h s.h_weight),
)
packed_hint_lem (suc zero) c z h lt s = (
  λ rest. decode-encode_hint 55 (omega arith) 6 h rest s.h_len s.h_bits s.h_weight,
  omega (arith, length-encode_hint 55 (omega arith) 6 h s.h_weight),
)
packed_hint_lem (suc (suc zero)) c z h lt s = (
  λ rest. decode-encode_hint 75 (omega arith) 8 h rest s.h_len s.h_bits s.h_weight,
  omega (arith, length-encode_hint 75 (omega arith) 8 h s.h_weight),
)
packed_hint_lem (suc (suc (suc mode))) c z h lt s = absurd (omega arith)
