-- ===== src/Mldsa/ReadBounds.antt =====
-- What the verifier has read, whatever bytes it was given.
use gpu_rotation_engine.Base.{
  ℕ, zero, suc, ◌+◌, ◌*◌, ◌^◌, ◌<◌, ◌≡◌, inl, inr, sym, ap, ◌∙◌, subst, true, false, Option, none,
  some, List, [], ◌∷◌, All, arith, length, take, drop, ◌==◌, Bool-cases, length-take, length-drop,
}
use gpu_rotation_engine.Mldsa.Params.{mldsa_get_params}
use gpu_rotation_engine.Mldsa.ZCoeffs.{
  unpack_z_coeffs_mldsa44, unpack_z_coeffs_mldsa65, unpack_z_coeffs_mldsa87,
}
use gpu_rotation_engine.Mldsa.Hints.{
  decode_hint_sparse_mldsa44, decode_hint_sparse_mldsa65, decode_hint_sparse_mldsa87,
}
use gpu_rotation_engine.Mldsa.HintRows.{IsBit}
use gpu_rotation_engine.Mldsa.Signature.{
  mode_bound, z_packed_len, unpack_z, unpack_hint, in_bound, all_in_bound, read_signature,
}
use gpu_rotation_engine.Mldsa.SignatureParts.{Within}
use gpu_rotation_engine.Mldsa.UnpackBounds.{
  Reduced, unpack_groups_20-lem, unpack_groups_18-lem, decode_hint-IsBit,
}

-- The coefficients that pass the check of the norm.
Within-All :
    (bound : ℕ) (zs : List ℕ)
    → All Reduced zs
    → all_in_bound bound zs ≡ true
    → All (Within bound) zs
unfolding all_in_bound
Within-All bound [] reduced inside = record {}
Within-All bound (z ∷ zs) (lt, reduced) inside = elim (Bool-cases (in_bound bound z)) [
  | inl e ↦
      let rest : all_in_bound bound zs ≡ true = rw e at inside in
      ((lt, e), Within-All bound zs reduced rest)
  | inr e ↦ let none_left : false ≡ true = rw e at inside in absurd cc
]

-- A seed, a z and a hint of a mode's sizes, z reduced and within the bound, the hint made of bits.
pub record WellFormed (mode : ℕ) (c z h : List ℕ) : Type 0 where
  pub c_len : length c ≡ 32
  pub z_len : length z ≡ 256 * (mldsa_get_params mode).l
  pub z_within : All (Within (mode_bound mode)) z
  pub h_len : length h ≡ 256 * (mldsa_get_params mode).k
  pub h_bits : All IsBit h

unpack_z_lem :
    (mode : ℕ) (sig : List ℕ)
    → mode < 3
    → length sig ≡ (mldsa_get_params mode).sig_len
    → (length (unpack_z mode (drop 32 sig)) ≡ 256 * (mldsa_get_params mode).l)
      × All Reduced (unpack_z mode (drop 32 sig))
unfolding unpack_z mldsa_get_params unpack_z_coeffs_mldsa44 unpack_z_coeffs_mldsa65
    unpack_z_coeffs_mldsa87
unpack_z_lem zero sig lt len =
    unpack_groups_18-lem (2 ^ 17) 256 (drop 32 sig) (omega (arith, len, length-drop 32 sig))
unpack_z_lem (suc zero) sig lt len =
    unpack_groups_20-lem (2 ^ 19) 320 (drop 32 sig) (omega (arith, len, length-drop 32 sig))
unpack_z_lem (suc (suc zero)) sig lt len =
    unpack_groups_20-lem (2 ^ 19) 448 (drop 32 sig) (omega (arith, len, length-drop 32 sig))
unpack_z_lem (suc (suc (suc mode))) sig lt len = absurd (omega arith)

unpack_hint_lem :
    (mode : ℕ) (sig : List ℕ)
    → mode < 3
    → length sig ≡ (mldsa_get_params mode).sig_len
    → All IsBit (unpack_hint mode (drop (32 + z_packed_len mode) sig))
      × (length (unpack_hint mode (drop (32 + z_packed_len mode) sig))
          ≡ 256 * (mldsa_get_params mode).k)
unfolding unpack_hint z_packed_len mldsa_get_params decode_hint_sparse_mldsa44
    decode_hint_sparse_mldsa65 decode_hint_sparse_mldsa87
unpack_hint_lem zero sig lt len =
    decode_hint-IsBit 4 80 (drop 2336 sig) (omega (arith, len, length-drop 2336 sig))
unpack_hint_lem (suc zero) sig lt len =
    decode_hint-IsBit 6 55 (drop 3232 sig) (omega (arith, len, length-drop 3232 sig))
unpack_hint_lem (suc (suc zero)) sig lt len =
    decode_hint-IsBit 8 75 (drop 4512 sig) (omega (arith, len, length-drop 4512 sig))
unpack_hint_lem (suc (suc (suc mode))) sig lt len = absurd (omega arith)

abbrev parts_of : Option (List ℕ × List ℕ × List ℕ) → List ℕ × List ℕ × List ℕ
parts_of none = ([], [], [])
parts_of (some parts) = parts

seed_len :
    (mode : ℕ) (sig : List ℕ)
    → mode < 3
    → length sig ≡ (mldsa_get_params mode).sig_len
    → length (take 32 sig) ≡ 32
unfolding mldsa_get_params
seed_len zero sig lt len = omega (arith, length-take 32 sig, len)
seed_len (suc zero) sig lt len = omega (arith, length-take 32 sig, len)
seed_len (suc (suc zero)) sig lt len = omega (arith, length-take 32 sig, len)
seed_len (suc (suc (suc mode))) sig lt len = absurd (omega arith)

-- What acceptance says, check by check.
read_signature_inv :
    (mode : ℕ) (sig c z h : List ℕ)
    → read_signature mode sig ≡ some (c, z, h)
    → (length sig ≡ (mldsa_get_params mode).sig_len)
      × (all_in_bound (mode_bound mode) (unpack_z mode (drop 32 sig)) ≡ true)
      × (c ≡ take 32 sig)
      × (z ≡ unpack_z mode (drop 32 sig))
      × (h ≡ unpack_hint mode (drop (32 + z_packed_len mode) sig))
unfolding read_signature
read_signature_inv mode sig c z h e = elim (Bool-cases ((mldsa_get_params mode).k == 0)) [
  | inl f ↦
      let no : ◌≡◌ {A = Option (List ℕ × List ℕ × List ℕ)} none (some (c, z, h)) = rw f at e in
      absurd cc
  | inr f ↦ elim (Bool-cases (length sig == (mldsa_get_params mode).sig_len)) [
    | inr g ↦
        let no : ◌≡◌ {A = Option (List ℕ × List ℕ × List ℕ)} none (some (c, z, h)) =
          rw (f, g) at e in
        absurd cc
    | inl g ↦ elim (Bool-cases (all_in_bound (mode_bound mode) (unpack_z mode (drop 32 sig)))) [
      | inr i ↦
          let no : ◌≡◌ {A = Option (List ℕ × List ℕ × List ℕ)} none (some (c, z, h)) =
            rw (f, g, i) at e in
          absurd cc
      | inl i ↦
          let yes : ◌≡◌ {A = Option (List ℕ × List ℕ × List ℕ)}
              (some (
                take 32 sig,
                unpack_z mode (drop 32 sig),
                unpack_hint mode (drop (32 + z_packed_len mode) sig),
              ))
              (some (c, z, h)) =
            rw (f, g, i) at e in
          (
            ground (arith, g),
            i,
            sym (ap (λ o. (parts_of o).0) yes),
            sym (ap (λ o. (parts_of o).1) yes),
            sym (ap (λ o. (parts_of o).2) yes),
          )
    ]
  ]
]

-- Whatever bytes the verifier is given as a signature, if it reads a seed, a z and a hint from them,
-- then the seed has 32 bytes, z has l polynomials of 256 coefficients, each below q and within the
-- bound, and the hint has k rows of 256 bits.
pub read_signature-WellFormed :
    (mode : ℕ) (sig c z h : List ℕ)
    → mode < 3
    → read_signature mode sig ≡ some (c, z, h)
    → WellFormed mode c z h
read_signature-WellFormed mode sig c z h lt e =
    let (len, inside, c_is, z_is, h_is) = read_signature_inv mode sig c z h e in
    let (z_len, reduced) = unpack_z_lem mode sig lt len in
    let (bits, h_len) = unpack_hint_lem mode sig lt len in
    record {
      c_len = ap length c_is ∙ seed_len mode sig lt len;
      z_len = ap length z_is ∙ z_len;
      z_within =
          subst (All (Within (mode_bound mode))) (sym z_is)
            (Within-All (mode_bound mode) (unpack_z mode (drop 32 sig)) reduced inside);
      h_len = ap length h_is ∙ h_len;
      h_bits = subst (All IsBit) (sym h_is) bits;
    }
