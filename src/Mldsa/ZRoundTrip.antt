-- ===== src/Mldsa/ZRoundTrip.antt =====
-- What is packed is read back.
use gpu_rotation_engine.Base.{
  ℕ, zero, suc, ◌+◌, ◌*◌, ◌/◌, ◌%◌, ◌^◌, ◌≤◌, ◌<◌, ◌≡◌, ◌⊎◌, inl, inr, refl, true, false, List, [],
  ◌∷◌, ◌++◌, All, arith, length, ltb,
}
use gpu_rotation_engine.Mldsa.Params.{mldsa_q}
use gpu_rotation_engine.Mldsa.ZCoeffs.{
  gamma1_minus, mod_q, pack_20, pack_18, pack_groups, unpack_groups_20, unpack_groups_18,
}

-- A coefficient that stands for a number above -gamma1 and up to gamma1.
abbrev pub Short : ℕ → ℕ → Type 0
Short gamma1 z = (z ≤ gamma1) ⊎ ((mldsa_q < z + gamma1) × (z < mldsa_q))

gamma1_minus_lem :
    (gamma1 z : ℕ)
    → 0 < gamma1
    → gamma1 ≤ 2 ^ 19
    → Short gamma1 z
    → (gamma1_minus gamma1 z < 2 * gamma1) × (mod_q gamma1 (gamma1_minus gamma1 z) ≡ z)
unfolding gamma1_minus mod_q
gamma1_minus_lem gamma1 z pos le (inl low) =
    let small : ltb 4190208 z ≡ false = ground (arith, low, le) in
    rw small (omega arith, omega arith)
gamma1_minus_lem gamma1 z pos le (inr (high, lt)) =
    let large : ltb 4190208 z ≡ true = ground (arith, high, le) in
    rw large (omega arith, omega arith)

-- Two values of 20 bits out of five bytes.
bits_20 :
    (t u : ℕ)
    → t < 2 ^ 20
    → u < 2 ^ 20
    → (t % 256 + t / 2 ^ 8 % 256 * 2 ^ 8 + (t / 2 ^ 16 % 16 + u % 16 * 16) % 16 * 2 ^ 16 ≡ t)
      × ((t / 2 ^ 16 % 16 + u % 16 * 16) / 16 + u / 2 ^ 4 % 256 * 2 ^ 4 + u / 2 ^ 12 % 256 * 2 ^ 12
          ≡ u)
bits_20 t u ht hu = (omega arith, omega arith)

four :
    {z0 z1 z2 z3 t0 t1 t2 t3 u0 u1 u2 u3 : ℕ} {z z' : List ℕ} (gamma1 : ℕ)
    → u0 ≡ t0
    → u1 ≡ t1
    → u2 ≡ t2
    → u3 ≡ t3
    → mod_q gamma1 t0 ≡ z0
    → mod_q gamma1 t1 ≡ z1
    → mod_q gamma1 t2 ≡ z2
    → mod_q gamma1 t3 ≡ z3
    → z' ≡ z
    → ◌≡◌ {A = List ℕ}
        (mod_q gamma1 u0 ∷ mod_q gamma1 u1 ∷ mod_q gamma1 u2 ∷ mod_q gamma1 u3 ∷ z')
        (z0 ∷ z1 ∷ z2 ∷ z3 ∷ z)
four gamma1 a b c d e f g h i = cc

pub unpack-pack_20 :
    (groups : ℕ) (z rest : List ℕ)
    → length z ≡ 4 * groups
    → All (Short (2 ^ 19)) z
    → unpack_groups_20 (2 ^ 19) groups (pack_groups pack_20 (2 ^ 19) groups z ++ rest) ≡ z
unfolding unpack_groups_20 pack_groups pack_20
unpack-pack_20 zero [] rest len short = refl
unpack-pack_20 zero (z0 ∷ z) rest len short = absurd (omega arith)
unpack-pack_20 (suc groups) (z0 ∷ z1 ∷ z2 ∷ z3 ∷ z) rest len (s0, (s1, (s2, (s3, short)))) =
    let (t0, e0) = gamma1_minus_lem (2 ^ 19) z0 (omega arith) (omega arith) s0 in
    let (t1, e1) = gamma1_minus_lem (2 ^ 19) z1 (omega arith) (omega arith) s1 in
    let (t2, e2) = gamma1_minus_lem (2 ^ 19) z2 (omega arith) (omega arith) s2 in
    let (t3, e3) = gamma1_minus_lem (2 ^ 19) z3 (omega arith) (omega arith) s3 in
    let (b0, b1) = bits_20 _ _ t0 t1 in
    let (b2, b3) = bits_20 _ _ t2 t3 in
    four _ b0 b1 b2 b3 e0 e1 e2 e3 (unpack-pack_20 groups z rest (omega (arith, len)) short)
unpack-pack_20 (suc groups) [] rest len short = absurd (omega (arith, len))
unpack-pack_20 (suc groups) (z0 ∷ []) rest len short = absurd (omega (arith, len))
unpack-pack_20 (suc groups) (z0 ∷ z1 ∷ []) rest len short = absurd (omega (arith, len))
unpack-pack_20 (suc groups) (z0 ∷ z1 ∷ z2 ∷ []) rest len short = absurd (omega (arith, len))

-- Four values of 18 bits out of nine bytes.
bits_18 :
    (t0 t1 t2 t3 : ℕ)
    → t0 < 2 ^ 18
    → t1 < 2 ^ 18
    → t2 < 2 ^ 18
    → t3 < 2 ^ 18
    → (t0 % 256 + t0 / 2 ^ 8 % 256 * 2 ^ 8 + (t0 / 2 ^ 16 % 4 + t1 % 64 * 4) % 4 * 2 ^ 16 ≡ t0)
      × ((t0 / 2 ^ 16 % 4 + t1 % 64 * 4) / 4
            + t1 / 2 ^ 6 % 256 * 2 ^ 6
            + (t1 / 2 ^ 14 % 16 + t2 % 16 * 16) % 16 * 2 ^ 14
          ≡ t1)
      × ((t1 / 2 ^ 14 % 16 + t2 % 16 * 16) / 16
            + t2 / 2 ^ 4 % 256 * 2 ^ 4
            + (t2 / 2 ^ 12 % 64 + t3 % 4 * 64) % 64 * 2 ^ 12
          ≡ t2)
      × ((t2 / 2 ^ 12 % 64 + t3 % 4 * 64) / 64
            + t3 / 2 ^ 2 % 256 * 2 ^ 2
            + t3 / 2 ^ 10 % 256 * 2 ^ 10
          ≡ t3)
bits_18 t0 t1 t2 t3 h0 h1 h2 h3 = (omega arith, omega arith, omega arith, omega arith)

pub unpack-pack_18 :
    (groups : ℕ) (z rest : List ℕ)
    → length z ≡ 4 * groups
    → All (Short (2 ^ 17)) z
    → unpack_groups_18 (2 ^ 17) groups (pack_groups pack_18 (2 ^ 17) groups z ++ rest) ≡ z
unfolding unpack_groups_18 pack_groups pack_18
unpack-pack_18 zero [] rest len short = refl
unpack-pack_18 zero (z0 ∷ z) rest len short = absurd (omega arith)
unpack-pack_18 (suc groups) (z0 ∷ z1 ∷ z2 ∷ z3 ∷ z) rest len (s0, (s1, (s2, (s3, short)))) =
    let (t0, e0) = gamma1_minus_lem (2 ^ 17) z0 (omega arith) (omega arith) s0 in
    let (t1, e1) = gamma1_minus_lem (2 ^ 17) z1 (omega arith) (omega arith) s1 in
    let (t2, e2) = gamma1_minus_lem (2 ^ 17) z2 (omega arith) (omega arith) s2 in
    let (t3, e3) = gamma1_minus_lem (2 ^ 17) z3 (omega arith) (omega arith) s3 in
    let (b0, b1, b2, b3) = bits_18 _ _ _ _ t0 t1 t2 t3 in
    four _ b0 b1 b2 b3 e0 e1 e2 e3 (unpack-pack_18 groups z rest (omega (arith, len)) short)
unpack-pack_18 (suc groups) [] rest len short = absurd (omega (arith, len))
unpack-pack_18 (suc groups) (z0 ∷ []) rest len short = absurd (omega (arith, len))
unpack-pack_18 (suc groups) (z0 ∷ z1 ∷ []) rest len short = absurd (omega (arith, len))
unpack-pack_18 (suc groups) (z0 ∷ z1 ∷ z2 ∷ []) rest len short = absurd (omega (arith, len))

pub length-pack_20 :
    (groups : ℕ) (z : List ℕ)
    → length z ≡ 4 * groups
    → length (pack_groups pack_20 (2 ^ 19) groups z) ≡ 10 * groups
unfolding pack_groups pack_20
length-pack_20 zero z len = omega arith
length-pack_20 (suc groups) (z0 ∷ z1 ∷ z2 ∷ z3 ∷ z) len =
    omega (arith, length-pack_20 groups z (omega (arith, len)))
length-pack_20 (suc groups) [] len = absurd (omega (arith, len))
length-pack_20 (suc groups) (z0 ∷ []) len = absurd (omega (arith, len))
length-pack_20 (suc groups) (z0 ∷ z1 ∷ []) len = absurd (omega (arith, len))
length-pack_20 (suc groups) (z0 ∷ z1 ∷ z2 ∷ []) len = absurd (omega (arith, len))

pub length-pack_18 :
    (groups : ℕ) (z : List ℕ)
    → length z ≡ 4 * groups
    → length (pack_groups pack_18 (2 ^ 17) groups z) ≡ 9 * groups
unfolding pack_groups pack_18
length-pack_18 zero z len = omega arith
length-pack_18 (suc groups) (z0 ∷ z1 ∷ z2 ∷ z3 ∷ z) len =
    omega (arith, length-pack_18 groups z (omega (arith, len)))
length-pack_18 (suc groups) [] len = absurd (omega (arith, len))
length-pack_18 (suc groups) (z0 ∷ []) len = absurd (omega (arith, len))
length-pack_18 (suc groups) (z0 ∷ z1 ∷ []) len = absurd (omega (arith, len))
length-pack_18 (suc groups) (z0 ∷ z1 ∷ z2 ∷ []) len = absurd (omega (arith, len))
