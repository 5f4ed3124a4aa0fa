-- ===== src/Mldsa/T0Bits.antt =====
-- The packed t0 of a secret key, as FIPS 204 packs it, is read back by the loop over its bits.
use gpu_rotation_engine.Base.{
  ℕ, drop, ◌≤◌, zero, suc, ◌+◌, ◌*◌, ◌/◌, ◌%◌, ◌^◌, ◌<◌, ◌≡◌, refl, ◌∙◌, List, [], ◌∷◌, ◌++◌, All,
  arith, length,
}
use gpu_rotation_engine.Mldsa.SecretKey.{
  from_stored, read_bits, unpack_t0_from, unpack_t0_13bit_coeffs,
}
use gpu_rotation_engine.Mldsa.KeyBits.{Near, stored_of, stored_of_lem}

-- Eight values of 13 bits in 13 bytes.
abbrev pub pack_13 : ℕ → ℕ → ℕ → ℕ → ℕ → ℕ → ℕ → ℕ → List ℕ → List ℕ
pack_13 s0 s1 s2 s3 s4 s5 s6 s7 bytes =
    (s0 % 256)
    ∷ (s0 / 2 ^ 8 + s1 % 8 * 2 ^ 5)
    ∷ (s1 / 2 ^ 3 % 256)
    ∷ (s1 / 2 ^ 11 + s2 % 64 * 2 ^ 2)
    ∷ (s2 / 2 ^ 6 + s3 % 2 * 2 ^ 7)
    ∷ (s3 / 2 % 256)
    ∷ (s3 / 2 ^ 9 + s4 % 16 * 2 ^ 4)
    ∷ (s4 / 2 ^ 4 % 256)
    ∷ (s4 / 2 ^ 12 + s5 % 128 * 2)
    ∷ (s5 / 2 ^ 7 + s6 % 4 * 2 ^ 6)
    ∷ (s6 / 2 ^ 2 % 256)
    ∷ (s6 / 2 ^ 10 + s7 % 32 * 2 ^ 3)
    ∷ (s7 / 2 ^ 5)
    ∷ bytes

abbrev pub pack_t0 : ℕ → List ℕ → List ℕ
pack_t0 zero zs = []
pack_t0 (suc groups) (z0 ∷ z1 ∷ z2 ∷ z3 ∷ z4 ∷ z5 ∷ z6 ∷ z7 ∷ zs) =
    pack_13 (stored_of 4096 z0) (stored_of 4096 z1) (stored_of 4096 z2) (stored_of 4096 z3)
      (stored_of 4096 z4) (stored_of 4096 z5) (stored_of 4096 z6) (stored_of 4096 z7)
      (pack_t0 groups zs)
pack_t0 (suc groups) _ = []

all_eight :
    {u0 u1 u2 u3 u4 u5 u6 u7 s0 s1 s2 s3 s4 s5 s6 s7 : ℕ} (bytes : List ℕ)
    → u0 ≡ s0
    → u1 ≡ s1
    → u2 ≡ s2
    → u3 ≡ s3
    → u4 ≡ s4
    → u5 ≡ s5
    → u6 ≡ s6
    → u7 ≡ s7
    → ◌≡◌ {A = List ℕ}
        (from_stored 4096 u0
          ∷ from_stored 4096 u1
          ∷ from_stored 4096 u2
          ∷ from_stored 4096 u3
          ∷ from_stored 4096 u4
          ∷ from_stored 4096 u5
          ∷ from_stored 4096 u6
          ∷ from_stored 4096 u7
          ∷ bytes)
        (from_stored 4096 s0
          ∷ from_stored 4096 s1
          ∷ from_stored 4096 s2
          ∷ from_stored 4096 s3
          ∷ from_stored 4096 s4
          ∷ from_stored 4096 s5
          ∷ from_stored 4096 s6
          ∷ from_stored 4096 s7
          ∷ bytes)
all_eight bytes e0 e1 e2 e3 e4 e5 e6 e7 = cc

eight :
    (s0 s1 s2 s3 s4 s5 s6 s7 n : ℕ) (bytes : List ℕ)
    → s0 < 2 ^ 13
    → s1 < 2 ^ 13
    → s2 < 2 ^ 13
    → s3 < 2 ^ 13
    → s4 < 2 ^ 13
    → s5 < 2 ^ 13
    → s6 < 2 ^ 13
    → s7 < 2 ^ 13
    → unpack_t0_from
        (suc (suc (suc (suc (suc (suc (suc (suc n))))))))
        (pack_13 s0 s1 s2 s3 s4 s5 s6 s7 bytes)
        0
      ≡ from_stored 4096 s0
        ∷ from_stored 4096 s1
        ∷ from_stored 4096 s2
        ∷ from_stored 4096 s3
        ∷ from_stored 4096 s4
        ∷ from_stored 4096 s5
        ∷ from_stored 4096 s6
        ∷ from_stored 4096 s7
        ∷ unpack_t0_from n bytes 0
unfolding unpack_t0_from read_bits
eight s0 s1 s2 s3 s4 s5 s6 s7 n bytes h0 h1 h2 h3 h4 h5 h6 h7 =
    all_eight (unpack_t0_from n bytes 0) (omega arith) (omega arith) (omega arith) (omega arith)
      (omega arith) (omega arith) (omega arith) (omega arith)

-- Coefficients from -4095 to 4096, packed eight to 13 bytes, are read back by the loop that takes
-- their bits from one byte after another.
pub unpack-pack_t0 :
    (groups n : ℕ) (zs rest : List ℕ)
    → length zs ≡ 8 * groups
    → n ≡ length zs
    → All (Near 4096 4095) zs
    → unpack_t0_13bit_coeffs n (pack_t0 groups zs ++ rest) ≡ zs
unfolding unpack_t0_13bit_coeffs unpack_t0_from
unpack-pack_t0 zero n [] rest len same near = rw same refl
unpack-pack_t0 zero n (z0 ∷ zs) rest len same near = absurd (omega (arith, len))
unpack-pack_t0 (suc groups) n (z0 ∷ z1 ∷ z2 ∷ z3 ∷ z4 ∷ z5 ∷ z6 ∷ z7 ∷ zs) rest len same
      (n0, (n1, (n2, (n3, (n4, (n5, (n6, (n7, near)))))))) =
    let (l0, e0) = stored_of_lem 4096 4095 z0 (omega arith) (omega arith) n0 in
    let (l1, e1) = stored_of_lem 4096 4095 z1 (omega arith) (omega arith) n1 in
    let (l2, e2) = stored_of_lem 4096 4095 z2 (omega arith) (omega arith) n2 in
    let (l3, e3) = stored_of_lem 4096 4095 z3 (omega arith) (omega arith) n3 in
    let (l4, e4) = stored_of_lem 4096 4095 z4 (omega arith) (omega arith) n4 in
    let (l5, e5) = stored_of_lem 4096 4095 z5 (omega arith) (omega arith) n5 in
    let (l6, e6) = stored_of_lem 4096 4095 z6 (omega arith) (omega arith) n6 in
    let (l7, e7) = stored_of_lem 4096 4095 z7 (omega arith) (omega arith) n7 in
    let rest' : unpack_t0_from (length zs) (pack_t0 groups zs ++ rest) 0 ≡ zs =
      unpack-pack_t0 groups (length zs) zs rest (omega (arith, len)) refl near in
    rw same (
      eight (stored_of 4096 z0) (stored_of 4096 z1) (stored_of 4096 z2) (stored_of 4096 z3)
        (stored_of 4096 z4) (stored_of 4096 z5) (stored_of 4096 z6) (stored_of 4096 z7) (length zs)
        (pack_t0 groups zs ++ rest) (omega (arith, l0)) (omega (arith, l1)) (omega (arith, l2))
        (omega (arith, l3)) (omega (arith, l4)) (omega (arith, l5)) (omega (arith, l6))
        (omega (arith, l7))
      ∙ rw (e0, e1, e2, e3, e4, e5, e6, e7, rest') refl)
unpack-pack_t0 (suc groups) n [] rest len same near = absurd (omega (arith, len))
unpack-pack_t0 (suc groups) n (z0 ∷ []) rest len same near = absurd (omega (arith, len))
unpack-pack_t0 (suc groups) n (z0 ∷ z1 ∷ []) rest len same near = absurd (omega (arith, len))
unpack-pack_t0 (suc groups) n (z0 ∷ z1 ∷ z2 ∷ []) rest len same near = absurd (omega (arith, len))
unpack-pack_t0 (suc groups) n (z0 ∷ z1 ∷ z2 ∷ z3 ∷ []) rest len same near =
    absurd (omega (arith, len))
unpack-pack_t0 (suc groups) n (z0 ∷ z1 ∷ z2 ∷ z3 ∷ z4 ∷ []) rest len same near =
    absurd (omega (arith, len))
unpack-pack_t0 (suc groups) n (z0 ∷ z1 ∷ z2 ∷ z3 ∷ z4 ∷ z5 ∷ []) rest len same near =
    absurd (omega (arith, len))
unpack-pack_t0 (suc groups) n (z0 ∷ z1 ∷ z2 ∷ z3 ∷ z4 ∷ z5 ∷ z6 ∷ []) rest len same near =
    absurd (omega (arith, len))

pub length-pack_t0 :
    (groups : ℕ) (zs : List ℕ) → length zs ≡ 8 * groups → length (pack_t0 groups zs) ≡ 13 * groups
length-pack_t0 zero zs len = omega arith
length-pack_t0 (suc groups) (z0 ∷ z1 ∷ z2 ∷ z3 ∷ z4 ∷ z5 ∷ z6 ∷ z7 ∷ zs) len =
    omega (arith, length-pack_t0 groups zs (omega (arith, len)))
length-pack_t0 (suc groups) [] len = absurd (omega (arith, len))
length-pack_t0 (suc groups) (z0 ∷ []) len = absurd (omega (arith, len))
length-pack_t0 (suc groups) (z0 ∷ z1 ∷ []) len = absurd (omega (arith, len))
length-pack_t0 (suc groups) (z0 ∷ z1 ∷ z2 ∷ []) len = absurd (omega (arith, len))
length-pack_t0 (suc groups) (z0 ∷ z1 ∷ z2 ∷ z3 ∷ []) len = absurd (omega (arith, len))
length-pack_t0 (suc groups) (z0 ∷ z1 ∷ z2 ∷ z3 ∷ z4 ∷ []) len = absurd (omega (arith, len))
length-pack_t0 (suc groups) (z0 ∷ z1 ∷ z2 ∷ z3 ∷ z4 ∷ z5 ∷ []) len = absurd (omega (arith, len))
length-pack_t0 (suc groups) (z0 ∷ z1 ∷ z2 ∷ z3 ∷ z4 ∷ z5 ∷ z6 ∷ []) len =
    absurd (omega (arith, len))

-- Eight times `g` and `n`, thirteen times `g`, counted out.
abbrev eights : ℕ → ℕ → ℕ
eights zero n = n
eights (suc g) n = suc (suc (suc (suc (suc (suc (suc (suc (eights g n))))))))

abbrev thirteens : ℕ → ℕ
thirteens zero = 0
thirteens (suc g) =
    suc (suc (suc (suc (suc (suc (suc (suc (suc (suc (suc (suc (suc (thirteens g)))))))))))))

eights_lem : (g n : ℕ) → eights g n ≡ 8 * g + n
eights_lem zero n = omega arith
eights_lem (suc g) n = omega (arith, eights_lem g n)

thirteens_lem : (g : ℕ) → thirteens g ≡ 13 * g
thirteens_lem zero = omega arith
thirteens_lem (suc g) = omega (arith, thirteens_lem g)

unpack_t0_from-eights :
    (g n : ℕ) (bytes : List ℕ)
    → 13 * g ≤ length bytes
    → drop (eights g 0) (unpack_t0_from (eights g n) bytes 0)
      ≡ unpack_t0_from n (drop (thirteens g) bytes) 0
unfolding unpack_t0_from read_bits
unpack_t0_from-eights zero n bytes enough = refl
unpack_t0_from-eights (suc g) n
      (b0 ∷ b1 ∷ b2 ∷ b3 ∷ b4 ∷ b5 ∷ b6 ∷ b7 ∷ b8 ∷ b9 ∷ b10 ∷ b11 ∷ b12 ∷ bytes) enough =
    unpack_t0_from-eights g n bytes (omega (arith, enough))
unpack_t0_from-eights (suc g) n ([]) enough = absurd (omega (arith, enough))
unpack_t0_from-eights (suc g) n (b0 ∷ []) enough = absurd (omega (arith, enough))
unpack_t0_from-eights (suc g) n (b0 ∷ b1 ∷ []) enough = absurd (omega (arith, enough))
unpack_t0_from-eights (suc g) n (b0 ∷ b1 ∷ b2 ∷ []) enough = absurd (omega (arith, enough))
unpack_t0_from-eights (suc g) n (b0 ∷ b1 ∷ b2 ∷ b3 ∷ []) enough = absurd (omega (arith, enough))
unpack_t0_from-eights (suc g) n (b0 ∷ b1 ∷ b2 ∷ b3 ∷ b4 ∷ []) enough =
    absurd (omega (arith, enough))
unpack_t0_from-eights (suc g) n (b0 ∷ b1 ∷ b2 ∷ b3 ∷ b4 ∷ b5 ∷ []) enough =
    absurd (omega (arith, enough))
unpack_t0_from-eights (suc g) n (b0 ∷ b1 ∷ b2 ∷ b3 ∷ b4 ∷ b5 ∷ b6 ∷ []) enough =
    absurd (omega (arith, enough))
unpack_t0_from-eights (suc g) n (b0 ∷ b1 ∷ b2 ∷ b3 ∷ b4 ∷ b5 ∷ b6 ∷ b7 ∷ []) enough =
    absurd (omega (arith, enough))
unpack_t0_from-eights (suc g) n (b0 ∷ b1 ∷ b2 ∷ b3 ∷ b4 ∷ b5 ∷ b6 ∷ b7 ∷ b8 ∷ []) enough =
    absurd (omega (arith, enough))
unpack_t0_from-eights (suc g) n (b0 ∷ b1 ∷ b2 ∷ b3 ∷ b4 ∷ b5 ∷ b6 ∷ b7 ∷ b8 ∷ b9 ∷ []) enough =
    absurd (omega (arith, enough))
unpack_t0_from-eights (suc g) n (b0 ∷ b1 ∷ b2 ∷ b3 ∷ b4 ∷ b5 ∷ b6 ∷ b7 ∷ b8 ∷ b9 ∷ b10 ∷ [])
      enough =
    absurd (omega (arith, enough))
unpack_t0_from-eights (suc g) n (b0 ∷ b1 ∷ b2 ∷ b3 ∷ b4 ∷ b5 ∷ b6 ∷ b7 ∷ b8 ∷ b9 ∷ b10 ∷ b11 ∷ [])
      enough =
    absurd (omega (arith, enough))

-- Behind eight coefficients for each group of 13 bytes, the loop goes on at the next byte.
pub drop-unpack_t0 :
    (g n m j k : ℕ) (bytes : List ℕ)
    → m ≡ 8 * g + n
    → j ≡ 8 * g
    → k ≡ 13 * g
    → k ≤ length bytes
    → drop j (unpack_t0_13bit_coeffs m bytes) ≡ unpack_t0_13bit_coeffs n (drop k bytes)
unfolding unpack_t0_13bit_coeffs
drop-unpack_t0 g n m j k bytes m_is j_is k_is enough =
    let m' : m ≡ eights g n = omega (arith, m_is, eights_lem g n) in
    let j' : j ≡ eights g 0 = omega (arith, j_is, eights_lem g 0) in
    let k' : k ≡ thirteens g = omega (arith, k_is, thirteens_lem g) in
    rw (m', j', k') (unpack_t0_from-eights g n bytes (omega (arith, enough, k_is)))
