-- ===== src/Mldsa/KeyBits.antt =====
-- The packed coefficients of a secret key, as FIPS 204 packs them, are read back.
use gpu_rotation_engine.Base.{
  ℕ, zero, suc, ◌+◌, ◌-◌, ◌*◌, ◌/◌, ◌%◌, ◌^◌, ◌≤◌, ◌<◌, ◌≡◌, ◌⊎◌, inl, inr, refl, true, false, List,
  [], ◌∷◌, ◌++◌, All, arith, length, if◌then◌else◌, leb,
}
use gpu_rotation_engine.Mldsa.Params.{mldsa_q}
use gpu_rotation_engine.Mldsa.SecretKey.{from_stored, unpack_eta4_coeffs, unpack_eta2_coeffs}

-- A coefficient that stands for a number from `-below` to `offset`, and `offset` less that number.
abbrev pub Near : ℕ → ℕ → ℕ → Type 0
Near offset below z = (z ≤ offset) ⊎ ((mldsa_q ≤ z + below) × (z < mldsa_q))

abbrev pub stored_of : ℕ → ℕ → ℕ
stored_of offset z = if leb z offset then offset - z else offset + mldsa_q - z

pub stored_of_lem :
    (offset below z : ℕ)
    → offset ≤ 4096
    → below ≤ 4096
    → Near offset below z
    → (stored_of offset z ≤ offset + below) × (from_stored offset (stored_of offset z) ≡ z)
unfolding from_stored
stored_of_lem offset below z ho hb (inl low) =
    let e : leb z offset ≡ true = ground (arith, low) in
    let f : leb (offset - z) offset ≡ true = ground arith in rw (e, f) (omega arith, omega arith)
stored_of_lem offset below z ho hb (inr (high, lt)) =
    let e : leb z offset ≡ false = ground (arith, high, ho, hb) in
    let f : leb (offset + 8380417 - z) offset ≡ false = ground (arith, lt) in
    rw (e, f) (omega arith, omega arith)

-- Four bits to a coefficient from -4 to 4.
abbrev pub pack_eta4 : ℕ → List ℕ → List ℕ
pack_eta4 zero zs = []
pack_eta4 (suc pairs) (z0 ∷ z1 ∷ zs) = (stored_of 4 z0 + stored_of 4 z1 * 16) ∷ pack_eta4 pairs zs
pack_eta4 (suc pairs) _ = []

-- Coefficients from -4 to 4, packed two to a byte, are read back.
pub unpack-pack_eta4 :
    (groups : ℕ) (zs rest : List ℕ)
    → length zs ≡ 2 * groups
    → All (Near 4 4) zs
    → unpack_eta4_coeffs groups (pack_eta4 groups zs ++ rest) ≡ zs
unfolding unpack_eta4_coeffs
unpack-pack_eta4 zero [] rest len near = refl
unpack-pack_eta4 zero (z0 ∷ zs) rest len near = absurd (omega (arith, len))
unpack-pack_eta4 (suc groups) (z0 ∷ z1 ∷ zs) rest len (n0, (n1, near)) =
    let (l0, e0) = stored_of_lem 4 4 z0 (omega arith) (omega arith) n0 in
    let (l1, e1) = stored_of_lem 4 4 z1 (omega arith) (omega arith) n1 in
    let s0 : ℕ = stored_of 4 z0 in
    let s1 : ℕ = stored_of 4 z1 in
    let low : (s0 + s1 * 16) % 16 ≡ s0 = omega (arith, l0, l1) in
    let high : (s0 + s1 * 16) / 16 % 16 ≡ s1 = omega (arith, l0, l1) in
    let rest' : unpack_eta4_coeffs groups (pack_eta4 groups zs ++ rest) ≡ zs =
      unpack-pack_eta4 groups zs rest (omega (arith, len)) near in
    rw (low, high, e0, e1, rest') refl
unpack-pack_eta4 (suc groups) [] rest len near = absurd (omega (arith, len))
unpack-pack_eta4 (suc groups) (z0 ∷ []) rest len near = absurd (omega (arith, len))

-- Three bits to a coefficient from -2 to 2: eight of them as a number of 24 bits.
abbrev pub eta2_word : ℕ → ℕ → ℕ → ℕ → ℕ → ℕ → ℕ → ℕ → ℕ
eta2_word s0 s1 s2 s3 s4 s5 s6 s7 =
    s0
    + s1 * 2 ^ 3
    + s2 * 2 ^ 6
    + s3 * 2 ^ 9
    + s4 * 2 ^ 12
    + s5 * 2 ^ 15
    + s6 * 2 ^ 18
    + s7 * 2 ^ 21

abbrev pub pack_eta2 : ℕ → List ℕ → List ℕ
pack_eta2 zero zs = []
pack_eta2 (suc groups) (z0 ∷ z1 ∷ z2 ∷ z3 ∷ z4 ∷ z5 ∷ z6 ∷ z7 ∷ zs) =
    let word =
      eta2_word (stored_of 2 z0) (stored_of 2 z1) (stored_of 2 z2) (stored_of 2 z3) (stored_of 2 z4)
        (stored_of 2 z5) (stored_of 2 z6) (stored_of 2 z7) in
    word % 256 ∷ word / 2 ^ 8 % 256 ∷ word / 2 ^ 16 % 256 ∷ pack_eta2 groups zs
pack_eta2 (suc groups) _ = []

-- The three bytes give the number back.
eta2_bytes :
    (word : ℕ)
    → word < 2 ^ 24
    → word % 256 + word / 2 ^ 8 % 256 * 2 ^ 8 + word / 2 ^ 16 % 256 * 2 ^ 16 ≡ word
eta2_bytes word lt = omega arith

eta2_lem :
    (s0 s1 s2 s3 s4 s5 s6 s7 : ℕ)
    → s0 < 8
    → s1 < 8
    → s2 < 8
    → s3 < 8
    → s4 < 8
    → s5 < 8
    → s6 < 8
    → s7 < 8
    → (eta2_word s0 s1 s2 s3 s4 s5 s6 s7 < 2 ^ 24)
      × (eta2_word s0 s1 s2 s3 s4 s5 s6 s7 % 8 ≡ s0)
      × (eta2_word s0 s1 s2 s3 s4 s5 s6 s7 / 2 ^ 3 % 8 ≡ s1)
      × (eta2_word s0 s1 s2 s3 s4 s5 s6 s7 / 2 ^ 6 % 8 ≡ s2)
      × (eta2_word s0 s1 s2 s3 s4 s5 s6 s7 / 2 ^ 9 % 8 ≡ s3)
      × (eta2_word s0 s1 s2 s3 s4 s5 s6 s7 / 2 ^ 12 % 8 ≡ s4)
      × (eta2_word s0 s1 s2 s3 s4 s5 s6 s7 / 2 ^ 15 % 8 ≡ s5)
      × (eta2_word s0 s1 s2 s3 s4 s5 s6 s7 / 2 ^ 18 % 8 ≡ s6)
      × (eta2_word s0 s1 s2 s3 s4 s5 s6 s7 / 2 ^ 21 % 8 ≡ s7)
eta2_lem s0 s1 s2 s3 s4 s5 s6 s7 h0 h1 h2 h3 h4 h5 h6 h7 = (
  omega arith,
  omega arith,
  omega arith,
  omega arith,
  omega arith,
  omega arith,
  omega arith,
  omega arith,
  omega arith,
)

-- Coefficients from -2 to 2, packed eight to three bytes, are read back.
pub unpack-pack_eta2 :
    (groups : ℕ) (zs rest : List ℕ)
    → length zs ≡ 8 * groups
    → All (Near 2 2) zs
    → unpack_eta2_coeffs groups (pack_eta2 groups zs ++ rest) ≡ zs
unfolding unpack_eta2_coeffs
unpack-pack_eta2 zero [] rest len near = refl
unpack-pack_eta2 zero (z0 ∷ zs) rest len near = absurd (omega (arith, len))
unpack-pack_eta2 (suc groups) (z0 ∷ z1 ∷ z2 ∷ z3 ∷ z4 ∷ z5 ∷ z6 ∷ z7 ∷ zs) rest len
      (n0, (n1, (n2, (n3, (n4, (n5, (n6, (n7, near)))))))) =
    let (l0, e0) = stored_of_lem 2 2 z0 (omega arith) (omega arith) n0 in
    let (l1, e1) = stored_of_lem 2 2 z1 (omega arith) (omega arith) n1 in
    let (l2, e2) = stored_of_lem 2 2 z2 (omega arith) (omega arith) n2 in
    let (l3, e3) = stored_of_lem 2 2 z3 (omega arith) (omega arith) n3 in
    let (l4, e4) = stored_of_lem 2 2 z4 (omega arith) (omega arith) n4 in
    let (l5, e5) = stored_of_lem 2 2 z5 (omega arith) (omega arith) n5 in
    let (l6, e6) = stored_of_lem 2 2 z6 (omega arith) (omega arith) n6 in
    let (l7, e7) = stored_of_lem 2 2 z7 (omega arith) (omega arith) n7 in
    let (word_lt, w0, w1, w2, w3, w4, w5, w6, w7) =
      eta2_lem (stored_of 2 z0) (stored_of 2 z1) (stored_of 2 z2) (stored_of 2 z3) (stored_of 2 z4)
        (stored_of 2 z5) (stored_of 2 z6) (stored_of 2 z7) (omega (arith, l0)) (omega (arith, l1))
        (omega (arith, l2)) (omega (arith, l3)) (omega (arith, l4)) (omega (arith, l5))
        (omega (arith, l6)) (omega (arith, l7)) in
    let rest' : unpack_eta2_coeffs groups (pack_eta2 groups zs ++ rest) ≡ zs =
      unpack-pack_eta2 groups zs rest (omega (arith, len)) near in
    rw (eta2_bytes _ word_lt, w0, w1, w2, w3, w4, w5, w6, w7, e0, e1, e2, e3, e4, e5, e6, e7, rest')
      refl
unpack-pack_eta2 (suc groups) [] rest len near = absurd (omega (arith, len))
unpack-pack_eta2 (suc groups) (z0 ∷ []) rest len near = absurd (omega (arith, len))
unpack-pack_eta2 (suc groups) (z0 ∷ z1 ∷ []) rest len near = absurd (omega (arith, len))
unpack-pack_eta2 (suc groups) (z0 ∷ z1 ∷ z2 ∷ []) rest len near = absurd (omega (arith, len))
unpack-pack_eta2 (suc groups) (z0 ∷ z1 ∷ z2 ∷ z3 ∷ []) rest len near = absurd (omega (arith, len))
unpack-pack_eta2 (suc groups) (z0 ∷ z1 ∷ z2 ∷ z3 ∷ z4 ∷ []) rest len near =
    absurd (omega (arith, len))
unpack-pack_eta2 (suc groups) (z0 ∷ z1 ∷ z2 ∷ z3 ∷ z4 ∷ z5 ∷ []) rest len near =
    absurd (omega (arith, len))
unpack-pack_eta2 (suc groups) (z0 ∷ z1 ∷ z2 ∷ z3 ∷ z4 ∷ z5 ∷ z6 ∷ []) rest len near =
    absurd (omega (arith, len))

pub length-pack_eta4 :
    (groups : ℕ) (zs : List ℕ) → length zs ≡ 2 * groups → length (pack_eta4 groups zs) ≡ 1 * groups
length-pack_eta4 zero zs len = omega arith
length-pack_eta4 (suc groups) (z0 ∷ z1 ∷ zs) len =
    omega (arith, length-pack_eta4 groups zs (omega (arith, len)))
length-pack_eta4 (suc groups) [] len = absurd (omega (arith, len))
length-pack_eta4 (suc groups) (z0 ∷ []) len = absurd (omega (arith, len))

pub length-pack_eta2 :
    (groups : ℕ) (zs : List ℕ) → length zs ≡ 8 * groups → length (pack_eta2 groups zs) ≡ 3 * groups
length-pack_eta2 zero zs len = omega arith
length-pack_eta2 (suc groups) (z0 ∷ z1 ∷ z2 ∷ z3 ∷ z4 ∷ z5 ∷ z6 ∷ z7 ∷ zs) len =
    omega (arith, length-pack_eta2 groups zs (omega (arith, len)))
length-pack_eta2 (suc groups) [] len = absurd (omega (arith, len))
length-pack_eta2 (suc groups) (z0 ∷ []) len = absurd (omega (arith, len))
length-pack_eta2 (suc groups) (z0 ∷ z1 ∷ []) len = absurd (omega (arith, len))
length-pack_eta2 (suc groups) (z0 ∷ z1 ∷ z2 ∷ []) len = absurd (omega (arith, len))
length-pack_eta2 (suc groups) (z0 ∷ z1 ∷ z2 ∷ z3 ∷ []) len = absurd (omega (arith, len))
length-pack_eta2 (suc groups) (z0 ∷ z1 ∷ z2 ∷ z3 ∷ z4 ∷ []) len = absurd (omega (arith, len))
length-pack_eta2 (suc groups) (z0 ∷ z1 ∷ z2 ∷ z3 ∷ z4 ∷ z5 ∷ []) len = absurd (omega (arith, len))
length-pack_eta2 (suc groups) (z0 ∷ z1 ∷ z2 ∷ z3 ∷ z4 ∷ z5 ∷ z6 ∷ []) len =
    absurd (omega (arith, len))
