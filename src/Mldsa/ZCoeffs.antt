-- ===== src/Mldsa/ZCoeffs.antt =====
-- The packing of z's coefficients in core/persistent_engine/engine_host.cpp, `pack_z_coeffs_mldsa44`
-- to `unpack_z_coeffs_mldsa87`. The buffers are lists; one that is shorter than the C code relies on
-- ends the loop. Bit fields are written with `/`, `%`, `*` and `+`.
use gpu_rotation_engine.Base.{
  ℕ, zero, suc, ◌+◌, ◌*◌, ◌/◌, ◌%◌, ◌^◌, List, [], ◌∷◌, if◌then◌else◌, ltb,
}
use gpu_rotation_engine.FastPath.Ring.{u32_add, u32_sub}
use gpu_rotation_engine.Mldsa.Params.{mldsa_q}

-- `static_cast<uint32_t> (GAMMA1 - to_centered (z))`.
unfoldable pub gamma1_minus : ℕ → ℕ → ℕ
gamma1_minus gamma1 z =
    if ltb (mldsa_q / 2) z then u32_sub (gamma1 + mldsa_q) z else u32_sub gamma1 z

-- `((GAMMA1 - t) % q + q) % q`, with `GAMMA1 - t` taken to uint32_t; it lies between -q and q, so that
-- the first remainder leaves it as it is.
unfoldable pub mod_q : ℕ → ℕ → ℕ
mod_q gamma1 t = u32_add (u32_sub gamma1 t) mldsa_q % mldsa_q

-- Four values of 20 bits in ten bytes.
unfoldable pub pack_20 : ℕ → ℕ → ℕ → ℕ → List ℕ → List ℕ
pack_20 t0 t1 t2 t3 out =
    t0 % 256
    ∷ t0 / 2 ^ 8 % 256
    ∷ (t0 / 2 ^ 16 % 16 + t1 % 16 * 16)
    ∷ t1 / 2 ^ 4 % 256
    ∷ t1 / 2 ^ 12 % 256
    ∷ t2 % 256
    ∷ t2 / 2 ^ 8 % 256
    ∷ (t2 / 2 ^ 16 % 16 + t3 % 16 * 16)
    ∷ t3 / 2 ^ 4 % 256
    ∷ t3 / 2 ^ 12 % 256
    ∷ out

-- Four values of 18 bits in nine bytes.
unfoldable pub pack_18 : ℕ → ℕ → ℕ → ℕ → List ℕ → List ℕ
pack_18 t0 t1 t2 t3 out =
    t0 % 256
    ∷ t0 / 2 ^ 8 % 256
    ∷ (t0 / 2 ^ 16 % 4 + t1 % 64 * 4)
    ∷ t1 / 2 ^ 6 % 256
    ∷ (t1 / 2 ^ 14 % 16 + t2 % 16 * 16)
    ∷ t2 / 2 ^ 4 % 256
    ∷ (t2 / 2 ^ 12 % 64 + t3 % 4 * 64)
    ∷ t3 / 2 ^ 2 % 256
    ∷ t3 / 2 ^ 10 % 256
    ∷ out

-- `groups` groups of four coefficients.
unfoldable pub pack_groups : (ℕ → ℕ → ℕ → ℕ → List ℕ → List ℕ) → ℕ → ℕ → List ℕ → List ℕ
pack_groups pack gamma1 zero z = []
pack_groups pack gamma1 (suc groups) (z0 ∷ z1 ∷ z2 ∷ z3 ∷ z) =
    pack (gamma1_minus gamma1 z0) (gamma1_minus gamma1 z1) (gamma1_minus gamma1 z2)
      (gamma1_minus gamma1 z3) (pack_groups pack gamma1 groups z)
pack_groups pack gamma1 (suc groups) _ = []

unfoldable pub pack_z_coeffs_mldsa44 : List ℕ → List ℕ
pack_z_coeffs_mldsa44 z = pack_groups pack_18 (2 ^ 17) (4 * 64) z

unfoldable pub pack_z_coeffs_mldsa65 : List ℕ → List ℕ
pack_z_coeffs_mldsa65 z = pack_groups pack_20 (2 ^ 19) (5 * 64) z

unfoldable pub pack_z_coeffs_mldsa87 : List ℕ → List ℕ
pack_z_coeffs_mldsa87 z = pack_groups pack_20 (2 ^ 19) (7 * 64) z

unfoldable pub unpack_groups_20 : ℕ → ℕ → List ℕ → List ℕ
unpack_groups_20 gamma1 zero bytes = []
unpack_groups_20 gamma1 (suc groups) (b0 ∷ b1 ∷ b2 ∷ b3 ∷ b4 ∷ b5 ∷ b6 ∷ b7 ∷ b8 ∷ b9 ∷ bytes) =
    mod_q gamma1 (b0 + b1 * 2 ^ 8 + b2 % 16 * 2 ^ 16)
    ∷ mod_q gamma1 (b2 / 16 + b3 * 2 ^ 4 + b4 * 2 ^ 12)
    ∷ mod_q gamma1 (b5 + b6 * 2 ^ 8 + b7 % 16 * 2 ^ 16)
    ∷ mod_q gamma1 (b7 / 16 + b8 * 2 ^ 4 + b9 * 2 ^ 12)
    ∷ unpack_groups_20 gamma1 groups bytes
unpack_groups_20 gamma1 (suc groups) _ = []

unfoldable pub unpack_groups_18 : ℕ → ℕ → List ℕ → List ℕ
unpack_groups_18 gamma1 zero bytes = []
unpack_groups_18 gamma1 (suc groups) (b0 ∷ b1 ∷ b2 ∷ b3 ∷ b4 ∷ b5 ∷ b6 ∷ b7 ∷ b8 ∷ bytes) =
    mod_q gamma1 (b0 + b1 * 2 ^ 8 + b2 % 4 * 2 ^ 16)
    ∷ mod_q gamma1 (b2 / 4 + b3 * 2 ^ 6 + b4 % 16 * 2 ^ 14)
    ∷ mod_q gamma1 (b4 / 16 + b5 * 2 ^ 4 + b6 % 64 * 2 ^ 12)
    ∷ mod_q gamma1 (b6 / 64 + b7 * 2 ^ 2 + b8 * 2 ^ 10)
    ∷ unpack_groups_18 gamma1 groups bytes
unpack_groups_18 gamma1 (suc groups) _ = []

unfoldable pub unpack_z_coeffs_mldsa44 : List ℕ → List ℕ
unpack_z_coeffs_mldsa44 bytes = unpack_groups_18 (2 ^ 17) (4 * 64) bytes

unfoldable pub unpack_z_coeffs_mldsa65 : List ℕ → List ℕ
unpack_z_coeffs_mldsa65 bytes = unpack_groups_20 (2 ^ 19) (5 * 64) bytes

unfoldable pub unpack_z_coeffs_mldsa87 : List ℕ → List ℕ
unpack_z_coeffs_mldsa87 bytes = unpack_groups_20 (2 ^ 19) (7 * 64) bytes
