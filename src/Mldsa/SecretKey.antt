-- ===== src/Mldsa/SecretKey.antt =====
-- Packed secret keys in core/persistent_engine/engine_host.cpp, `unpack_eta4_coeffs` to
-- `unpack_sk_fips204`. Buffers are lists; where the C code would read behind the end of one, the loop
-- ends. Bit fields are written with `/`, `%`, `*` and `+`. An expanded key is its six parts.
use gpu_rotation_engine.Base.{
  ℕ, zero, suc, ◌+◌, ◌-◌, ◌*◌, ◌/◌, ◌%◌, ◌^◌, not, Option, none, some, List, [], ◌∷◌, take, drop,
  if◌then◌else◌, leb, ltb, ◌==◌,
}
use gpu_rotation_engine.Mldsa.Params.{mldsa_q, mldsa_get_params}

-- `w = offset - stored`, and `w` or `q + w` as it is negative or not.
unfoldable pub from_stored : ℕ → ℕ → ℕ
from_stored offset stored = if leb stored offset then offset - stored else mldsa_q + offset - stored

-- Two coefficients to a byte, `pairs` times.
unfoldable pub unpack_eta4_coeffs : ℕ → List ℕ → List ℕ
unpack_eta4_coeffs zero bytes = []
unpack_eta4_coeffs (suc pairs) [] = []
unpack_eta4_coeffs (suc pairs) (byte ∷ bytes) =
    from_stored 4 (byte % 16) ∷ from_stored 4 (byte / 16 % 16) ∷ unpack_eta4_coeffs pairs bytes

-- Eight coefficients to three bytes, `groups` times.
unfoldable pub unpack_eta2_coeffs : ℕ → List ℕ → List ℕ
unpack_eta2_coeffs zero bytes = []
unpack_eta2_coeffs (suc groups) (b0 ∷ b1 ∷ b2 ∷ bytes) =
    let bits = b0 + b1 * 2 ^ 8 + b2 * 2 ^ 16 in
    from_stored 2 (bits % 8)
    ∷ from_stored 2 (bits / 2 ^ 3 % 8)
    ∷ from_stored 2 (bits / 2 ^ 6 % 8)
    ∷ from_stored 2 (bits / 2 ^ 9 % 8)
    ∷ from_stored 2 (bits / 2 ^ 12 % 8)
    ∷ from_stored 2 (bits / 2 ^ 15 % 8)
    ∷ from_stored 2 (bits / 2 ^ 18 % 8)
    ∷ from_stored 2 (bits / 2 ^ 21 % 8)
    ∷ unpack_eta2_coeffs groups bytes
unpack_eta2_coeffs (suc groups) _ = []

-- What the inner loop of `unpack_t0_13bit_coeffs` leaves: the value, the bytes still unread, the
-- current one first, and how many of its bits are used.
pub record BitReader : Type 0 where
  pub stored : ℕ
  pub bytes : List ℕ
  pub bit_idx : ℕ

-- The inner loop. Each turn takes one bit at least, so that 13 turns are enough.
unfoldable pub read_bits : ℕ → ℕ → ℕ → ℕ → List ℕ → ℕ → BitReader
read_bits zero bits_remaining out_bit stored bytes bit_idx = record {
  stored = stored;
  bytes = bytes;
  bit_idx = bit_idx;
}
read_bits (suc fuel) zero out_bit stored bytes bit_idx = record {
  stored = stored;
  bytes = bytes;
  bit_idx = bit_idx;
}
read_bits (suc fuel) (suc more) out_bit stored [] bit_idx = record {
  stored = stored;
  bytes = [];
  bit_idx = bit_idx;
}
read_bits (suc fuel) (suc more) out_bit stored (byte ∷ bytes) bit_idx =
    let bits_in_byte = 8 - bit_idx in
    let bits_to_take = if ltb (suc more) bits_in_byte then suc more else bits_in_byte in
    let val = byte / 2 ^ bit_idx % 2 ^ bits_to_take in
    read_bits fuel (suc more - bits_to_take) (out_bit + bits_to_take) (stored + val * 2 ^ out_bit)
      (if leb 8 (bit_idx + bits_to_take) then bytes else byte ∷ bytes)
      (if leb 8 (bit_idx + bits_to_take) then 0 else bit_idx + bits_to_take)

unfoldable pub unpack_t0_from : ℕ → List ℕ → ℕ → List ℕ
unpack_t0_from zero bytes bit_idx = []
unpack_t0_from (suc num_coeffs) bytes bit_idx =
    let r = read_bits 13 13 0 0 bytes bit_idx in
    from_stored (2 ^ 12) r.stored ∷ unpack_t0_from num_coeffs r.bytes r.bit_idx

unfoldable pub unpack_t0_13bit_coeffs : ℕ → List ℕ → List ℕ
unpack_t0_13bit_coeffs num_coeffs bytes = unpack_t0_from num_coeffs bytes 0

pub record ExpandedKey : Type 0 where
  pub rho : List ℕ
  pub rhoprime : List ℕ
  pub tr : List ℕ
  pub s1 : List ℕ
  pub s2 : List ℕ
  pub t0 : List ℕ

-- `eta` as the code chooses it, and `eta_bits`.
unfoldable pub mode_eta : ℕ → ℕ
mode_eta mode = if mode == 0 then 2 else 4

unfoldable pub packed_size : ℕ → ℕ → ℕ
packed_size rows eta = (rows * 256 * (if eta == 2 then 3 else 4) + 7) / 8

unfoldable pub unpack_eta : ℕ → ℕ → List ℕ → List ℕ
unpack_eta eta rows bytes =
    if eta == 4 then unpack_eta4_coeffs (rows * 128) bytes else unpack_eta2_coeffs (rows * 32) bytes

-- Where the packed t0 begins.
unfoldable pub t0_offset : ℕ → ℕ
t0_offset mode =
    128
    + packed_size (mldsa_get_params mode).l (mode_eta mode)
    + packed_size (mldsa_get_params mode).k (mode_eta mode)

-- `packed_sk` is what stands in memory from the pointer on: `packed_len` bytes are the key's.
unfoldable pub unpack_sk_fips204 : ℕ → List ℕ → ℕ → ℕ → Option ExpandedKey
unpack_sk_fips204 mode packed_sk packed_len expanded_len =
    let p = mldsa_get_params mode in
    let s1_packed = drop 128 packed_sk in
    let s2_packed = drop (128 + packed_size p.l (mode_eta mode)) packed_sk in
    if p.k == 0
    then none
    else if not (packed_len == p.sk_len)
    then none
    else if ltb expanded_len p.sk_simple_len
    then none
    else some (record {
      rho = take 32 packed_sk;
      rhoprime = take 32 (drop 32 packed_sk);
      tr = take 64 (drop 64 packed_sk);
      s1 = unpack_eta (mode_eta mode) p.l s1_packed;
      s2 = unpack_eta (mode_eta mode) p.k s2_packed;
      t0 = unpack_t0_13bit_coeffs (p.k * 256) (drop (t0_offset mode) packed_sk);
    })
