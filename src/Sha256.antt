-- ===== src/Sha256.antt =====
-- SHA-256 on the host, written twice in the source: `sha256_hash_host` of
-- core/persistent_engine/engine_host.cpp (Unix branch) and `sha256_hash` of
-- engine/abi/smoke_engine_abi.cpp. Words are numbers below 2 ^ 32 and bytes numbers below 2 ^ 8.
-- The round function is the same text in both files; they differ in how they pad and walk blocks.
pub mod Agree
use gpu_rotation_engine.Base.{
  ℕ, zero, suc, ◌+◌, ◌-◌, ◌*◌, ◌/◌, ◌%◌, ◌^◌, bit_and, bit_or, bit_xor, List, [], ◌∷◌, ◌++◌, length,
  get_or, take, drop, replicate, ltb, if◌then◌else◌,
}

abbrev pub word_mod : ℕ
word_mod = 2 ^ 32

abbrev sha256_k : List ℕ
sha256_k =
    0x428a2f98 ∷ 0x71374491 ∷ 0xb5c0fbcf ∷ 0xe9b5dba5 ∷ 0x3956c25b ∷ 0x59f111f1 ∷ 0x923f82a4
    ∷ 0xab1c5ed5 ∷ 0xd807aa98 ∷ 0x12835b01 ∷ 0x243185be ∷ 0x550c7dc3 ∷ 0x72be5d74 ∷ 0x80deb1fe
    ∷ 0x9bdc06a7 ∷ 0xc19bf174 ∷ 0xe49b69c1 ∷ 0xefbe4786 ∷ 0x0fc19dc6 ∷ 0x240ca1cc ∷ 0x2de92c6f
    ∷ 0x4a7484aa ∷ 0x5cb0a9dc ∷ 0x76f988da ∷ 0x983e5152 ∷ 0xa831c66d ∷ 0xb00327c8 ∷ 0xbf597fc7
    ∷ 0xc6e00bf3 ∷ 0xd5a79147 ∷ 0x06ca6351 ∷ 0x14292967 ∷ 0x27b70a85 ∷ 0x2e1b2138 ∷ 0x4d2c6dfc
    ∷ 0x53380d13 ∷ 0x650a7354 ∷ 0x766a0abb ∷ 0x81c2c92e ∷ 0x92722c85 ∷ 0xa2bfe8a1 ∷ 0xa81a664b
    ∷ 0xc24b8b70 ∷ 0xc76c51a3 ∷ 0xd192e819 ∷ 0xd6990624 ∷ 0xf40e3585 ∷ 0x106aa070 ∷ 0x19a4c116
    ∷ 0x1e376c08 ∷ 0x2748774c ∷ 0x34b0bcb5 ∷ 0x391c0cb3 ∷ 0x4ed8aa4a ∷ 0x5b9cca4f ∷ 0x682e6ff3
    ∷ 0x748f82ee ∷ 0x78a5636f ∷ 0x84c87814 ∷ 0x8cc70208 ∷ 0x90befffa ∷ 0xa4506ceb ∷ 0xbef9a3f7
    ∷ 0xc67178f2 ∷ []

abbrev sha256_iv : List ℕ
sha256_iv =
    0x6a09e667 ∷ 0xbb67ae85 ∷ 0x3c6ef372 ∷ 0xa54ff53a ∷ 0x510e527f ∷ 0x9b05688c ∷ 0x1f83d9ab
    ∷ 0x5be0cd19 ∷ []

-- `x >> n | x << (32 - n)` on 32 bits.
rotr32 : ℕ → ℕ → ℕ
rotr32 x n = bit_or (x / 2 ^ n) (x * 2 ^ (32 - n) % word_mod)

-- Four bytes as one word, most significant first.
be_word : List ℕ → ℕ → ℕ
be_word block i =
    get_or block (i * 4) 0 * 2 ^ 24
    + get_or block (i * 4 + 1) 0 * 2 ^ 16
    + get_or block (i * 4 + 2) 0 * 2 ^ 8
    + get_or block (i * 4 + 3) 0

load_words : ℕ → ℕ → List ℕ → List ℕ
unfolding be_word
load_words zero i block = []
load_words (suc n) i block = be_word block i ∷ load_words n (i + 1) block

-- W[i] for i = 16 .. 63, appended in order; `n` counts the words left.
expand : ℕ → ℕ → List ℕ → List ℕ
unfolding rotr32
expand zero i w = w
expand (suc n) i w = expand n (i + 1) (w ++ (next ∷ []))
  where
    back : ℕ → ℕ
    back k = get_or w (i - k) 0

    s0 : ℕ
    s0 = bit_xor (bit_xor (rotr32 (back 15) 7) (rotr32 (back 15) 18)) (back 15 / 2 ^ 3)

    s1 : ℕ
    s1 = bit_xor (bit_xor (rotr32 (back 2) 17) (rotr32 (back 2) 19)) (back 2 / 2 ^ 10)

    next : ℕ
    next = (back 16 + s0 + back 7 + s1) % word_mod

-- The eight working variables.
pub record Working : Type 0 where
  pub a : ℕ
  pub b : ℕ
  pub c : ℕ
  pub d : ℕ
  pub e : ℕ
  pub f : ℕ
  pub g : ℕ
  pub h : ℕ

round : Working → ℕ → ℕ → Working
unfolding rotr32
round v k w = record {
  a = (temp1 + temp2) % word_mod;
  b = v.a;
  c = v.b;
  d = v.c;
  e = (v.d + temp1) % word_mod;
  f = v.e;
  g = v.f;
  h = v.g;
}
  where
    big_s1 : ℕ
    big_s1 = bit_xor (bit_xor (rotr32 v.e 6) (rotr32 v.e 11)) (rotr32 v.e 25)

    ch : ℕ
    ch = bit_xor (bit_and v.e v.f) (bit_and (word_mod - 1 - v.e) v.g)

    temp1 : ℕ
    temp1 = (v.h + big_s1 + ch + k + w) % word_mod

    big_s0 : ℕ
    big_s0 = bit_xor (bit_xor (rotr32 v.a 2) (rotr32 v.a 13)) (rotr32 v.a 22)

    maj : ℕ
    maj = bit_xor (bit_xor (bit_and v.a v.b) (bit_and v.a v.c)) (bit_and v.b v.c)

    temp2 : ℕ
    temp2 = (big_s0 + maj) % word_mod

rounds : List ℕ → List ℕ → Working → Working
unfolding round
rounds [] ws v = v
rounds (k ∷ ks) [] v = v
rounds (k ∷ ks) (w ∷ ws) v = rounds ks ws (round v k w)

-- One block: `sha256_compress_block`, and the loop body of `sha256_hash_host`.
pub sha256_compress_block : Working → List ℕ → Working
unfolding load_words expand rounds
sha256_compress_block s block = record {
  a = (s.a + v.a) % word_mod;
  b = (s.b + v.b) % word_mod;
  c = (s.c + v.c) % word_mod;
  d = (s.d + v.d) % word_mod;
  e = (s.e + v.e) % word_mod;
  f = (s.f + v.f) % word_mod;
  g = (s.g + v.g) % word_mod;
  h = (s.h + v.h) % word_mod;
}
  where
    v : Working
    v = rounds sha256_k (expand 48 16 (load_words 16 0 block)) s

iv : Working
iv = record {
  a = get_or sha256_iv 0 0;
  b = get_or sha256_iv 1 0;
  c = get_or sha256_iv 2 0;
  d = get_or sha256_iv 3 0;
  e = get_or sha256_iv 4 0;
  f = get_or sha256_iv 5 0;
  g = get_or sha256_iv 6 0;
  h = get_or sha256_iv 7 0;
}

-- A word as four bytes, most significant first.
be_bytes : ℕ → List ℕ
be_bytes x = x / 2 ^ 24 % 256 ∷ x / 2 ^ 16 % 256 ∷ x / 2 ^ 8 % 256 ∷ x % 256 ∷ []

digest : Working → List ℕ
unfolding be_bytes
digest s =
    be_bytes s.a
    ++ (be_bytes s.b
        ++ (be_bytes s.c
            ++ (be_bytes s.d
                ++ (be_bytes s.e ++ (be_bytes s.f ++ (be_bytes s.g ++ be_bytes s.h))))))

-- `bit_len` in eight bytes, most significant first.
pub bit_len_bytes : ℕ → List ℕ
unfolding be_bytes
bit_len_bytes len = be_bytes (len * 8 / 2 ^ 32) ++ be_bytes (len * 8)

-- `n` blocks of 64 bytes from the start of the data.
pub compress_blocks : ℕ → List ℕ → Working → Working
compress_blocks zero bytes s = s
compress_blocks (suc n) bytes s =
    compress_blocks n (drop 64 bytes) (sha256_compress_block s (take 64 bytes))

-- The padded copy: the data, 0x80, zeros, and the length in the last eight bytes.
pub padded : List ℕ → ℕ → List ℕ
padded bytes pad_len =
    bytes ++ (0x80 ∷ (replicate (pad_len - length bytes - 9) 0 ++ bit_len_bytes (length bytes)))

pub sha256_hash_host : List ℕ → List ℕ
unfolding iv digest compress_blocks padded
sha256_hash_host bytes =
    let pad_len = (length bytes + 8 + 64) / 64 * 64 in
    digest (compress_blocks (pad_len / 64) (padded bytes pad_len) iv)

-- The data that does not fill a block, with its padding: one block or two.
pub final_blocks : List ℕ → ℕ → Working → Working
final_blocks rest len s =
    if ltb (length rest) 56
    then sha256_compress_block s
        (rest ++ (0x80 ∷ (replicate (56 - length rest - 1) 0 ++ bit_len_bytes len)))
    else sha256_compress_block
        (sha256_compress_block s (rest ++ (0x80 ∷ replicate (64 - length rest - 1) 0)))
        (replicate 56 0 ++ bit_len_bytes len)

pub sha256_hash : List ℕ → List ℕ
unfolding iv digest compress_blocks final_blocks
sha256_hash bytes =
    let len = length bytes in
    let num_blocks = len / 64 in
    let rest = take (len % 64) (drop (num_blocks * 64) bytes) in
    digest (final_blocks rest len (compress_blocks num_blocks bytes iv))
