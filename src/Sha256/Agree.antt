-- ===== src/Sha256/Agree.antt =====
-- The two SHA-256 routines of the host give one digest on every input.
use gpu_rotation_engine.Base.{
  ℕ, zero, suc, ◌+◌, ◌-◌, ◌*◌, ◌/◌, ◌%◌, ◌≤◌, ◌<◌, ◌≡◌, refl, sym, ap, ◌∙◌, inl, inr, List, ◌∷◌,
  ◌++◌, append_assoc, arith, length, take, drop, replicate, ltb_cases, length-append, length-drop,
  length-replicate, take_all, take-append_le, drop-append_le, take_left, drop_left, drop-drop,
  replicate-append,
}
use gpu_rotation_engine.Sha256.{
  Working, sha256_hash, sha256_hash_host, sha256_compress_block, compress_blocks, final_blocks,
  padded, bit_len_bytes, iv, digest,
}

-- The blocks that lie in the data see nothing of what follows it.
compress_blocks-append :
    (m n k j : ℕ) (xs tail : List ℕ) (s : Working)
    → m ≡ n + k
    → j ≡ n * 64
    → j ≤ length xs
    → compress_blocks m (xs ++ tail) s
      ≡ compress_blocks k (drop j xs ++ tail) (compress_blocks n xs s)
unfolding compress_blocks
compress_blocks-append m zero k zero xs tail s e f h = let e' : m ≡ k = omega arith in rw e'
compress_blocks-append m zero k (suc j) xs tail s e f h = absurd (omega arith)
compress_blocks-append zero (suc n) k j xs tail s e f h = absurd (omega arith)
compress_blocks-append (suc m) (suc n) k j xs tail s e f h =
    rw (take-append_le 64 xs tail (omega arith), drop-append_le 64 xs tail (omega arith))
      (compress_blocks-append m n k (n * 64) (drop 64 xs) tail
          (sha256_compress_block s (take 64 xs)) (omega arith) refl
          (omega (arith, length-drop 64 xs))
        ∙ ap
            (λ r.
              compress_blocks k (r ++ tail)
                (compress_blocks n (drop 64 xs) (sha256_compress_block s (take 64 xs))))
            (drop-drop 64 (n * 64) j xs (omega arith)))

length-bit_len_bytes : (len : ℕ) → length (bit_len_bytes len) ≡ 8
unfolding bit_len_bytes
length-bit_len_bytes len = refl

full_block :
    (rest : List ℕ) (len pad : ℕ)
    → length rest + pad ≡ 55
    → length (rest ++ (0x80 ∷ (replicate pad 0 ++ bit_len_bytes len))) ≤ 64
full_block rest len pad e = omega (
  arith,
  length-append rest (0x80 ∷ (replicate pad 0 ++ bit_len_bytes len)),
  length-append (replicate pad 0) (bit_len_bytes len),
  length-replicate {A = ℕ} pad 0,
  length-bit_len_bytes len,
)

-- What is left after the whole blocks, padded, is what `final_blocks` compresses.
one_final_block :
    (rest : List ℕ) (len pad : ℕ) (s : Working)
    → length rest < 56
    → pad ≡ 55 - length rest
    → compress_blocks 1 (rest ++ (0x80 ∷ (replicate pad 0 ++ bit_len_bytes len))) s
      ≡ final_blocks rest len s
unfolding compress_blocks final_blocks
one_final_block rest len pad s h e = elim (ltb_cases (length rest) 56) [
  | inl (_, short) ↦ rw (short, take_all 64 _ (full_block rest len pad (omega arith)), same) refl
  | inr (long, _) ↦ absurd (omega arith)
]
  where
    same : pad ≡ 56 - length rest - 1
    same = omega arith

two_final_blocks :
    (rest : List ℕ) (len pad : ℕ) (s : Working)
    → 56 ≤ length rest
    → length rest < 64
    → pad ≡ 119 - length rest
    → compress_blocks 2 (rest ++ (0x80 ∷ (replicate pad 0 ++ bit_len_bytes len))) s
      ≡ final_blocks rest len s
unfolding compress_blocks final_blocks
two_final_blocks rest len pad s h k e = elim (ltb_cases (length rest) 56) [
  | inl (short, _) ↦ absurd (omega arith)
  | inr (_, long) ↦
      rw
        (
          long,
          split,
          take_left 64 first second first_full,
          drop_left 64 first second first_full,
          take_all 64 second (omega (arith, second_full)),
        )
        refl
]
  where
    first : List ℕ
    first = rest ++ (0x80 ∷ replicate (64 - length rest - 1) 0)

    second : List ℕ
    second = replicate 56 0 ++ bit_len_bytes len

    first_full : length first ≡ 64
    first_full = omega (
      arith,
      length-append rest (0x80 ∷ replicate (64 - length rest - 1) 0),
      length-replicate {A = ℕ} (64 - length rest - 1) 0,
    )

    second_full : length second ≡ 64
    second_full = omega (
      arith,
      length-append (replicate 56 0) (bit_len_bytes len),
      length-replicate {A = ℕ} 56 0,
      length-bit_len_bytes len,
    )

    split : rest ++ (0x80 ∷ (replicate pad 0 ++ bit_len_bytes len)) ≡ first ++ second
    split =
        rw
          (
            replicate-append {A = ℕ} (64 - length rest - 1) 56 pad 0 (omega arith),
            append_assoc,
            append_assoc,
          )
          refl

-- However many blocks the padding takes, they are the final blocks.
padding_blocks :
    (rest : List ℕ) (len k pad : ℕ) (s : Working)
    → length rest < 64
    → k ≡ (length rest + 72) / 64
    → pad ≡ k * 64 - length rest - 9
    → compress_blocks k (rest ++ (0x80 ∷ (replicate pad 0 ++ bit_len_bytes len))) s
      ≡ final_blocks rest len s
padding_blocks rest len k pad s h e p = elim (ltb_cases (length rest) 56) [
  | inl (short, _) ↦
      let one : k ≡ 1 = omega arith in rw one (one_final_block rest len pad s short (omega arith))
  | inr (long, _) ↦
      let two : k ≡ 2 = omega arith in rw two (two_final_blocks rest len pad s long h (omega arith))
]

-- Both routines hash every byte string to the same digest.
pub sha256_hash-eq-sha256_hash_host : (bytes : List ℕ) → sha256_hash bytes ≡ sha256_hash_host bytes
unfolding sha256_hash sha256_hash_host padded
sha256_hash-eq-sha256_hash_host bytes =
    ap digest (ap (λ r. final_blocks r len (compress_blocks n bytes iv)) rest_all ∙ sym host)
  where
    len : ℕ
    len = length bytes

    n : ℕ
    n = len / 64

    pad : ℕ
    pad = (len + 8 + 64) / 64 * 64 - len - 9

    rest : List ℕ
    rest = drop (n * 64) bytes

    rest_all : take (len % 64) rest ≡ rest
    rest_all = take_all (len % 64) rest (omega (arith, length-drop (n * 64) bytes))

    host :
        compress_blocks ((len + 8 + 64) / 64 * 64 / 64) (padded bytes ((len + 8 + 64) / 64 * 64)) iv
        ≡ final_blocks rest len (compress_blocks n bytes iv)
    host =
        compress_blocks-append ((len + 8 + 64) / 64 * 64 / 64) n ((len % 64 + 72) / 64) (n * 64)
          bytes (0x80 ∷ (replicate pad 0 ++ bit_len_bytes len)) iv (omega arith) refl (omega arith)
        ∙ padding_blocks rest len ((len % 64 + 72) / 64) pad (compress_blocks n bytes iv)
            (omega (arith, length-drop (n * 64) bytes)) (omega (arith, length-drop (n * 64) bytes))
            (omega (arith, length-drop (n * 64) bytes))
