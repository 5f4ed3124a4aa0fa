-- ===== src/Mldsa/Hints.antt =====
-- The sparse coding of hints in core/persistent_engine/engine_host.cpp: the three functions
-- `encode_hint_sparse_mldsa..` differ only in k and omega, and so do the three
-- `decode_hint_sparse_mldsa..`. The dense form is a list of k rows of 256 bytes, one after another.
use gpu_rotation_engine.Base.{
  ℕ, zero, suc, ◌+◌, ◌-◌, ◌%◌, not, ◌&&◌, List, [], ◌∷◌, ◌++◌, length, take, drop, replicate, min,
  if◌then◌else◌, ltb, ◌==◌,
}

-- The inner loop that writes the indices of a row's hints; `out` holds the `pos` bytes written.
unfoldable pub write_indices : ℕ → ℕ → List ℕ → List ℕ → List ℕ
write_indices omega j [] out = out
write_indices omega j (x ∷ row) out =
    write_indices omega (j + 1) row
      (if not (x == 0) && ltb (length out) omega then out ++ (j % 256 ∷ []) else out)

unfoldable pub write_rows : ℕ → ℕ → List ℕ → List ℕ → List ℕ
write_rows omega zero h out = out
write_rows omega (suc k) h out =
    write_rows omega k (drop 256 h) (write_indices omega 0 (take 256 h) out)

-- The inner loop that counts on `cumulative`, a byte.
unfoldable pub count_hints : List ℕ → ℕ → ℕ
count_hints [] cumulative = cumulative
count_hints (x ∷ row) cumulative =
    count_hints row (if not (x == 0) then (cumulative + 1) % 256 else cumulative)

unfoldable pub offsets : ℕ → List ℕ → ℕ → List ℕ
offsets zero h cumulative = []
offsets (suc k) h cumulative =
    let cumulative' = count_hints (take 256 h) cumulative in
    cumulative' ∷ offsets k (drop 256 h) cumulative'

unfoldable pub encode_hint : ℕ → ℕ → List ℕ → List ℕ
encode_hint k omega h =
    let out = write_rows omega k h [] in out ++ replicate (omega - length out) 0 ++ offsets k h 0

unfoldable pub encode_hint_sparse_mldsa44 : List ℕ → List ℕ
encode_hint_sparse_mldsa44 h = encode_hint 4 80 h

unfoldable pub encode_hint_sparse_mldsa65 : List ℕ → List ℕ
encode_hint_sparse_mldsa65 h = encode_hint 6 55 h

unfoldable pub encode_hint_sparse_mldsa87 : List ℕ → List ℕ
encode_hint_sparse_mldsa87 h = encode_hint 8 75 h

-- `h[i * n + pos] = 1` in a row, where there is such a place.
unfoldable pub set_hint : ℕ → List ℕ → List ℕ
set_hint pos [] = []
set_hint zero (x ∷ row) = 1 ∷ row
set_hint (suc pos) (x ∷ row) = x ∷ set_hint pos row

unfoldable pub set_hints : List ℕ → List ℕ → List ℕ
set_hints [] row = row
set_hints (pos ∷ positions) row = set_hints positions (set_hint pos row)

-- The rows whose hints end at these offsets, the first of them beginning at `start`. The bytes read
-- for a row are those from `start` to its end, and none from `omega` on.
unfoldable pub decode_rows : ℕ → List ℕ → ℕ → List ℕ → List ℕ
decode_rows omega bytes start [] = []
decode_rows omega bytes start (end ∷ ends) =
    set_hints (take (min end omega - start) (drop start bytes)) (replicate 256 0)
    ++ decode_rows omega bytes end ends

unfoldable pub decode_hint : ℕ → ℕ → List ℕ → List ℕ
decode_hint k omega bytes = decode_rows omega bytes 0 (take k (drop omega bytes))

unfoldable pub decode_hint_sparse_mldsa44 : List ℕ → List ℕ
decode_hint_sparse_mldsa44 bytes = decode_hint 4 80 bytes

unfoldable pub decode_hint_sparse_mldsa65 : List ℕ → List ℕ
decode_hint_sparse_mldsa65 bytes = decode_hint 6 55 bytes

unfoldable pub decode_hint_sparse_mldsa87 : List ℕ → List ℕ
decode_hint_sparse_mldsa87 bytes = decode_hint 8 75 bytes
