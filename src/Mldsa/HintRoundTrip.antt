-- ===== src/Mldsa/HintRoundTrip.antt =====
-- The sparse form gives the dense form back.
use gpu_rotation_engine.Base.{
  ℕ, zero, suc, ◌+◌, ◌-◌, ◌*◌, ◌≤◌, ◌<◌, ◌≡◌, refl, sym, ap, ◌∙◌, List, [], ◌∷◌, ◌++◌, All, arith,
  length, take, drop, replicate, min, append_assoc, append-nil, length-append, take-append-drop,
  take_left, drop_left, length-take, length-drop, length-replicate, subst, All-take, All-drop,
}
use gpu_rotation_engine.Mldsa.Hints.{
  write_indices, write_rows, count_hints, offsets, encode_hint, set_hints, decode_rows, decode_hint,
}
use gpu_rotation_engine.Mldsa.HintRows.{
  IsBit, indices, all_indices, weight_split, write_indices_lem, count_hints_lem, set_hints_lem,
  length-indices, weight,
}

module _ (w : ℕ) (w_lt : w < 256) where
  write_rows_lem :
      (k : ℕ) (h out : List ℕ)
      → length out + weight h ≤ w
      → write_rows w k h out ≡ out ++ all_indices k h
  unfolding write_rows
  write_rows_lem zero h out room = sym (append-nil out)
  write_rows_lem (suc k) h out room =
      let row : List ℕ = take 256 h in
      let row_len : length row ≤ 256 = omega (arith, length-take 256 h) in
      let first : write_indices w 0 row out ≡ out ++ indices 0 row =
        write_indices_lem w 0 row out (omega (arith, row_len))
          (omega (arith, room, weight_split h)) in
      let room' : length (out ++ indices 0 row) + weight (drop 256 h) ≤ w =
        omega
          (arith, room, weight_split h, length-append out (indices 0 row), length-indices 0 row) in
      ap (write_rows w k (drop 256 h)) first
      ∙ write_rows_lem k (drop 256 h) (out ++ indices 0 row) room'
      ∙ append_assoc out (indices 0 row) (all_indices k (drop 256 h))

  length-all_indices : (k : ℕ) (h : List ℕ) → length (all_indices k h) ≤ weight h
  length-all_indices zero h = omega arith
  length-all_indices (suc k) h = omega (
    arith,
    length-append (indices 0 (take 256 h)) (all_indices k (drop 256 h)),
    length-indices 0 (take 256 h),
    length-all_indices k (drop 256 h),
    weight_split h,
  )

  -- One row is read out of the bytes that stand behind those of the rows before it.
  decode_row_lem :
      (row before after : List ℕ)
      → length row ≡ 256
      → All IsBit row
      → length before + weight row ≤ w
      → set_hints
          (take
            (min (length before + weight row) w - length before)
            (drop (length before) (before ++ (indices 0 row ++ after))))
          (replicate 256 0)
        ≡ row
  decode_row_lem row before after len bits room =
      let n : min (length before + weight row) w - length before ≡ weight row =
        omega (arith, room) in
      let read : take (weight row) (drop (length before) (before ++ (indices 0 row ++ after)))
          ≡ indices 0 row =
        ap (take (weight row)) (drop_left (length before) before (indices 0 row ++ after) refl)
        ∙ take_left (weight row) (indices 0 row) after (length-indices 0 row) in
      let zeros : replicate 256 0 ≡ replicate (length row) 0 = ap (λ m. replicate m 0) (sym len) in
      rw n (
        ap (λ ps. set_hints ps (replicate 256 0)) read
        ∙ ap (set_hints (indices 0 row)) zeros
        ∙ set_hints_lem [] row 0 refl bits)

  decode_rows_lem :
      (k : ℕ) (h before after : List ℕ)
      → length h ≡ 256 * k
      → All IsBit h
      → length before + weight h ≤ w
      → decode_rows w
          (before ++ (all_indices k h ++ after))
          (length before)
          (offsets k h (length before))
        ≡ h
  unfolding decode_rows offsets
  decode_rows_lem zero [] before after len bits room = refl
  decode_rows_lem zero (x ∷ h) before after len bits room = absurd (omega (arith, len))
  decode_rows_lem (suc k) h before after len bits room =
      let row : List ℕ = take 256 h in
      let others : List ℕ = drop 256 h in
      let c : ℕ = length before + weight row in
      let all : List ℕ = all_indices k others in
      let fits : c + weight others ≤ w = omega (arith, room, weight_split h) in
      let count : count_hints row (length before) ≡ c =
        count_hints_lem row (length before) (omega (arith, fits, w_lt)) in
      let end : length (before ++ indices 0 row) ≡ c =
        omega (arith, length-append before (indices 0 row), length-indices 0 row) in
      let grouped : before ++ ((indices 0 row ++ all) ++ after)
          ≡ before ++ (indices 0 row ++ (all ++ after)) =
        ap (◌++◌ before) (append_assoc (indices 0 row) all after) in
      let this : set_hints
            (take (min c w - length before)
              (drop (length before) (before ++ ((indices 0 row ++ all) ++ after))))
            (replicate 256 0)
          ≡ row =
        ap
          (λ bs.
            set_hints (take (min c w - length before) (drop (length before) bs)) (replicate 256 0))
          grouped
        ∙ decode_row_lem row before (all ++ after) (omega (arith, length-take 256 h, len))
            (All-take IsBit 256 h bits) (omega (arith, fits)) in
      let rest : decode_rows w ((before ++ indices 0 row) ++ (all ++ after))
            (length (before ++ indices 0 row)) (offsets k others (length (before ++ indices 0 row)))
          ≡ others =
        decode_rows_lem k others (before ++ indices 0 row) after
          (omega (arith, length-drop 256 h, len)) (All-drop IsBit 256 h bits)
          (omega (arith, end, fits)) in
      let rest' : decode_rows w (before ++ ((indices 0 row ++ all) ++ after)) c (offsets k others c)
          ≡ others =
        ap (λ bs. decode_rows w bs c (offsets k others c))
          (grouped ∙ sym (append_assoc before (indices 0 row) (all ++ after)))
        ∙ subst
            (λ n.
              decode_rows w ((before ++ indices 0 row) ++ (all ++ after)) n (offsets k others n)
              ≡ others)
            end rest in
      rw count (
        ap
          (λ r.
            r ++ decode_rows w (before ++ ((indices 0 row ++ all) ++ after)) c (offsets k others c))
          this
        ∙ ap (◌++◌ row) rest'
        ∙ take-append-drop 256 h)

  length-offsets : (k : ℕ) (h : List ℕ) (c : ℕ) → length (offsets k h c) ≡ k
  unfolding offsets
  length-offsets zero h c = refl
  length-offsets (suc k) h c = ap suc (length-offsets k (drop 256 h) (count_hints (take 256 h) c))

  -- The bytes between the indices and the offsets, and those behind the offsets, are not looked at.
  decode_padded :
      (k : ℕ) (h pad rest : List ℕ)
      → length h ≡ 256 * k
      → All IsBit h
      → weight h ≤ w
      → length pad ≡ w - length (all_indices k h)
      → decode_hint k w (all_indices k h ++ (pad ++ (offsets k h 0 ++ rest))) ≡ h
  unfolding decode_hint
  decode_padded k h pad rest len bits room pad_len =
      let few : length (all_indices k h) ≤ weight h = length-all_indices k h in
      let front : length (all_indices k h ++ pad) ≡ w =
        omega (arith, length-append (all_indices k h) pad, pad_len, few, room) in
      let bytes : List ℕ = all_indices k h ++ (pad ++ (offsets k h 0 ++ rest)) in
      let ends : take k (drop w bytes) ≡ offsets k h 0 =
        ap (λ bs. take k (drop w bs))
          (sym (append_assoc (all_indices k h) pad (offsets k h 0 ++ rest)))
        ∙ ap (take k) (drop_left w (all_indices k h ++ pad) (offsets k h 0 ++ rest) front)
        ∙ take_left k (offsets k h 0) rest (length-offsets k h 0) in
      ap (decode_rows w bytes 0) ends
      ∙ decode_rows_lem k h [] (pad ++ (offsets k h 0 ++ rest)) len bits (omega (arith, room))

  encode_hint_is :
      (k : ℕ) (h : List ℕ)
      → weight h ≤ w
      → encode_hint k w h
        ≡ all_indices k h ++ (replicate (w - length (all_indices k h)) 0 ++ offsets k h 0)
  unfolding encode_hint
  encode_hint_is k h room =
      let out : write_rows w k h [] ≡ all_indices k h =
        write_rows_lem k h [] (omega (arith, room)) in
      ap (λ xs. (xs ++ replicate (w - length xs) 0) ++ offsets k h 0) out
      ∙ append_assoc (all_indices k h) _ _

  -- Decoding gives the dense form back, whatever follows the sparse form.
  pub decode-encode_hint :
      (k : ℕ) (h rest : List ℕ)
      → length h ≡ 256 * k
      → All IsBit h
      → weight h ≤ w
      → decode_hint k w (encode_hint k w h ++ rest) ≡ h
  decode-encode_hint k h rest len bits room =
      let pad : List ℕ = replicate (w - length (all_indices k h)) 0 in
      ap (λ bs. decode_hint k w (bs ++ rest)) (encode_hint_is k h room)
      ∙ ap (decode_hint k w) (
          append_assoc (all_indices k h) (pad ++ offsets k h 0) rest
          ∙ ap (◌++◌ (all_indices k h)) (append_assoc pad (offsets k h 0) rest))
      ∙ decode_padded k h pad rest len bits room (length-replicate {A = ℕ} _ 0)

  pub length-encode_hint : (k : ℕ) (h : List ℕ) → weight h ≤ w → length (encode_hint k w h) ≡ w + k
  length-encode_hint k h room =
      let pad : List ℕ = replicate (w - length (all_indices k h)) 0 in
      omega (
        arith,
        length-all_indices k h,
        room,
        length-offsets k h 0,
        length-replicate {A = ℕ} (w - length (all_indices k h)) 0,
        ap length (encode_hint_is k h room),
        length-append (all_indices k h) (pad ++ offsets k h 0),
        length-append pad (offsets k h 0),
      )
