-- ===== src/Mldsa/UnpackBounds.antt =====
-- What unpacking makes of any bytes: coefficients below q, hints that are bits.
use gpu_rotation_engine.Base.{
  ℕ, zero, suc, ◌+◌, ◌-◌, ◌*◌, ◌≤◌, ◌<◌, ◌≡◌, inl, inr, refl, ap, ◌∙◌, List, [], ◌∷◌, All,
  All-append, All-replicate, arith, length, take, drop, replicate, min, length-append,
  length-replicate, length-take, length-drop,
}
use gpu_rotation_engine.Mldsa.Params.{mldsa_q}
use gpu_rotation_engine.Mldsa.ZCoeffs.{mod_q, unpack_groups_20, unpack_groups_18}
use gpu_rotation_engine.Mldsa.Hints.{set_hint, set_hints, decode_rows, decode_hint}
use gpu_rotation_engine.Mldsa.HintRows.{IsBit}

abbrev pub Reduced : ℕ → Type 0
Reduced z = z < mldsa_q

mod_q_lt : (gamma1 t : ℕ) → mod_q gamma1 t < mldsa_q
unfolding mod_q
mod_q_lt gamma1 t = omega arith

pub unpack_groups_20-lem :
    (gamma1 groups : ℕ) (bytes : List ℕ)
    → 10 * groups ≤ length bytes
    → (length (unpack_groups_20 gamma1 groups bytes) ≡ 4 * groups)
      × All Reduced (unpack_groups_20 gamma1 groups bytes)
unfolding unpack_groups_20
unpack_groups_20-lem gamma1 zero bytes enough = (omega arith, record {})
unpack_groups_20-lem gamma1 (suc groups) (b0 ∷ b1 ∷ b2 ∷ b3 ∷ b4 ∷ b5 ∷ b6 ∷ b7 ∷ b8 ∷ b9 ∷ bytes)
      enough =
    let (len, reduced) = unpack_groups_20-lem gamma1 groups bytes (omega (arith, enough)) in
    (
      omega (arith, len),
      (mod_q_lt gamma1 _, (mod_q_lt gamma1 _, (mod_q_lt gamma1 _, (mod_q_lt gamma1 _, reduced)))),
    )
unpack_groups_20-lem gamma1 (suc groups) [] enough = absurd (omega (arith, enough))
unpack_groups_20-lem gamma1 (suc groups) (b0 ∷ []) enough = absurd (omega (arith, enough))
unpack_groups_20-lem gamma1 (suc groups) (b0 ∷ b1 ∷ []) enough = absurd (omega (arith, enough))
unpack_groups_20-lem gamma1 (suc groups) (b0 ∷ b1 ∷ b2 ∷ []) enough = absurd (omega (arith, enough))
unpack_groups_20-lem gamma1 (suc groups) (b0 ∷ b1 ∷ b2 ∷ b3 ∷ []) enough =
    absurd (omega (arith, enough))
unpack_groups_20-lem gamma1 (suc groups) (b0 ∷ b1 ∷ b2 ∷ b3 ∷ b4 ∷ []) enough =
    absurd (omega (arith, enough))
unpack_groups_20-lem gamma1 (suc groups) (b0 ∷ b1 ∷ b2 ∷ b3 ∷ b4 ∷ b5 ∷ []) enough =
    absurd (omega (arith, enough))
unpack_groups_20-lem gamma1 (suc groups) (b0 ∷ b1 ∷ b2 ∷ b3 ∷ b4 ∷ b5 ∷ b6 ∷ []) enough =
    absurd (omega (arith, enough))
unpack_groups_20-lem gamma1 (suc groups) (b0 ∷ b1 ∷ b2 ∷ b3 ∷ b4 ∷ b5 ∷ b6 ∷ b7 ∷ []) enough =
    absurd (omega (arith, enough))
unpack_groups_20-lem gamma1 (suc groups) (b0 ∷ b1 ∷ b2 ∷ b3 ∷ b4 ∷ b5 ∷ b6 ∷ b7 ∷ b8 ∷ []) enough =
    absurd (omega (arith, enough))

pub unpack_groups_18-lem :
    (gamma1 groups : ℕ) (bytes : List ℕ)
    → 9 * groups ≤ length bytes
    → (length (unpack_groups_18 gamma1 groups bytes) ≡ 4 * groups)
      × All Reduced (unpack_groups_18 gamma1 groups bytes)
unfolding unpack_groups_18
unpack_groups_18-lem gamma1 zero bytes enough = (omega arith, record {})
unpack_groups_18-lem gamma1 (suc groups) (b0 ∷ b1 ∷ b2 ∷ b3 ∷ b4 ∷ b5 ∷ b6 ∷ b7 ∷ b8 ∷ bytes)
      enough =
    let (len, reduced) = unpack_groups_18-lem gamma1 groups bytes (omega (arith, enough)) in
    (
      omega (arith, len),
      (mod_q_lt gamma1 _, (mod_q_lt gamma1 _, (mod_q_lt gamma1 _, (mod_q_lt gamma1 _, reduced)))),
    )
unpack_groups_18-lem gamma1 (suc groups) [] enough = absurd (omega (arith, enough))
unpack_groups_18-lem gamma1 (suc groups) (b0 ∷ []) enough = absurd (omega (arith, enough))
unpack_groups_18-lem gamma1 (suc groups) (b0 ∷ b1 ∷ []) enough = absurd (omega (arith, enough))
unpack_groups_18-lem gamma1 (suc groups) (b0 ∷ b1 ∷ b2 ∷ []) enough = absurd (omega (arith, enough))
unpack_groups_18-lem gamma1 (suc groups) (b0 ∷ b1 ∷ b2 ∷ b3 ∷ []) enough =
    absurd (omega (arith, enough))
unpack_groups_18-lem gamma1 (suc groups) (b0 ∷ b1 ∷ b2 ∷ b3 ∷ b4 ∷ []) enough =
    absurd (omega (arith, enough))
unpack_groups_18-lem gamma1 (suc groups) (b0 ∷ b1 ∷ b2 ∷ b3 ∷ b4 ∷ b5 ∷ []) enough =
    absurd (omega (arith, enough))
unpack_groups_18-lem gamma1 (suc groups) (b0 ∷ b1 ∷ b2 ∷ b3 ∷ b4 ∷ b5 ∷ b6 ∷ []) enough =
    absurd (omega (arith, enough))
unpack_groups_18-lem gamma1 (suc groups) (b0 ∷ b1 ∷ b2 ∷ b3 ∷ b4 ∷ b5 ∷ b6 ∷ b7 ∷ []) enough =
    absurd (omega (arith, enough))

set_hint-IsBit :
    (pos : ℕ) (row : List ℕ)
    → All IsBit row
    → All IsBit (set_hint pos row) × (length (set_hint pos row) ≡ length row)
unfolding set_hint
set_hint-IsBit pos [] bits = (record {}, refl)
set_hint-IsBit zero (x ∷ row) (bit, bits) = ((inr refl, bits), refl)
set_hint-IsBit (suc pos) (x ∷ row) (bit, bits) =
    let (rest, len) = set_hint-IsBit pos row bits in ((bit, rest), ap suc len)

set_hints-IsBit :
    (positions row : List ℕ)
    → All IsBit row
    → All IsBit (set_hints positions row) × (length (set_hints positions row) ≡ length row)
unfolding set_hints
set_hints-IsBit [] row bits = (bits, refl)
set_hints-IsBit (pos ∷ positions) row bits =
    let (bits', len') = set_hint-IsBit pos row bits in
    let (bits'', len'') = set_hints-IsBit positions (set_hint pos row) bits' in
    (bits'', len'' ∙ len')

decode_rows-IsBit :
    (omega' : ℕ) (bytes : List ℕ) (start : ℕ) (offs : List ℕ)
    → All IsBit (decode_rows omega' bytes start offs)
      × (length (decode_rows omega' bytes start offs) ≡ 256 * length offs)
unfolding decode_rows
decode_rows-IsBit w bytes start [] = (record {}, omega arith)
decode_rows-IsBit w bytes start (end ∷ offs) =
    let (bits, len) =
      set_hints-IsBit (take (min end w - start) (drop start bytes)) (replicate 256 0)
        (All-replicate IsBit 256 0 (inl refl)) in
    let (bits', len') = decode_rows-IsBit w bytes end offs in
    let row : List ℕ = set_hints (take (min end w - start) (drop start bytes)) (replicate 256 0) in
    (
      All-append IsBit row (decode_rows w bytes end offs) bits bits',
      omega (
        arith,
        len,
        len',
        length-replicate {A = ℕ} 256 0,
        length-append row (decode_rows w bytes end offs),
      ),
    )

pub decode_hint-IsBit :
    (k omega' : ℕ) (bytes : List ℕ)
    → omega' + k ≤ length bytes
    → All IsBit (decode_hint k omega' bytes) × (length (decode_hint k omega' bytes) ≡ 256 * k)
unfolding decode_hint
decode_hint-IsBit k w bytes enough =
    let (bits, len) = decode_rows-IsBit w bytes 0 (take k (drop w bytes)) in
    let all : length (take k (drop w bytes)) ≡ k =
      omega (arith, length-take k (drop w bytes), length-drop w bytes, enough) in
    (bits, len ∙ ap (λ n. 256 * n) all)
