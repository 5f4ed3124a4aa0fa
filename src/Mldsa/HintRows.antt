-- ===== src/Mldsa/HintRows.antt =====
-- The hints of one row: their indices, written and set again.
use gpu_rotation_engine.Base.{
  ℕ, zero, suc, ◌+◌, ◌%◌, ◌≤◌, ◌<◌, ◌≡◌, ◌⊎◌, inl, inr, refl, sym, ap, ◌∙◌, true, List, [], ◌∷◌,
  ◌++◌, All, arith, length, take, drop, replicate, if◌then◌else◌, ltb, ◌==◌, Bool-cases,
  append_assoc, append-nil, length-append, take-append-drop,
}
use gpu_rotation_engine.Mldsa.Hints.{write_indices, count_hints, set_hint, set_hints}

abbrev pub IsBit : ℕ → Type 0
IsBit x = (x ≡ 0) ⊎ (x ≡ 1)

-- The indices of a row's hints, counted from `j`, and those of `k` rows.
abbrev pub indices : ℕ → List ℕ → List ℕ
indices j [] = []
indices j (x ∷ row) = let rest = indices (j + 1) row in if x == 0 then rest else j ∷ rest

abbrev pub all_indices : ℕ → List ℕ → List ℕ
all_indices zero h = []
all_indices (suc k) h = indices 0 (take 256 h) ++ all_indices k (drop 256 h)

-- How many hints there are.
abbrev pub weight : List ℕ → ℕ
weight [] = 0
weight (x ∷ h) = let rest = weight h in if x == 0 then rest else 1 + rest

pub length-indices : (j : ℕ) (row : List ℕ) → length (indices j row) ≡ weight row
length-indices j [] = refl
length-indices j (x ∷ row) = elim (Bool-cases (x == 0)) [
  | inl e ↦ rw e (length-indices (j + 1) row)
  | inr e ↦ rw e (omega (arith, length-indices (j + 1) row))
]

pub write_indices_lem :
    (omega' j : ℕ) (row out : List ℕ)
    → j + length row ≤ 256
    → length out + weight row ≤ omega'
    → write_indices omega' j row out ≡ out ++ indices j row
unfolding write_indices
write_indices_lem w j [] out fits room = sym (append-nil out)
write_indices_lem w j (x ∷ row) out fits room = elim (Bool-cases (x == 0)) [
  | inl e ↦
      let room' : length out + weight row ≤ w = rw e at room in
      rw (e, write_indices) (write_indices_lem w (j + 1) row out (omega arith) room')
  | inr e ↦
      let room' : length out + (1 + weight row) ≤ w = rw e at room in
      let free : ltb (length out) w ≡ true = ground (arith, room') in
      let small : j % 256 ≡ j = omega arith in
      rw (e, free, small, write_indices)
        (write_indices_lem w (j + 1) row (out ++ (j ∷ [])) (omega arith)
            (omega (arith, room', length-append out (j ∷ [])))
          ∙ append_assoc out (j ∷ []) (indices (j + 1) row))
]

pub count_hints_lem :
    (row : List ℕ) (c : ℕ) → c + weight row < 256 → count_hints row c ≡ c + weight row
unfolding count_hints
count_hints_lem [] c fits = omega arith
count_hints_lem (x ∷ row) c fits = elim (Bool-cases (x == 0)) [
  | inl e ↦
      let fits' : c + weight row < 256 = rw e at fits in
      rw (e, count_hints) (count_hints_lem row c fits')
  | inr e ↦
      let fits' : c + (1 + weight row) < 256 = rw e at fits in
      let small : (c + 1) % 256 ≡ c + 1 = omega (arith, fits') in
      rw (e, small, count_hints) (count_hints_lem row (c + 1) (omega (arith, fits')) ∙ omega arith)
]

set_hint_lem :
    (done row : List ℕ) (x : ℕ) → set_hint (length done) (done ++ (x ∷ row)) ≡ done ++ (1 ∷ row)
unfolding set_hint
set_hint_lem [] row x = refl
set_hint_lem (y ∷ done) row x = ap (◌∷◌ y) (set_hint_lem done row x)

-- A row whose first part stands already.
pub set_hints_lem :
    (done row : List ℕ) (j : ℕ)
    → j ≡ length done
    → All IsBit row
    → set_hints (indices j row) (done ++ replicate (length row) 0) ≡ done ++ row
unfolding set_hints
set_hints_lem done [] j len bits = refl
set_hints_lem done (x ∷ row) j len (inl e, bits) =
    let rest : set_hints (indices (j + 1) row) ((done ++ (0 ∷ [])) ++ replicate (length row) 0)
        ≡ (done ++ (0 ∷ [])) ++ row =
      set_hints_lem (done ++ (0 ∷ [])) row (j + 1) (omega (arith, len, length-append done (0 ∷ [])))
        bits in
    rw e (
      ap (set_hints (indices (j + 1) row))
        (sym (append_assoc done (0 ∷ []) (replicate (length row) 0)))
      ∙ rest
      ∙ append_assoc done (0 ∷ []) row)
set_hints_lem done (x ∷ row) j len (inr e, bits) =
    let rest : set_hints (indices (j + 1) row) ((done ++ (1 ∷ [])) ++ replicate (length row) 0)
        ≡ (done ++ (1 ∷ [])) ++ row =
      set_hints_lem (done ++ (1 ∷ [])) row (j + 1) (omega (arith, len, length-append done (1 ∷ [])))
        bits in
    let put : set_hint j (done ++ (0 ∷ replicate (length row) 0))
        ≡ done ++ (1 ∷ replicate (length row) 0) =
      rw len (set_hint_lem done (replicate (length row) 0) 0) in
    rw e (
      ap (set_hints (indices (j + 1) row))
        (put ∙ sym (append_assoc done (1 ∷ []) (replicate (length row) 0)))
      ∙ rest
      ∙ append_assoc done (1 ∷ []) row)

weight-append : (xs ys : List ℕ) → weight (xs ++ ys) ≡ weight xs + weight ys
weight-append [] ys = omega arith
weight-append (x ∷ xs) ys = elim (Bool-cases (x == 0)) [
  | inl e ↦ rw e (weight-append xs ys)
  | inr e ↦ rw e (omega (arith, weight-append xs ys))
]

pub weight_split : (h : List ℕ) → weight h ≡ weight (take 256 h) + weight (drop 256 h)
weight_split h = ap weight (sym (take-append-drop 256 h)) ∙ weight-append (take 256 h) (drop 256 h)
