-- ===== src/Base/Bytes.antt =====
-- What a copy of some bytes into a buffer of zeros leaves, byte by byte.
use Prim.Native.Nat.{ℕ, zero, suc, ◌≤◌, ◌<◌}
use mathlib.Core.Path.{◌≡◌, refl, ◌∙◌}
use mathlib.Core.List.{List, [], ◌∷◌, ◌++◌}
use native.Mathlib.Omega.{arith}
use gpu_rotation_engine.Base.Lists.{get_or, take, replicate}
use gpu_rotation_engine.Base.Tests.{ltb_cases}
use mathlib.Core.Logic.{inl, inr}

-- The first `n` bytes are those of the source, and zeros follow; an absent byte counts as zero.
pub record Copied (n : ℕ) (src dst : List ℕ) : Type 0 where
  pub given : (i : ℕ) → i < n → get_or dst i 0 ≡ get_or src i 0
  pub zeros : (i : ℕ) → n ≤ i → get_or dst i 0 ≡ 0

get_or-zeros : (m i : ℕ) → get_or {A = ℕ} (replicate m 0) i 0 ≡ 0
get_or-zeros zero i = refl
get_or-zeros (suc m) zero = refl
get_or-zeros (suc m) (suc i) = get_or-zeros m i

get_or-take : (n i : ℕ) (bs : List ℕ) → i < n → get_or (take n bs) i 0 ≡ get_or bs i 0
get_or-take zero i bs lt = absurd (omega arith)
get_or-take (suc n) i [] lt = refl
get_or-take (suc n) zero (b ∷ bs) lt = refl
get_or-take (suc n) (suc i) (b ∷ bs) lt = get_or-take n i bs (omega arith)

get_or-take_behind : (n i : ℕ) (bs : List ℕ) → n ≤ i → get_or (take n bs) i 0 ≡ 0
get_or-take_behind zero i bs le = refl
get_or-take_behind (suc n) i [] le = refl
get_or-take_behind (suc n) zero (b ∷ bs) le = absurd (omega arith)
get_or-take_behind (suc n) (suc i) (b ∷ bs) le = get_or-take_behind n i bs (omega arith)

pub take-Copied : (n : ℕ) (bs : List ℕ) → Copied n bs (take n bs)
take-Copied n bs = record {
  given = λ i lt. get_or-take n i bs lt;
  zeros = λ i le. get_or-take_behind n i bs le;
}

padded_given :
    (n m i : ℕ) (bs : List ℕ) → i < n → get_or (take n bs ++ replicate m 0) i 0 ≡ get_or bs i 0
padded_given zero m i bs lt = absurd (omega arith)
padded_given (suc n) m i [] lt = get_or-zeros m i
padded_given (suc n) m zero (b ∷ bs) lt = refl
padded_given (suc n) m (suc i) (b ∷ bs) lt = padded_given n m i bs (omega arith)

padded_zeros : (n m i : ℕ) (bs : List ℕ) → n ≤ i → get_or (take n bs ++ replicate m 0) i 0 ≡ 0
padded_zeros zero m i bs le = get_or-zeros m i
padded_zeros (suc n) m i [] le = get_or-zeros m i
padded_zeros (suc n) m zero (b ∷ bs) le = absurd (omega arith)
padded_zeros (suc n) m (suc i) (b ∷ bs) le = padded_zeros n m i bs (omega arith)

pub padded-Copied : (n m : ℕ) (bs : List ℕ) → Copied n bs (take n bs ++ replicate m 0)
padded-Copied n m bs = record {
  given = λ i lt. padded_given n m i bs lt;
  zeros = λ i le. padded_zeros n m i bs le;
}

-- A buffer cut behind the copied bytes.
pub Copied-take :
    (n m : ℕ) (src dst : List ℕ) → n ≤ m → Copied n src dst → Copied n src (take m dst)
Copied-take n m src dst le c = record {
  given = λ i lt. get_or-take m i dst (omega arith) ∙ c.given i lt;
  zeros = λ i ge. elim (ltb_cases i m) [
    | inl (lt, e) ↦ get_or-take m i dst lt ∙ c.zeros i ge
    | inr (behind, e) ↦ get_or-take_behind m i dst behind
  ];
}
