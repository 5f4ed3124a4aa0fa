-- ===== src/Base/Cells.antt =====
-- An array of two: `keyslots[2]` and the arrays that go with it. An index is tested, never wrapped,
-- by the code that uses one; every index but 0 reads the second cell.
use Prim.Native.Nat.{ℕ, ◌<◌, ◌-◌, ◌%◌}
use mathlib.Core.Path.{◌≡◌, refl}
use mathlib.Core.Logic.{◌≢◌, inl, inr}
use native.Mathlib.Omega.{arith}
use gpu_rotation_engine.Base.Tests.{◌==◌, ==_refl, Bool-cases, if◌then◌else◌}

pub record Two {ℓ} (A : Type ℓ) : Type ℓ where
  pub zeroth : A
  pub first : A

module _ {ℓ} {A : Type ℓ} where
  abbrev pub at : Two A → ℕ → A
  at t i = if i == 0 then t.zeroth else t.first

  abbrev pub put : Two A → ℕ → A → Two A
  put t i a = if i == 0 then record t { zeroth = a } else record t { first = a }

  pub at-put_self : (t : Two A) (i : ℕ) (a : A) → at (put t i a) i ≡ a
  at-put_self t i a = ground arith

  pub at-put_ne : (t : Two A) (i j : ℕ) (a : A) → i < 2 → j < 2 → i ≢ j → at (put t i a) j ≡ at t j
  at-put_ne t i j a hi hj ne = ground arith

-- `(e & 1) ^ 1`: on a word `e & 1` is `e % 2`, and `^ 1` swaps 0 and 1.
abbrev pub other_slot : ℕ → ℕ
other_slot e = 1 - e % 2

pub other_slot_lem : (e : ℕ) → (other_slot e < 2) × (other_slot e ≢ e % 2)
other_slot_lem e = (omega arith, omega arith)

-- An array as a function, and the write of one element.
abbrev pub update {ℓ} : {A : Type ℓ} → (ℕ → A) → ℕ → A → ℕ → A
update f i a j = if i == j then a else f j

module _ {ℓ} {A : Type ℓ} where
  pub update_self : (f : ℕ → A) (i : ℕ) (a : A) → update f i a i ≡ a
  update_self f i a = rw (==_refl i) refl

  pub update_ne : (f : ℕ → A) (i j : ℕ) (a : A) → i ≢ j → update f i a j ≡ f j
  update_ne f i j a ne = elim (Bool-cases (i == j)) [
    | inl e ↦ absurd (ground (arith, e))
    | inr e ↦ rw e refl
  ]
