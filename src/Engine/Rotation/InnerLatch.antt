-- ===== src/Engine/Rotation/InnerLatch.antt =====
-- Which calls touch the latch `rotation_pending_fence` of the handle, and when.
use gpu_rotation_engine.Base.{
  ◌≡◌, refl, ◌∙◌, Bool, true, false, Option, none, some, List, [], ◌∷◌, Bool-cases, inl, inr,
  if◌then◌else◌,
}
use gpu_rotation_engine.Engine.Device.{Write}
use gpu_rotation_engine.Engine.Cuda.{
  EngineHandle, World, M, ◌>>=◌, pure, guard, non_null, gets, modify, drain, next_call,
  checked_call, memcpy_async, memcpy_all, synchronize,
}
use gpu_rotation_engine.Engine.Rotation.{destroy_comm_stream}

-- The function leaves the latch as it is, whether or not it succeeds; it does so when it fails; it opens
-- the latch when it succeeds.
abbrev pub Keeps : {A : Type 0} → M A → Type 0
Keeps m = (w : World) → (m w).1.rotation_pending_fence ≡ w.rotation_pending_fence

abbrev pub FailsKeeping : {A : Type 0} → M A → Type 0
FailsKeeping m =
    (w : World) → (m w).0 ≡ none → (m w).1.rotation_pending_fence ≡ w.rotation_pending_fence

abbrev pub Opens : {A : Type 0} → M A → Type 0
Opens {A} m = (w : World) (a : A) → (m w).0 ≡ some a → (m w).1.rotation_pending_fence ≡ false

module _ {A B : Type 0} where
  -- What sequencing does with the end of the first function.
  abbrev and_then : (A → M B) → Option A × World → Option B × World
  and_then f r = elim r.0 [ none ↦ (none, r.1) | some a ↦ f a r.1 ]

  pub Keeps-bind : (m : M A) (f : A → M B) → Keeps m → ((a : A) → Keeps (f a)) → Keeps (m >>= f)
  unfolding ◌>>=◌
  Keeps-bind m f first next w = go (m w) (first w)
    where
      go :
          (r : Option A × World)
          → r.1.rotation_pending_fence ≡ w.rotation_pending_fence
          → (and_then f r).1.rotation_pending_fence ≡ w.rotation_pending_fence
      go (none, v) e = e
      go (some a, v) e = next a v ∙ e

  pub FailsKeeping-bind :
      (m : M A) (f : A → M B) → Keeps m → ((a : A) → FailsKeeping (f a)) → FailsKeeping (m >>= f)
  unfolding ◌>>=◌
  FailsKeeping-bind m f first next w = go (m w) (first w)
    where
      go :
          (r : Option A × World)
          → r.1.rotation_pending_fence ≡ w.rotation_pending_fence
          → (and_then f r).0 ≡ none
          → (and_then f r).1.rotation_pending_fence ≡ w.rotation_pending_fence
      go (none, v) e n = e
      go (some a, v) e n = next a v n ∙ e

  pub Opens-bind : (m : M A) (f : A → M B) → ((a : A) → Opens (f a)) → Opens (m >>= f)
  unfolding ◌>>=◌
  Opens-bind m f next w b = go (m w)
    where
      go :
          (r : Option A × World)
          → (and_then f r).0 ≡ some b
          → (and_then f r).1.rotation_pending_fence ≡ false
      go (none, v) e = cc
      go (some a, v) e = next a v b e

pub Keeps-if : {A : Type 0} (b : Bool) (m n : M A) → Keeps m → Keeps n → Keeps (if b then m else n)
Keeps-if true m n p q = p
Keeps-if false m n p q = q

pub Keeps-guard : (b : Bool) → Keeps (guard b)
unfolding guard
Keeps-guard true w = refl
Keeps-guard false w = refl

pub Keeps-gets : {A : Type 0} (f : World → A) → Keeps (gets f)
unfolding gets
Keeps-gets f w = refl

pub Keeps-non_null : {A : Type 0} (p : Option A) → Keeps (non_null p)
unfolding non_null
Keeps-non_null p w = refl

pub Keeps-modify :
    (f : EngineHandle → EngineHandle)
    → ((h : EngineHandle) → (f h).rotation_pending_fence ≡ h.rotation_pending_fence)
    → Keeps (modify f)
unfolding modify
Keeps-modify f e w = e w.handle

pub Keeps-checked_call : Keeps checked_call
unfolding checked_call next_call drain
Keeps-checked_call w = elim (Bool-cases (w.runtime w.calls).success) [
  | inl e ↦ rw (e, checked_call) refl
  | inr e ↦ rw (e, checked_call) refl
]

pub Keeps-memcpy_async : (x : Write) → Keeps (memcpy_async x)
unfolding memcpy_async next_call drain
Keeps-memcpy_async x w = elim (Bool-cases (w.runtime w.calls).success) [
  | inl e ↦ rw (e, memcpy_async) refl
  | inr e ↦ rw (e, memcpy_async) refl
]

pub Keeps-synchronize : Keeps synchronize
unfolding synchronize next_call drain
Keeps-synchronize w = elim (Bool-cases (w.runtime w.calls).success) [
  | inl e ↦ rw (e, synchronize) refl
  | inr e ↦ rw (e, synchronize) refl
]

pub Keeps-memcpy_all : (xs : List Write) → Keeps (memcpy_all xs)
unfolding memcpy_all pure
Keeps-memcpy_all [] w = refl
Keeps-memcpy_all (x ∷ xs) w =
    Keeps-bind (memcpy_async x) _ (Keeps-memcpy_async x) (λ _. Keeps-memcpy_all xs) w

pub Keeps-destroy : Keeps destroy_comm_stream
unfolding destroy_comm_stream next_call drain
Keeps-destroy w = elim (Bool-cases w.comm_stream) [
  | inl e ↦ rw (e, destroy_comm_stream) refl
  | inr e ↦ rw (e, destroy_comm_stream) refl
]
