-- ===== src/Engine/Cuda/Force.antt =====
-- What holds of the device at every moment: now, and however many of the queued writes are carried
-- out next; beside it a fact about the handle. Such a pair survives each primitive that queues no write which could break it, whatever
-- the runtime answers.
use gpu_rotation_engine.Base.{
  ℕ, zero, suc, ◌≡◌, refl, inl, inr, Bool, true, false, Option, none, some, List, [], ◌∷◌, All,
  All-append, All-drop, take, Bool-cases,
}
use gpu_rotation_engine.Engine.State.{EngineState}
use gpu_rotation_engine.Engine.Device.{Write, apply, apply_all}
use gpu_rotation_engine.Engine.Cuda.{
  EngineHandle, World, M, ◌>>=◌, pure, drain, next_call, checked_call, memcpy_async, memcpy_all,
  synchronize, modify, guard, non_null,
}
use gpu_rotation_engine.Engine.Cuda.Run.{Ends, returned, failed}

-- The write cannot make the fact false.
abbrev pub Stable : (EngineState → Type 0) → Write → Type 0
Stable P x = (d : EngineState) → P d → P (apply x d)

pub record InForce (P : EngineState → Type 0) (H : EngineHandle → Type 0) (w : World) : Type 0 where
  pub host : H w.handle
  pub now : P w.device
  pub queued : All (Stable P) w.pending

module _ (P : EngineState → Type 0) where
  apply_take :
      (n : ℕ) (xs : List Write) (d : EngineState)
      → All (Stable P) xs
      → P d
      → P (apply_all (take n xs) d)
  unfolding apply_all
  apply_take zero xs d s p = p
  apply_take (suc n) [] d s p = p
  apply_take (suc n) (x ∷ xs) d s p = apply_take n xs (apply x d) s.1 (s.0 d p)

  pub apply_all_stable :
      (xs : List Write) (d : EngineState) → All (Stable P) xs → P d → P (apply_all xs d)
  unfolding apply_all
  apply_all_stable [] d s p = p
  apply_all_stable (x ∷ xs) d s p = apply_all_stable xs (apply x d) s.1 (s.0 d p)

module _ {P : EngineState → Type 0} {H : EngineHandle → Type 0} where
  -- Whatever the stream carries out next, the fact holds of the device.
  pub drain-InForce : (n : ℕ) {w : World} → InForce P H w → InForce P H (drain n w)
  unfolding drain
  drain-InForce n {w} f = record {
    host = f.host;
    now = apply_take P n w.pending w.device f.queued f.now;
    queued = All-drop (Stable P) n w.pending f.queued;
  }

  pub next_call-InForce : {w : World} → InForce P H w → InForce P H (next_call w).1
  unfolding next_call
  next_call-InForce {w} f =
      let g = drain-InForce (w.runtime w.calls).progress f in
      record { host = f.host; now = g.now; queued = g.queued }

  pub checked_call-InForce : {w : World} → InForce P H w → InForce P H (checked_call w).1
  unfolding checked_call
  checked_call-InForce {w} f = elim (Bool-cases (w.runtime w.calls).success) [
    | inl e ↦ rw (e, checked_call) (next_call-InForce f)
    | inr e ↦ rw (e, checked_call) (next_call-InForce f)
  ]

  pub memcpy_async-InForce :
      (x : Write) {w : World} → Stable P x → InForce P H w → InForce P H (memcpy_async x w).1
  unfolding memcpy_async
  memcpy_async-InForce x {w} s f =
      let g = next_call-InForce f in
      elim (Bool-cases (w.runtime w.calls).success) [
        | inl e ↦
            rw (e, memcpy_async)
              (record {
                host = f.host;
                now = g.now;
                queued = All-append (Stable P) _ (x ∷ []) g.queued (s, tt);
              })
        | inr e ↦ rw (e, memcpy_async) g
      ]

  pub synchronize-InForce : {w : World} → InForce P H w → InForce P H (synchronize w).1
  unfolding synchronize
  synchronize-InForce {w} f =
      let g = next_call-InForce f in
      elim (Bool-cases (w.runtime w.calls).success) [
        | inl e ↦
            rw (e, synchronize)
              (record { host = f.host; now = apply_all_stable P _ _ g.queued g.now; queued = tt })
        | inr e ↦ rw (e, synchronize) g
      ]

  pub InForce-bind :
      {A B : Type 0} (m : M A) (f : A → M B) (w : World)
      → InForce P H (m w).1
      → ((a : A) (v : World) → InForce P H v → InForce P H (f a v).1)
      → InForce P H ((m >>= f) w).1
  unfolding ◌>>=◌
  InForce-bind {A} {B} m f w first next = go (m w) first
    where
      go :
          (r : Option A × World)
          → InForce P H r.1
          → InForce P H
              (elim r.0 as (λ _. Option B × World) [ none ↦ (none, r.1) | some a ↦ f a r.1 ]).1
      go (none, v) p = p
      go (some a, v) p = next a v p

  pub memcpy_all-InForce :
      (xs : List Write) {w : World}
      → All (Stable P) xs
      → InForce P H w
      → InForce P H (memcpy_all xs w).1
  unfolding memcpy_all pure
  memcpy_all-InForce [] s f = f
  memcpy_all-InForce (x ∷ xs) {w} s f =
      InForce-bind (memcpy_async x) (λ _. memcpy_all xs) w (memcpy_async-InForce x s.0 f)
        (λ _ v g. memcpy_all-InForce xs s.1 g)

  pub modify-InForce :
      (f : EngineHandle → EngineHandle) {w : World}
      → (H w.handle → H (f w.handle))
      → InForce P H w
      → InForce P H (modify f w).1
  unfolding modify
  modify-InForce f keep p = record { host = keep p.host; now = p.now; queued = p.queued }

-- What holds at the end whether or not the function succeeds.
pub Ends-always :
    {A : Type 0} {F : World → Type 0} (r : Option A × World) → F r.1 → Ends (λ _. F) F r
Ends-always (none, v) f = failed f
Ends-always (some a, v) f = returned f

pub Ends-both : {A : Type 0} {F : World → Type 0} {r : Option A × World} → Ends (λ _. F) F r → F r.1
Ends-both (returned f) = f
Ends-both (failed f) = f

module _ {B : Type 0} {Q : B → World → Type 0} {E : World → Type 0} where
  -- A test that may fail.
  pub Ends-test :
      (b : Bool) (f : Unit {0} → M B) (w : World)
      → E w
      → (b ≡ true → Ends Q E (f tt w))
      → Ends Q E ((guard b >>= f) w)
  unfolding ◌>>=◌ guard
  Ends-test true f w e q = q refl
  Ends-test false f w e q = failed e

module _ {A B : Type 0} {Q : B → World → Type 0} {E : World → Type 0} where
  -- A pointer that may be null.
  pub Ends-pointer :
      (p : Option A) (f : A → M B) (w : World)
      → E w
      → ((a : A) → Ends Q E (f a w))
      → Ends Q E ((non_null p >>= f) w)
  unfolding ◌>>=◌ non_null
  Ends-pointer none f w e q = failed e
  Ends-pointer (some a) f w e q = q a
