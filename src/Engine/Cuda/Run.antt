-- ===== src/Engine/Cuda/Run.antt =====
-- How a function over `World` ends: a rule for each primitive, and one for sequencing.
-- `After w d k w'` relates the state that a function started in, `w`, to one that it reached, `w'`:
-- once the queued writes are carried out the device holds `d`, and the handle is `k`.
use gpu_rotation_engine.Base.{
  ℕ, ◌≤◌, ◌<◌, ◌≡◌, refl, sym, ap, ◌∙◌, subst, Bool, true, false, Option, none, some, List, [], ◌∷◌,
  arith, take, drop, take-append-drop, if◌then◌else◌,
}
use gpu_rotation_engine.Engine.State.{EngineState}
use gpu_rotation_engine.Engine.Device.{Write, apply, apply_all, apply_all-append}
use gpu_rotation_engine.Engine.Cuda.{
  EngineHandle, World, M, ◌>>=◌, guard, modify, gets, non_null, pure, drain, next_call,
  checked_call, memcpy_async, memcpy_all, synchronize, settled,
}

-- The function returned a value and `Q` holds of it and the state, or it failed in a state with `E`.
pub data Ends {A : Type 0} (Q : A → World → Type 0) (E : World → Type 0)
    : Option A × World → Type 0 where
  returned : {a : A} {w : World} → Q a w → Ends Q E (some a, w)
  failed : {w : World} → E w → Ends Q E (none, w)

-- Some call of the runtime between the two states was answered with an error.
abbrev pub CallFailed : World → World → Type 0
CallFailed w w' = (n : ℕ) × (w.calls ≤ n) × (n < w'.calls) × ((w.runtime n).success ≡ false)

pub record After (w : World) (d : EngineState) (k : EngineHandle) (w' : World) : Type 0 where
  pub settled_is : settled w' ≡ d
  pub handle_is : w'.handle ≡ k
  pub runtime_is : w'.runtime ≡ w.runtime
  pub calls_le : w.calls ≤ w'.calls

pub After-start : (w : World) → After w (settled w) w.handle w
After-start w = record {
  settled_is = refl;
  handle_is = refl;
  runtime_is = refl;
  calls_le = omega arith;
}

module _ {A : Type 0} {Q : A → World → Type 0} {E : World → Type 0} where
  pub Ends-if :
      (b : Bool) (a : A) (x y : World)
      → (b ≡ true → Q a x)
      → (b ≡ false → E y)
      → Ends Q E (if b then (some a, x) else (none, y))
  Ends-if true a x y q e = returned (q refl)
  Ends-if false a x y q e = failed (e refl)

  -- Sequencing.
  pub Ends-bind :
      {B : Type 0} {R : B → World → Type 0} (m : M A) (f : A → M B) (w : World)
      → Ends Q E (m w)
      → ((a : A) (v : World) → Q a v → Ends R E (f a v))
      → Ends R E ((m >>= f) w)
  unfolding ◌>>=◌
  Ends-bind {B} {R} m f w ends next = go (m w) ends
    where
      go :
          (r : Option A × World)
          → Ends Q E r
          → Ends R E (elim r.0 [ none ↦ (none, r.1) | some a ↦ f a r.1 ])
      go r (returned {a = a} {w = v} q) = next a v q
      go r (failed e) = failed e

  pub Ends-imp :
      {R : A → World → Type 0} {F : World → Type 0} {r : Option A × World}
      → ((a : A) (v : World) → Q a v → R a v)
      → ((v : World) → E v → F v)
      → Ends Q E r
      → Ends R F r
  Ends-imp f g (returned {a} {w} q) = returned (f a w q)
  Ends-imp f g (failed {w} e) = failed (g w e)

-- What the stream carries out on its own does not change what it will have carried out.
pub settled-drain : (n : ℕ) (w : World) → settled (drain n w) ≡ settled w
unfolding drain
settled-drain n w =
    sym (apply_all-append (take n w.pending) (drop n w.pending) w.device)
    ∙ ap (λ ws. apply_all ws w.device) (take-append-drop n w.pending)

module _ {w : World} {d : EngineState} {k : EngineHandle} {w' : World} (a : After w d k w') where
  pub After-next_call : After w d k (next_call w').1
  unfolding next_call drain
  After-next_call = record {
    settled_is = settled-drain (w'.runtime w'.calls).progress w' ∙ a.settled_is;
    handle_is = a.handle_is;
    runtime_is = a.runtime_is;
    calls_le = omega arith;
  }

  call_failed : (w'.runtime w'.calls).success ≡ false → CallFailed w (next_call w').1
  unfolding next_call drain
  call_failed e =
      (w'.calls, a.calls_le, omega arith, ap (λ r. (r w'.calls).success) (sym a.runtime_is) ∙ e)

  pub checked_call-Ends : Ends (λ _. After w d k) (CallFailed w) (checked_call w')
  unfolding checked_call
  checked_call-Ends = Ends-if (w'.runtime w'.calls).success _ _ _ (λ _. After-next_call) call_failed

  pub memcpy_async-Ends :
      (x : Write) → Ends (λ _. After w (apply x d) k) (CallFailed w) (memcpy_async x w')
  unfolding memcpy_async apply_all
  memcpy_async-Ends x =
      Ends-if (w'.runtime w'.calls).success _ _ _
        (λ _. record {
          settled_is =
              apply_all-append (next_call w').1.pending (x ∷ []) (next_call w').1.device
              ∙ ap (apply x) After-next_call.settled_is;
          handle_is = a.handle_is;
          runtime_is = a.runtime_is;
          calls_le = omega arith;
        })
        call_failed

  -- A synchronisation that succeeds leaves nothing queued, and the device up to date.
  pub synchronize-Ends :
      Ends
        (λ _ v. After w d k v × (v.pending ≡ []) × (v.device ≡ d))
        (CallFailed w)
        (synchronize w')
  unfolding synchronize apply_all
  synchronize-Ends =
      Ends-if (w'.runtime w'.calls).success _ _ _
        (λ _. (
          record {
            settled_is = After-next_call.settled_is;
            handle_is = a.handle_is;
            runtime_is = a.runtime_is;
            calls_le = omega arith;
          },
          refl,
          After-next_call.settled_is,
        ))
        call_failed

  -- A change of the host's own fields.
  pub modify-Ends :
      (E : World → Type 0) (f : EngineHandle → EngineHandle)
      → Ends (λ _. After w d (f k)) E (modify f w')
  unfolding modify
  modify-Ends E f = returned (record {
    settled_is = a.settled_is;
    handle_is = ap f a.handle_is;
    runtime_is = a.runtime_is;
    calls_le = a.calls_le;
  })

-- A row of copies queues all of them, or fails at one.
pub memcpy_all-Ends :
    {w : World} {d : EngineState} {k : EngineHandle} {w' : World} (xs : List Write)
    → After w d k w'
    → Ends (λ _. After w (apply_all xs d) k) (CallFailed w) (memcpy_all xs w')
unfolding memcpy_all apply_all pure
memcpy_all-Ends [] a = returned a
memcpy_all-Ends {w = w} {d = d} {k = k} {w' = w'} (x ∷ xs) a =
    Ends-bind (memcpy_async x) (λ _. memcpy_all xs) w' (memcpy_async-Ends a x)
      (λ _ v b. memcpy_all-Ends {w = w} {d = apply x d} {k = k} {w' = v} xs b)

-- A test that passes.
pub Ends-guard :
    {A : Type 0} {Q : A → World → Type 0} {E : World → Type 0} (b : Bool) (f : Unit {0} → M A)
    (w : World)
    → b ≡ true
    → Ends Q E (f tt w)
    → Ends Q E ((guard b >>= f) w)
unfolding ◌>>=◌ guard
Ends-guard true f w e q = q
Ends-guard false f w e q = cc

module _ {A B : Type 0} {Q : B → World → Type 0} {E : World → Type 0} where
  -- A read of the state.
  pub Ends-gets :
      (g : World → A) (f : A → M B) (w : World) → Ends Q E (f (g w) w) → Ends Q E ((gets g >>= f) w)
  unfolding ◌>>=◌ gets
  Ends-gets g f w q = q

  -- A pointer that is not null.
  pub Ends-non_null :
      (a : A) (f : A → M B) (w : World) → Ends Q E (f a w) → Ends Q E ((non_null (some a) >>= f) w)
  unfolding ◌>>=◌ non_null
  Ends-non_null a f w q = q

-- With a runtime that answers every call with success, no call failed.
pub not-CallFailed : (w w' : World) → ((n : ℕ) → (w.runtime n).success ≡ true) → CallFailed w w' → ⊥
not-CallFailed w w' h (n, _, _, e) = cc (h n)

pub Ends-returned :
    {A : Type 0} {Q : A → World → Type 0} {r : Option A × World}
    → Ends Q (λ _. ⊥) r
    → (a : A) × (r.0 ≡ some a) × Q a r.1
Ends-returned (returned {a = a} q) = (a, refl, q)
Ends-returned (failed e) = absurd e

-- The handle that `After` names may be taken for the state's own.
pub at_handle :
    {w : World} {d : EngineState} {k : EngineHandle} {w' : World} (C : EngineHandle → Type 0)
    → After w d k w'
    → (After w d w'.handle w' → C w'.handle)
    → C k
at_handle C a f = subst C a.handle_is (
    f (record {
      settled_is = a.settled_is;
      handle_is = refl;
      runtime_is = a.runtime_is;
      calls_le = a.calls_le;
    }))
