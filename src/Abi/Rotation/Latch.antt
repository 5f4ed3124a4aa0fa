-- ===== src/Abi/Rotation/Latch.antt =====
-- The statuses of the rotation calls and the outer latch.
use gpu_rotation_engine.Base.{
  ℕ, ◌≡◌, refl, Bool, true, false, Option, none, some, List, ◌⊎◌, inl, inr, if◌then◌else◌,
}
use gpu_rotation_engine.Engine.Cuda.{World, M}
use gpu_rotation_engine.Engine.Rotation.{engine_prepare_next_key_typed_async}
use gpu_rotation_engine.Abi.Rotation.{
  keep, status_ok, error_invalid_arg, error_not_initialized, error_device_failure, SmokeEngine,
  Result, on_engine, checked, typed_key, RotationCall, rotate_key, prepare_next_key,
  commit_rotation, rollback_rotation, prepare_next_key_typed, prepare_next_key_typed_async,
  prepare_next_key_async, commit_rotation_async, rotation_fence, rotation_force_recovery, call,
  smoke_engine_rotate_key, smoke_engine_prepare_next_key, smoke_engine_commit_rotation,
  smoke_engine_rollback_rotation, smoke_engine_prepare_next_key_typed,
  smoke_engine_prepare_next_key_typed_async, smoke_engine_prepare_next_key_async,
  smoke_engine_commit_rotation_async, smoke_engine_rotation_fence,
  smoke_engine_rotation_force_recovery,
}

pub checked-cases :
    (P : Result → Type 0) (valid : Bool) (body : SmokeEngine → Result) (s : SmokeEngine)
    → P (error_invalid_arg, s)
    → P (error_not_initialized, s)
    → P (body s)
    → P (checked valid body s)
unfolding checked
checked-cases P valid body s invalid missing good = outer valid
  where
    inner : (b : Bool) → P (if b then body s else (error_not_initialized, s))
    inner true = good
    inner false = missing

    outer :
        (b : Bool)
        → P (
            if b
            then if s.persistent_engine then body s else (error_not_initialized, s)
            else (error_invalid_arg, s))
    outer true = inner s.persistent_engine
    outer false = invalid

pub on_engine-cases :
    (P : Result → Type 0) (m : M (Unit {0})) (after : Bool → Bool) (s : SmokeEngine)
    → ((v : World) → P (error_device_failure, record s { world = v }))
    → ((v : World) → P (status_ok, record s { world = v; latch = after s.latch }))
    → P (on_engine m after s)
unfolding on_engine
on_engine-cases P m after s bad good = go (m s.world)
  where
    go :
        (r : Option (Unit {0}) × World)
        → P (elim r.0 as (λ _. Result) [
          | none ↦ (error_device_failure, record s { world = r.1 })
          | some _ ↦ (status_ok, record s { world = r.1; latch = after s.latch })
        ])
    go (none, v) = bad v
    go (some _, v) = good v

-- A refused call has changed nothing.
abbrev pub Refused : SmokeEngine → Result → Type 0
Refused s r = (r.0 ≡ error_invalid_arg) ⊎ (r.0 ≡ error_not_initialized) → r.1 ≡ s

Refused-checked :
    (s : SmokeEngine) (valid : Bool) (body : SmokeEngine → Result)
    → Refused s (body s)
    → Refused s (checked valid body s)
Refused-checked s valid body good =
    checked-cases (Refused s) valid body s (λ _. refl) (λ _. refl) good

Refused-on_engine :
    (s t : SmokeEngine) (m : M (Unit {0})) (after : Bool → Bool) → Refused s (on_engine m after t)
Refused-on_engine s t m after = on_engine-cases (Refused s) m after t (λ v. never) (λ v. never_ok)
  where
    never :
        {x : SmokeEngine}
        → (error_device_failure ≡ error_invalid_arg)
          ⊎ (error_device_failure ≡ error_not_initialized)
        → x ≡ s
    never (inl e) = cc
    never (inr e) = cc

    never_ok :
        {x : SmokeEngine}
        → (status_ok ≡ error_invalid_arg) ⊎ (status_ok ≡ error_not_initialized)
        → x ≡ s
    never_ok (inl e) = cc
    never_ok (inr e) = cc

-- A rotation call that answers with an invalid argument, or that the engine is not initialized, has left
-- the engine, its device, its queue and its latch as they were.
pub call-Refused :
    (c : RotationCall) (s : SmokeEngine)
    → (((call c s).0 ≡ error_invalid_arg) ⊎ ((call c s).0 ≡ error_not_initialized))
    → (call c s).1 ≡ s
unfolding call smoke_engine_rotate_key smoke_engine_prepare_next_key smoke_engine_commit_rotation
    smoke_engine_rollback_rotation smoke_engine_prepare_next_key_typed
    smoke_engine_prepare_next_key_typed_async smoke_engine_prepare_next_key_async
    smoke_engine_commit_rotation_async smoke_engine_rotation_fence
    smoke_engine_rotation_force_recovery
call-Refused (rotate_key key key_len) s = Refused-checked s _ _ (Refused-on_engine s s _ _)
call-Refused (prepare_next_key key key_len) s = Refused-checked s _ _ (Refused-on_engine s s _ _)
call-Refused commit_rotation s = Refused-checked s _ _ (Refused-on_engine s s _ _)
call-Refused rollback_rotation s = Refused-checked s _ _ (Refused-on_engine s s _ _)
call-Refused (prepare_next_key_typed key_type key key_len) s =
    Refused-checked s _ _ (Refused-on_engine s s _ _)
call-Refused (prepare_next_key_typed_async key_type key key_len) s =
    Refused-checked s _ _ (Refused-on_engine s (record s { latch = true }) _ _)
call-Refused (prepare_next_key_async key key_len) s =
    Refused-checked s _ _ (Refused-on_engine s s _ _)
call-Refused commit_rotation_async s = Refused-checked s _ _ (Refused-on_engine s s _ _)
call-Refused rotation_fence s = Refused-checked s _ _ (Refused-on_engine s s _ _)
call-Refused rotation_force_recovery s = Refused-checked s _ _ (Refused-on_engine s s _ _)

-- Once the typed asynchronous prepare has passed its checks, with success or with a device failure after
-- part of the copies were queued, the latch is closed.
pub smoke_engine_prepare_next_key_typed_async-latched :
    (key_type : ℕ) (key : Option (List ℕ)) (key_len : ℕ) (s : SmokeEngine)
    → typed_key key key_len ≡ true
    → s.persistent_engine ≡ true
    → (smoke_engine_prepare_next_key_typed_async key_type key key_len s).1.latch ≡ true
unfolding smoke_engine_prepare_next_key_typed_async checked
smoke_engine_prepare_next_key_typed_async-latched key_type key key_len s valid there =
    go (typed_key key key_len) s.persistent_engine valid there
  where
    body : Result
    body =
        on_engine (engine_prepare_next_key_typed_async key_type key key_len) keep
          (record s { latch = true })

    latched : body.1.latch ≡ true
    latched =
        on_engine-cases (λ r. r.1.latch ≡ true) _ _ (record s { latch = true }) (λ v. refl)
          (λ v. refl)

    go :
        (a b : Bool)
        → a ≡ true
        → b ≡ true
        → (if a
            then if b then body else (error_not_initialized, s)
            else (error_invalid_arg, s)).1.latch
          ≡ true
    go true true p q = latched
    go true false p q = cc
    go false b p q = cc
