-- ===== src/Abi/Rotation/Covered.antt =====
-- The outer latch is closed whenever the inner one is.
use gpu_rotation_engine.Base.{
  ◌≡◌, refl, sym, ◌∙◌, Bool, true, false, Option, none, some, List, [], ◌∷◌,
}
use gpu_rotation_engine.Engine.Cuda.{World, M}
use gpu_rotation_engine.Engine.Rotation.InnerLatch.{Keeps, FailsKeeping, Opens}
use gpu_rotation_engine.Engine.Rotation.LatchCalls.{
  Keeps-prepare, Keeps-prepare_typed, Keeps-rotate_key, Keeps-commit, Keeps-rollback,
  prepare_async-FailsKeeping, commit_async-FailsKeeping, fence-FailsKeeping, fence-Opens,
  recovery-FailsKeeping, recovery-Opens,
}
use gpu_rotation_engine.Abi.Rotation.{
  status_ok, error_device_failure, SmokeEngine, Result, on_engine, checked, keep, RotationCall,
  rotate_key, prepare_next_key, commit_rotation, rollback_rotation, prepare_next_key_typed,
  prepare_next_key_typed_async, prepare_next_key_async, commit_rotation_async, rotation_fence,
  rotation_force_recovery, call, smoke_engine_rotate_key, smoke_engine_prepare_next_key,
  smoke_engine_commit_rotation, smoke_engine_rollback_rotation, smoke_engine_prepare_next_key_typed,
  smoke_engine_prepare_next_key_typed_async, smoke_engine_prepare_next_key_async,
  smoke_engine_commit_rotation_async, smoke_engine_rotation_fence,
  smoke_engine_rotation_force_recovery,
}
use gpu_rotation_engine.Abi.Rotation.Latch.{checked-cases, on_engine-cases}

-- If the engine's own latch is closed, so is the one that the signing calls look at.
abbrev pub Covered : SmokeEngine → Type 0
Covered s = s.world.rotation_pending_fence ≡ true → s.latch ≡ true

-- Each call is made whether or not those before it succeeded.
unfoldable pub call_all : List RotationCall → SmokeEngine → SmokeEngine
call_all [] s = s
call_all (c ∷ cs) s = call_all cs (call c s).1

on_engine-Covered :
    (m : M (Unit {0})) (after : Bool → Bool) (s : SmokeEngine)
    → FailsKeeping m
    → ((m s.world).0 ≡ some tt
        → Covered (record s { world = (m s.world).1; latch = after s.latch }))
    → Covered s
    → Covered (on_engine m after s).1
unfolding on_engine
on_engine-Covered m after s fails good c = go (m s.world) (fails s.world) good
  where
    go :
        (r : Option (Unit {0}) × World)
        → (r.0 ≡ none → r.1.rotation_pending_fence ≡ s.world.rotation_pending_fence)
        → (r.0 ≡ some tt → Covered (record s { world = r.1; latch = after s.latch }))
        → Covered
            (elim r.0 as (λ _. Result) [
              | none ↦ (error_device_failure, record s { world = r.1 })
              | some _ ↦ (status_ok, record s { world = r.1; latch = after s.latch })
            ]).1
    go (none, v) f g = λ closed. c (sym (f refl) ∙ closed)
    go (some tt, v) f g = g refl

module _ (s : SmokeEngine) (c : Covered s) where
  keeping : (m : M (Unit {0})) → Keeps m → Covered (on_engine m keep s).1
  keeping m k = on_engine-Covered m keep s (λ w _. k w) (λ _ closed. c (sym (k s.world) ∙ closed)) c

  closing : (m : M (Unit {0})) → FailsKeeping m → Covered (on_engine m (λ _. true) s).1
  closing m f = on_engine-Covered m (λ _. true) s f (λ _ _. refl) c

  opening : (m : M (Unit {0})) → FailsKeeping m → Opens m → Covered (on_engine m (λ _. false) s).1
  opening m f o = on_engine-Covered m (λ _. false) s f (λ e closed. cc (o s.world tt e, closed)) c

  closed_first : (m : M (Unit {0})) → Covered (on_engine m keep (record s { latch = true })).1
  closed_first m =
      on_engine-cases (λ r. Covered r.1) m keep (record s { latch = true }) (λ v _. refl)
        (λ v _. refl)

  after_checks :
      (valid : Bool) (body : SmokeEngine → Result)
      → Covered (body s).1
      → Covered (checked valid body s).1
  after_checks valid body b = checked-cases (λ r. Covered r.1) valid body s c c b

  call-Covered : (k : RotationCall) → Covered (call k s).1
  unfolding call smoke_engine_rotate_key smoke_engine_prepare_next_key smoke_engine_commit_rotation
      smoke_engine_rollback_rotation smoke_engine_prepare_next_key_typed
      smoke_engine_prepare_next_key_typed_async smoke_engine_prepare_next_key_async
      smoke_engine_commit_rotation_async smoke_engine_rotation_fence
      smoke_engine_rotation_force_recovery
  call-Covered (rotate_key key key_len) = after_checks _ _ (keeping _ (Keeps-rotate_key key))
  call-Covered (prepare_next_key key key_len) = after_checks _ _ (keeping _ (Keeps-prepare key))
  call-Covered commit_rotation = after_checks _ _ (keeping _ Keeps-commit)
  call-Covered rollback_rotation = after_checks _ _ (keeping _ Keeps-rollback)
  call-Covered (prepare_next_key_typed key_type key key_len) =
      after_checks _ _ (keeping _ (Keeps-prepare_typed key_type key key_len))
  call-Covered (prepare_next_key_typed_async key_type key key_len) =
      after_checks _ _ (closed_first _)
  call-Covered (prepare_next_key_async key key_len) =
      after_checks _ _ (closing _ (prepare_async-FailsKeeping key))
  call-Covered commit_rotation_async = after_checks _ _ (closing _ commit_async-FailsKeeping)
  call-Covered rotation_fence = after_checks _ _ (opening _ fence-FailsKeeping fence-Opens)
  call-Covered rotation_force_recovery =
      after_checks _ _ (opening _ recovery-FailsKeeping recovery-Opens)

-- Whatever rotation calls are made, with whatever arguments and answers of the runtime, and whether or
-- not they succeed: if at the start the outer latch is closed whenever the engine's own is, then so it
-- is at the end.
pub call_all-Covered :
    (cs : List RotationCall) (s : SmokeEngine)
    → (s.world.rotation_pending_fence ≡ true → s.latch ≡ true)
    → (call_all cs s).world.rotation_pending_fence ≡ true
    → (call_all cs s).latch ≡ true
unfolding call_all
call_all-Covered [] s c = c
call_all-Covered (k ∷ cs) s c = call_all-Covered cs (call k s).1 (call-Covered s c k)
