-- ===== src/Abi/Rotation.antt =====
-- The rotation calls of the C ABI, engine/abi/smoke_engine_abi.cpp, and their latch. A null engine is
-- refused first by each function; here an engine is a value. The key is the bytes behind the pointer.
pub mod Latch
pub mod Covered
pub mod Unlatched
use gpu_rotation_engine.Base.{
  ℕ, ◌^◌, ◌-◌, Bool, true, false, ◌&&◌, ◌||◌, not, Option, none, some, List, [], ◌∷◌, ltb, ◌==◌,
  if◌then◌else◌,
}
use gpu_rotation_engine.Engine.Cuda.{World, M}
use gpu_rotation_engine.Engine.Rotation.{
  engine_rotate_key, engine_prepare_next_key, engine_prepare_next_key_typed,
  engine_prepare_next_key_typed_async, engine_prepare_next_key_async, engine_commit_rotation,
  engine_commit_rotation_async, engine_rollback_rotation, engine_rotation_fence,
  engine_rotation_force_recovery,
}

-- The statuses that the rotation calls return.
pub data SmokeStatus : Type 0 where
  status_ok : SmokeStatus
  error_invalid_arg : SmokeStatus
  error_not_initialized : SmokeStatus
  error_device_failure : SmokeStatus

-- The fields of `SmokeEngine` that rotation uses: whether `persistent_engine` is set, the engine behind
-- it, and the outer latch.
pub record SmokeEngine : Type 0 where
  pub persistent_engine : Bool
  pub world : World
  pub latch : Bool

abbrev pub Result : Type 0
Result = SmokeStatus × SmokeEngine

-- The persistent engine's call, and the latch after a success.
unfoldable pub on_engine : M (Unit {0}) → (Bool → Bool) → SmokeEngine → Result
on_engine m after s = elim (m s.world).0 [
  | none ↦ (error_device_failure, record s { world = (m s.world).1 })
  | some _ ↦ (status_ok, record s { world = (m s.world).1; latch = after s.latch })
]

-- The argument check, then the check that there is a persistent engine.
unfoldable pub checked : Bool → (SmokeEngine → Result) → SmokeEngine → Result
checked valid body s =
    if valid
    then if s.persistent_engine then body s else (error_not_initialized, s)
    else (error_invalid_arg, s)

abbrev pub is_set {ℓ} : {A : Type ℓ} → Option A → Bool
is_set none = false
is_set (some a) = true

abbrev pub keep : Bool → Bool
keep b = b

abbrev pub key_32 : Option (List ℕ) → ℕ → Bool
key_32 key key_len = is_set key && (key_len == 32)

-- `key_len` is from 1 to UINT16_MAX.
abbrev pub typed_key : Option (List ℕ) → ℕ → Bool
typed_key key key_len = is_set key && not (key_len == 0 || ltb (2 ^ 16 - 1) key_len)

unfoldable pub smoke_engine_rotate_key : Option (List ℕ) → ℕ → SmokeEngine → Result
smoke_engine_rotate_key key key_len =
    checked (key_32 key key_len) (on_engine (engine_rotate_key key) keep)

unfoldable pub smoke_engine_prepare_next_key : Option (List ℕ) → ℕ → SmokeEngine → Result
smoke_engine_prepare_next_key key key_len =
    checked (key_32 key key_len) (on_engine (engine_prepare_next_key key) keep)

unfoldable pub smoke_engine_commit_rotation : SmokeEngine → Result
smoke_engine_commit_rotation = checked true (on_engine engine_commit_rotation keep)

unfoldable pub smoke_engine_rollback_rotation : SmokeEngine → Result
smoke_engine_rollback_rotation = checked true (on_engine engine_rollback_rotation keep)

unfoldable pub smoke_engine_prepare_next_key_typed : ℕ → Option (List ℕ) → ℕ → SmokeEngine → Result
smoke_engine_prepare_next_key_typed key_type key key_len =
    checked (typed_key key key_len)
      (on_engine (engine_prepare_next_key_typed key_type key key_len) keep)

-- The latch is set before the engine is called.
unfoldable pub smoke_engine_prepare_next_key_typed_async :
    ℕ → Option (List ℕ) → ℕ → SmokeEngine → Result
smoke_engine_prepare_next_key_typed_async key_type key key_len =
    checked (typed_key key key_len) (λ s.
      on_engine (engine_prepare_next_key_typed_async key_type key key_len) keep
        (record s { latch = true }))

-- The latch is set after the engine has succeeded.
unfoldable pub smoke_engine_prepare_next_key_async : Option (List ℕ) → ℕ → SmokeEngine → Result
smoke_engine_prepare_next_key_async key key_len =
    checked (key_32 key key_len) (on_engine (engine_prepare_next_key_async key) (λ _. true))

unfoldable pub smoke_engine_commit_rotation_async : SmokeEngine → Result
smoke_engine_commit_rotation_async =
    checked true (on_engine engine_commit_rotation_async (λ _. true))

unfoldable pub smoke_engine_rotation_fence : SmokeEngine → Result
smoke_engine_rotation_fence = checked true (on_engine engine_rotation_fence (λ _. false))

unfoldable pub smoke_engine_rotation_force_recovery : SmokeEngine → Result
smoke_engine_rotation_force_recovery =
    checked true (on_engine engine_rotation_force_recovery (λ _. false))

-- Any one of these calls.
pub data RotationCall : Type 0 where
  rotate_key : Option (List ℕ) → ℕ → RotationCall
  prepare_next_key : Option (List ℕ) → ℕ → RotationCall
  commit_rotation : RotationCall
  rollback_rotation : RotationCall
  prepare_next_key_typed : ℕ → Option (List ℕ) → ℕ → RotationCall
  prepare_next_key_typed_async : ℕ → Option (List ℕ) → ℕ → RotationCall
  prepare_next_key_async : Option (List ℕ) → ℕ → RotationCall
  commit_rotation_async : RotationCall
  rotation_fence : RotationCall
  rotation_force_recovery : RotationCall

unfoldable pub call : RotationCall → SmokeEngine → Result
call (rotate_key key key_len) = smoke_engine_rotate_key key key_len
call (prepare_next_key key key_len) = smoke_engine_prepare_next_key key key_len
call commit_rotation = smoke_engine_commit_rotation
call rollback_rotation = smoke_engine_rollback_rotation
call (prepare_next_key_typed key_type key key_len) =
    smoke_engine_prepare_next_key_typed key_type key key_len
call (prepare_next_key_typed_async key_type key key_len) =
    smoke_engine_prepare_next_key_typed_async key_type key key_len
call (prepare_next_key_async key key_len) = smoke_engine_prepare_next_key_async key key_len
call commit_rotation_async = smoke_engine_commit_rotation_async
call rotation_fence = smoke_engine_rotation_fence
call rotation_force_recovery = smoke_engine_rotation_force_recovery
