-- ===== src/Lib.antt =====
-- The persistent signing engine: key slots, key rotation and the host's side of the queue.
--
-- The program keeps a kernel running on a GPU. The kernel's memory is one `EngineState`
-- (core/persistent_engine/engine_state.cuh); the host keeps a copy of it, `EngineHandle::h_init`,
-- and reaches the device by copies queued on a CUDA stream
-- (core/persistent_engine/engine_host.cpp). Keys stand in two slots. A rotation stages a new key in
-- the slot that is not active and then flips `active_epoch`. An integrity tag, a SHA-256 hash, is
-- stored with each key.
--
-- Which file models which part:
-- Base and below: numbers tested by Booleans, lists over native numbers, arrays of two cells
--   (`Two`), and what a copy of bytes into a zeroed buffer leaves (`Copied`).
-- Sha256: SHA-256 as engine_host.cpp has it (`sha256_hash_host`, which writes the integrity tags)
--   and as engine/abi/smoke_engine_abi.cpp has it (`sha256_hash`, which the probe recomputes them
--   with).
-- Engine/State: the records of engine_state.cuh and the constants of engine_constants.cuh.
-- Engine/Device: the writes that the host hands to the stream, and what each does to the device.
-- Engine/Cuda: the handle, the stream of queued writes and the CUDA runtime. A function that the
--   source declares to return bool is an action of the monad `M`: from a `World` to an optional
--   value (`none` for false) and the `World` it leaves, whether or not it succeeded. Cuda/Run and
--   Cuda/Force hold the rules by which the actions are reasoned about.
-- Engine/AesKey: the AES-256 key schedule. Engine/Keys: loading of keys, with lengths, tags,
--   versions.
-- Engine/Rotation: `engine_rotate_key`, prepare, commit, rollback, their asynchronous forms, the
--   fence, the latch `rotation_pending_fence`, and recovery. Rotation/Prepare and Rotation/Spec say
--   how each step ends and Rotation/Rotated what a whole rotation leaves; Rotation/Cycle and
--   Rotation/Direct are about whole rotations, Rotation/Safety about the active key, Rotation/Undo
--   about rollback, Rotation/Recovery about recovery, Rotation/LatchCalls about the latch.
-- Engine/Tuning: tuning, policies, integrity options, the root seed. Tuning/Divergence is about a
--   failed switch of the policy.
-- Engine/Queue: submission of signing requests and polling for their answers, singly and in
--   batches; Queue/Placed says where the requests of a batch stand.
-- Abi/Probe: the checks of `smoke_engine_rotation_probe` (engine/abi/smoke_engine_abi.cpp).
--   Abi/Rotation: the rotation calls of the C ABI, with their statuses and the latch that guards
--   signing.
-- Engine/Lifecycle: start and shutdown; Engine/Shutdown shows that shutting down ends well if the
--   kernel exits in time. The bound of 1000 queries is the source's.
-- FastPath/Ring: rings whose uint32_t indices wrap. FastPath/Response: the response record and its
--   commit word (engine_state.cuh). FastPath/Queue: `CompletionQueue` (engine_host.cpp), the queue
--   of one client; Queue/Calls has the bounded list that it is measured by, Queue/Room, Queue/Fifo
--   and Queue/Bulk the proofs. FastPath/Dispatcher: `EngineDispatcher`, which hands the responses
--   it reads to their clients' queues. FastPath/Submit: `fast_path_submit`,
--   `fast_path_submit_generic` and `fast_path_submit_multisign` on the first request ring;
--   Submit/Carried says what a request carries of its call, Submit/Fifo compares the ring, with the
--   kernel taking requests off it, with a list of calls, and Submit/Stale follows one slot until it
--   is used again. FastPath/OutputSlab: the slab of long outputs and
--   `fast_path_read_output_segment_checked`. FastPath/CountPoll: `fast_path_poll_count_only`. Of
--   the dispatcher, Dispatcher/View says what waits for a client, Dispatcher/Routing,
--   Dispatcher/Isolation and Dispatcher/CountOnly are about its rounds. A queue has one producer
--   and one consumer on threads of their own; each call of theirs is one step here, and calls come
--   in any order.
-- Mldsa: packed and expanded forms of ML-DSA signatures and secret keys (engine_host.cpp,
--   parameters in engine_state.cuh). Mldsa/ZCoeffs, Mldsa/Hints and Mldsa/Signature write and read
--   signatures, Mldsa/SecretKey reads keys; ZRoundTrip, HintRows, HintRoundTrip, SignatureParts,
--   SignatureRoundTrip, KeyBits, T0Bits and KeyRoundTrip are about reading back what is written,
--   KeyOverread about reading behind the end of a key, UnpackBounds and ReadBounds about reading
--   other bytes. The packed form of keys, which the program only reads, is written out there as
--   FIPS 204 has it.
-- Tests: concrete states, and each theorem that has hypotheses applied to one of them.
--
-- The CUDA runtime is not part of the program, so it is a parameter: `runtime n` is the answer to
-- the n-th call. Before each call the stream may have carried out any number of the queued writes,
-- oldest first; a synchronisation that succeeds leaves none queued. No theorem assumes that calls
-- succeed unless it says so. Pointers that may be null are options; `d_state` and the streams are
-- Booleans. A null handle is refused by every function first and is not modelled. The functions
-- hold a mutex or run on one host thread, so each is one step.
--
-- Numbers are native natural numbers; wrap-around of uint32_t is written out as `% 2 ^ 32`. Bytes
-- are lists of numbers. Loops over arrays are structural recursion on lists or on their count; the
-- wait for the kernel recurs on the source's own bound. The loop that collects the 13 bits of a
-- coefficient (`read_bits`) has fuel 13, which is enough since each turn takes one bit at least.
--
-- Not modelled: the kernels and device code (*.cu, *.cuh), which the host only launches, and what
-- they write while the host runs; creation and destruction of the engine; `engine_poll_batch`;
-- batches submitted to the fast path's shards, `fast_path_poll`, and the flywheels on top of the
-- dispatcher; the GPU's part of ML-DSA; the rest of the C ABI and the bridge; bindings; the random
-- seeds, diagnostics on stderr, and the wiping of stack copies.
pub mod Base
pub mod Sha256
pub mod Engine
pub mod FastPath
pub mod Mldsa
pub mod Abi
mod Tests
