-- ===== src/Engine/Queue.antt =====
-- Requests and responses, core/persistent_engine/engine_host.cpp: `engine_submit_request`,
-- `engine_poll_response` and their batch forms. A request goes to the slot `request_id % 1024`. The
-- mapped ready flags are compiled out, so polling takes the path that copies the flags.
-- The batch functions return a count and have no failure.
pub mod Submit
pub mod Batch
pub mod Placed
pub mod Partial
pub mod Poll
use gpu_rotation_engine.Base.{
  ℕ, zero, suc, ◌+◌, ◌*◌, ◌%◌, ◌^◌, Bool, true, false, ◌&&◌, not, Option, none, some, List, [], ◌∷◌,
  length, take, drop, ltb, ◌==◌, if◌then◌else◌,
}
use gpu_rotation_engine.Engine.State.{Request, EngineResponse, engine_queue_size, zero_bytes}
use gpu_rotation_engine.Engine.Device.{Write}
use gpu_rotation_engine.Engine.Cuda.{
  World, M, ◌>>=◌, ◌>>◌, pure, guard, non_null, gets, modify, checked_call, memcpy_async,
  synchronize,
}

abbrev pub queue_index : ℕ → ℕ
queue_index request_id = request_id % engine_queue_size

-- The device computes the nonce, so `has_nonce` is 0.
abbrev pub request : ℕ → List ℕ → Request
request request_id hash = record {
  request_id = request_id;
  input = take 32 hash;
  has_nonce = 0;
  nonce_k = zero_bytes;
}

abbrev pub request_write : Request → Write
request_write r = Write.request (queue_index r.request_id) r

unfoldable pub engine_submit_request : Option (List ℕ) → ℕ → M (Unit {0})
engine_submit_request hash request_id = do
  d_state ← gets (λ w. w.d_state)
  guard d_state
  running ← gets (λ w. w.running)
  guard running
  bytes ← non_null hash
  req_head ← gets (λ w. w.host_req_counter)
  let new_req_head = (req_head + 1) % 2 ^ 32
  memcpy_async (request_write (request request_id bytes))
  memcpy_async (Write.req_head new_req_head)
  synchronize
  modify (λ h. record h { host_req_counter = new_req_head })

-- The clearing of the flag is queued and not waited for.
unfoldable pub engine_poll_response : ℕ → M EngineResponse
engine_poll_response request_id = do
  d_state ← gets (λ w. w.d_state)
  guard d_state
  comm_stream ← gets (λ w. w.comm_stream)
  guard comm_stream
  let idx = queue_index request_id
  checked_call
  synchronize
  ready ← gets (λ w. w.device.response_ready idx)
  guard (not (ready == 0))
  checked_call
  synchronize
  resp ← gets (λ w. w.device.responses idx)
  memcpy_async (Write.response_ready idx 0)
  pure resp

-- A function that returns a count: go on with `next` after a success, with `fail` after a failure.
unfoldable pub on_failure :
    {A : Type 0} → M (Unit {0}) → (World → A × World) → (World → A × World) → World → A × World
on_failure m fail next w = elim (m w).0 [ none ↦ fail (m w).1 | some _ ↦ next (m w).1 ]

abbrev pub return_count : ℕ → World → ℕ × World
return_count n w = (n, w)

-- `cudaStreamSynchronize` unchecked, then return.
unfoldable pub sync_and_return : ℕ → World → ℕ × World
sync_and_return n w = (n, (synchronize w).1)

-- The requests of a batch: hash `i` is the bytes from `32 * i` on.
unfoldable pub batch_requests : ℕ → List ℕ → List ℕ → List Request
batch_requests i hashes [] = []
batch_requests i hashes (id ∷ ids) =
    request id (drop (i * 32) hashes) ∷ batch_requests (suc i) hashes ids

-- The loop over the requests from `i` on; `next` is what follows the loop.
unfoldable pub queue_requests : ℕ → List Request → (World → ℕ × World) → World → ℕ × World
unfolding on_failure sync_and_return
queue_requests i [] next = next
queue_requests i (r ∷ rs) next =
    on_failure (memcpy_async (request_write r)) (sync_and_return i) (queue_requests (suc i) rs next)

unfoldable pub queued_count : ℕ → ℕ
queued_count count = if ltb engine_queue_size count then engine_queue_size else count

-- All requests, then the head, then one synchronisation.
unfoldable pub submit_all : List Request → ℕ → World → ℕ × World
submit_all rs count w =
    let new_req_head = (w.host_req_counter + count) % 2 ^ 32 in
    queue_requests 0 rs
      (on_failure (memcpy_async (Write.req_head new_req_head)) (sync_and_return 0) (
        on_failure synchronize (return_count 0) (
          on_failure (modify (λ h. record h { host_req_counter = new_req_head })) (return_count 0)
            (return_count count))))
      w

-- `count` is cut to the size of the queue. The arguments are arrays of at least `count` elements, or
-- null.
unfoldable pub engine_submit_batch : Option (List ℕ) → Option (List ℕ) → ℕ → World → ℕ × World
engine_submit_batch none request_ids count w = (0, w)
engine_submit_batch (some hashes) none count w = (0, w)
engine_submit_batch (some hashes) (some ids) count w =
    if w.d_state && (w.running && not (count == 0))
    then submit_all (batch_requests 0 hashes (take (queued_count count) ids)) (queued_count count) w
    else (0, w)
