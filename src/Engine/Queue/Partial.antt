-- ===== src/Engine/Queue/Partial.antt =====
-- What a batch submission that stops half way has announced.
use gpu_rotation_engine.Base.{
  ℕ, suc, ◌≡◌, ◌≢◌, refl, Option, none, some, List, [], ◌∷◌, Bool, true, false, if◌then◌else◌,
}
use gpu_rotation_engine.Engine.State.{Request, EngineState}
use gpu_rotation_engine.Engine.Device.{Write, apply}
use gpu_rotation_engine.Engine.Cuda.{
  EngineHandle, World, modify, memcpy_async, synchronize, settled,
}
use gpu_rotation_engine.Engine.Cuda.Force.{
  Stable, InForce, memcpy_async-InForce, synchronize-InForce, apply_all_stable, Ends-always,
}
use gpu_rotation_engine.Engine.Queue.{
  request_write, engine_submit_batch, on_failure, sync_and_return, queue_requests, queued_count,
  submit_all, return_count,
}
use gpu_rotation_engine.Engine.Queue.Batch.{on_failure-rule}

-- The head on the device, and the host's counter.
abbrev pub HeadIs : ℕ → EngineState → Type 0
HeadIs h d = d.req_head ≡ h

abbrev pub CounterIs : ℕ → EngineHandle → Type 0
CounterIs c k = k.host_req_counter ≡ c

-- All of `n`, or 0, or else the head has not been touched.
pub data Announced (n h c : ℕ) : ℕ × World → Type 0 where
  all_of_them : {v : World} → Announced n h c (n, v)
  none_of_them : {v : World} → Announced n h c (0, v)
  unannounced : {i : ℕ} {v : World} → InForce (HeadIs h) (CounterIs c) v → Announced n h c (i, v)

request-Stable : (h : ℕ) (r : Request) → Stable (HeadIs h) (request_write r)
unfolding apply
request-Stable h r d e = e

module _ {n h c : ℕ} where
  stopped :
      (i : ℕ) (v : World)
      → InForce (HeadIs h) (CounterIs c) v
      → Announced n h c (sync_and_return i v)
  unfolding sync_and_return
  stopped i v p = unannounced {i = i} {v = (synchronize v).1} (synchronize-InForce p)

  queue_requests-Announced :
      (i : ℕ) (rs : List Request) (next : World → ℕ × World) (w : World)
      → InForce (HeadIs h) (CounterIs c) w
      → ((v : World) → InForce (HeadIs h) (CounterIs c) v → Announced n h c (next v))
      → Announced n h c (queue_requests i rs next w)
  unfolding queue_requests
  queue_requests-Announced i [] next w p good = good w p
  queue_requests-Announced i (r ∷ rs) next w p good =
      on_failure-rule (Announced n h c) (memcpy_async (request_write r)) (sync_and_return i)
        (queue_requests (suc i) rs next) w
        (Ends-always _ (memcpy_async-InForce (request_write r) (request-Stable h r) p))
        (λ v q. queue_requests-Announced (suc i) rs next v q good) (stopped i)

  -- Once the head is being pushed the function returns 0 or `n`.
  head_pushed :
      (x : Write) (f : EngineHandle → EngineHandle) (w : World)
      → Announced n h c (
          on_failure
            (memcpy_async x)
            (sync_and_return 0)
            (on_failure synchronize
              (return_count 0)
              (on_failure (modify f) (return_count 0) (return_count n)))
            w)
  unfolding sync_and_return
  head_pushed x f w =
      on_failure-rule {Q = λ _ _. Unit {0}} {E = λ _. Unit {0}} (Announced n h c) (memcpy_async x)
        (sync_and_return 0) _ w (Ends-always _ tt)
        (λ v _.
          on_failure-rule {Q = λ _ _. Unit {0}} {E = λ _. Unit {0}} (Announced n h c) synchronize
            (return_count 0) _ v (Ends-always _ tt)
            (λ v _.
              on_failure-rule {Q = λ _ _. Unit {0}} {E = λ _. Unit {0}} (Announced n h c) (modify f)
                (return_count 0) (return_count n) v (Ends-always _ tt) (λ v _. all_of_them)
                (λ v _. none_of_them))
            (λ v _. none_of_them))
        (λ v _. none_of_them {v = (synchronize v).1})

submit_all-Announced :
    (rs : List Request) (n : ℕ) (w : World)
    → w.pending ≡ []
    → Announced n w.device.req_head w.host_req_counter (submit_all rs n w)
unfolding submit_all
submit_all-Announced rs n w p =
    queue_requests-Announced 0 rs _ w (record { host = refl; now = refl; queued = rw p tt })
      (λ v q. head_pushed _ _ v)

-- If nothing is queued and a batch submission returns a count that is neither 0 nor the number asked
-- for (cut to the size of the queue), then the head is not advanced, neither on the device, once all
-- that is queued is carried out, nor on the host: no request that it counts is announced.
pub engine_submit_batch-unannounced :
    (hashes ids : Option (List ℕ)) (count : ℕ) (w : World)
    → w.pending ≡ []
    → (engine_submit_batch hashes ids count w).0 ≢ 0
    → (engine_submit_batch hashes ids count w).0 ≢ queued_count count
    → ((settled (engine_submit_batch hashes ids count w).1).req_head ≡ w.device.req_head)
      × ((engine_submit_batch hashes ids count w).1.host_req_counter ≡ w.host_req_counter)
unfolding engine_submit_batch
engine_submit_batch-unannounced hashes ids count w p some_counted not_all =
    read (announced hashes ids) some_counted not_all
  where
    Result : ℕ × World → Type 0
    Result = Announced (queued_count count) w.device.req_head w.host_req_counter

    branch : (b : Bool) (x : ℕ × World) → Result x → Result (if b then x else (0, w))
    branch true x r = r
    branch false x r = none_of_them

    announced : (hashes ids : Option (List ℕ)) → Result (engine_submit_batch hashes ids count w)
    announced none ids = none_of_them
    announced (some hashes) none = none_of_them
    announced (some hashes) (some ids) = branch _ _ (submit_all-Announced _ _ w p)

    read :
        {r : ℕ × World}
        → Result r
        → r.0 ≢ 0
        → r.0 ≢ queued_count count
        → ((settled r.1).req_head ≡ w.device.req_head) × (r.1.host_req_counter ≡ w.host_req_counter)
    read all_of_them a b = absurd (b refl)
    read none_of_them a b = absurd (a refl)
    read (unannounced {v = v} q) a b =
        (apply_all_stable (HeadIs w.device.req_head) v.pending v.device q.queued q.now, q.host)
