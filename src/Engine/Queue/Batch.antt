-- ===== src/Engine/Queue/Batch.antt =====
-- `engine_submit_batch`: how it ends, and the same requests submitted one after another.
use gpu_rotation_engine.Base.{
  ℕ, suc, ◌+◌, ◌*◌, ◌%◌, ◌^◌, ◌≤◌, ◌<◌, ◌≡◌, refl, sym, ap, ◌∙◌, subst, Bool, true, false, ◌&&◌,
  not, ◌==◌, Option, none, some, List, [], ◌∷◌, arith, length, inl, inr, Bool-cases, drop, take,
  take_all, if◌then◌else◌,
}
use gpu_rotation_engine.Engine.State.{Request, EngineState, engine_queue_size}
use gpu_rotation_engine.Engine.Device.{apply}
use gpu_rotation_engine.Engine.Cuda.{
  EngineHandle, World, M, ◌>>◌, pure, next_call, memcpy_async, synchronize, modify, settled,
}
use gpu_rotation_engine.Engine.Cuda.Run.{
  Ends, returned, failed, Ends-returned, Ends-imp, After, After-start, CallFailed, not-CallFailed,
  Ends-bind, memcpy_async-Ends, synchronize-Ends,
}
use gpu_rotation_engine.Engine.Rotation.Spec.{Done, modify-Done}
use gpu_rotation_engine.Engine.Queue.{
  request, batch_requests, request_write, engine_submit_request, engine_submit_batch, on_failure,
  sync_and_return, queue_requests, queued_count, submit_all,
}
use gpu_rotation_engine.Engine.Queue.Submit.{
  put_request, put_requests, with_head, with_counter, next_head, engine_submit_request-Ends,
}

-- The whole batch was accepted, with this device and handle; or some call failed.
pub data BatchEnds (w : World) (n : ℕ) (d : EngineState) (k : EngineHandle)
    : ℕ × World → Type 0 where
  accepted : {v : World} → Done w d k v → BatchEnds w n d k (n, v)
  broken : {i : ℕ} {v : World} → CallFailed w v → BatchEnds w n d k (i, v)

pub on_failure-rule :
    {A : Type 0} {Q : Unit {0} → World → Type 0} {E : World → Type 0} (P : A × World → Type 0)
    (m : M (Unit {0})) (fail next : World → A × World) (w : World)
    → Ends Q E (m w)
    → ((v : World) → Q tt v → P (next v))
    → ((v : World) → E v → P (fail v))
    → P (on_failure m fail next w)
unfolding on_failure
on_failure-rule {A} {Q} {E} P m fail next w ends good bad = go (m w) ends
  where
    go :
        (r : Option (Unit {0}) × World)
        → Ends Q E r
        → P (elim r.0 as (λ _. A × World) [ none ↦ fail r.1 | some _ ↦ next r.1 ])
    go r (returned {w = v} q) = good v q
    go r (failed {w = v} e) = bad v e

-- A failure stays one after more calls.
CallFailed-synchronize : (w v : World) → CallFailed w v → CallFailed w (synchronize v).1
unfolding synchronize next_call
CallFailed-synchronize w v (n, a, b, c) = (n, a, omega (arith, synchronize_calls), c)
  where
    synchronize_calls : (synchronize v).1.calls ≡ suc v.calls
    synchronize_calls = elim (Bool-cases (v.runtime v.calls).success) [
      | inl e ↦ rw (e, synchronize) refl
      | inr e ↦ rw (e, synchronize) refl
    ]

module _ {w : World} {n : ℕ} {D : EngineState} {K : EngineHandle} where
  sync_broken : (i : ℕ) (v : World) → CallFailed w v → BatchEnds w n D K (sync_and_return i v)
  unfolding sync_and_return
  sync_broken i v e = broken {i = i} {v = (synchronize v).1} (CallFailed-synchronize w v e)

  queue_requests-Ends :
      (i : ℕ) (rs : List Request) {d : EngineState} {k : EngineHandle} {w' : World}
      (next : World → ℕ × World)
      → After w d k w'
      → ((v : World) → After w (put_requests rs d) k v → BatchEnds w n D K (next v))
      → BatchEnds w n D K (queue_requests i rs next w')
  unfolding queue_requests put_requests apply
  queue_requests-Ends i [] next a good = good _ a
  queue_requests-Ends i (r ∷ rs) {w' = w'} next a good =
      on_failure-rule (BatchEnds w n D K) (memcpy_async (request_write r)) (sync_and_return i)
        (queue_requests (suc i) rs next) w' (memcpy_async-Ends a _)
        (λ v b. queue_requests-Ends (suc i) rs next b good) (λ v e. sync_broken i v e)

submit_all-Ends :
    (rs : List Request) (n : ℕ) (w : World)
    → BatchEnds w n
        (with_head (next_head w.handle n) (put_requests rs (settled w)))
        (with_counter (next_head w.handle n) w.handle)
        (submit_all rs n w)
unfolding submit_all apply
submit_all-Ends rs n w = queue_requests-Ends 0 rs _ (After-start w) (λ v a.
    on_failure-rule (BatchEnds w n _ _) (memcpy_async _) _ _ v (memcpy_async-Ends a _)
      (λ v a.
        on_failure-rule (BatchEnds w n _ _) synchronize _ _ v (synchronize-Ends a)
          (λ v a.
            on_failure-rule (BatchEnds w n _ _) (modify _) _ _ v (modify-Done a _)
              (λ v a. accepted a) (λ v e. broken e))
          (λ v e. broken e))
      (λ v e. sync_broken 0 v e))

-- One after another, over the same arrays.
unfoldable pub submit_each : ℕ → List ℕ → List ℕ → M (Unit {0})
submit_each i hashes [] = pure tt
submit_each i hashes (id ∷ ids) =
    engine_submit_request (some (drop (i * 32) hashes)) id >> submit_each (suc i) hashes ids

put_requests-with_head :
    (rs : List Request) (h : ℕ) (d : EngineState)
    → put_requests rs (with_head h d) ≡ with_head h (put_requests rs d)
unfolding put_requests
put_requests-with_head [] h d = refl
put_requests-with_head (r ∷ rs) h d = put_requests-with_head rs h (put_request r d)

submit_each-Ends :
    (i : ℕ) (hashes ids : List ℕ) {w : World} {d : EngineState} {k : EngineHandle} {w' : World}
    → After w d k w'
    → k.d_state ≡ true
    → k.running ≡ true
    → d.req_head ≡ k.host_req_counter
    → k.host_req_counter < 2 ^ 32
    → Ends
        (λ _.
          After w
            (with_head (next_head k (length ids)) (put_requests (batch_requests i hashes ids) d))
            (with_counter (next_head k (length ids)) k))
        (CallFailed w)
        (submit_each i hashes ids w')
unfolding submit_each pure batch_requests put_requests
submit_each-Ends i hashes [] {w} {d} {k} {w'} a ready run agree small = returned (
    subst (λ c. After w (with_head c d) (with_counter c k) w') same
      (subst (λ c. After w (with_head c d) k w') agree a))
  where
    same : k.host_req_counter ≡ next_head k 0
    same = omega arith
submit_each-Ends i hashes (id ∷ ids) {w} {d} {k} {w'} a ready run agree small =
    Ends-bind (engine_submit_request (some (drop (i * 32) hashes)) id) _ w'
      (engine_submit_request-Ends a ready run id (drop (i * 32) hashes))
      (λ _ v b.
        Ends-imp
          (λ _ u c.
            subst (λ s. After w s (with_counter total k) u) same_state
              (subst (λ h. After w (with_head h (put_requests rest one)) (with_counter h k) u) same
                c))
          (λ u e. e) (submit_each-Ends (suc i) hashes ids b.0 ready run refl (omega arith)))
  where
    one : EngineState
    one = with_head (next_head k 1) (put_request (request id (drop (i * 32) hashes)) d)

    rest : List Request
    rest = batch_requests (suc i) hashes ids

    total : ℕ
    total = next_head k (suc (length ids))

    same : (next_head k 1 + length ids) % 2 ^ 32 ≡ total
    same = omega arith

    same_state :
        with_head total (put_requests rest one)
        ≡ with_head total (put_requests rest (put_request (request id (drop (i * 32) hashes)) d))
    same_state = ap (with_head total) (
        put_requests-with_head rest (next_head k 1)
          (put_request (request id (drop (i * 32) hashes)) d))

module _ (w : World) (ready : w.d_state ≡ true) (run : w.running ≡ true) (hashes ids : List ℕ)
    (some_ids : 0 < length ids) (fits : length ids ≤ engine_queue_size) where
  runs_all :
      engine_submit_batch (some hashes) (some ids) (length ids) w
      ≡ submit_all (batch_requests 0 hashes ids) (length ids) w
  unfolding engine_submit_batch queued_count
  runs_all =
      if_true _ go_on
      ∙ ap (λ n. submit_all (batch_requests 0 hashes (take n ids)) n w) count_kept
      ∙ ap (λ xs. submit_all (batch_requests 0 hashes xs) (length ids) w)
          (take_all (length ids) ids (omega arith))
    where
      go_on : (w.d_state && (w.running && not (length ids == 0))) ≡ true
      go_on = ground arith

      count_kept : queued_count (length ids) ≡ length ids
      count_kept = ground arith

      if_true : {A : Type 0} {b : Bool} {x : A} (y : A) → b ≡ true → (if b then x else y) ≡ x
      if_true {b = true} y e = refl
      if_true {b = false} y e = cc

  -- A batch of up to 1024 requests on a running engine is either accepted whole, the requests written
  -- one after another and then the head, or else some call of the runtime was answered with an error.
  pub engine_submit_batch-BatchEnds :
      BatchEnds w
        (length ids)
        (with_head
          (next_head w.handle (length ids))
          (put_requests (batch_requests 0 hashes ids) (settled w)))
        (with_counter (next_head w.handle (length ids)) w.handle)
        (engine_submit_batch (some hashes) (some ids) (length ids) w)
  engine_submit_batch-BatchEnds =
      subst (BatchEnds w (length ids) _ _) (sym runs_all) (submit_all-Ends _ _ w)

  -- If the runtime answers every call with success, and the head on the device is the host's counter
  -- (below 2 ^ 32), then a batch of up to 1024 requests leaves the device and the handle as the
  -- submission of its requests one after another does, and both accept them all.
  pub engine_submit_batch-eq-submit_each :
      ((n : ℕ) → (w.runtime n).success ≡ true)
      → (settled w).req_head ≡ w.host_req_counter
      → w.host_req_counter < 2 ^ 32
      → let b = engine_submit_batch (some hashes) (some ids) (length ids) w in
        let e = submit_each 0 hashes ids w in
        (b.0 ≡ length ids)
        × (e.0 ≡ some tt)
        × (settled b.1 ≡ settled e.1)
        × (b.1.handle ≡ e.1.handle)
  engine_submit_batch-eq-submit_each ok agree small =
      let e = Ends-returned (
        Ends-imp (λ _ v q. q) (λ v. not-CallFailed w v ok)
          (submit_each-Ends 0 hashes ids (After-start w) ready run agree small)) in
      compare e.1 e.2 engine_submit_batch-BatchEnds
    where
      device_after : EngineState
      device_after =
          with_head (next_head w.handle (length ids))
            (put_requests (batch_requests 0 hashes ids) (settled w))

      handle_after : EngineHandle
      handle_after = with_counter (next_head w.handle (length ids)) w.handle

      compare :
          {b : ℕ × World} {e : Option (Unit {0}) × World}
          → e.0 ≡ some tt
          → After w device_after handle_after e.1
          → BatchEnds w (length ids) device_after handle_after b
          → (b.0 ≡ length ids)
            × (e.0 ≡ some tt)
            × (settled b.1 ≡ settled e.1)
            × (b.1.handle ≡ e.1.handle)
      compare done q (accepted p) =
          (refl, done, p.0.settled_is ∙ sym q.settled_is, p.0.handle_is ∙ sym q.handle_is)
      compare done q (broken {v = v} c) = absurd (not-CallFailed w v ok c)
