-- ===== src/Engine/Queue/Placed.antt =====
-- Where the requests of a batch stand once `engine_submit_batch` has accepted it.
use gpu_rotation_engine.Base.{
  ℕ, suc, ◌+◌, ◌*◌, ◌%◌, ◌^◌, ◌≤◌, ◌<◌, ◌≡◌, ◌≢◌, refl, sym, ap, ◌∙◌, subst, true, some, List, [],
  ◌∷◌, ◌++◌, All, arith, length, drop, update_self, update_ne,
}
use gpu_rotation_engine.Engine.State.{Request, EngineState, engine_queue_size}
use gpu_rotation_engine.Engine.Cuda.{World, settled}
use gpu_rotation_engine.Engine.Cuda.Run.{CallFailed}
use gpu_rotation_engine.Engine.Queue.{request, batch_requests, engine_submit_batch}
use gpu_rotation_engine.Engine.Queue.Submit.{
  Queued, request-Queued, put_request, put_requests, with_head, with_counter, next_head,
}
use gpu_rotation_engine.Engine.Queue.Batch.{
  BatchEnds, accepted, broken, engine_submit_batch-BatchEnds,
}

-- No request of these goes to slot `j`.
abbrev pub Avoids : ℕ → List ℕ → Type 0
Avoids j ids = All (λ id. id % 1024 ≢ j) ids

-- The device and the host after a batch: a slot has the last of the requests that go to it, with the
-- hash of the same place in the array; a slot that none goes to is as it was.
pub record Placed (w : World) (hashes ids : List ℕ) (v : World) : Type 0 where
  pub in_slot :
      (before : List ℕ) (id : ℕ) (after : List ℕ)
      → ids ≡ before ++ (id ∷ after)
      → Avoids (id % 1024) after
      → Queued id (drop (length before * 32) hashes) (v.device.requests (id % 1024))
  pub others_kept : (j : ℕ) → Avoids j ids → v.device.requests j ≡ (settled w).requests j
  pub head_advanced : v.device.req_head ≡ (w.host_req_counter + length ids) % 2 ^ 32
  pub counter_agrees : v.host_req_counter ≡ v.device.req_head
  pub keys_kept : v.device.keyslots ≡ (settled w).keyslots
  pub nothing_queued : v.pending ≡ []

pub data Outcome (w : World) (hashes ids : List ℕ) : ℕ × World → Type 0 where
  all_placed : {v : World} → Placed w hashes ids v → Outcome w hashes ids (length ids, v)
  call_failed : {n : ℕ} {v : World} → CallFailed w v → Outcome w hashes ids (n, v)

module _ (hashes : List ℕ) where
  put_requests-avoided :
      (i : ℕ) (ids : List ℕ) (d : EngineState) (j : ℕ)
      → Avoids j ids
      → (put_requests (batch_requests i hashes ids) d).requests j ≡ d.requests j
  unfolding put_requests batch_requests
  put_requests-avoided i [] d j none_here = refl
  put_requests-avoided i (id ∷ ids) d j (ne, none_here) =
      put_requests-avoided (suc i) ids (put_request (request id (drop (i * 32) hashes)) d) j
        none_here
      ∙ update_ne d.requests (id % 1024) j (request id (drop (i * 32) hashes)) ne

  put_requests-last :
      (i : ℕ) (before : List ℕ) (id : ℕ) (after : List ℕ) (d : EngineState)
      → Avoids (id % 1024) after
      → (put_requests (batch_requests i hashes (before ++ (id ∷ after))) d).requests (id % 1024)
        ≡ request id (drop ((i + length before) * 32) hashes)
  unfolding put_requests batch_requests
  put_requests-last i [] id after d none_here =
      let r : Request = request id (drop (i * 32) hashes) in
      let same : i ≡ i + 0 = omega arith in
      put_requests-avoided (suc i) after (put_request r d) (id % 1024) none_here
      ∙ update_self d.requests (id % 1024) r
      ∙ ap (λ n. request id (drop (n * 32) hashes)) same
  put_requests-last i (b ∷ before) id after d none_here =
      let same : suc i + length before ≡ i + suc (length before) = omega arith in
      put_requests-last (suc i) before id after (put_request (request b (drop (i * 32) hashes)) d)
        none_here
      ∙ ap (λ n. request id (drop (n * 32) hashes)) same

  put_requests-keyslots :
      (i : ℕ) (ids : List ℕ) (d : EngineState)
      → (put_requests (batch_requests i hashes ids) d).keyslots ≡ d.keyslots
  unfolding put_requests batch_requests
  put_requests-keyslots i [] d = refl
  put_requests-keyslots i (id ∷ ids) d =
      put_requests-keyslots (suc i) ids (put_request (request id (drop (i * 32) hashes)) d)

from_zero : (n : ℕ) → 0 + n ≡ n
from_zero n = omega arith

module _ (w : World) (hashes ids : List ℕ) where
  BatchEnds-Outcome :
      {r : ℕ × World}
      → BatchEnds w
          (length ids)
          (with_head
            (next_head w.handle (length ids))
            (put_requests (batch_requests 0 hashes ids) (settled w)))
          (with_counter (next_head w.handle (length ids)) w.handle)
          r
      → Outcome w hashes ids r
  BatchEnds-Outcome (accepted {v = v} (a, p, e)) = all_placed (record {
    in_slot = λ before id after split none_here.
        subst (Queued id (drop (length before * 32) hashes))
          (sym (
            ap (λ (s : EngineState). s.requests (id % 1024)) e
            ∙ ap
                (λ xs. (put_requests (batch_requests 0 hashes xs) (settled w)).requests (id % 1024))
                split
            ∙ put_requests-last hashes 0 before id after (settled w) none_here
            ∙ ap (λ n. request id (drop (n * 32) hashes)) (from_zero (length before))))
          (request-Queued id (drop (length before * 32) hashes));
    others_kept = λ j none_here.
        ap (λ (s : EngineState). s.requests j) e
        ∙ put_requests-avoided hashes 0 ids (settled w) j none_here;
    head_advanced = ap (λ (s : EngineState). s.req_head) e;
    counter_agrees =
        ap (λ h. h.host_req_counter) a.handle_is ∙ sym (ap (λ (s : EngineState). s.req_head) e);
    keys_kept =
        ap (λ (s : EngineState). s.keyslots) e ∙ put_requests-keyslots hashes 0 ids (settled w);
    nothing_queued = p;
  })
  BatchEnds-Outcome (broken c) = call_failed c

  -- A batch of up to 1024 requests on a running engine is either accepted whole, with nothing queued
  -- and the head advanced by their number on the device and on the host, or else some call of the
  -- runtime was answered with an error. Once accepted, slot number modulo 1024 of a request that no
  -- later one of the batch shares it with has its number and its own hash, and the slots that no
  -- request of the batch goes to are as they were.
  pub engine_submit_batch-Outcome :
      w.d_state ≡ true
      → w.running ≡ true
      → 0 < length ids
      → length ids ≤ engine_queue_size
      → Outcome w hashes ids (engine_submit_batch (some hashes) (some ids) (length ids) w)
  engine_submit_batch-Outcome ready run some_ids fits =
      BatchEnds-Outcome (engine_submit_batch-BatchEnds w ready run hashes ids some_ids fits)
