-- ===== src/Engine/Queue/Submit.antt =====
-- What a submission leaves on the device, and the batch against one submission after another.
use gpu_rotation_engine.Base.{
  update, update_self, update_ne, replicate, subst, Copied, take-Copied, ℕ, ◌+◌, ◌%◌, ◌^◌, ◌≡◌, ◌≢◌,
  refl, sym, ap, ◌∙◌, true, some, List, [], ◌∷◌,
}
use gpu_rotation_engine.Engine.State.{Request, EngineState}
use gpu_rotation_engine.Engine.Device.{Write, apply}
use gpu_rotation_engine.Engine.Cuda.{EngineHandle, World, memcpy_async, synchronize, settled}
use gpu_rotation_engine.Engine.Cuda.Run.{
  Ends, After, After-start, CallFailed, Ends-bind, Ends-imp, Ends-guard, Ends-gets, Ends-non_null,
  memcpy_async-Ends, synchronize-Ends, at_handle,
}
use gpu_rotation_engine.Engine.Rotation.Spec.{Done, modify-Done}
use gpu_rotation_engine.Engine.Queue.{queue_index, request, request_write, engine_submit_request}

-- The device once these requests are in their slots and the head is `head`.
abbrev pub put_request : Request → EngineState → EngineState
put_request r d = record d { requests = update d.requests (queue_index r.request_id) r }

abbrev pub with_head : ℕ → EngineState → EngineState
with_head head d = record d { req_head = head }

abbrev pub with_counter : ℕ → EngineHandle → EngineHandle
with_counter n k = record k { host_req_counter = n }

unfoldable pub put_requests : List Request → EngineState → EngineState
put_requests [] d = d
put_requests (r ∷ rs) d = put_requests rs (put_request r d)

abbrev pub next_head : EngineHandle → ℕ → ℕ
next_head k n = (k.host_req_counter + n) % 2 ^ 32

module _ {w : World} {d : EngineState} {k : EngineHandle} {w' : World} (a : After w d k w')
    (ready : k.d_state ≡ true) (run : k.running ≡ true) where
  pub engine_submit_request-Ends :
      (request_id : ℕ) (hash : List ℕ)
      → Ends
          (λ _.
            Done w
              (with_head (next_head k 1) (put_request (request request_id hash) d))
              (with_counter (next_head k 1) k))
          (CallFailed w)
          (engine_submit_request (some hash) request_id w')
  unfolding engine_submit_request apply
  engine_submit_request-Ends request_id hash =
      at_handle
        (λ k.
          k.d_state ≡ true
          → k.running ≡ true
          → Ends
              (λ _.
                Done w (with_head (next_head k 1) (put_request (request request_id hash) d))
                  (with_counter (next_head k 1) k))
              (CallFailed w) (engine_submit_request (some hash) request_id w'))
        a
        (λ b on going. Ends-gets _ _ w' (
          Ends-guard w'.d_state _ w' on (
            Ends-gets _ _ w' (
              Ends-guard w'.running _ w' going (
                Ends-non_null hash _ w' (
                  Ends-gets _ _ w' (
                    Ends-bind (memcpy_async (request_write (request request_id hash))) _ w'
                      (memcpy_async-Ends b _)
                      (λ _ v c.
                        Ends-bind (memcpy_async (Write.req_head _)) _ v (memcpy_async-Ends c _)
                          (λ _ u e.
                            Ends-bind synchronize _ u (synchronize-Ends e)
                              (λ _ t f. modify-Done f _))))))))))
        ready run

-- A request as the kernel finds it: its number and the 32 bytes of its hash, and no nonce.
pub record Queued (request_id : ℕ) (hash : List ℕ) (r : Request) : Type 0 where
  pub id_is : r.request_id ≡ request_id
  pub input_is : Copied 32 hash r.input
  pub no_nonce : r.has_nonce ≡ 0
  pub nonce_is : r.nonce_k ≡ replicate 32 0

pub request-Queued :
    (request_id : ℕ) (hash : List ℕ) → Queued request_id hash (request request_id hash)
request-Queued request_id hash = record {
  id_is = refl;
  input_is = take-Copied 32 hash;
  no_nonce = refl;
  nonce_is = refl;
}

-- What a client sees of an accepted request: it stands in its slot, no other slot has changed, the head
-- has gone up by one, alike on the device and on the host, and nothing is queued.
pub record Submitted (w : World) (request_id : ℕ) (hash : List ℕ) (v : World) : Type 0 where
  pub in_slot : Queued request_id hash (v.device.requests (request_id % 1024))
  pub others_kept : (j : ℕ) → j ≢ request_id % 1024 → v.device.requests j ≡ (settled w).requests j
  pub head_advanced : v.device.req_head ≡ (w.host_req_counter + 1) % 2 ^ 32
  pub counter_agrees : v.host_req_counter ≡ v.device.req_head
  pub keys_kept : v.device.keyslots ≡ (settled w).keyslots
  pub nothing_queued : v.pending ≡ []

-- On a running engine a submission ends with the request's number and the first 32 bytes of its hash
-- in slot number modulo 1024, every other slot as it was, the head advanced by one on the device and
-- on the host, and nothing queued; or else some call of the runtime was answered with an error.
pub engine_submit_request-Submitted :
    (w : World) (request_id : ℕ) (hash : List ℕ)
    → w.d_state ≡ true
    → w.running ≡ true
    → Ends
        (λ _. Submitted w request_id hash)
        (CallFailed w)
        (engine_submit_request (some hash) request_id w)
engine_submit_request-Submitted w request_id hash ready run =
    Ends-imp
      (λ _ v (a, p, e). record {
        in_slot =
            subst (Queued request_id hash)
              (sym (ap (λ s. s.requests (queue_index request_id)) e ∙ put_self))
              (request-Queued request_id hash);
        others_kept = λ j ne. ap (λ s. s.requests j) e ∙ put_ne j ne;
        head_advanced = ap (λ s. s.req_head) e;
        counter_agrees = ap (λ h. h.host_req_counter) a.handle_is ∙ sym (ap (λ s. s.req_head) e);
        keys_kept = ap (λ s. s.keyslots) e;
        nothing_queued = p;
      })
      (λ v e. e) (engine_submit_request-Ends (After-start w) ready run request_id hash)
  where
    after : EngineState
    after = put_request (request request_id hash) (settled w)

    put_self : after.requests (queue_index request_id) ≡ request request_id hash
    put_self = update_self (settled w).requests (queue_index request_id) (request request_id hash)

    put_ne : (j : ℕ) → j ≢ queue_index request_id → after.requests j ≡ (settled w).requests j
    put_ne j ne =
        update_ne (settled w).requests (queue_index request_id) j (request request_id hash)
          (λ same. ne (sym same))
