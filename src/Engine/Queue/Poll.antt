-- ===== src/Engine/Queue/Poll.antt =====
-- Polling delivers a response once.
use gpu_rotation_engine.Base.{
  update, ℕ, ◌≡◌, ◌≢◌, refl, ap, ◌∙◌, true, false, not, Option, none, some, ◌⊎◌, inl, inr, ◌==◌,
  arith, Bool-cases, ==_refl,
}
use gpu_rotation_engine.Engine.State.{EngineState, EngineResponse}
use gpu_rotation_engine.Engine.Device.{Write, apply}
use gpu_rotation_engine.Engine.Cuda.{
  EngineHandle, World, ◌>>=◌, ◌>>◌, pure, guard, gets, checked_call, memcpy_async, synchronize,
  settled,
}
use gpu_rotation_engine.Engine.Cuda.Run.{
  Ends, returned, failed, After, After-start, CallFailed, not-CallFailed, Ends-imp, Ends-bind,
  Ends-guard, Ends-gets, checked_call-Ends, memcpy_async-Ends, synchronize-Ends,
}
use gpu_rotation_engine.Engine.Cuda.Force.{Ends-test}
use gpu_rotation_engine.Engine.Rotation.Spec.{Done}
use gpu_rotation_engine.Engine.Queue.{queue_index, engine_poll_response}

-- The flag of one slot reset.
abbrev pub taken : ℕ → EngineState → EngineState
taken idx d = record d { response_ready = update d.response_ready idx 0 }

-- A response was ready, and is handed out; or nothing was, and nothing changed; or a call failed.
abbrev pub Polled : World → ℕ → EngineState → EngineHandle → EngineResponse → World → Type 0
Polled w idx d k resp v =
    (d.response_ready idx ≢ 0) × (resp ≡ d.responses idx) × After w (taken idx d) k v

abbrev pub NotPolled : World → ℕ → EngineState → EngineHandle → World → Type 0
NotPolled w idx d k v = (d.response_ready idx ≡ 0) × After w d k v

module _ {w : World} {d : EngineState} {k : EngineHandle} {w' : World} (a : After w d k w')
    (ready : k.d_state ≡ true) (stream : k.comm_stream ≡ true) (request_id : ℕ) where
  hand_out :
      {v : World}
      → Done w d k v
      → d.response_ready (queue_index request_id) ≢ 0
      → Ends (Polled w (queue_index request_id) d k) (CallFailed w) (
          (gets (λ w. w.device.responses (queue_index request_id)) >>= λ resp.
          memcpy_async (Write.response_ready (queue_index request_id) 0) >>= λ _. pure resp)
            v)
  unfolding pure apply
  hand_out {v} (b, p, e) full = Ends-gets _ _ v (
      Ends-bind (memcpy_async _) _ v (memcpy_async-Ends b _)
        (λ _ u c. returned (full, ap (λ s. s.responses (queue_index request_id)) e, c)))

  -- The flag is read, then the response.
  on_flag :
      {v : World}
      → Done w d k v
      → Ends
          (Polled w (queue_index request_id) d k)
          (λ u. NotPolled w (queue_index request_id) d k u ⊎ CallFailed w u)
          ((gets (λ w. w.device.response_ready (queue_index request_id)) >>= λ flag.
              guard (not (flag == 0))
              >> (checked_call
                  >> (synchronize
                      >> (gets (λ w. w.device.responses (queue_index request_id)) >>= λ resp.
                          memcpy_async (Write.response_ready (queue_index request_id) 0) >>= λ _.
                          pure resp))))
            v)
  on_flag {v} (b, p, e) =
      Ends-gets _ _ v
        (elim (Bool-cases (not (v.device.response_ready (queue_index request_id) == 0))) [
          | inl t ↦
              Ends-imp (λ _ _ q. q) (λ _ q. inr q)
                (Ends-guard _ _ v t (
                  Ends-bind checked_call _ v (checked_call-Ends b) (λ _ v c.
                    Ends-bind synchronize _ v (synchronize-Ends c) (λ _ v f. hand_out f (full t)))))
          | inr t ↦ Ends-test _ _ v (inl (empty t, b)) (λ u. cc)
        ])
    where
      flag_is :
          v.device.response_ready (queue_index request_id)
          ≡ d.response_ready (queue_index request_id)
      flag_is = ap (λ s. s.response_ready (queue_index request_id)) e

      full :
          not (v.device.response_ready (queue_index request_id) == 0) ≡ true
          → d.response_ready (queue_index request_id) ≢ 0
      full t = ground (arith, flag_is)

      empty :
          not (v.device.response_ready (queue_index request_id) == 0) ≡ false
          → d.response_ready (queue_index request_id) ≡ 0
      empty t = ground (arith, flag_is)

  pub engine_poll_response-Ends :
      Ends
        (Polled w (queue_index request_id) d k)
        (λ u. NotPolled w (queue_index request_id) d k u ⊎ CallFailed w u)
        (engine_poll_response request_id w')
  unfolding engine_poll_response
  engine_poll_response-Ends = Ends-gets _ _ w' (
      Ends-guard w'.d_state _ w' (ap (λ h. h.d_state) a.handle_is ∙ ready) (
        Ends-gets _ _ w' (
          Ends-guard w'.comm_stream _ w' (ap (λ h. h.comm_stream) a.handle_is ∙ stream) (
            Ends-bind checked_call _ w' (Ends-imp (λ _ _ q. q) (λ _ q. inr q) (checked_call-Ends a))
              (λ _ v b.
                Ends-bind synchronize _ v
                  (Ends-imp (λ _ _ q. q) (λ _ q. inr q) (synchronize-Ends b))
                  (λ _ u c. on_flag c))))))

taken_self : (i : ℕ) (d : EngineState) → (taken i d).response_ready i ≡ 0
taken_self i d = rw (==_refl i) refl

-- If the runtime answers every call with success and a response is ready in the request's slot, then
-- polling returns it, polling again returns nothing, and meanwhile the flags of all other slots, all
-- responses and the handle stay as they are.
pub engine_poll_response-once :
    (w : World) (request_id : ℕ)
    → w.d_state ≡ true
    → w.comm_stream ≡ true
    → ((n : ℕ) → (w.runtime n).success ≡ true)
    → (settled w).response_ready (queue_index request_id) ≢ 0
    → let once = engine_poll_response request_id w in
      let twice = engine_poll_response request_id once.1 in
      (once.0 ≡ some ((settled w).responses (queue_index request_id)))
      × (twice.0 ≡ none)
      × (settled twice.1 ≡ taken (queue_index request_id) (settled w))
      × (twice.1.handle ≡ w.handle)
engine_poll_response-once w request_id ready stream ok full =
    first (engine_poll_response-Ends (After-start w) ready stream request_id)
  where
    idx : ℕ
    idx = queue_index request_id

    second :
        {r : Option EngineResponse × World}
        → Ends
            (Polled w idx (taken idx (settled w)) w.handle)
            (λ u. NotPolled w idx (taken idx (settled w)) w.handle u ⊎ CallFailed w u)
            r
        → (r.0 ≡ none) × (settled r.1 ≡ taken idx (settled w)) × (r.1.handle ≡ w.handle)
    second (returned q) = absurd (q.0 (taken_self idx (settled w)))
    second (failed (inl (_, b))) = (refl, b.settled_is, b.handle_is)
    second (failed {w = v} (inr c)) = absurd (not-CallFailed w v ok c)

    first :
        {r : Option EngineResponse × World}
        → Ends
            (Polled w idx (settled w) w.handle)
            (λ u. NotPolled w idx (settled w) w.handle u ⊎ CallFailed w u)
            r
        → (r.0 ≡ some ((settled w).responses idx))
          × ((engine_poll_response request_id r.1).0 ≡ none)
          × (settled (engine_poll_response request_id r.1).1 ≡ taken idx (settled w))
          × ((engine_poll_response request_id r.1).1.handle ≡ w.handle)
    first (returned (_, e, b)) =
        let s = second (engine_poll_response-Ends b ready stream request_id) in
        (ap some e, s.0, s.1, s.2)
    first (failed (inl (e, _))) = absurd (full e)
    first (failed {w = v} (inr c)) = absurd (not-CallFailed w v ok c)
