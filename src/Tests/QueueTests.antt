-- ===== src/Tests/QueueTests.antt =====
-- Requests, responses and key rotation by `engine_rotate_key` at concrete states.
use gpu_rotation_engine.Base.{
  ◌++◌, ℕ, ◌≡◌, refl, some, List, [], ◌∷◌, replicate, arith, ◌==◌, if◌then◌else◌,
}
use gpu_rotation_engine.Engine.Device.{apply_all}
use gpu_rotation_engine.Engine.Cuda.{World, settled, memcpy_async}
use gpu_rotation_engine.Engine.Cuda.Run.{Ends, CallFailed}
use gpu_rotation_engine.Engine.Queue.{
  queued_count, batch_requests, queue_requests, on_failure, sync_and_return, submit_all,
  engine_submit_request, engine_poll_response, engine_submit_batch,
}
use gpu_rotation_engine.Engine.Queue.Submit.{Submitted, engine_submit_request-Submitted}
use gpu_rotation_engine.Engine.Queue.Placed.{Outcome, engine_submit_batch-Outcome}
use gpu_rotation_engine.Engine.Queue.Batch.{engine_submit_batch-eq-submit_each}
use gpu_rotation_engine.Engine.Queue.Partial.{engine_submit_batch-unannounced}
use gpu_rotation_engine.Engine.Queue.Poll.{engine_poll_response-once}
use gpu_rotation_engine.Engine.Rotation.{engine_rotate_key}
use gpu_rotation_engine.Engine.Rotation.Rotated.{Mirrors}
use gpu_rotation_engine.Engine.Rotation.Direct.{Replaced, engine_rotate_key-Replaced}
use gpu_rotation_engine.Tests.Worlds.{healthy, failing_at, some_key, one_key, world, no_response}

abbrev hashes : List ℕ
hashes = replicate 96 9

abbrev three_hashes : List ℕ
three_hashes = replicate 32 7 ++ (replicate 32 8 ++ replicate 32 9)

abbrev ids : List ℕ
ids = 0 ∷ 1 ∷ 2 ∷ []

-- A response stands ready in slot 1.
abbrev answered_world : World
answered_world = record (world healthy) {
  device = record one_key { response_ready = λ i. if i == 1 then 1 else 0 };
}

engine_submit_request-Submitted_example :
    Ends
      (λ _. Submitted (world healthy) 1025 (replicate 32 9))
      (CallFailed (world healthy))
      (engine_submit_request (some (replicate 32 9)) 1025 (world healthy))
engine_submit_request-Submitted_example =
    engine_submit_request-Submitted (world healthy) 1025 (replicate 32 9) refl refl

-- The first and the third request share a slot.
engine_submit_batch-Outcome_example :
    Outcome
      (world healthy)
      three_hashes
      (5 ∷ 1 ∷ 1029 ∷ [])
      (engine_submit_batch (some three_hashes) (some (5 ∷ 1 ∷ 1029 ∷ [])) 3 (world healthy))
engine_submit_batch-Outcome_example =
    engine_submit_batch-Outcome (world healthy) three_hashes (5 ∷ 1 ∷ 1029 ∷ []) refl refl
      (omega arith) (omega arith)

engine_submit_batch-eq-submit_each_example :
    (engine_submit_batch (some hashes) (some ids) 3 (world healthy)).0 ≡ 3
unfolding apply_all
engine_submit_batch-eq-submit_each_example =
    (engine_submit_batch-eq-submit_each (world healthy) refl refl hashes ids (omega arith)
      (omega arith) (λ n. refl) refl (omega arith)).0

engine_poll_response-once_example : (engine_poll_response 1025 answered_world).0 ≡ some no_response
unfolding apply_all
engine_poll_response-once_example =
    (engine_poll_response-once answered_world 1025 refl refl (λ n. refl) (omega arith)).0

-- The second copy fails: one request is counted.
engine_submit_batch-unannounced_example :
    (settled (engine_submit_batch (some hashes) (some ids) 3 (world (failing_at 1))).1).req_head ≡ 0
unfolding engine_submit_batch submit_all queue_requests on_failure sync_and_return queued_count
    batch_requests memcpy_async
engine_submit_batch-unannounced_example =
    (engine_submit_batch-unannounced (some hashes) (some ids) 3 (world (failing_at 1)) refl
      (omega arith) (omega arith)).0

agreed : Mirrors one_key one_key
agreed = record {
  keyslots_agree = refl;
  epoch_agrees = refl;
  status_agrees = refl;
  epoch_in_range = omega arith;
}

engine_rotate_key-Replaced_example :
    Ends
      (λ _. Replaced (world healthy) 1 1 some_key)
      (CallFailed (world healthy))
      (engine_rotate_key (some some_key) (world healthy))
unfolding apply_all
engine_rotate_key-Replaced_example = engine_rotate_key-Replaced (world healthy) some_key refl agreed
