-- ===== src/Tests/FastPathTests.antt =====
-- Completion queues and the dispatcher at concrete states.
use gpu_rotation_engine.Base.{
  ℕ, ◌+◌, ◌%◌, ◌≤◌, ◌<◌, ◌^◌, ◌≡◌, refl, true, List, [], ◌∷◌, arith, length, ◌==◌, replicate,
}
use gpu_rotation_engine.FastPath.Response.{
  FastPathResponse, fast_path_commit_info, fast_path_commit_status, fast_path_commit_output_len,
  fast_path_commit_info-roundtrip,
}
use gpu_rotation_engine.FastPath.Queue.{CompletionQueue, IsValid, size, contents, push_bulk}
use gpu_rotation_engine.FastPath.Queue.Calls.{Call, calls, list_calls}
use gpu_rotation_engine.FastPath.Queue.Fifo.{calls-refine-list_calls}
use gpu_rotation_engine.FastPath.Queue.Bulk.{push_each, push_bulk-eq-push_each}
use gpu_rotation_engine.FastPath.Dispatcher.{EngineDispatcher, route_round, count_round}
use gpu_rotation_engine.FastPath.Dispatcher.View.{view, AllValid}
use gpu_rotation_engine.FastPath.Dispatcher.Routing.{of_client, deliver_to, route_round-delivers}
use gpu_rotation_engine.FastPath.Dispatcher.Isolation.{Step, steps, client_steps, steps-Follows}
use gpu_rotation_engine.FastPath.Dispatcher.CountOnly.{count_round-overfills}

abbrev response : ℕ → ℕ → FastPathResponse
response id client = record {
  request_id = id;
  commit_info = 32;
  seq = id;
  status = 0;
  client_id = client;
  opcode = 0;
  output_len = 32;
  output_offset = 0;
  output_bytes = 0;
  output = replicate 32 id;
}

-- A queue whose indices are about to wrap, with `n` responses in it.
abbrev queue : ℕ → CompletionQueue
queue n = record {
  buf = λ i. response i 1;
  head = 4294967290;
  tail = (4294967290 + n) % 2 ^ 32;
  capacity = 65536;
  enqueued = 0;
  queue_full_drops = 0;
}

queue-IsValid : (n : ℕ) → n ≤ 65536 → IsValid (queue n)
unfolding size
queue-IsValid n le = record {
  head_lt = omega arith;
  tail_lt = omega arith;
  capacity_is = refl;
  size_le = omega arith;
}

-- Client 1 alone is registered, with `n` responses waiting.
abbrev dispatcher : ℕ → EngineDispatcher
dispatcher n = record {
  client_queues = λ c. queue n;
  client_registered = λ c. c == 1;
  raw_polled = 0;
  routed_total = 0;
  unknown_client = 0;
  poll_rounds = 0;
  empty_rounds = 0;
  count_only_mode = true;
  sole_client_id = 1;
  registered_count = 1;
}

abbrev some_calls : List Call
some_calls =
    Call.offer (response 5 1)
    ∷ Call.offer_all (response 6 1 ∷ response 7 1 ∷ [])
    ∷ Call.fetch 8
    ∷ Call.skip 9
    ∷ []

calls-refine-list_calls_example :
    IsValid (calls some_calls (queue 8)).0
    × (contents (calls some_calls (queue 8)).0 ≡ (list_calls some_calls (contents (queue 8))).0)
    × ((calls some_calls (queue 8)).1 ≡ (list_calls some_calls (contents (queue 8))).1)
calls-refine-list_calls_example =
    calls-refine-list_calls some_calls (queue 8) (queue-IsValid 8 (omega arith))

push_bulk-eq-push_each_example :
    push_bulk (response 6 1 ∷ response 7 1 ∷ []) (queue 65535)
    ≡ push_each (response 6 1 ∷ response 7 1 ∷ []) (queue 65535)
push_bulk-eq-push_each_example =
    push_bulk-eq-push_each (response 6 1 ∷ response 7 1 ∷ []) (queue 65535)
      (queue-IsValid 65535 (omega arith)) (omega arith, omega arith)

abbrev raw : List FastPathResponse
raw = response 6 1 ∷ response 7 2 ∷ response 8 1 ∷ []

dispatcher-AllValid : AllValid (dispatcher 3)
dispatcher-AllValid c on = queue-IsValid 3 (omega arith)

route_round-delivers_example :
    AllValid (route_round raw (dispatcher 3))
    × ((route_round raw (dispatcher 3)).client_registered ≡ (dispatcher 3).client_registered)
    × ((c : ℕ)
        → view (route_round raw (dispatcher 3)) c
          ≡ deliver_to (of_client c raw) (view (dispatcher 3) c))
route_round-delivers_example = route_round-delivers raw (dispatcher 3) dispatcher-AllValid

abbrev some_steps : List Step
some_steps =
    Step.register 2 ∷ Step.round raw ∷ Step.fetch 1 2 ∷ Step.skip 2 5 ∷ Step.deregister 1 ∷ []

steps-Follows_example :
    AllValid (steps 1 some_steps (dispatcher 3)).0
    × (view (steps 1 some_steps (dispatcher 3)).0 1
        ≡ (client_steps 1 some_steps (view (dispatcher 3) 1)).0)
    × ((steps 1 some_steps (dispatcher 3)).1
        ≡ (client_steps 1 some_steps (view (dispatcher 3) 1)).1)
steps-Follows_example = steps-Follows 1 some_steps (dispatcher 3) dispatcher-AllValid

full_size : 65536 < size ((dispatcher 65530).client_queues (dispatcher 65530).sole_client_id) + 10
unfolding size
full_size = omega arith

count_round-overfills_example :
    (65536 < size ((count_round 10 (dispatcher 65530)).client_queues 1))
    × (IsValid ((count_round 10 (dispatcher 65530)).client_queues 1) → ⊥)
    × ((push_bulk raw ((count_round 10 (dispatcher 65530)).client_queues 1)).1 ≡ length raw)
count_round-overfills_example =
    count_round-overfills 10 raw (dispatcher 65530) (queue-IsValid 65530 (omega arith))
      (omega arith) full_size (omega arith)

fast_path_commit_info-roundtrip_example :
    (fast_path_commit_status (fast_path_commit_info 3 64) ≡ 3)
    × (fast_path_commit_output_len (fast_path_commit_info 3 64) ≡ 64)
fast_path_commit_info-roundtrip_example =
    fast_path_commit_info-roundtrip 3 64 (omega arith) (omega arith)
