-- ===== src/FastPath/Dispatcher.antt =====
-- `EngineDispatcher` of core/persistent_engine/engine_host.cpp: the one reader of the response
-- buffer, which hands each response to the queue of the client that it belongs to. The thread's loop
-- is taken one round at a time; `raw` is what the round has read. Left out: the thread itself, its
-- idle spinning and `consecutive_empty`, which only paces it.
pub mod View
pub mod Routing
pub mod Isolation
pub mod CountOnly
use gpu_rotation_engine.Base.{
  ℕ, zero, suc, ◌+◌, ◌%◌, ◌^◌, Bool, true, false, not, ◌&&◌, List, [], ◌∷◌, length, update,
  if◌then◌else◌, ltb, ◌==◌,
}
use gpu_rotation_engine.FastPath.Response.{FastPathResponse}
use gpu_rotation_engine.FastPath.Ring.{u32_add}
use gpu_rotation_engine.FastPath.Queue.{
  CompletionQueue, init, push_bulk, pop, pop_count_only, u64_add, dispatch_queue_capacity,
}

pub record EngineDispatcher : Type 0 where
  pub client_queues : ℕ → CompletionQueue
  pub client_registered : ℕ → Bool
  pub raw_polled : ℕ
  pub routed_total : ℕ
  pub unknown_client : ℕ
  pub poll_rounds : ℕ
  pub empty_rounds : ℕ
  pub count_only_mode : Bool
  pub sole_client_id : ℕ
  pub registered_count : ℕ

-- The loop over the ids from `i` on, `n` of them.
unfoldable pub count_clients : ℕ → ℕ → EngineDispatcher → EngineDispatcher
count_clients i zero d = d
count_clients i (suc n) d = count_clients (i + 1) n (
    if d.client_registered i
    then record d { sole_client_id = i; registered_count = d.registered_count + 1 }
    else d)

unfoldable pub update_client_count : EngineDispatcher → EngineDispatcher
update_client_count d = count_clients 0 256 (record d { registered_count = 0; sole_client_id = 0 })

unfoldable pub register_client : ℕ → EngineDispatcher → EngineDispatcher
register_client c d = update_client_count (record d {
  client_queues = update d.client_queues c (init dispatch_queue_capacity (d.client_queues c));
  client_registered = update d.client_registered c true;
})

unfoldable pub deregister_client : ℕ → EngineDispatcher → EngineDispatcher
deregister_client c d = update_client_count (record d {
  client_queues = update d.client_queues c (record (d.client_queues c) { head = 0; tail = 0 });
  client_registered = update d.client_registered c false;
})

abbrev pub put_queue : ℕ → CompletionQueue → EngineDispatcher → EngineDispatcher
put_queue c q d = record d { client_queues = update d.client_queues c q }

unfoldable pub pop_for_client : ℕ → ℕ → EngineDispatcher → EngineDispatcher × List FastPathResponse
pop_for_client c max_count d =
    if not (d.client_registered c)
    then (d, [])
    else let (q, out) = pop max_count (d.client_queues c) in (put_queue c q d, out)

unfoldable pub pop_count_only_for_client : ℕ → ℕ → EngineDispatcher → EngineDispatcher × ℕ
pop_count_only_for_client c max_count d =
    if not (d.client_registered c)
    then (d, 0)
    else let (q, n) = pop_count_only max_count (d.client_queues c) in (put_queue c q d, n)

-- The runs of responses of one client, each with its client's id.
abbrev pub Run : Type 0
Run = ℕ × List FastPathResponse

unfoldable pub extend_run : FastPathResponse → List Run → List Run
extend_run r [] = (r.client_id, r ∷ []) ∷ []
extend_run r ((c, rs) ∷ runs) =
    if r.client_id == c then (c, r ∷ rs) ∷ runs else (r.client_id, r ∷ []) ∷ (c, rs) ∷ runs

unfoldable pub runs_of : List FastPathResponse → List Run
runs_of [] = []
runs_of (r ∷ rs) = extend_run r (runs_of rs)

-- One turn of the routing loop; `routed` is the count so far.
unfoldable pub route_run : Run → EngineDispatcher × ℕ → EngineDispatcher × ℕ
route_run (c, rs) (d, routed) =
    let (q, pushed) = push_bulk rs (d.client_queues c) in
    if d.client_registered c
    then (put_queue c q d, u32_add routed pushed)
    else (record d { unknown_client = u64_add d.unknown_client (length rs) }, routed)

unfoldable pub route_runs : List Run → EngineDispatcher × ℕ → EngineDispatcher × ℕ
route_runs [] s = s
route_runs (run ∷ runs) s = route_runs runs (route_run run s)

-- A round that reads full responses, `raw` of them.
unfoldable pub route_round : List FastPathResponse → EngineDispatcher → EngineDispatcher
route_round raw d =
    let d' = record d { poll_rounds = u64_add d.poll_rounds 1 } in
    let (d'', routed) =
      route_runs (runs_of raw) (record d' { raw_polled = u64_add d.raw_polled (length raw) }, 0) in
    if length raw == 0
    then record d' { empty_rounds = u64_add d.empty_rounds 1 }
    else if ltb 0 routed
    then record d'' { routed_total = u64_add d''.routed_total routed }
    else d''

-- A round that only counts, `total_counted` responses, for the one client there is.
unfoldable pub count_round : ℕ → EngineDispatcher → EngineDispatcher
count_round total_counted d =
    let d' = record d { poll_rounds = u64_add d.poll_rounds 1 } in
    let q = d.client_queues d.sole_client_id in
    if ltb 0 total_counted
    then record (put_queue d.sole_client_id
        (record q {
          tail = u32_add q.tail total_counted;
          enqueued = u64_add q.enqueued total_counted;
        })
        d') {
          raw_polled = u64_add d.raw_polled total_counted;
          routed_total = u64_add d.routed_total total_counted;
        }
    else record d' { empty_rounds = u64_add d.empty_rounds 1 }

-- Which of the two kinds a round is.
unfoldable pub counts_only : EngineDispatcher → Bool
counts_only d = (d.registered_count == 1) && d.count_only_mode
