-- ===== src/FastPath/Dispatcher/View.antt =====
-- What each client has waiting, and how a change of one queue shows.
use gpu_rotation_engine.Base.{
  ℕ, zero, suc, ◌+◌, ◌≡◌, ◌≢◌, refl, true, Option, none, some, List, arith, update_self, update_ne,
  if◌then◌else◌, ◌==◌, Bool-cases, inl, inr,
}
use gpu_rotation_engine.FastPath.Response.{FastPathResponse}
use gpu_rotation_engine.FastPath.Queue.{CompletionQueue, contents, IsValid}
use gpu_rotation_engine.FastPath.Dispatcher.{
  EngineDispatcher, put_queue, count_clients, update_client_count,
}

-- What waits for a client, none if it is not registered.
abbrev pub view : EngineDispatcher → ℕ → Option (List FastPathResponse)
view d c = if d.client_registered c then some (contents (d.client_queues c)) else none

-- Each registered client's queue is valid.
abbrev pub AllValid : EngineDispatcher → Type 0
AllValid d = (c : ℕ) → d.client_registered c ≡ true → IsValid (d.client_queues c)

-- Two dispatchers with the same queues for the same clients.
abbrev pub SameClients : EngineDispatcher → EngineDispatcher → Type 0
SameClients d d' =
    (d.client_queues ≡ d'.client_queues) × (d.client_registered ≡ d'.client_registered)

pub view-SameClients : (d d' : EngineDispatcher) → SameClients d d' → (c : ℕ) → view d c ≡ view d' c
view-SameClients d d' (q, r) c = rw (q, r) refl

pub AllValid-SameClients : (d d' : EngineDispatcher) → SameClients d d' → AllValid d' → AllValid d
AllValid-SameClients d d' (q, r) v = rw (q, r) v

count_clients-SameClients : (n i : ℕ) (d : EngineDispatcher) → SameClients (count_clients i n d) d
unfolding count_clients
count_clients-SameClients zero i d = (refl, refl)
count_clients-SameClients (suc n) i d =
    let rest : (d' : EngineDispatcher) → SameClients (count_clients (i + 1) n d') d' =
      count_clients-SameClients n (i + 1) in
    elim (Bool-cases (d.client_registered i)) [
      | inl e ↦
          rw (e, count_clients)
            (rest (record d { sole_client_id = i; registered_count = d.registered_count + 1 }))
      | inr e ↦ rw (e, count_clients) (rest d)
    ]

pub update_client_count-SameClients : (d : EngineDispatcher) → SameClients (update_client_count d) d
unfolding update_client_count
update_client_count-SameClients d = count_clients-SameClients 256 0 _

module _ (d : EngineDispatcher) (c : ℕ) (q : CompletionQueue) where
  pub view-put_queue_ne : (c' : ℕ) → c ≢ c' → view (put_queue c q d) c' ≡ view d c'
  view-put_queue_ne c' ne = rw (update_ne d.client_queues c c' q ne) refl

  module _ (on : d.client_registered c ≡ true) where
    pub view-put_queue : view (put_queue c q d) c ≡ some (contents q)
    view-put_queue = rw (on, update_self d.client_queues c q) refl

    pub AllValid-put_queue : AllValid d → IsValid q → AllValid (put_queue c q d)
    AllValid-put_queue all v c' on' = elim (Bool-cases (c == c')) [
      | inl e ↦ let same : c ≡ c' = ground (arith, e) in rw e v
      | inr e ↦ rw e (all c' on')
    ]
