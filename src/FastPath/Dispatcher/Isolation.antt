-- ===== src/FastPath/Dispatcher/Isolation.antt =====
-- A client of the dispatcher against a list of its own responses that no other client touches.
use gpu_rotation_engine.Base.{
  ℕ, ◌≡◌, refl, sym, ap, ◌∙◌, Bool, true, false, Option, none, some, List, [], ◌∷◌, ◌++◌, arith,
  min, length, take, take_all, drop, update, if◌then◌else◌, ◌==◌, ==_refl, Bool-cases, inl, inr,
}
use gpu_rotation_engine.FastPath.Response.{FastPathResponse}
use gpu_rotation_engine.FastPath.Ring.{window}
use gpu_rotation_engine.FastPath.Queue.{CompletionQueue, contents, IsValid, size, init}
use gpu_rotation_engine.FastPath.Queue.Calls.{Answer, call}
use gpu_rotation_engine.FastPath.Queue.Fifo.{fetch-Refines, skip-Refines}
use gpu_rotation_engine.FastPath.Dispatcher.{
  EngineDispatcher, register_client, deregister_client, pop_for_client, pop_count_only_for_client,
  route_round, put_queue, update_client_count,
}
use gpu_rotation_engine.FastPath.Dispatcher.View.{
  view, AllValid, SameClients, AllValid-SameClients, view-SameClients, AllValid-put_queue,
  update_client_count-SameClients,
}
use gpu_rotation_engine.FastPath.Dispatcher.Routing.{of_client, deliver_to, route_round-delivers}

-- What happens to a dispatcher whose rounds read full responses.
pub data Step : Type 0 where
  register : ℕ → Step
  deregister : ℕ → Step
  fetch : ℕ → ℕ → Step
  skip : ℕ → ℕ → Step
  round : List FastPathResponse → Step

-- One step, and what the client `c` is answered by it.
unfoldable pub step : ℕ → Step → EngineDispatcher → EngineDispatcher × List Answer
step c (Step.register c') d = (register_client c' d, [])
step c (Step.deregister c') d = (deregister_client c' d, [])
step c (Step.fetch c' n) d =
    let (d', out) = pop_for_client c' n d in (d', if c' == c then Answer.popped out ∷ [] else [])
step c (Step.skip c' n) d =
    let (d', k) = pop_count_only_for_client c' n d in
    (d', if c' == c then Answer.counted k ∷ [] else [])
step c (Step.round raw) d = (route_round raw d, [])

unfoldable pub steps : ℕ → List Step → EngineDispatcher → EngineDispatcher × List Answer
steps c [] d = (d, [])
steps c (s ∷ ss) d =
    let (d', now) = step c s d in let (d'', later) = steps c ss d' in (d'', now ++ later)

abbrev waiting : Option (List FastPathResponse) → List FastPathResponse
waiting none = []
waiting (some xs) = xs

abbrev drop_from : ℕ → Option (List FastPathResponse) → Option (List FastPathResponse)
drop_from n none = none
drop_from n (some xs) = some (drop n xs)

-- The same for the client alone, of whom no more is known than what waits for it.
abbrev pub client_step :
    ℕ → Step → Option (List FastPathResponse) → Option (List FastPathResponse) × List Answer
client_step c (Step.register c') o = (if c' == c then some [] else o, [])
client_step c (Step.deregister c') o = (if c' == c then none else o, [])
client_step c (Step.fetch c' n) o =
    if c' == c then (drop_from n o, Answer.popped (take n (waiting o)) ∷ []) else (o, [])
client_step c (Step.skip c' n) o =
    if c' == c then (drop_from n o, Answer.counted (min n (length (waiting o))) ∷ []) else (o, [])
client_step c (Step.round raw) o = (deliver_to (of_client c raw) o, [])

unfoldable pub client_steps :
    ℕ → List Step → Option (List FastPathResponse) → Option (List FastPathResponse) × List Answer
client_steps c [] o = (o, [])
client_steps c (s ∷ ss) o =
    let (o', now) = client_step c s o in
    let (o'', later) = client_steps c ss o' in (o'', now ++ later)

-- What a step has to show.
abbrev Follows :
    ℕ → EngineDispatcher × List Answer → Option (List FastPathResponse) × List Answer → Type 0
Follows c (d, now) (o, now') = AllValid d × (view d c ≡ o) × (now ≡ now')

module _ (c : ℕ) (d : EngineDispatcher) (v : AllValid d) where
  -- A call on the queue of `c'` that takes `n` off it.
  module _ (c' n : ℕ) (answer : List FastPathResponse → Answer) where
    refused :
        (a : Answer)
        → d.client_registered c' ≡ false
        → a ≡ answer []
        → Follows c
            (d, if c' == c then a ∷ [] else [])
            (if c' == c
              then (drop_from n (view d c), answer (waiting (view d c)) ∷ [])
              else (view d c, []))
    refused a off eq = elim (Bool-cases (c' == c)) [
      | inl e ↦
          let same : c ≡ c' = ground (arith, e) in
          rw (same, ==_refl c', off) (v, refl, ap (λ b. b ∷ []) eq)
      | inr e ↦ rw e (v, refl, refl)
    ]

    granted :
        (q : CompletionQueue) (a : Answer)
        → d.client_registered c' ≡ true
        → IsValid q
        → contents q ≡ drop n (contents (d.client_queues c'))
        → a ≡ answer (contents (d.client_queues c'))
        → Follows c
            (put_queue c' q d, if c' == c then a ∷ [] else [])
            (if c' == c
              then (drop_from n (view d c), answer (waiting (view d c)) ∷ [])
              else (view d c, []))
    granted q a on w left eq = elim (Bool-cases (c' == c)) [
      | inl e ↦
          let same : c ≡ c' = ground (arith, e) in
          rw (same, ==_refl c', on)
            (AllValid-put_queue d c' q on v w, ap some left, ap (λ b. b ∷ []) eq)
      | inr e ↦ rw e (AllValid-put_queue d c' q on v w, refl, refl)
    ]

  fetch-Follows :
      (c' n : ℕ)
      → Follows c (step c (Step.fetch c' n) d) (client_step c (Step.fetch c' n) (view d c))
  unfolding step pop_for_client call
  fetch-Follows c' n = elim (Bool-cases (d.client_registered c')) [
    | inl on ↦
        let (w, left, eq) = fetch-Refines (d.client_queues c') (v c' on) n in
        rw on (granted c' n (λ xs. Answer.popped (take n xs)) _ _ on w left eq)
    | inr off ↦ rw off (
        refused c' n (λ xs. Answer.popped (take n xs)) _ off
          (ap Answer.popped (sym (take_all n [] (omega arith)))))
  ]

  skip-Follows :
      (c' n : ℕ) → Follows c (step c (Step.skip c' n) d) (client_step c (Step.skip c' n) (view d c))
  unfolding step pop_count_only_for_client call
  skip-Follows c' n = elim (Bool-cases (d.client_registered c')) [
    | inl on ↦
        let (w, left, eq) = skip-Refines (d.client_queues c') (v c' on) n in
        rw on (granted c' n (λ xs. Answer.counted (min n (length xs))) _ _ on w left eq)
    | inr off ↦ rw off (
        refused c' n (λ xs. Answer.counted (min n (length xs))) _ off
          (ap Answer.counted (omega arith)))
  ]

  -- A client's queue and registration set anew.
  module _ (c' : ℕ) (q : CompletionQueue) (b : Bool) where
    abbrev renewed : EngineDispatcher
    renewed = record d {
      client_queues = update d.client_queues c' q;
      client_registered = update d.client_registered c' b;
    }

    renewed-AllValid : (b ≡ true → IsValid q) → AllValid renewed
    renewed-AllValid w c'' on = elim (Bool-cases (c' == c'')) [
      | inl e ↦ let on' : b ≡ true = rw e at on in rw e (w on')
      | inr e ↦ let on' : d.client_registered c'' ≡ true = rw e at on in rw e (v c'' on')
    ]

    renewed-Follows :
        (b ≡ true → IsValid q)
        → Follows c
            (update_client_count renewed, [])
            (if c' == c then (if b then some (contents q) else none) else view d c, [])
    renewed-Follows w =
        let same : SameClients (update_client_count renewed) renewed =
          update_client_count-SameClients renewed in
        (
          AllValid-SameClients (update_client_count renewed) renewed same (renewed-AllValid w),
          view-SameClients (update_client_count renewed) renewed same c ∙ seen,
          refl,
        )
      where
        seen :
            view renewed c ≡ (if c' == c then (if b then some (contents q) else none) else view d c)
        seen = elim (Bool-cases (c' == c)) [ inl e ↦ rw e refl | inr e ↦ rw e refl ]

  register-Follows :
      (c' : ℕ)
      → Follows c (step c (Step.register c') d) (client_step c (Step.register c') (view d c))
  unfolding step register_client init contents size window
  register-Follows c' = renewed-Follows c' (init 65536 (d.client_queues c')) true (λ _. record {
    head_lt = omega arith;
    tail_lt = omega arith;
    capacity_is = refl;
    size_le = omega arith;
  })

  deregister-Follows :
      (c' : ℕ)
      → Follows c (step c (Step.deregister c') d) (client_step c (Step.deregister c') (view d c))
  unfolding step deregister_client
  deregister-Follows c' =
      renewed-Follows c' (record (d.client_queues c') { head = 0; tail = 0 }) false
        (λ on. absurd (cc))

step-Follows :
    (c : ℕ) (s : Step) (d : EngineDispatcher)
    → AllValid d
    → Follows c (step c s d) (client_step c s (view d c))
unfolding step
step-Follows c (Step.register c') d v = register-Follows c d v c'
step-Follows c (Step.deregister c') d v = deregister-Follows c d v c'
step-Follows c (Step.fetch c' n) d v = fetch-Follows c d v c' n
step-Follows c (Step.skip c' n) d v = skip-Follows c d v c' n
step-Follows c (Step.round raw) d v =
    let (v', same, views) = route_round-delivers raw d v in (v', views c, refl)

-- Whatever registrations, pops and rounds of full responses a dispatcher goes through, every
-- registered client's queue stays valid, and what waits for a client, and what its pops answer, are
-- those of a list of its own: one that its registration empties, to which each round adds the
-- responses with its id, up to 65536, and from the front of which its own pops take.
pub steps-Follows :
    (c : ℕ) (ss : List Step) (d : EngineDispatcher)
    → AllValid d
    → AllValid (steps c ss d).0
      × (view (steps c ss d).0 c ≡ (client_steps c ss (view d c)).0)
      × ((steps c ss d).1 ≡ (client_steps c ss (view d c)).1)
unfolding steps client_steps
steps-Follows c [] d v = (v, refl, refl)
steps-Follows c (s ∷ ss) d v =
    let (v', e, f) = step-Follows c s d v in
    let (v'', g, h) = steps-Follows c ss (step c s d).0 v' in
    (
      v'',
      g ∙ ap (λ o. (client_steps c ss o).0) e,
      ap (◌++◌ (step c s d).1) h
          ∙ ap (λ a. a ++ (client_steps c ss (view (step c s d).0 c)).1) f
          ∙ ap (λ o. (client_step c s (view d c)).1 ++ (client_steps c ss o).1) e,
    )
