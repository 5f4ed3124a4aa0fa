-- ===== src/FastPath/Dispatcher/Routing.antt =====
-- Where the responses of a round go.
use gpu_rotation_engine.Base.{
  ℕ, ◌-◌, ◌≡◌, refl, sym, ap, ◌∙◌, Bool, true, false, Option, none, some, List, [], ◌∷◌, ◌++◌,
  arith, length, take, if◌then◌else◌, ◌==◌, ltb, ==_refl, Bool-cases, inl, inr, append_assoc,
  append-nil, length-append, take_all, take-append,
}
use gpu_rotation_engine.FastPath.Response.{FastPathResponse}
use gpu_rotation_engine.FastPath.Queue.{CompletionQueue, u64_add, contents, IsValid}
use gpu_rotation_engine.FastPath.Queue.Fifo.{offer_all-Refines}
use gpu_rotation_engine.FastPath.Queue.Calls.{Call, call}
use gpu_rotation_engine.FastPath.Dispatcher.{
  EngineDispatcher, Run, put_queue, extend_run, runs_of, route_run, route_runs, route_round,
}
use gpu_rotation_engine.FastPath.Dispatcher.View.{
  view, AllValid, SameClients, AllValid-SameClients, view-SameClients, AllValid-put_queue,
}

-- The responses that carry a client's id, in their order.
abbrev pub of_client : ℕ → List FastPathResponse → List FastPathResponse
of_client c [] = []
of_client c (r ∷ rs) = if r.client_id == c then r ∷ of_client c rs else of_client c rs

-- What a registered client has once `xs` has come in for it: as much as fits, the rest is lost.
abbrev pub deliver : List FastPathResponse → List FastPathResponse → List FastPathResponse
deliver xs held = held ++ take (65536 - length held) xs

abbrev pub deliver_to :
    List FastPathResponse → Option (List FastPathResponse) → Option (List FastPathResponse)
deliver_to xs none = none
deliver_to xs (some held) = some (deliver xs held)

deliver-append :
    (xs ys held : List FastPathResponse) → deliver ys (deliver xs held) ≡ deliver (xs ++ ys) held
deliver-append xs ys held =
    append_assoc held (take (65536 - length held) xs) _
    ∙ ap (◌++◌ held) (
        ap (λ n. take (65536 - length held) xs ++ take n ys) left
        ∙ sym (take-append (65536 - length held) xs ys))
  where
    left :
        65536 - length (held ++ take (65536 - length held) xs)
        ≡ 65536 - length held - length (take (65536 - length held) xs)
    left = omega (arith, length-append held (take (65536 - length held) xs))

-- The responses of the runs of one client.
abbrev of_runs : ℕ → List Run → List FastPathResponse
of_runs c [] = []
of_runs c ((c', rs) ∷ runs) = if c' == c then rs ++ of_runs c runs else of_runs c runs

of_runs-extend_run :
    (c : ℕ) (r : FastPathResponse) (runs : List Run)
    → of_runs c (extend_run r runs)
      ≡ (if r.client_id == c then r ∷ of_runs c runs else of_runs c runs)
unfolding extend_run
of_runs-extend_run c r [] = refl
of_runs-extend_run c r ((c', rs) ∷ runs) = elim (Bool-cases (r.client_id == c')) [
  | inl e ↦
      let same : c' ≡ r.client_id = ground (arith, e) in
      elim (Bool-cases (r.client_id == c)) [
        | inl f ↦ rw (e, same, f) refl
        | inr f ↦ rw (e, same, f) refl
      ]
  | inr e ↦ rw e refl
]

of_runs-runs_of : (c : ℕ) (raw : List FastPathResponse) → of_runs c (runs_of raw) ≡ of_client c raw
unfolding runs_of
of_runs-runs_of c [] = refl
of_runs-runs_of c (r ∷ rs) =
    of_runs-extend_run c r (runs_of rs)
    ∙ ap (λ xs. if r.client_id == c then r ∷ xs else xs) (of_runs-runs_of c rs)

deliver_to_nil : (o : Option (List FastPathResponse)) → deliver_to [] o ≡ o
deliver_to_nil none = refl
deliver_to_nil (some held) =
    ap some (ap (◌++◌ held) (take_all (65536 - length held) [] (omega arith)) ∙ append-nil held)

deliver_to_if :
    (b : Bool) (xs ys : List FastPathResponse) (o : Option (List FastPathResponse))
    → deliver_to ys (deliver_to (if b then xs else []) o)
      ≡ deliver_to (if b then xs ++ ys else ys) o
deliver_to_if true xs ys none = refl
deliver_to_if true xs ys (some held) = ap some (deliver-append xs ys held)
deliver_to_if false xs ys o = ap (deliver_to ys) (deliver_to_nil o)

-- One turn: the run's client has it delivered, no other client is touched.
module _ (c : ℕ) (rs : List FastPathResponse) (d : EngineDispatcher) (n : ℕ) (v : AllValid d) where
  queue' : CompletionQueue
  queue' = (call (Call.offer_all rs) (d.client_queues c)).0

  after_on : d.client_registered c ≡ true → (route_run (c, rs) (d, n)).0 ≡ put_queue c queue' d
  unfolding route_run queue' call
  after_on e = rw e refl

  after_off :
      d.client_registered c ≡ false
      → (route_run (c, rs) (d, n)).0
        ≡ record d { unknown_client = u64_add d.unknown_client (length rs) }
  unfolding route_run
  after_off e = rw e refl

  module _ (on : d.client_registered c ≡ true) where
    filled : IsValid queue' × (contents queue' ≡ deliver rs (contents (d.client_queues c)))
    unfolding queue'
    filled = let (w, same, eq) = offer_all-Refines (d.client_queues c) (v c on) rs in (w, same)

  route_run-AllValid :
      AllValid (route_run (c, rs) (d, n)).0
      × ((route_run (c, rs) (d, n)).0.client_registered ≡ d.client_registered)
  route_run-AllValid = elim (Bool-cases (d.client_registered c)) [
    | inl e ↦ rw (after_on e) (AllValid-put_queue d c queue' e v (filled e).0, refl)
    | inr e ↦ rw (after_off e) (v, refl)
  ]

  route_run-view :
      (c' : ℕ)
      → view (route_run (c, rs) (d, n)).0 c' ≡ deliver_to (if c == c' then rs else []) (view d c')
  route_run-view c' = elim (Bool-cases (d.client_registered c)) [
    | inl on ↦ elim (Bool-cases (c == c')) [
      | inl e ↦
          let same : c' ≡ c = ground (arith, e) in
          rw (after_on on, same, ==_refl c, on) (ap some (filled on).1)
      | inr e ↦ rw (after_on on, e) (sym (deliver_to_nil (view d c')))
    ]
    | inr off ↦ elim (Bool-cases (c == c')) [
      | inl e ↦ let same : c' ≡ c = ground (arith, e) in rw (after_off off, same, off) refl
      | inr e ↦ rw (after_off off, e) (sym (deliver_to_nil (view d c')))
    ]
  ]

route_runs-view :
    (runs : List Run) (d : EngineDispatcher) (n : ℕ)
    → AllValid d
    → AllValid (route_runs runs (d, n)).0
      × ((route_runs runs (d, n)).0.client_registered ≡ d.client_registered)
      × ((c : ℕ) → view (route_runs runs (d, n)).0 c ≡ deliver_to (of_runs c runs) (view d c))
unfolding route_runs
route_runs-view [] d n v = (v, refl, λ c. sym (deliver_to_nil (view d c)))
route_runs-view ((c', rs) ∷ runs) d n v =
    let s' : EngineDispatcher × ℕ = route_run (c', rs) (d, n) in
    let (v', same) = route_run-AllValid c' rs d n v in
    let (v'', same', views) = route_runs-view runs s'.0 s'.1 v' in
    (
      v'',
      same' ∙ same,
      λ c.
          views c
          ∙ ap (deliver_to (of_runs c runs)) (route_run-view c' rs d n v c)
          ∙ deliver_to_if (c' == c) rs (of_runs c runs) (view d c),
    )

abbrev begun : List FastPathResponse → EngineDispatcher → EngineDispatcher
begun raw d = record d {
  poll_rounds = u64_add d.poll_rounds 1;
  raw_polled = u64_add d.raw_polled (length raw);
}

route_round-SameClients :
    (raw : List FastPathResponse) (d : EngineDispatcher)
    → SameClients (route_round raw d) (route_runs (runs_of raw) (begun raw d, 0)).0
unfolding route_round route_runs runs_of
route_round-SameClients [] d = (refl, refl)
route_round-SameClients (r ∷ rs) d =
    let some_read : (length (r ∷ rs) == 0) ≡ false = ground arith in
    let routed : ℕ = (route_runs (runs_of (r ∷ rs)) (begun (r ∷ rs) d, 0)).1 in
    elim (Bool-cases (ltb 0 routed)) [
      | inl e ↦ rw (some_read, e) (refl, refl)
      | inr e ↦ rw (some_read, e) (refl, refl)
    ]

-- A round that reads full responses keeps every registered client's queue valid, registers and
-- deregisters no one, and leaves with each registered client what it had before followed by the
-- round's responses that carry its id, in their order, as many as there is room for up to 65536.
pub route_round-delivers :
    (raw : List FastPathResponse) (d : EngineDispatcher)
    → AllValid d
    → AllValid (route_round raw d)
      × ((route_round raw d).client_registered ≡ d.client_registered)
      × ((c : ℕ) → view (route_round raw d) c ≡ deliver_to (of_client c raw) (view d c))
route_round-delivers raw d v =
    let after : EngineDispatcher = (route_runs (runs_of raw) (begun raw d, 0)).0 in
    let same : SameClients (route_round raw d) after = route_round-SameClients raw d in
    let (v', registered, views) = route_runs-view (runs_of raw) (begun raw d) 0 v in
    (
      AllValid-SameClients (route_round raw d) after same v',
      same.1 ∙ registered,
      λ c.
          view-SameClients (route_round raw d) after same c
          ∙ views c
          ∙ ap (λ xs. deliver_to xs (view d c)) (of_runs-runs_of c raw),
    )
