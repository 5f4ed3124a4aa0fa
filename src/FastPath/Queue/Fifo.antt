-- ===== src/FastPath/Queue/Fifo.antt =====
-- The queue does what the bounded list does.
use gpu_rotation_engine.Base.{
  ℕ, ◌+◌, ◌-◌, ◌≤◌, ◌≡◌, refl, sym, ap, ◌∙◌, subst, Bool, true, false, not, List, [], ◌∷◌, ◌++◌,
  arith, min, length, take, drop, if◌then◌else◌, leb, ltb, ◌==◌, ltb_cases, inl, inr, length-take,
  take_all, drop_all, append-nil,
}
use gpu_rotation_engine.FastPath.Response.{FastPathResponse}
use gpu_rotation_engine.FastPath.Ring.{u32_add, u32_sub, write_all}
use gpu_rotation_engine.FastPath.Queue.{
  CompletionQueue, size, contents, IsValid, push, push_some, push_bulk, pop, pop_count_only,
  u64_add,
}
use gpu_rotation_engine.FastPath.Queue.Room.{
  slot, advanced, length-contents, extended-IsValid, contents-extended, advanced-IsValid,
  take-contents, drop-contents,
}
use gpu_rotation_engine.FastPath.Queue.Calls.{
  Call, Answer, call, calls, list_call, list_calls, Refines,
}

module _ (q : CompletionQueue) (v : IsValid q) where
  pub full_is : (b : Bool) → ltb (size q) 65536 ≡ b → leb q.capacity (size q) ≡ not b
  full_is b e = subst (λ c. leb c (size q) ≡ not b) (sym v.capacity_is) (flip b e)
    where
      flip : (b : Bool) → ltb (size q) 65536 ≡ b → leb 65536 (size q) ≡ not b
      flip true e = ground (arith, e)
      flip false e = ground (arith, e)

  fill :
      (xs ys : List FastPathResponse) (n m e d : ℕ) (a : ℕ → Answer)
      → n ≡ length xs
      → xs ≡ ys
      → n ≡ m
      → size q + n ≤ 65536
      → Refines
          (
            record q {
              buf = write_all (slot q) q.buf q.tail xs;
              tail = u32_add q.tail n;
              enqueued = e;
              queue_full_drops = d;
            },
            a n,
          )
          (contents q ++ ys, a m)
  fill xs ys n m e d a len same eq fits =
      subst
        (λ k.
          Refines
            (
              record q {
                buf = write_all (slot q) q.buf q.tail xs;
                tail = u32_add q.tail k;
                enqueued = e;
                queue_full_drops = d;
              },
              a n,
            )
            (contents q ++ ys, a m))
        (sym len)
        (let fits' : size q + length xs ≤ 65536 = omega (arith, fits, len) in
          (
            extended-IsValid q v xs e d fits',
            contents-extended q v xs e d fits' ∙ ap (λ zs. contents q ++ zs) same,
            ap a eq,
          ))

  push_some-Refines :
      (rs : List FastPathResponse) (available : ℕ)
      → size q + available ≡ 65536
      → Refines
          (let (q', n) = push_some rs available q in (q', Answer.pushed n))
          (contents q ++ take available rs, Answer.pushed (min (length rs) available))
  unfolding push_some
  push_some-Refines rs available room =
      let n : ℕ = if ltb (length rs) available then length rs else available in
      let is_min : n ≡ min (length rs) available = ground arith in
      let len : n ≡ length (take n rs) = omega (arith, is_min, length-take n rs) in
      fill (take n rs) (take available rs) n (min (length rs) available) _ _ Answer.pushed len
        (elim (ltb_cases (length rs) available) [
          | inl (lt, e) ↦
              let f : n ≡ length rs = omega (arith, is_min, lt) in
              ap (λ k. take k rs) f
              ∙ take_all (length rs) rs (omega arith)
              ∙ sym (take_all available rs (omega (arith, lt)))
          | inr (le, e) ↦ ap (λ k. take k rs) (omega (arith, is_min, le))
        ])
        is_min (omega (arith, is_min, room))

  drops-Refines :
      (d : ℕ) (a : Answer) → Refines (record q { queue_full_drops = d }, a) (contents q, a)
  unfolding contents size
  drops-Refines d a = (
    record {
      head_lt = v.head_lt;
      tail_lt = v.tail_lt;
      capacity_is = v.capacity_is;
      size_le = v.size_le;
    },
    refl,
    refl,
  )

  offer-Refines :
      (r : FastPathResponse)
      → Refines (call (Call.offer r) q) (list_call (Call.offer r) (contents q))
  unfolding call push size write_all
  offer-Refines r = go (ltb (size q) 65536) refl
    where
      go :
          (b : Bool)
          → ltb (size q) 65536 ≡ b
          → Refines (call (Call.offer r) q) (list_call (Call.offer r) (contents q))
      go true e =
          rw (length-contents q v, e, full_is true e)
            (fill (r ∷ []) (r ∷ []) 1 1 (u64_add q.enqueued 1) q.queue_full_drops
              (λ n. Answer.accepted true) refl refl refl (ground (arith, e)))
      go false e = rw (length-contents q v, e, full_is false e) (drops-Refines _ _)

  pub offer_all-Refines :
      (rs : List FastPathResponse)
      → Refines (call (Call.offer_all rs) q) (list_call (Call.offer_all rs) (contents q))
  unfolding call push_bulk size
  offer_all-Refines rs = go (u32_sub q.capacity (size q) == 0) refl
    where
      room : size q + u32_sub q.capacity (size q) ≡ 65536
      room = omega (arith, v.capacity_is, v.size_le)

      go :
          (b : Bool)
          → (u32_sub q.capacity (size q) == 0) ≡ b
          → Refines (call (Call.offer_all rs) q) (list_call (Call.offer_all rs) (contents q))
      go true e =
          let none_left : u32_sub q.capacity (size q) ≡ 0 = ground (arith, e) in
          let full : 65536 - length (contents q) ≡ 0 =
            omega (arith, length-contents q v, room, none_left) in
          let zero_min : 0 ≡ min (length rs) 0 = omega arith in
          let (w, same, eq) =
            drops-Refines (u64_add q.queue_full_drops (length rs)) (Answer.pushed 0) in
          rw (full, e) (w, same ∙ sym (append-nil (contents q)), ap Answer.pushed zero_min)
      go false e =
          let left : 65536 - length (contents q) ≡ u32_sub q.capacity (size q) =
            omega (arith, length-contents q v, room) in
          rw (left, e) (push_some-Refines rs (u32_sub q.capacity (size q)) room)

  -- Both kinds of pop: what is left, and any answer made of the number taken.
  take-Refines :
      (n m : ℕ) (a b : Answer)
      → m ≤ size q
      → drop m (contents q) ≡ drop n (contents q)
      → a ≡ b
      → Refines (advanced m q, a) (drop n (contents q), b)
  take-Refines n m a b le same eq =
      (advanced-IsValid q v m le, sym (drop-contents q v m le) ∙ same, eq)

  module _ (n : ℕ) where
    to_take : ℕ
    to_take = if ltb (size q) n then size q else n

    taken :
        (to_take ≤ size q)
        × (drop to_take (contents q) ≡ drop n (contents q))
        × (take to_take (contents q) ≡ take n (contents q))
        × (to_take ≡ min n (length (contents q)))
    unfolding to_take
    taken = elim (ltb_cases (size q) n) [
      | inl (lt, e) ↦
          let len : length (contents q) ≤ size q = omega (arith, length-contents q v) in
          let len' : length (contents q) ≤ n = omega (arith, len, lt) in
          rw e (
            omega arith,
            drop_all (size q) _ len ∙ sym (drop_all n _ len'),
            take_all (size q) _ len ∙ sym (take_all n _ len'),
            omega (arith, length-contents q v, lt),
          )
      | inr (le, e) ↦ rw e (le, refl, refl, omega (arith, length-contents q v, le))
    ]

    nothing : size q ≡ 0 → (drop n (contents q) ≡ contents q) × (take n (contents q) ≡ [])
    nothing none = go (contents q) (length-contents q v ∙ none)
      where
        go : (xs : List FastPathResponse) → length xs ≡ 0 → (drop n xs ≡ xs) × (take n xs ≡ [])
        go [] len = (drop_all n [] (omega arith), take_all n [] (omega arith))
        go (x ∷ xs) len = absurd (omega arith)

    pub fetch-Refines : Refines (call (Call.fetch n) q) (list_call (Call.fetch n) (contents q))
    unfolding call pop size to_take
    fetch-Refines = go (size q == 0) refl
      where
        go :
            (b : Bool)
            → (size q == 0) ≡ b
            → Refines (call (Call.fetch n) q) (list_call (Call.fetch n) (contents q))
        go true e =
            let none : size q ≡ 0 = ground (arith, e) in
            rw e (v, sym (nothing none).0, ap Answer.popped (sym (nothing none).1))
        go false e = rw e (
            take-Refines n to_take _ _ taken.0 taken.1
              (ap Answer.popped (sym (take-contents q v to_take taken.0) ∙ taken.2)))

    pub skip-Refines : Refines (call (Call.skip n) q) (list_call (Call.skip n) (contents q))
    unfolding call pop_count_only size to_take
    skip-Refines = go (size q == 0) refl
      where
        go :
            (b : Bool)
            → (size q == 0) ≡ b
            → Refines (call (Call.skip n) q) (list_call (Call.skip n) (contents q))
        go true e =
            let none : size q ≡ 0 = ground (arith, e) in
            let zero_min : 0 ≡ min n (length (contents q)) =
              omega (arith, none, length-contents q v) in
            rw e (v, sym (nothing none).0, ap Answer.counted zero_min)
        go false e = rw e (take-Refines n to_take _ _ taken.0 taken.1 (ap Answer.counted taken.3))

pub call-Refines :
    (c : Call) (q : CompletionQueue) → IsValid q → Refines (call c q) (list_call c (contents q))
call-Refines (Call.offer r) q v = offer-Refines q v r
call-Refines (Call.offer_all rs) q v = offer_all-Refines q v rs
call-Refines (Call.fetch n) q v = fetch-Refines q v n
call-Refines (Call.skip n) q v = skip-Refines q v n

-- Whatever calls are made on a valid queue, in whatever order, it stays valid, its answers are those
-- of a list of at most 65536 responses that is added to behind and taken from in front, and what it
-- holds in the end is what that list holds.
pub calls-refine-list_calls :
    (cs : List Call) (q : CompletionQueue)
    → IsValid q
    → IsValid (calls cs q).0
      × (contents (calls cs q).0 ≡ (list_calls cs (contents q)).0)
      × ((calls cs q).1 ≡ (list_calls cs (contents q)).1)
unfolding calls list_calls
calls-refine-list_calls [] q v = (v, refl, refl)
calls-refine-list_calls (c ∷ cs) q v =
    let (v', e, f) = call-Refines c q v in
    let (v'', g, h) = calls-refine-list_calls cs (call c q).0 v' in
    (
      v'',
      g ∙ ap (λ xs. (list_calls cs xs).0) e,
      ap (◌∷◌ (call c q).1) h
          ∙ ap (λ a. a ∷ (list_calls cs (contents (call c q).0)).1) f
          ∙ ap (λ xs. (list_call c (contents q)).1 ∷ (list_calls cs xs).1) e,
    )
