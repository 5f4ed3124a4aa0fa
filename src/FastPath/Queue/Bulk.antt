-- ===== src/FastPath/Queue/Bulk.antt =====
-- The bulk push against one push after another.
use gpu_rotation_engine.Base.{
  ℕ, zero, suc, ◌+◌, ◌-◌, ◌<◌, ◌^◌, ◌≡◌, refl, sym, ap, ◌∙◌, Bool, true, false, List, [], ◌∷◌,
  arith, min, length, take, take_all, if◌then◌else◌, ltb, ◌==◌, ltb_cases, inl, inr,
}
use gpu_rotation_engine.FastPath.Response.{FastPathResponse}
use gpu_rotation_engine.FastPath.Ring.{u32_add, u32_sub, write_all}
use gpu_rotation_engine.FastPath.Queue.{
  CompletionQueue, size, IsValid, push, push_some, push_bulk, u64_add,
}
use gpu_rotation_engine.FastPath.Queue.Room.{slot, extended, extended-IsValid, size-extended}
use gpu_rotation_engine.FastPath.Queue.Fifo.{full_is}

unfoldable pub push_each : List FastPathResponse → CompletionQueue → CompletionQueue × ℕ
push_each [] q = (q, 0)
push_each (r ∷ rs) q =
    let (q', ok) = push r q in let (q'', n) = push_each rs q' in (q'', if ok then 1 + n else n)

abbrev state : (ℕ → FastPathResponse) → ℕ → ℕ → ℕ → CompletionQueue → CompletionQueue
state b t e d q = record q { buf = b; tail = t; enqueued = e; queue_full_drops = d }

-- What either way leaves, and counts, where there is room for `a` responses.
abbrev filled : ℕ → List FastPathResponse → CompletionQueue → CompletionQueue × ℕ
filled a rs q = (
  state (write_all (slot q) q.buf q.tail (take a rs)) (u32_add q.tail (min (length rs) a))
      (u64_add q.enqueued (min (length rs) a)) (u64_add q.queue_full_drops (length rs - a)) q,
  min (length rs) a,
)

-- The counters are words of 64 bits.
abbrev pub CountersFit : CompletionQueue → Type 0
CountersFit q = (q.enqueued < 2 ^ 64) × (q.queue_full_drops < 2 ^ 64)

state_eq :
    (q : CompletionQueue) {b b' : ℕ → FastPathResponse} {t t' e e' d d' n n' : ℕ}
    → b ≡ b'
    → t ≡ t'
    → e ≡ e'
    → d ≡ d'
    → n ≡ n'
    → ◌≡◌ {A = CompletionQueue × ℕ} (state b t e d q, n) (state b' t' e' d' q, n')
state_eq q hb ht he hd hn = cc

push_each-filled :
    (rs : List FastPathResponse) (a : ℕ) (q : CompletionQueue)
    → IsValid q
    → CountersFit q
    → size q + a ≡ 65536
    → push_each rs q ≡ filled a rs q
unfolding push_each push size write_all
push_each-filled [] a q v (he, hd) room =
    let z : min 0 a ≡ 0 = omega arith in
    let no_write : q.buf ≡ write_all (slot q) q.buf q.tail (take a []) =
      ap (write_all (slot q) q.buf q.tail) (sym (take_all a [] (omega arith))) in
    state_eq q no_write (omega (arith, v.tail_lt)) (omega arith) (omega arith) (omega arith)
push_each-filled (r ∷ rs) zero q v (he, hd) room =
    let q' : CompletionQueue = record q { queue_full_drops = u64_add q.queue_full_drops 1 } in
    let v' : IsValid q' = record {
      head_lt = v.head_lt;
      tail_lt = v.tail_lt;
      capacity_is = v.capacity_is;
      size_le = v.size_le;
    } in
    let rest : push_each rs q' ≡ filled 0 rs q' =
      push_each-filled rs zero q' v' (he, omega arith) room in
    let full : ltb (size q) 65536 ≡ false = ground (arith, room) in
    rw (full_is q v false full)
      (rest ∙ state_eq q refl (omega arith) (omega arith) (omega arith) (omega arith))
push_each-filled (r ∷ rs) (suc a) q v (he, hd) room =
    let q' : CompletionQueue = extended (r ∷ []) (u64_add q.enqueued 1) q.queue_full_drops q in
    let v' : IsValid q' = extended-IsValid q v (r ∷ []) _ _ (omega (arith, room)) in
    let room' : size q' + a ≡ 65536 = omega (
      arith,
      size-extended q v (r ∷ []) (u64_add q.enqueued 1) q.queue_full_drops (omega (arith, room)),
      room,
    ) in
    let rest : push_each rs q' ≡ filled a rs q' =
      push_each-filled rs a q' v' (omega arith, hd) room' in
    let free : ltb (size q) 65536 ≡ true = ground (arith, room) in
    rw (full_is q v true free) (
      ap (λ p. (p.0, 1 + p.1)) rest
      ∙ state_eq q refl (omega arith) (omega arith) (omega arith) (omega arith))

push_some-filled :
    (rs : List FastPathResponse) (a : ℕ) (q : CompletionQueue)
    → CountersFit q
    → push_some rs a q ≡ filled a rs q
unfolding push_some
push_some-filled rs a q (he, hd) = elim (ltb_cases (length rs) a) [
  | inl (lt, e) ↦
      let no_drop : ltb (length rs) (length rs) ≡ false = ground arith in
      let all : min (length rs) a ≡ length rs = omega (arith, lt) in
      let same : take (length rs) rs ≡ take a rs =
        take_all (length rs) rs (omega arith) ∙ sym (take_all a rs (omega (arith, lt))) in
      rw (e, no_drop)
        (state_eq q (ap (write_all (slot q) q.buf q.tail) same) (ap (u32_add q.tail) (sym all))
          (ap (u64_add q.enqueued) (sym all)) (omega (arith, lt, hd)) (sym all))
  | inr (le, e) ↦
      let some_left : min (length rs) a ≡ a = omega (arith, le) in
      rw e (
        state_eq q refl (ap (u32_add q.tail) (sym some_left))
          (ap (u64_add q.enqueued) (sym some_left)) (ground arith) (sym some_left))
]

push_bulk-filled :
    (rs : List FastPathResponse) (q : CompletionQueue)
    → IsValid q
    → CountersFit q
    → push_bulk rs q ≡ filled (65536 - size q) rs q
unfolding push_bulk size write_all
push_bulk-filled rs q v (he, hd) = go (u32_sub q.capacity (size q) == 0) refl
  where
    room_is : 65536 - size q ≡ u32_sub q.capacity (size q)
    room_is = omega (arith, v.capacity_is, v.size_le)

    go :
        (b : Bool)
        → (u32_sub q.capacity (size q) == 0) ≡ b
        → push_bulk rs q ≡ filled (65536 - size q) rs q
    go true e =
        let none : u32_sub q.capacity (size q) ≡ 0 = ground (arith, e) in
        let full : 65536 - size q ≡ 0 = omega (arith, room_is, none) in
        rw (full, e)
          (state_eq q refl (omega (arith, v.tail_lt)) (omega (arith, he)) (omega arith)
            (omega arith))
    go false e = rw (room_is, e) (push_some-filled rs (u32_sub q.capacity (size q)) q (he, hd))

-- On a valid queue whose counters are words of 64 bits, the bulk push of a list leaves the queue, its
-- array and its counters included, as it is left by pushing the list's responses one by one, and
-- returns how many of those pushes were accepted.
pub push_bulk-eq-push_each :
    (rs : List FastPathResponse) (q : CompletionQueue)
    → IsValid q
    → CountersFit q
    → push_bulk rs q ≡ push_each rs q
push_bulk-eq-push_each rs q v fit =
    push_bulk-filled rs q v fit
    ∙ sym (push_each-filled rs (65536 - size q) q v fit (omega (arith, v.size_le)))
