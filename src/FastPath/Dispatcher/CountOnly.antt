-- ===== src/FastPath/Dispatcher/CountOnly.antt =====
-- The rounds of `EngineDispatcher` that only count: they do not look at the room in the queue.
use gpu_rotation_engine.Base.{
  ℕ, ◌+◌, ◌≤◌, ◌<◌, ◌≡◌, refl, true, false, List, arith, length, ltb, ◌==◌, ==_refl,
}
use gpu_rotation_engine.FastPath.Response.{FastPathResponse}
use gpu_rotation_engine.FastPath.Ring.{u32_add, u32_sub}
use gpu_rotation_engine.FastPath.Queue.{
  CompletionQueue, IsValid, size, push_bulk, push_some, u64_add,
}
use gpu_rotation_engine.FastPath.Dispatcher.{EngineDispatcher, count_round}

-- The sole client's queue after a round that counts `n` responses.
abbrev counted_queue : ℕ → EngineDispatcher → CompletionQueue
counted_queue n d = (count_round n d).client_queues d.sole_client_id

module _ (n : ℕ) (d : EngineDispatcher) (pos : 0 < n) where
  counted_is :
      (count_round n d).client_queues d.sole_client_id ≡ record (d.client_queues d.sole_client_id) {
        tail = u32_add (d.client_queues d.sole_client_id).tail n;
        enqueued = u64_add (d.client_queues d.sole_client_id).enqueued n;
      }
  unfolding count_round
  counted_is =
      let counts : ltb 0 n ≡ true = ground (arith, pos) in
      rw (counts, ==_refl d.sole_client_id) refl

  count_round-size :
      IsValid (d.client_queues d.sole_client_id)
      → n ≤ 8192
      → (size (counted_queue n d) ≡ size (d.client_queues d.sole_client_id) + n)
        × ((counted_queue n d).capacity ≡ 65536)
  unfolding size
  count_round-size v le =
      rw counted_is (omega (arith, v.head_lt, v.tail_lt, v.size_le, le), v.capacity_is)

push_bulk-overfull :
    (rs : List FastPathResponse) (q : CompletionQueue)
    → q.capacity ≡ 65536
    → 65536 < size q
    → size q ≤ 73728
    → length rs ≤ 8192
    → (push_bulk rs q).1 ≡ length rs
unfolding push_bulk push_some size
push_bulk-overfull rs q cap over le few =
    let room : ℕ = u32_sub q.capacity (size q) in
    let much : 8192 < room = omega (arith, cap, over, le) in
    let some_room : (room == 0) ≡ false = ground (arith, much) in
    let all : ltb (length rs) room ≡ true = ground (arith, much, few) in rw (some_room, all) refl

-- If the sole client's queue is valid and a round counts more responses, at most 8192, than the
-- queue has room for, then the queue says afterwards that it holds more than its capacity, it is not
-- valid any more, and a bulk push of up to 8192 responses is then accepted in full.
pub count_round-overfills :
    (n : ℕ) (rs : List FastPathResponse) (d : EngineDispatcher)
    → IsValid (d.client_queues d.sole_client_id)
    → n ≤ 8192
    → 65536 < size (d.client_queues d.sole_client_id) + n
    → length rs ≤ 8192
    → (65536 < size (counted_queue n d))
      × (IsValid (counted_queue n d) → ⊥)
      × ((push_bulk rs (counted_queue n d)).1 ≡ length rs)
count_round-overfills n rs d v le over few =
    let (sum, cap) = count_round-size n d (omega (arith, v.size_le, over)) v le in
    let full : 65536 < size (counted_queue n d) = omega (arith, sum, over) in
    (
      full,
      λ w. absurd (omega (arith, full, w.size_le)),
      push_bulk-overfull rs (counted_queue n d) cap full (omega (arith, sum, v.size_le, le)) few,
    )
