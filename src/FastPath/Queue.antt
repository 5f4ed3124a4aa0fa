-- ===== src/FastPath/Queue.antt =====
-- `CompletionQueue` of core/persistent_engine/engine_host.cpp: the bounded queue between the
-- dispatcher's thread and one client. Each operation is one step; `out` and the responses to push
-- are lists, and the count returned along with `out` is that list's length.
mod Room
pub mod Calls
pub mod Fifo
pub mod Bulk
use gpu_rotation_engine.Base.{
  ℕ, ◌+◌, ◌-◌, ◌%◌, ◌^◌, ◌≤◌, ◌<◌, ◌≡◌, ◌≢◌, refl, sym, ap, ◌∙◌, subst, Bool, true, false, List, [],
  ◌∷◌, ◌++◌, arith, length, take, update, if◌then◌else◌, leb, ltb, ◌==◌,
}
use gpu_rotation_engine.FastPath.Response.{FastPathResponse}
use gpu_rotation_engine.FastPath.Ring.{u32_add, u32_sub, Apart, window, write_all}

abbrev pub dispatch_queue_capacity : ℕ
dispatch_queue_capacity = 65536

pub record CompletionQueue : Type 0 where
  pub buf : ℕ → FastPathResponse
  pub head : ℕ
  pub tail : ℕ
  pub capacity : ℕ
  pub enqueued : ℕ
  pub queue_full_drops : ℕ

abbrev pub u64_add : ℕ → ℕ → ℕ
u64_add a b = (a + b) % 2 ^ 64

unfoldable pub init : ℕ → CompletionQueue → CompletionQueue
init cap q = record q { capacity = cap; head = 0; tail = 0 }

unfoldable pub size : CompletionQueue → ℕ
size q = u32_sub q.tail q.head

unfoldable pub push : FastPathResponse → CompletionQueue → CompletionQueue × Bool
push resp q =
    if leb q.capacity (u32_sub q.tail q.head)
    then (record q { queue_full_drops = u64_add q.queue_full_drops 1 }, false)
    else (
      record q {
        buf = update q.buf (q.tail % q.capacity) resp;
        tail = u32_add q.tail 1;
        enqueued = u64_add q.enqueued 1;
      },
      true,
    )

-- The part of `push_bulk` behind the test for room.
unfoldable pub push_some : List FastPathResponse → ℕ → CompletionQueue → CompletionQueue × ℕ
push_some responses available q =
    let count = length responses in
    let to_push = if ltb count available then count else available in
    (
      record q {
        buf = write_all (λ i. i % q.capacity) q.buf q.tail (take to_push responses);
        tail = u32_add q.tail to_push;
        enqueued = u64_add q.enqueued to_push;
        queue_full_drops =
            if ltb to_push count
            then u64_add q.queue_full_drops (count - to_push)
            else q.queue_full_drops;
      },
      to_push,
    )

unfoldable pub push_bulk : List FastPathResponse → CompletionQueue → CompletionQueue × ℕ
push_bulk responses q =
    let available = u32_sub q.capacity (u32_sub q.tail q.head) in
    if available == 0
    then (record q { queue_full_drops = u64_add q.queue_full_drops (length responses) }, 0)
    else push_some responses available q

unfoldable pub pop : ℕ → CompletionQueue → CompletionQueue × List FastPathResponse
pop max_count q =
    let available = u32_sub q.tail q.head in
    let to_take = if ltb available max_count then available else max_count in
    if available == 0 then (q, []) else (
      record q { head = u32_add q.head to_take },
      window (λ i. i % q.capacity) q.buf q.head to_take,
    )

unfoldable pub pop_count_only : ℕ → CompletionQueue → CompletionQueue × ℕ
pop_count_only max_count q =
    let available = u32_sub q.tail q.head in
    let to_take = if ltb available max_count then available else max_count in
    if available == 0 then (q, 0) else (record q { head = u32_add q.head to_take }, to_take)

-- What the queue holds, oldest first.
unfoldable pub contents : CompletionQueue → List FastPathResponse
contents q = window (λ i. i % q.capacity) q.buf q.head (size q)

-- Both indices are words, the capacity is the dispatcher's, and no more is held than fits.
pub record IsValid (q : CompletionQueue) : Type 0 where
  pub head_lt : q.head < 2 ^ 32
  pub tail_lt : q.tail < 2 ^ 32
  pub capacity_is : q.capacity ≡ dispatch_queue_capacity
  pub size_le : size q ≤ dispatch_queue_capacity

-- Distinct indices less than a queue's length apart have distinct places.
pub apart : (q : CompletionQueue) → IsValid q → Apart 65536 (λ i. i % q.capacity)
apart q v = subst (λ c. Apart 65536 (λ i. i % c)) (sym v.capacity_is) apart_65536
  where
    apart_65536 : Apart 65536 (λ i. i % 65536)
    apart_65536 h i lt pos i_lt clash = absurd (omega (arith, clash))
