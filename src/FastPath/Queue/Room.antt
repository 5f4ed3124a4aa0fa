-- ===== src/FastPath/Queue/Room.antt =====
-- What a write behind the tail and an advance of the head do to what a queue holds.
use gpu_rotation_engine.Base.{
  ℕ, ◌+◌, ◌%◌, ◌≤◌, ◌≡◌, ap, ◌∙◌, List, ◌++◌, arith, length, take, drop, take_left, drop_left,
}
use gpu_rotation_engine.FastPath.Response.{FastPathResponse}
use gpu_rotation_engine.FastPath.Ring.{
  u32_add, window, write_all, window-write_all, window_split, length-window,
}
use gpu_rotation_engine.FastPath.Queue.{CompletionQueue, size, contents, IsValid, apart}

abbrev pub slot : CompletionQueue → ℕ → ℕ
slot q i = i % q.capacity

-- A queue with responses `xs` written behind its tail, whatever its counters.
abbrev pub extended : List FastPathResponse → ℕ → ℕ → CompletionQueue → CompletionQueue
extended xs enqueued drops q = record q {
  buf = write_all (slot q) q.buf q.tail xs;
  tail = u32_add q.tail (length xs);
  enqueued = enqueued;
  queue_full_drops = drops;
}

abbrev pub advanced : ℕ → CompletionQueue → CompletionQueue
advanced n q = record q { head = u32_add q.head n }

module _ (q : CompletionQueue) (v : IsValid q) where
  pub tail_is : q.tail ≡ u32_add q.head (size q)
  unfolding size
  tail_is = omega (arith, v.head_lt, v.tail_lt)

  pub length-contents : length (contents q) ≡ size q
  unfolding contents
  length-contents = length-window (slot q) q.buf q.head (size q)

  module _ (xs : List FastPathResponse) (e d : ℕ) (fits : size q + length xs ≤ 65536) where
    pub size-extended : size (extended xs e d q) ≡ size q + length xs
    unfolding size
    size-extended = omega (arith, v.head_lt, v.tail_lt, fits)

    pub extended-IsValid : IsValid (extended xs e d q)
    extended-IsValid = record {
      head_lt = v.head_lt;
      tail_lt = omega arith;
      capacity_is = v.capacity_is;
      size_le = omega (arith, size-extended, fits);
    }

    pub contents-extended : contents (extended xs e d q) ≡ contents q ++ xs
    unfolding contents
    contents-extended =
        ap (window (slot q) (write_all (slot q) q.buf q.tail xs) q.head) size-extended
        ∙ ap (λ t. window (slot q) (write_all (slot q) q.buf t xs) q.head (size q + length xs))
            tail_is
        ∙ window-write_all (slot q) 65536 (apart q v) xs q.buf q.head (size q) v.head_lt fits

  module _ (n : ℕ) (le : n ≤ size q) where
    size-advanced : size (advanced n q) + n ≡ size q
    unfolding size
    size-advanced = omega (arith, v.head_lt, v.tail_lt, le)

    pub advanced-IsValid : IsValid (advanced n q)
    advanced-IsValid = record {
      head_lt = omega arith;
      tail_lt = v.tail_lt;
      capacity_is = v.capacity_is;
      size_le = omega (arith, size-advanced, v.size_le);
    }

    split : contents q ≡ window (slot q) q.buf q.head n ++ contents (advanced n q)
    unfolding contents
    split =
        let e : size q ≡ n + size (advanced n q) = omega (arith, size-advanced) in
        ap (window (slot q) q.buf q.head) e
        ∙ window_split (slot q) q.buf q.head n (size (advanced n q)) v.head_lt

    pub take-contents : take n (contents q) ≡ window (slot q) q.buf q.head n
    take-contents = ap (take n) split ∙ take_left n _ _ (length-window (slot q) q.buf q.head n)

    pub drop-contents : drop n (contents q) ≡ contents (advanced n q)
    drop-contents = ap (drop n) split ∙ drop_left n _ _ (length-window (slot q) q.buf q.head n)
