-- ===== src/FastPath/CountPoll/Counted.antt =====
-- What a poll that only counts has counted.
use gpu_rotation_engine.Base.{
  ℕ, zero, suc, ◌+◌, ◌^◌, ◌≤◌, ◌<◌, ◌≡◌, ◌≢◌, refl, sym, ap, ◌∙◌, subst, Option, none, some, inl,
  inr, arith, update, update_self, update_ne, ltb, ltb_cases, ◌==◌, Bool-cases,
}
use gpu_rotation_engine.FastPath.Ring.{u32_add}
use gpu_rotation_engine.FastPath.CountPoll.{
  FastPathResponseBuffer, Shards, taken, count_shard, count_shards, fast_path_poll_count_only,
}
use gpu_rotation_engine.FastPath.CountPoll.Slots.{
  moved, Countable, WordIndex, taken-Countable, moved_zero, moved-WordIndex, zero-Countable,
}

-- How many are counted in `n` shards from one on.
abbrev pub sum_from : ℕ → ℕ → (ℕ → ℕ) → ℕ
sum_from shard zero ks = 0
sum_from shard (suc n) ks = ks shard + sum_from (shard + 1) n ks

sum_from-update :
    (shard n i k : ℕ) (ks : ℕ → ℕ)
    → i < shard
    → sum_from shard n (update ks i k) ≡ sum_from shard n ks
sum_from-update shard zero i k ks lt = refl
sum_from-update shard (suc n) i k ks lt =
    let kept : update ks i k shard ≡ ks shard =
      update_ne ks i shard k (λ same. absurd (omega (arith, same))) in
    let rest : sum_from (shard + 1) n (update ks i k) ≡ sum_from (shard + 1) n ks =
      sum_from-update (shard + 1) n i k ks (omega (arith, lt)) in
    omega (arith, kept, rest)

-- From `shards` to `shards'`, where `n` shards from `shard` on are counted, `count` in all.
record Loop (max_count shard n : ℕ) (shards shards' : Shards) (total count : ℕ) : Type 0 where
  ks : ℕ → ℕ
  moves : (i : ℕ) → shards' i ≡ moved (ks i) (shards i)
  countable : (i : ℕ) → Countable (ks i) (shards i)
  before : (i : ℕ) → i < shard → ks i ≡ 0
  sum_is : count ≡ total + sum_from shard n ks
  count_le : count ≤ max_count

-- One turn: the shard's buffer is read on by `k`, and no other is touched.
record Turn (max_count shard : ℕ) (shards shards' : Shards) (total count : ℕ) : Type 0 where
  k : ℕ
  moves : shards' shard ≡ moved k (shards shard)
  others : (i : ℕ) → shard ≢ i → shards' i ≡ shards i
  countable : Countable k (shards shard)
  sum_is : count ≡ total + k
  count_le : count ≤ max_count

module _ (max_count shard total : ℕ) (shards : Shards) (room : total < max_count) where
  still : WordIndex (shards shard) → Turn max_count shard shards shards total total
  still lt = record {
    k = 0;
    moves = sym (moved_zero (shards shard) lt);
    others = λ i ne. refl;
    countable = zero-Countable (shards shard);
    sum_is = omega arith;
    count_le = omega (arith, room);
  }

  count_shard-Turn :
      (o : Option FastPathResponseBuffer)
      → shards shard ≡ o
      → WordIndex (shards shard)
      → Turn max_count shard shards
          (count_shard max_count shard o total shards).0
          total
          (count_shard max_count shard o total shards).1
  unfolding count_shard
  count_shard-Turn none is lt = still lt
  count_shard-Turn (some b) is lt =
      let b_lt : b.read_idx < 2 ^ 32 = subst WordIndex is lt in
      let n : ℕ = taken max_count total b in
      let (countable, le) = taken-Countable max_count total b b_lt in
      elim (Bool-cases (ltb 0 n)) [
        | inl e ↦ rw e (record {
          k = n;
          moves =
              update_self shards shard (some (record b { read_idx = u32_add b.read_idx n }))
              ∙ ap (moved n) (sym is);
          others = λ i ne.
              update_ne shards shard i (some (record b { read_idx = u32_add b.read_idx n })) ne;
          countable = subst (Countable n) (sym is) countable;
          sum_is = refl;
          count_le = omega (arith, le, room);
        })
        | inr e ↦ rw e (still lt)
      ]

sum_from_zero : (shard n : ℕ) → sum_from shard n (λ i. 0) ≡ 0
sum_from_zero shard zero = refl
sum_from_zero shard (suc n) = omega (arith, sum_from_zero (shard + 1) n)

module _ (max_count : ℕ) where
  nothing :
      (shard n total : ℕ) (shards : Shards)
      → ((i : ℕ) → WordIndex (shards i))
      → total ≤ max_count
      → Loop max_count shard n shards shards total total
  nothing shard n total shards lts le = record {
    ks = λ i. 0;
    moves = λ i. sym (moved_zero (shards i) (lts i));
    countable = λ i. zero-Countable (shards i);
    before = λ i lt. refl;
    sum_is = omega (arith, sum_from_zero shard n);
    count_le = le;
  }

  Turn-WordIndex :
      (shard total : ℕ) (shards shards' : Shards) (count : ℕ)
      → Turn max_count shard shards shards' total count
      → ((i : ℕ) → WordIndex (shards i))
      → (i : ℕ) → WordIndex (shards' i)
  Turn-WordIndex shard total shards shards' count turn lts i = elim (Bool-cases (shard == i)) [
    | inl e ↦
        let same : shard ≡ i = ground (arith, e) in
        subst (λ j. WordIndex (shards' j)) same
          (subst WordIndex (sym turn.moves) (moved-WordIndex turn.k (shards shard) (lts shard)))
    | inr e ↦
        let ne : shard ≢ i = λ same. ground (arith, e, same) in
        subst WordIndex (sym (turn.others i ne)) (lts i)
  ]

  join :
      (n shard total : ℕ) (shards shards' shards'' : Shards) (count count' : ℕ)
      → Turn max_count shard shards shards' total count
      → ((i : ℕ) → WordIndex (shards' i))
      → Loop max_count (shard + 1) n shards' shards'' count count'
      → Loop max_count shard (suc n) shards shards'' total count'
  join n shard total shards shards' shards'' count count' turn lts loop = record {
    ks = update loop.ks shard turn.k;
    moves = λ i. elim (Bool-cases (shard == i)) [
      | inl e ↦
          let same : i ≡ shard = ground (arith, e) in
          rw (same, update_self loop.ks shard turn.k)
            (loop.moves shard
              ∙ ap (λ m. moved m (shards' shard)) (loop.before shard (omega arith))
              ∙ moved_zero (shards' shard) (lts shard)
              ∙ turn.moves)
      | inr e ↦
          let ne : shard ≢ i = λ same. ground (arith, e, same) in
          rw (update_ne loop.ks shard i turn.k ne)
            (loop.moves i ∙ ap (moved (loop.ks i)) (turn.others i ne))
    ];
    countable = λ i. elim (Bool-cases (shard == i)) [
      | inl e ↦
          let same : i ≡ shard = ground (arith, e) in
          rw (same, update_self loop.ks shard turn.k) turn.countable
      | inr e ↦
          let ne : shard ≢ i = λ same. ground (arith, e, same) in
          rw (update_ne loop.ks shard i turn.k ne)
            (subst (Countable (loop.ks i)) (turn.others i ne) (loop.countable i))
    ];
    before = λ i lt.
        update_ne loop.ks shard i turn.k (λ same. absurd (omega (arith, lt, same)))
        ∙ loop.before i (omega (arith, lt));
    sum_is = omega (
      arith,
      turn.sum_is,
      loop.sum_is,
      update_self loop.ks shard turn.k,
      sum_from-update (shard + 1) n shard turn.k loop.ks (omega arith),
    );
    count_le = loop.count_le;
  }

  count_shards-Loop :
      (n shard total : ℕ) (shards : Shards)
      → ((i : ℕ) → WordIndex (shards i))
      → total ≤ max_count
      → Loop max_count shard n shards
          (count_shards max_count shard n total shards).0
          total
          (count_shards max_count shard n total shards).1
  unfolding count_shards
  count_shards-Loop zero shard total shards lts le = nothing shard zero total shards lts le
  count_shards-Loop (suc n) shard total shards lts le = elim (ltb_cases total max_count) [
    | inl (room, e) ↦
        let first : Turn max_count shard shards
            (count_shard max_count shard (shards shard) total shards).0 total
            (count_shard max_count shard (shards shard) total shards).1 =
          count_shard-Turn max_count shard total shards room (shards shard) refl (lts shard) in
        rw e (
          join n shard total shards _ _ _ _ first (Turn-WordIndex shard total shards _ _ first lts)
            (count_shards-Loop n (shard + 1)
              (count_shard max_count shard (shards shard) total shards).1
              (count_shard max_count shard (shards shard) total shards).0
              (Turn-WordIndex shard total shards _ _ first lts) first.count_le))
    | inr (full, e) ↦ rw e (nothing shard (suc n) total shards lts le)
  ]

-- A poll that only counts: every buffer is read on by as many responses as were counted in it and
-- otherwise stays as it was, request ids included; in each, no more than 512 are counted, none that the
-- kernel has not announced and none that is not committed; and the answer is their sum.
pub record Counted (num_shards max_count : ℕ) (shards shards' : Shards) (count : ℕ) : Type 0 where
  pub ks : ℕ → ℕ
  pub moves : (i : ℕ) → shards' i ≡ moved (ks i) (shards i)
  pub countable : (i : ℕ) → Countable (ks i) (shards i)
  pub sum_is : count ≡ sum_from 0 num_shards ks
  pub count_le : count ≤ max_count

-- If the read indices are words, then a poll that only counts reads every shard's buffer on by a number
-- of responses that are announced and committed, at most 512, leaves the buffers as they were otherwise,
-- the request ids that tell a slot committed included, and returns the sum of those numbers, which is
-- at most the number asked for.
pub poll_count_only-Counted :
    (num_shards max_count : ℕ) (shards : Shards)
    → ((i : ℕ) → WordIndex (shards i))
    → Counted num_shards max_count shards
        (fast_path_poll_count_only num_shards max_count shards).0
        (fast_path_poll_count_only num_shards max_count shards).1
unfolding fast_path_poll_count_only
poll_count_only-Counted num_shards max_count shards lts =
    let loop = count_shards-Loop max_count num_shards 0 0 shards lts (omega arith) in
    record {
      ks = loop.ks;
      moves = loop.moves;
      countable = loop.countable;
      sum_is = omega (arith, loop.sum_is);
      count_le = loop.count_le;
    }
