-- ===== src/FastPath/CountPoll/Slots.antt =====
-- What may be counted in one shard's buffer.
use gpu_rotation_engine.Base.{
  ℕ, zero, suc, ◌+◌, ◌-◌, ◌%◌, ◌^◌, ◌≤◌, ◌<◌, ◌≡◌, ◌≢◌, refl, ap, false, Option, none, some, inl,
  inr, arith, ◌==◌, Bool-cases,
}
use gpu_rotation_engine.FastPath.Response.{FastPathResponse}
use gpu_rotation_engine.FastPath.Ring.{u32_add, u32_sub}
use gpu_rotation_engine.FastPath.CountPoll.{FastPathResponseBuffer, committed_run, to_take, taken}

-- The first `n` slots from an index on are committed.
abbrev pub Committed : (ℕ → FastPathResponse) → ℕ → ℕ → Type 0
Committed responses i n = (j : ℕ) → j < n → (responses (u32_add i j % 32768)).request_id ≢ 0

committed_run_lem :
    (responses : ℕ → FastPathResponse) (i n : ℕ)
    → i < 2 ^ 32
    → (committed_run responses i n ≤ n) × Committed responses i (committed_run responses i n)
unfolding committed_run
committed_run_lem responses i zero lt =
    (omega arith, λ j none_left. absurd (omega (arith, none_left)))
committed_run_lem responses i (suc n) lt =
    let (le, rest) = committed_run_lem responses (u32_add i 1) n (omega arith) in
    elim (Bool-cases ((responses (i % 32768)).request_id == 0)) [
      | inl e ↦
          rw (e, committed_run) (omega arith, λ j none_left. absurd (omega (arith, none_left)))
      | inr e ↦ rw (e, committed_run) (omega (arith, le), later e rest)
    ]
  where
    later :
        {m : ℕ}
        → ((responses (i % 32768)).request_id == 0) ≡ false
        → Committed responses (u32_add i 1) m
        → Committed responses i (1 + m)
    later e rest zero j_lt =
        let same : u32_add i 0 ≡ i = omega arith in
        rw same (λ is_zero. absurd (ground (arith, e, is_zero)))
    later e rest (suc j) j_lt =
        let same : u32_add i (suc j) ≡ u32_add (u32_add i 1) j = omega arith in
        rw same (rest j (omega (arith, j_lt)))

-- A buffer read on by `n`.
abbrev pub moved : ℕ → Option FastPathResponseBuffer → Option FastPathResponseBuffer
moved n none = none
moved n (some b) = some (record b { read_idx = u32_add b.read_idx n })

-- `n` is a number of responses that may be counted in a buffer.
abbrev pub Countable : ℕ → Option FastPathResponseBuffer → Type 0
Countable n none = n ≡ 0
Countable n (some b) =
    (n ≤ 512) × (n ≤ u32_sub b.write_idx b.read_idx) × Committed b.responses b.read_idx n

abbrev pub WordIndex : Option FastPathResponseBuffer → Type 0
WordIndex none = Unit
WordIndex (some b) = b.read_idx < 2 ^ 32

to_take_le :
    (available room : ℕ)
    → (to_take available room ≤ 512)
      × (to_take available room ≤ available)
      × (to_take available room ≤ room)
unfolding to_take
to_take_le available room = (ground arith, ground arith, ground arith)

pub taken-Countable :
    (max_count total : ℕ) (b : FastPathResponseBuffer)
    → b.read_idx < 2 ^ 32
    → Countable (taken max_count total b) (some b) × (taken max_count total b ≤ max_count - total)
unfolding taken
taken-Countable max_count total b lt = elim (Bool-cases (u32_sub b.write_idx b.read_idx == 0)) [
  | inl e ↦
      rw e
        ((omega arith, omega arith, λ j none_left. absurd (omega (arith, none_left))), omega arith)
  | inr e ↦
      let (le, all) =
        committed_run_lem b.responses b.read_idx
          (to_take (u32_sub b.write_idx b.read_idx) (max_count - total)) lt in
      let (a, w, r) = to_take_le (u32_sub b.write_idx b.read_idx) (max_count - total) in
      rw e ((omega (arith, le, a), omega (arith, le, w), all), omega (arith, le, r))
]

pub moved_zero : (o : Option FastPathResponseBuffer) → WordIndex o → moved 0 o ≡ o
moved_zero none lt = refl
moved_zero (some b) lt =
    let same : u32_add b.read_idx 0 ≡ b.read_idx = omega (arith, lt) in
    ap (λ i. some (record b { read_idx = i })) same

pub moved-WordIndex :
    (n : ℕ) (o : Option FastPathResponseBuffer) → WordIndex o → WordIndex (moved n o)
moved-WordIndex n none lt = lt
moved-WordIndex n (some b) lt = omega arith

pub zero-Countable : (o : Option FastPathResponseBuffer) → Countable 0 o
zero-Countable none = refl
zero-Countable (some b) =
    (omega arith, omega arith, λ j none_left. absurd (omega (arith, none_left)))
