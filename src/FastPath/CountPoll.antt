-- ===== src/FastPath/CountPoll.antt =====
-- `fast_path_poll_count_only` of core/persistent_engine/engine_host.cpp, on the shards' response
-- buffers. A shard without a buffer is `none`.
pub mod Slots
pub mod Counted
use gpu_rotation_engine.Base.{
  ℕ, zero, suc, ◌+◌, ◌-◌, ◌%◌, ◌^◌, Option, none, some, update, if◌then◌else◌, ltb, ◌==◌,
}
use gpu_rotation_engine.FastPath.Response.{FastPathResponse}
use gpu_rotation_engine.FastPath.Ring.{u32_add, u32_sub}

pub record FastPathResponseBuffer : Type 0 where
  pub write_idx : ℕ
  pub read_idx : ℕ
  pub responses : ℕ → FastPathResponse

abbrev pub Shards : Type 0
Shards = ℕ → Option FastPathResponseBuffer

-- How many of the `n` slots from index `i` on are committed before the first that is not.
unfoldable pub committed_run : (ℕ → FastPathResponse) → ℕ → ℕ → ℕ
committed_run responses i zero = 0
committed_run responses i (suc n) =
    let rest = committed_run responses (u32_add i 1) n in
    if (responses (i % 32768)).request_id == 0 then 0 else 1 + rest

unfoldable pub to_take : ℕ → ℕ → ℕ
to_take available room =
    let quantum = if ltb 512 available then 512 else available in
    if ltb room quantum then room else quantum

-- One turn of the loop over the shards, on a shard's buffer.
unfoldable pub taken : ℕ → ℕ → FastPathResponseBuffer → ℕ
taken max_count total b =
    let available = u32_sub b.write_idx b.read_idx in
    if available == 0
    then 0
    else committed_run b.responses b.read_idx (to_take available (max_count - total))

unfoldable pub count_shard : ℕ → ℕ → Option FastPathResponseBuffer → ℕ → Shards → Shards × ℕ
count_shard max_count shard none total shards = (shards, total)
count_shard max_count shard (some b) total shards =
    let n = taken max_count total b in
    if ltb 0 n
    then (update shards shard (some (record b { read_idx = u32_add b.read_idx n })), total + n)
    else (shards, total)

unfoldable pub count_shards : ℕ → ℕ → ℕ → ℕ → Shards → Shards × ℕ
count_shards max_count shard zero total shards = (shards, total)
count_shards max_count shard (suc n) total shards =
    let (shards', total') = count_shard max_count shard (shards shard) total shards in
    let rest = count_shards max_count (shard + 1) n total' shards' in
    if ltb total max_count then rest else (shards, total)

unfoldable pub fast_path_poll_count_only : ℕ → ℕ → Shards → Shards × ℕ
fast_path_poll_count_only num_shards max_count shards = count_shards max_count 0 num_shards 0 shards
