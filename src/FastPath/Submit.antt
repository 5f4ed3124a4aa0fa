-- ===== src/FastPath/Submit.antt =====
-- Submission of single requests to the fast path in core/persistent_engine/engine_host.cpp:
-- `fast_path_submit`, `fast_path_submit_multisign` and `fast_path_submit_generic`. They write to the
-- ring of the first shard, which the host fills at its tail and the kernel empties at its head. `now`
-- is the clock's answer. Of the handle stands here what these functions use.
pub mod Carried
pub mod Fifo
pub mod Stale
use gpu_rotation_engine.Base.{
  ℕ, ◌+◌, ◌-◌, ◌%◌, ◌^◌, ◌≤◌, ◌<◌, Bool, true, false, ◌||◌, not, Option, none, some, List, ◌++◌,
  take, replicate, update, if◌then◌else◌, leb,
}
use gpu_rotation_engine.FastPath.Ring.{u32_add, u32_sub}

abbrev pub fast_path_ring_size : ℕ
fast_path_ring_size = 8192

pub record FastPathRequest : Type 0 where
  pub request_id : ℕ
  pub t_submit_us : ℕ
  pub input : List ℕ
  pub flags : ℕ
  pub key_slot : ℕ
  pub client_id : ℕ
  pub opcode : ℕ
  pub input_len : ℕ
  pub payload_offset : ℕ
  pub payload_len : ℕ

pub record FastPathRing : Type 0 where
  pub head : ℕ
  pub tail : ℕ
  pub requests : ℕ → FastPathRequest

pub record FastPathHandle : Type 0 where
  pub h_ring : Option FastPathRing
  pub running : Bool
  pub next_request_id : ℕ

-- The slot at the tail is filled in, and the tail advanced.
unfoldable pub fill_slot : (FastPathRequest → FastPathRequest) → FastPathRing → FastPathRing
fill_slot fill ring =
    let slot = ring.tail % fast_path_ring_size in
    record ring {
      requests = update ring.requests slot (fill (ring.requests slot));
      tail = u32_add ring.tail 1;
    }

unfoldable pub submitted :
    (FastPathRequest → FastPathRequest) → FastPathRing → FastPathHandle → FastPathHandle
submitted fill ring h = record h {
  h_ring = some (fill_slot fill ring);
  next_request_id = (h.next_request_id + 1) % 2 ^ 64;
}

-- What `fast_path_submit` writes: the fields it does not name keep what the slot had.
unfoldable pub fill_hash : List ℕ → ℕ → ℕ → FastPathRequest → FastPathRequest
fill_hash hash flags id old = record old {
  request_id = id;
  input = take 32 hash;
  flags = flags;
  key_slot = 0;
  opcode = 0;
  input_len = 32;
}

unfoldable pub submit_hash :
    Option FastPathRing → List ℕ → ℕ → FastPathHandle → FastPathHandle × Bool
submit_hash none hash flags h = (h, false)
submit_hash (some ring) hash flags h =
    if leb (fast_path_ring_size - 1) (u32_sub ring.tail ring.head)
    then (h, false)
    else (submitted (fill_hash hash flags h.next_request_id) ring h, true)

unfoldable pub fast_path_submit : List ℕ → ℕ → FastPathHandle → FastPathHandle × Bool
fast_path_submit hash flags h = submit_hash h.h_ring hash flags h

-- The arguments of the two other functions, and the requests they make of them.
pub record Generic : Type 0 where
  pub input : List ℕ
  pub input_len : ℕ
  pub flags : ℕ
  pub key_slot : ℕ
  pub client_id : ℕ
  pub opcode : ℕ
  pub payload_offset : ℕ
  pub payload_len : ℕ

pub record Multisign : Type 0 where
  pub input : List ℕ
  pub flags : ℕ
  pub client_id : ℕ
  pub key_slot : ℕ
  pub payload_offset : ℕ
  pub payload_len : ℕ

unfoldable pub generic_request : Generic → ℕ → ℕ → FastPathRequest
generic_request g now id =
    let copy_len = if leb g.input_len 32 then g.input_len else 32 in
    record {
      request_id = id;
      t_submit_us = now;
      input = take copy_len g.input ++ replicate (32 - copy_len) 0;
      flags = g.flags;
      key_slot = g.key_slot;
      client_id = g.client_id;
      opcode = g.opcode;
      input_len = g.input_len;
      payload_offset = g.payload_offset;
      payload_len = g.payload_len;
    }

unfoldable pub multisign_request : Multisign → ℕ → FastPathRequest
multisign_request m id = record {
  request_id = id;
  t_submit_us = 0;
  input = take 32 m.input;
  flags = m.flags;
  key_slot = m.key_slot;
  client_id = m.client_id;
  opcode = 0;
  input_len = 32;
  payload_offset = m.payload_offset;
  payload_len = m.payload_len;
}

-- Both mask what is used with the ring's size less one.
unfoldable pub submit_request :
    Option FastPathRing → (ℕ → FastPathRequest) → FastPathHandle → FastPathHandle × ℕ
submit_request none request h = (h, 0)
submit_request (some ring) request h =
    if not h.running
      || leb (fast_path_ring_size - 1) (u32_sub ring.tail ring.head % fast_path_ring_size)
    then (h, 0)
    else (submitted (λ old. request h.next_request_id) ring h, 1)

unfoldable pub fast_path_submit_multisign : Multisign → FastPathHandle → FastPathHandle × ℕ
fast_path_submit_multisign m h = submit_request h.h_ring (multisign_request m) h

unfoldable pub fast_path_submit_generic : Generic → ℕ → FastPathHandle → FastPathHandle × ℕ
fast_path_submit_generic g now h = submit_request h.h_ring (generic_request g now) h

-- The requests that the kernel has yet to take, oldest first: at most one less than the ring holds.
pub record IsValid (ring : FastPathRing) : Type 0 where
  pub head_lt : ring.head < 2 ^ 32
  pub tail_lt : ring.tail < 2 ^ 32
  pub used_le : u32_sub ring.tail ring.head ≤ 8191
