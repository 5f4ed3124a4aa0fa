-- ===== src/Tests/RingTests.antt =====
-- The fast path's request ring and output slab at concrete states.
use gpu_rotation_engine.Base.{
  length-replicate, none, suc, zero, ℕ, ◌%◌, ◌≡◌, inr, refl, true, some, List, [], ◌∷◌, arith,
  replicate, ◌==◌, if◌then◌else◌,
}
use gpu_rotation_engine.FastPath.Submit.{
  FastPathRing, FastPathHandle, Generic, IsValid, generic_request, fast_path_submit,
  fast_path_submit_generic,
}
use gpu_rotation_engine.FastPath.Submit.Fifo.{
  Event, events, list_events, Waiting, Holds, events-refine-list_events,
}
use gpu_rotation_engine.FastPath.Submit.Stale.{
  Misdirected, rounds, kernel_takes_one, fast_path_submit-stale,
}
use gpu_rotation_engine.FastPath.Submit.Carried.{Accepted, generic_request-Carries}
use gpu_rotation_engine.FastPath.Ring.{window}
use gpu_rotation_engine.FastPath.CountPoll.{
  FastPathResponseBuffer, Shards, fast_path_poll_count_only,
}
use gpu_rotation_engine.FastPath.CountPoll.Slots.{WordIndex}
use gpu_rotation_engine.FastPath.CountPoll.Counted.{Counted, poll_count_only-Counted}
use gpu_rotation_engine.FastPath.Response.{FastPathResponse}
use gpu_rotation_engine.FastPath.OutputSlab.{
  SlabHandle, fast_path_read_output_segment_checked, region_of, segment, segs_per_shard, shard_of,
  owner_idx, owner_checks, fail_if,
}
use gpu_rotation_engine.FastPath.OutputSlab.Checked.{Checked, read_output_segment-Checked}

-- A call of client 7 with a payload of 64 bytes.
abbrev old_call : Generic
old_call = record {
  input = replicate 32 4;
  input_len = 8;
  flags = 0;
  key_slot = 1;
  client_id = 7;
  opcode = 3;
  payload_offset = 128;
  payload_len = 64;
}

-- A ring with two requests waiting whose tail has wrapped.
abbrev ring : FastPathRing
ring = record {
  head = 4294967295;
  tail = 1;
  requests = λ i. generic_request old_call 500 (if i == 0 then 8 else 7);
}

abbrev handle : FastPathHandle
handle = record { h_ring = some ring; running = true; next_request_id = 9 }

ring-IsValid : IsValid ring
ring-IsValid = record { head_lt = omega arith; tail_lt = omega arith; used_le = omega arith }

abbrev state : Waiting
state = (Accepted.generic 7 old_call 500 ∷ Accepted.generic 8 old_call 500 ∷ [], 9)

handle-Holds : Holds handle state
unfolding window
handle-Holds = record {
  ring = ring;
  ring_is = refl;
  valid = ring-IsValid;
  waiting_carry =
      (generic_request-Carries old_call 500 7, (generic_request-Carries old_call 500 8, record {}));
  running_is = refl;
  id_is = refl;
}

abbrev some_events : List Event
some_events =
    Event.generic
      (record {
        input = replicate 32 5;
        input_len = 16;
        flags = 1;
        key_slot = 1;
        client_id = 2;
        opcode = 4;
        payload_offset = 0;
        payload_len = 0;
      })
      1000
    ∷ Event.taken 1
    ∷ Event.multisign (record {
      input = replicate 32 6;
      flags = 2;
      client_id = 3;
      key_slot = 0;
      payload_offset = 8;
      payload_len = 64;
    })
    ∷ []

events-refine-list_events_example :
    Holds (events some_events handle).0 (list_events some_events state).0
    × ((events some_events handle).1 ≡ (list_events some_events state).1)
events-refine-list_events_example = events-refine-list_events some_events handle state handle-Holds

-- An empty ring whose indices are about to wrap.
abbrev empty_ring : FastPathRing
empty_ring = record ring { head = 4294967295; tail = 4294967295 }

abbrev empty_handle : FastPathHandle
empty_handle = record handle { h_ring = some empty_ring }

fast_path_submit-stale_example : Misdirected old_call (replicate 32 9) 1 8201 (
    fast_path_submit (replicate 32 9) 1 (
      rounds
        (replicate 8191 (replicate 32 6))
        (kernel_takes_one (fast_path_submit_generic old_call 1000 empty_handle).0)))
fast_path_submit-stale_example =
    fast_path_submit-stale old_call 1000 (replicate 8191 (replicate 32 6)) (replicate 32 9) 1
      empty_handle empty_ring refl refl refl (omega arith)
      (length-replicate {A = List ℕ} 8191 (replicate 32 6))

-- 60 shards; request 42 owns segment 5 of the standard region since its shard's place 5.
abbrev slab_handle : SlabHandle
slab_handle = record {
  has_output_slab = true;
  slab = λ i. i % 256;
  output_slab_size = 150994944;
  num_shards = 60;
  has_responses = λ i. true;
  write_idx = λ i. 500;
  slab_seg_owner_rid = λ i. if i == 5 then 42 else 0;
  slab_seg_owner_pos = λ i. i;
}

slab_read :
    fast_path_read_output_segment_checked slab_handle slab_handle slab_handle 10240 4 42
    ≡ inr (0 ∷ 1 ∷ 2 ∷ 3 ∷ [])
unfolding fast_path_read_output_segment_checked region_of segment segs_per_shard shard_of owner_idx
    owner_checks fail_if
slab_read = refl

read_output_segment-Checked_example :
    Checked slab_handle slab_handle slab_handle 10240 4 42 (0 ∷ 1 ∷ 2 ∷ 3 ∷ [])
read_output_segment-Checked_example =
    read_output_segment-Checked slab_handle slab_handle slab_handle 10240 4 42 (0 ∷ 1 ∷ 2 ∷ 3 ∷ [])
      slab_read

-- One shard with five responses announced, of which the first three are committed.
abbrev response : ℕ → FastPathResponse
response id = record {
  request_id = id;
  commit_info = 32;
  seq = 0;
  status = 0;
  client_id = 1;
  opcode = 0;
  output_len = 32;
  output_offset = 0;
  output_bytes = 0;
  output = replicate 32 0;
}

abbrev buffer : FastPathResponseBuffer
buffer = record {
  write_idx = 5;
  read_idx = 0;
  responses = λ i. if i == 3 then response 0 else response 8;
}

abbrev shards : Shards
shards zero = some buffer
shards (suc i) = none

shards-WordIndex : (i : ℕ) → WordIndex (shards i)
shards-WordIndex zero = omega arith
shards-WordIndex (suc i) = record {}

poll_count_only-Counted_example :
    Counted 2 100 shards
      (fast_path_poll_count_only 2 100 shards).0
      (fast_path_poll_count_only 2 100 shards).1
poll_count_only-Counted_example = poll_count_only-Counted 2 100 shards shards-WordIndex
