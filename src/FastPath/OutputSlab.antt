-- ===== src/FastPath/OutputSlab.antt =====
-- `fast_path_read_output_segment_checked` of core/persistent_engine/engine_host.cpp and the layout of
-- the output slab in engine_state.cuh. The kernel and the drain go on while it runs, so the function is
-- given the handle at three moments: at its first checks, while it copies, and at its last checks.
-- A failure is the number whose negative is returned. `slab` is read as the bytes that
-- `h_output_slab` points to.
pub mod Checked
use gpu_rotation_engine.Base.{
  ℕ, zero, suc, ◌+◌, ◌-◌, ◌*◌, ◌/◌, ◌%◌, ◌^◌, ◌⊎◌, inl, inr, Bool, true, false, not, ◌||◌, List, [],
  ◌∷◌, if◌then◌else◌, leb, ltb, ◌==◌,
}
use gpu_rotation_engine.FastPath.Ring.{u32_sub}

-- A region of the slab: where it begins, the size and the number of its segments, and the index of
-- the first of its segments among the owners. The last region is not split among the shards.
pub record Region : Type 0 where
  pub region_offset : ℕ
  pub segment_bytes : ℕ
  pub segment_count : ℕ
  pub owner_base : ℕ
  pub striped : Bool

abbrev pub fast_path_response_buffer : ℕ
fast_path_response_buffer = 32768

abbrev pub seal_output_region_offset : ℕ
seal_output_region_offset = 67108864

abbrev pub seal_output_segments : ℕ
seal_output_segments = 67108864 / 65552

abbrev pub pq_sig_output_region_offset : ℕ
pq_sig_output_region_offset = 134217728

abbrev pub output_owner_slots : ℕ
output_owner_slots = 32768 + seal_output_segments + 2048

abbrev pub standard_region : Region
standard_region = record {
  region_offset = 0;
  segment_bytes = 2048;
  segment_count = 32768;
  owner_base = 0;
  striped = true;
}

abbrev pub seal_region : Region
seal_region = record {
  region_offset = seal_output_region_offset;
  segment_bytes = 65552;
  segment_count = seal_output_segments;
  owner_base = 32768;
  striped = true;
}

abbrev pub pq_region : Region
pq_region = record {
  region_offset = pq_sig_output_region_offset;
  segment_bytes = 8192;
  segment_count = 2048;
  owner_base = 32768 + seal_output_segments;
  striped = false;
}

unfoldable pub region_of : ℕ → Region
region_of offset =
    if leb pq_sig_output_region_offset offset
    then pq_region
    else if leb seal_output_region_offset offset
    then seal_region
    else standard_region

pub record SlabHandle : Type 0 where
  pub has_output_slab : Bool
  pub slab : ℕ → ℕ
  pub output_slab_size : ℕ
  pub num_shards : ℕ
  pub has_responses : ℕ → Bool
  pub write_idx : ℕ → ℕ
  pub slab_seg_owner_rid : ℕ → ℕ
  pub slab_seg_owner_pos : ℕ → ℕ

-- A check that fails with a number when the condition holds.
unfoldable pub fail_if : Bool → ℕ → ℕ ⊎ List ℕ → ℕ ⊎ List ℕ
fail_if true code r = inl code
fail_if false code r = r

abbrev pub copy : (ℕ → ℕ) → ℕ → ℕ → List ℕ
copy slab offset zero = []
copy slab offset (suc n) = slab offset ∷ copy slab (offset + 1) n

-- The segment that an offset lies in, the segments of its shard, the shard, and the owner's index.
unfoldable pub segment : ℕ → ℕ
segment offset = let r = region_of offset in (offset - r.region_offset) / r.segment_bytes

unfoldable pub segs_per_shard : ℕ → ℕ → ℕ
segs_per_shard num_shards offset =
    let r = region_of offset in if r.striped then r.segment_count / num_shards else r.segment_count

unfoldable pub shard_of : ℕ → ℕ → ℕ
shard_of num_shards offset =
    if (region_of offset).striped then segment offset / segs_per_shard num_shards offset else 0

unfoldable pub owner_idx : ℕ → ℕ
owner_idx offset = (region_of offset).owner_base + segment offset

-- What holds of the owner when it is looked at: it is the one expected, and recent.
unfoldable pub owner_checks : ℕ → ℕ → ℕ → ℕ → SlabHandle → SlabHandle → ℕ ⊎ List ℕ → ℕ ⊎ List ℕ
owner_checks num_shards offset expected too_old h first rest =
    fail_if (not (h.slab_seg_owner_rid (owner_idx offset) == expected)) 6 (
      fail_if
        (leb (segs_per_shard num_shards offset) (
          u32_sub (h.write_idx (shard_of num_shards offset))
            (first.slab_seg_owner_pos (owner_idx offset))))
        too_old rest)

unfoldable pub fast_path_read_output_segment_checked :
    SlabHandle → SlabHandle → SlabHandle → ℕ → ℕ → ℕ → ℕ ⊎ List ℕ
fast_path_read_output_segment_checked h during after offset length expected =
    let r = region_of offset in
    let segs = segs_per_shard h.num_shards offset in
    let shard = shard_of h.num_shards offset in
    fail_if (not h.has_output_slab || expected == 0) 1 (
      fail_if
        (leb h.output_slab_size offset || length == 0 || ltb (h.output_slab_size - offset) length) 2
        (fail_if (h.num_shards == 0) 4 (
          fail_if (ltb r.segment_bytes ((offset - r.region_offset) % r.segment_bytes + length)) 3 (
            fail_if (segs == 0 || leb r.segment_count (segment offset)) 5 (
              fail_if (leb h.num_shards shard || not (h.has_responses shard)) 5 (
                fail_if (leb output_owner_slots (owner_idx offset)) 6 (
                  owner_checks h.num_shards offset expected 7 h h (
                    owner_checks h.num_shards offset expected 8 after h
                      (inr (copy during.slab offset length))))))))))
