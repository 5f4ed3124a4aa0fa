-- ===== src/FastPath/OutputSlab/Checked.antt =====
-- What a read of the output slab that succeeds has made sure of.
use gpu_rotation_engine.Base.{
  ℕ, ◌+◌, ◌-◌, ◌*◌, ◌%◌, ◌≤◌, ◌<◌, ◌≡◌, ◌⊎◌, inl, inr, refl, sym, ap, Bool, true, false, not, ◌||◌,
  List, [], arith, leb, ltb, ◌==◌, Bool-cases,
}
use gpu_rotation_engine.FastPath.Ring.{u32_sub}
use gpu_rotation_engine.FastPath.OutputSlab.{
  region_of, SlabHandle, fail_if, copy, segment, segs_per_shard, shard_of, owner_idx, owner_checks,
  fast_path_read_output_segment_checked, output_owner_slots,
}

fail_if-inr :
    (b : Bool) (code : ℕ) (r : ℕ ⊎ List ℕ) (bytes : List ℕ)
    → fail_if b code r ≡ inr bytes
    → (b ≡ false) × (r ≡ inr bytes)
unfolding fail_if
fail_if-inr true code r bytes e = absurd cc
fail_if-inr false code r bytes e = (refl, e)

abbrev bytes_of : ℕ ⊎ List ℕ → List ℕ
bytes_of (inl code) = []
bytes_of (inr bytes) = bytes

both_off : (a b : Bool) → (a || b) ≡ false → (a ≡ false) × (b ≡ false)
both_off true b e = absurd cc
both_off false b e = (refl, e)

-- How far a shard has gone on since the owner of a segment was posted: `owners` is the handle whose
-- record of the owner's place counts, `h` the one whose `write_idx` does.
abbrev pub lag : ℕ → SlabHandle → SlabHandle → ℕ
lag offset owners h =
    u32_sub (h.write_idx (shard_of owners.num_shards offset))
      (owners.slab_seg_owner_pos (owner_idx offset))

-- The bytes lie in the slab and in one segment of one region, that segment's owner is the one
-- expected, before and after the copy, its shard has posted fewer responses since than it has
-- segments, before and after, and the result is what the slab held during the copy.
pub record Checked (h during after : SlabHandle) (offset length expected : ℕ) (bytes : List ℕ)
    : Type 0 where
  pub in_slab : offset + length ≤ h.output_slab_size
  pub segment_begins :
      (region_of offset).region_offset + segment offset * (region_of offset).segment_bytes ≤ offset
  pub segment_ends :
      offset + length
      ≤ (region_of offset).region_offset + (segment offset + 1) * (region_of offset).segment_bytes
  pub segment_lt : segment offset < (region_of offset).segment_count
  pub shard_lt : shard_of h.num_shards offset < h.num_shards
  pub owner_lt : owner_idx offset < output_owner_slots
  pub owner_before : h.slab_seg_owner_rid (owner_idx offset) ≡ expected
  pub owner_after : after.slab_seg_owner_rid (owner_idx offset) ≡ expected
  pub recent_before : lag offset h h < segs_per_shard h.num_shards offset
  pub recent_after : lag offset h after < segs_per_shard h.num_shards offset
  pub bytes_are : bytes ≡ copy during.slab offset length

is_on : (b : Bool) → not b ≡ false → b ≡ true
is_on true e = refl
is_on false e = absurd cc

is_same : (a b : ℕ) → not (a == b) ≡ false → a ≡ b
is_same a b e = let f : (a == b) ≡ true = is_on (a == b) e in ground (arith, f)

less : (a b : ℕ) → leb b a ≡ false → a < b
less a b e = ground (arith, e)

at_most : (a b : ℕ) → ltb b a ≡ false → a ≤ b
at_most a b e = ground (arith, e)

-- The ends of the segment that an offset lies in, for each region.
ends :
    (offset length : ℕ)
    → (offset - (region_of offset).region_offset) % (region_of offset).segment_bytes + length
      ≤ (region_of offset).segment_bytes
    → ((region_of offset).region_offset + segment offset * (region_of offset).segment_bytes
        ≤ offset)
      × (offset + length
          ≤ (region_of offset).region_offset
            + (segment offset + 1) * (region_of offset).segment_bytes)
unfolding region_of segment
ends offset length fits = elim (Bool-cases (leb 134217728 offset)) [
  | inl e ↦
      let high : 134217728 ≤ offset = ground (arith, e) in
      let fits' : (offset - 134217728) % 8192 + length ≤ 8192 = rw e at fits in
      rw e (omega arith, omega arith)
  | inr e ↦ elim (Bool-cases (leb 67108864 offset)) [
    | inl f ↦
        let high : 67108864 ≤ offset = ground (arith, f) in
        let fits' : (offset - 67108864) % 65552 + length ≤ 65552 = rw (e, f) at fits in
        rw (e, f) (omega arith, omega arith)
    | inr f ↦
        let fits' : (offset - 0) % 2048 + length ≤ 2048 = rw (e, f) at fits in
        rw (e, f) (omega arith, omega arith)
  ]
]

owner_checks-inr :
    (n offset expected code : ℕ) (h first : SlabHandle) (r : ℕ ⊎ List ℕ) (bytes : List ℕ)
    → owner_checks n offset expected code h first r ≡ inr bytes
    → (h.slab_seg_owner_rid (owner_idx offset) ≡ expected)
      × (u32_sub (h.write_idx (shard_of n offset)) (first.slab_seg_owner_pos (owner_idx offset))
          < segs_per_shard n offset)
      × (r ≡ inr bytes)
unfolding owner_checks
owner_checks-inr n offset expected code h first r bytes e =
    let (same, e1) = fail_if-inr _ _ _ bytes e in
    let (recent, e2) = fail_if-inr _ _ _ bytes e1 in
    (is_same (h.slab_seg_owner_rid (owner_idx offset)) expected same, less _ _ recent, e2)

-- If a checked read of the output slab returns bytes, then they are what the slab held during the
-- copy, they lie within the slab and within one segment of one region, and both before and after the
-- copy the segment belonged to the response expected and the shard had posted fewer responses since
-- that one than it has segments.
pub read_output_segment-Checked :
    (h during after : SlabHandle) (offset length expected : ℕ) (bytes : List ℕ)
    → fast_path_read_output_segment_checked h during after offset length expected ≡ inr bytes
    → Checked h during after offset length expected bytes
unfolding fast_path_read_output_segment_checked
read_output_segment-Checked h during after offset length expected bytes e =
    let (_, e1) = fail_if-inr _ _ _ bytes e in
    let (slab_ok, e2) = fail_if-inr _ _ _ bytes e1 in
    let (_, e3) = fail_if-inr _ _ _ bytes e2 in
    let (one_segment, e4) = fail_if-inr _ _ _ bytes e3 in
    let (known, e5) = fail_if-inr _ _ _ bytes e4 in
    let (shard_ok, e6) = fail_if-inr _ _ _ bytes e5 in
    let (owner_ok, e7) = fail_if-inr _ _ _ bytes e6 in
    let (owner_before, recent_before, e8) = owner_checks-inr _ _ _ _ _ _ _ bytes e7 in
    let (owner_after, recent_after, e9) = owner_checks-inr _ _ _ _ _ _ _ bytes e8 in
    let (start_ok, end_ok) =
      both_off (leb h.output_slab_size offset || length == 0)
        (ltb (h.output_slab_size - offset) length) slab_ok in
    let start : offset < h.output_slab_size =
      less _ _ (both_off (leb h.output_slab_size offset) (length == 0) start_ok).0 in
    let room : length ≤ h.output_slab_size - offset = at_most _ _ end_ok in
    let (begins, finishes) = ends offset length (at_most _ _ one_segment) in
    record {
      in_slab = omega (arith, start, room);
      segment_begins = begins;
      segment_ends = finishes;
      segment_lt =
          less _ _
            (both_off (segs_per_shard h.num_shards offset == 0)
              (leb (region_of offset).segment_count (segment offset)) known).1;
      shard_lt =
          less _ _
            (both_off (leb h.num_shards (shard_of h.num_shards offset))
              (not (h.has_responses (shard_of h.num_shards offset))) shard_ok).0;
      owner_lt = less _ _ owner_ok;
      owner_before = owner_before;
      owner_after = owner_after;
      recent_before = recent_before;
      recent_after = recent_after;
      bytes_are = sym (ap bytes_of e9);
    }
