-- ===== src/FastPath/Submit/Stale.antt =====
-- What `fast_path_submit` leaves in a slot from the request that stood there before.
use gpu_rotation_engine.Base.{
  Bool, ℕ, suc, ◌+◌, ◌%◌, ◌^◌, ◌<◌, ◌≡◌, refl, sym, ap, ◌∙◌, subst, true, false, Option, some, none,
  List, [], ◌∷◌, arith, length, Copied, take-Copied, update_self, Bool-cases, inl, inr, ◌==◌, leb,
  min,
}
use gpu_rotation_engine.FastPath.Ring.{u32_add, u32_sub, window}
use gpu_rotation_engine.FastPath.Submit.{
  FastPathRequest, FastPathRing, FastPathHandle, Generic, fill_slot, submitted, fill_hash,
  submit_hash, fast_path_submit, fast_path_submit_generic, submit_request, generic_request,
}
use gpu_rotation_engine.FastPath.Submit.Fifo.{waiting, kernel_takes, taken_from}

-- The kernel takes one request.
abbrev pub kernel_takes_one : FastPathHandle → FastPathHandle
kernel_takes_one h = taken_from h.h_ring 1 h

-- Hashes submitted one by one, the kernel taking each before the next.
abbrev pub rounds : List (List ℕ) → FastPathHandle → FastPathHandle
rounds [] h = h
rounds (hash ∷ hashes) h = rounds hashes (kernel_takes_one (fast_path_submit hash 0 h).0)

abbrev pub waiting_for : Option FastPathRing → List FastPathRequest
waiting_for none = []
waiting_for (some ring) = waiting ring

-- The request belongs to the client of this call, with its payload.
pub record Belongs (g : Generic) (r : FastPathRequest) : Type 0 where
  pub client_is : r.client_id ≡ g.client_id
  pub payload_offset_is : r.payload_offset ≡ g.payload_offset
  pub payload_len_is : r.payload_len ≡ g.payload_len

-- A hash was accepted and is all that waits for the kernel, but it belongs to the client of that call.
pub record Misdirected (g : Generic) (hash : List ℕ) (flags id : ℕ) (r : FastPathHandle × Bool)
    : Type 0 where
  pub accepted : r.1 ≡ true
  pub request : FastPathRequest
  pub only_waiting : waiting_for r.0.h_ring ≡ request ∷ []
  pub id_is : request.request_id ≡ id
  pub input_is : Copied 32 hash request.input
  pub flags_are : request.flags ≡ flags
  pub owner : Belongs g request

-- Nothing waits, both indices are `t`, the next number is `id`, and slot `s` belongs to the call.
record Idle (g : Generic) (s t id : ℕ) (h : FastPathHandle) : Type 0 where
  ring : FastPathRing
  ring_is : h.h_ring ≡ some ring
  head_is : ring.head ≡ t
  tail_is : ring.tail ≡ t
  id_is : h.next_request_id ≡ id
  owner : Belongs g (ring.requests s)

module _ (g : Generic) (s : ℕ) where
  fill_hash-Belongs :
      (hash : List ℕ) (flags id : ℕ) (r : FastPathRequest)
      → Belongs g r
      → Belongs g (fill_hash hash flags id r)
  unfolding fill_hash
  fill_hash-Belongs hash flags id r b = record {
    client_is = b.client_is;
    payload_offset_is = b.payload_offset_is;
    payload_len_is = b.payload_len_is;
  }

  -- Filling any slot with a hash changes no slot's owner.
  fill_slot-Belongs :
      (hash : List ℕ) (flags id : ℕ) (ring : FastPathRing)
      → Belongs g (ring.requests s)
      → Belongs g ((fill_slot (fill_hash hash flags id) ring).requests s)
  unfolding fill_slot
  fill_slot-Belongs hash flags id ring b = elim (Bool-cases (ring.tail % 8192 == s)) [
    | inl e ↦
        let same : ring.tail % 8192 ≡ s = ground (arith, e) in
        rw e (
          fill_hash-Belongs hash flags id (ring.requests (ring.tail % 8192))
            (subst (λ i. Belongs g (ring.requests i)) (sym same) b))
    | inr e ↦ rw e b
  ]

  round-Idle :
      (hash : List ℕ) (t id : ℕ) (h : FastPathHandle)
      → t < 2 ^ 32
      → Idle g s t id h
      → Idle g s
          ((t + 1) % 2 ^ 32)
          ((id + 1) % 2 ^ 64)
          (kernel_takes_one (fast_path_submit hash 0 h).0)
  unfolding fast_path_submit submit_hash submitted fill_slot kernel_takes taken_from
  round-Idle hash t id h t_lt w =
      let ring : FastPathRing = w.ring in
      let free : leb 8191 (u32_sub ring.tail ring.head) ≡ false =
        ground (arith, w.head_is, w.tail_is, t_lt) in
      let one : min 1 (u32_sub (u32_add ring.tail 1) ring.head) ≡ 1 =
        omega (arith, w.head_is, w.tail_is, t_lt) in
      rw (w.ring_is, free)
        (record {
          ring = kernel_takes 1 (fill_slot (fill_hash hash 0 h.next_request_id) ring);
          ring_is = refl;
          head_is = ap (λ n. u32_add ring.head n) one ∙ ap (λ n. u32_add n 1) w.head_is;
          tail_is = ap (λ n. u32_add n 1) w.tail_is;
          id_is = ap (λ n. (n + 1) % 2 ^ 64) w.id_is;
          owner = fill_slot-Belongs hash 0 h.next_request_id ring w.owner;
        })

  rounds-Idle :
      (hashes : List (List ℕ)) (t id : ℕ) (h : FastPathHandle)
      → t < 2 ^ 32
      → id < 2 ^ 64
      → Idle g s t id h
      → Idle g s ((t + length hashes) % 2 ^ 32) ((id + length hashes) % 2 ^ 64) (rounds hashes h)
  rounds-Idle [] t id h t_lt id_lt w =
      let t_same : t ≡ (t + 0) % 2 ^ 32 = omega arith in
      let id_same : id ≡ (id + 0) % 2 ^ 64 = omega arith in
      subst (λ n. Idle g s n ((id + 0) % 2 ^ 64) h) t_same (subst (λ n. Idle g s t n h) id_same w)
  rounds-Idle (hash ∷ hashes) t id h t_lt id_lt w =
      let n : ℕ = length hashes in
      let t_same : ((t + 1) % 2 ^ 32 + n) % 2 ^ 32 ≡ (t + suc n) % 2 ^ 32 = omega arith in
      let id_same : ((id + 1) % 2 ^ 64 + n) % 2 ^ 64 ≡ (id + suc n) % 2 ^ 64 = omega arith in
      let h' : FastPathHandle = kernel_takes_one (fast_path_submit hash 0 h).0 in
      subst (λ m. Idle g s m ((id + suc n) % 2 ^ 64) (rounds hashes h')) t_same
        (subst (λ m. Idle g s (((t + 1) % 2 ^ 32 + n) % 2 ^ 32) m (rounds hashes h')) id_same
          (rounds-Idle hashes ((t + 1) % 2 ^ 32) ((id + 1) % 2 ^ 64) h' (omega arith) (omega arith)
            (round-Idle hash t id h t_lt w)))

  last-Misdirected :
      (hash : List ℕ) (flags t id : ℕ) (h : FastPathHandle)
      → t < 2 ^ 32
      → s ≡ t % 8192
      → Idle g s t id h
      → Misdirected g hash flags id (fast_path_submit hash flags h)
  unfolding fast_path_submit submit_hash submitted fill_slot fill_hash window
  last-Misdirected hash flags t id h t_lt s_is w =
      let ring : FastPathRing = w.ring in
      let old : FastPathRequest = ring.requests s in
      let new : FastPathRequest = fill_hash hash flags h.next_request_id old in
      let filled : FastPathRing = fill_slot (fill_hash hash flags h.next_request_id) ring in
      let free : leb 8191 (u32_sub ring.tail ring.head) ≡ false =
        ground (arith, w.head_is, w.tail_is, t_lt) in
      let one : u32_sub (u32_add ring.tail 1) ring.head ≡ 1 =
        omega (arith, w.head_is, w.tail_is, t_lt) in
      let at_tail : ring.tail % 8192 ≡ s = ap (λ n. n % 8192) w.tail_is ∙ sym s_is in
      let at_head : ring.head % 8192 ≡ ring.tail % 8192 =
        ap (λ n. n % 8192) (w.head_is ∙ sym w.tail_is) in
      let there : filled.requests (ring.head % 8192) ≡ new =
        ap filled.requests at_head
        ∙ update_self ring.requests (ring.tail % 8192) _
        ∙ ap (λ i. fill_hash hash flags h.next_request_id (ring.requests i)) at_tail in
      rw (w.ring_is, free)
        (record {
          accepted = refl;
          request = new;
          only_waiting =
              ap (window (λ i. i % 8192) filled.requests ring.head) one ∙ ap (λ r. r ∷ []) there;
          id_is = w.id_is;
          input_is = take-Copied 32 hash;
          flags_are = refl;
          owner = fill_hash-Belongs hash flags h.next_request_id old w.owner;
        })

generic-Idle :
    (g : Generic) (now : ℕ) (h : FastPathHandle) (ring : FastPathRing)
    → h.h_ring ≡ some ring
    → h.running ≡ true
    → ring.head ≡ ring.tail
    → ring.tail < 2 ^ 32
    → Idle g
        (ring.tail % 8192)
        ((ring.tail + 1) % 2 ^ 32)
        ((h.next_request_id + 1) % 2 ^ 64)
        (kernel_takes_one (fast_path_submit_generic g now h).0)
unfolding fast_path_submit_generic submit_request submitted fill_slot kernel_takes taken_from
    generic_request
generic-Idle g now h ring is run empty lt =
    let free : leb 8191 (u32_sub ring.tail ring.head % 8192) ≡ false = ground (arith, empty, lt) in
    let one : min 1 (u32_sub (u32_add ring.tail 1) ring.head) ≡ 1 = omega (arith, empty, lt) in
    let r : FastPathRequest = generic_request g now h.next_request_id in
    rw (is, run, free)
      (record {
        ring = kernel_takes 1 (fill_slot (λ old. r) ring);
        ring_is = refl;
        head_is = ap (λ n. u32_add ring.head n) one ∙ ap (λ n. u32_add n 1) empty;
        tail_is = refl;
        id_is = refl;
        owner =
            subst (Belongs g) (sym (update_self ring.requests (ring.tail % 8192) r))
              (record { client_is = refl; payload_offset_is = refl; payload_len_is = refl });
      })

-- Let nothing wait in the ring of a running handle. A generic call is made and the kernel takes its
-- request; then 8191 hashes are submitted by `fast_path_submit`, the kernel taking each before the
-- next. A further hash is then accepted with the next number, and it is the one request that waits,
-- but its client and its payload are those of the generic call.
pub fast_path_submit-stale :
    (g : Generic) (now : ℕ) (hashes : List (List ℕ)) (hash : List ℕ) (flags : ℕ)
    (h : FastPathHandle) (ring : FastPathRing)
    → h.h_ring ≡ some ring
    → h.running ≡ true
    → ring.head ≡ ring.tail
    → ring.tail < 2 ^ 32
    → length hashes ≡ 8191
    → Misdirected g hash flags ((h.next_request_id + 8192) % 2 ^ 64) (
        fast_path_submit hash flags
          (rounds hashes (kernel_takes_one (fast_path_submit_generic g now h).0)))
fast_path_submit-stale g now hashes hash flags h ring is run empty lt len =
    let s : ℕ = ring.tail % 8192 in
    let t : ℕ = ((ring.tail + 1) % 2 ^ 32 + length hashes) % 2 ^ 32 in
    let id : ℕ = ((h.next_request_id + 1) % 2 ^ 64 + length hashes) % 2 ^ 64 in
    let id_is : id ≡ (h.next_request_id + 8192) % 2 ^ 64 = omega (arith, len) in
    let taken : FastPathHandle = kernel_takes_one (fast_path_submit_generic g now h).0 in
    subst (λ n. Misdirected g hash flags n (fast_path_submit hash flags (rounds hashes taken)))
      id_is
      (last-Misdirected g s hash flags t id (rounds hashes taken) (omega arith) (omega (arith, len))
        (rounds-Idle g s hashes ((ring.tail + 1) % 2 ^ 32) ((h.next_request_id + 1) % 2 ^ 64) taken
          (omega arith) (omega arith) (generic-Idle g now h ring is run empty lt)))
