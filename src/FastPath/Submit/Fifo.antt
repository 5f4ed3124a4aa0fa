-- ===== src/FastPath/Submit/Fifo.antt =====
-- The first shard's ring against a list of requests that are numbered as they come.
use gpu_rotation_engine.Base.{
  ℕ, ◌+◌, ◌%◌, ◌^◌, ◌<◌, ◌≡◌, refl, sym, ap, subst, All2, All2-length, All2-snoc, All2-drop, ◌∙◌,
  true, false, Option, none, some, List, [], ◌∷◌, ◌++◌, arith, length, drop, min, if◌then◌else◌,
  leb, ltb, ltb_cases, inl, inr, drop_left,
}
use gpu_rotation_engine.FastPath.Ring.{
  u32_add, u32_sub, Apart, window, write_all, window-write_all, window_split, length-window,
}
use gpu_rotation_engine.FastPath.Submit.{
  FastPathRequest, FastPathRing, FastPathHandle, fill_slot, submitted, Generic, Multisign,
  generic_request, multisign_request, submit_request, fast_path_submit_multisign,
  fast_path_submit_generic, IsValid,
}
use gpu_rotation_engine.FastPath.Submit.Carried.{
  Accepted, Carries, generic_request-Carries, multisign_request-Carries,
}

abbrev slot : ℕ → ℕ
slot i = i % 8192

slot-Apart : Apart 8192 slot
slot-Apart h i lt pos i_lt clash = absurd (omega (arith, clash))

-- The requests that wait for the kernel, oldest first.
abbrev pub waiting : FastPathRing → List FastPathRequest
waiting ring = window slot ring.requests ring.head (u32_sub ring.tail ring.head)

-- The kernel takes up to `n` requests off the ring.
unfoldable pub kernel_takes : ℕ → FastPathRing → FastPathRing
kernel_takes n ring = record ring { head = u32_add ring.head (min n (u32_sub ring.tail ring.head)) }

module _ (ring : FastPathRing) (v : IsValid ring) where
  abbrev used : ℕ
  used = u32_sub ring.tail ring.head

  waiting-fill_slot :
      (fill : FastPathRequest → FastPathRequest)
      → used < 8191
      → IsValid (fill_slot fill ring)
        × (waiting (fill_slot fill ring)
            ≡ waiting ring ++ (fill (ring.requests (slot ring.tail)) ∷ []))
  unfolding fill_slot write_all
  waiting-fill_slot fill room =
      let r : FastPathRequest = fill (ring.requests (slot ring.tail)) in
      let grown : u32_sub (u32_add ring.tail 1) ring.head ≡ used + 1 =
        omega (arith, v.head_lt, v.tail_lt, room) in
      let tail_is : ring.tail ≡ u32_add ring.head used = omega (arith, v.head_lt, v.tail_lt) in
      (
        record { head_lt = v.head_lt; tail_lt = omega arith; used_le = omega (arith, grown, room) },
        ap (window slot (write_all slot ring.requests ring.tail (r ∷ [])) ring.head) grown
            ∙ ap (λ t. window slot (write_all slot ring.requests t (r ∷ [])) ring.head (used + 1))
                tail_is
            ∙ window-write_all slot 8192 slot-Apart (r ∷ []) ring.requests ring.head used v.head_lt
                (omega (arith, room)),
      )

  waiting-kernel_takes :
      (n : ℕ)
      → IsValid (kernel_takes n ring)
        × (waiting (kernel_takes n ring) ≡ drop (min n used) (waiting ring))
  unfolding kernel_takes
  waiting-kernel_takes n =
      let m : ℕ = min n used in
      let left : u32_sub ring.tail (u32_add ring.head m) + m ≡ used =
        omega (arith, v.head_lt, v.tail_lt) in
      let all : used ≡ m + u32_sub ring.tail (u32_add ring.head m) = omega (arith, left) in
      (
        record {
          head_lt = omega arith;
          tail_lt = v.tail_lt;
          used_le = omega (arith, left, v.used_le);
        },
        sym (
            ap (λ k. drop m (window slot ring.requests ring.head k)) all
            ∙ ap (drop m) (
                window_split slot ring.requests ring.head m
                  (u32_sub ring.tail (u32_add ring.head m)) v.head_lt)
            ∙ drop_left m _ _ (length-window slot ring.requests ring.head m)),
      )

-- What happens to the ring: a submission by the host, or requests taken by the kernel.
pub data Event : Type 0 where
  generic : Generic → ℕ → Event
  multisign : Multisign → Event
  taken : ℕ → Event

unfoldable pub taken_from : Option FastPathRing → ℕ → FastPathHandle → FastPathHandle
taken_from none n h = h
taken_from (some ring) n h = record h { h_ring = some (kernel_takes n ring) }

-- The handle afterwards, and the number of requests accepted.
unfoldable pub event : Event → FastPathHandle → FastPathHandle × ℕ
event (Event.generic g now) h = fast_path_submit_generic g now h
event (Event.multisign m) h = fast_path_submit_multisign m h
event (Event.taken n) h = (taken_from h.h_ring n h, 0)

unfoldable pub events : List Event → FastPathHandle → FastPathHandle × List ℕ
events [] h = (h, [])
events (e ∷ es) h = let (h', n) = event e h in let (h'', ns) = events es h' in (h'', n ∷ ns)

-- The same on a list of at most 8191 accepted calls, each with its number, and the next number.
abbrev pub Waiting : Type 0
Waiting = List Accepted × ℕ

abbrev pub list_submit : (ℕ → Accepted) → Waiting → Waiting × ℕ
list_submit call (xs, id) =
    if ltb (length xs) 8191 then ((xs ++ (call id ∷ []), (id + 1) % 2 ^ 64), 1) else ((xs, id), 0)

abbrev pub list_event : Event → Waiting → Waiting × ℕ
list_event (Event.generic g now) s = list_submit (λ id. Accepted.generic id g now) s
list_event (Event.multisign m) s = list_submit (λ id. Accepted.multisign id m) s
list_event (Event.taken n) (xs, id) = ((drop (min n (length xs)) xs, id), 0)

unfoldable pub list_events : List Event → Waiting → Waiting × List ℕ
list_events [] s = (s, [])
list_events (e ∷ es) s =
    let (s', n) = list_event e s in let (s'', ns) = list_events es s' in (s'', n ∷ ns)

-- A running handle whose first ring is valid and whose next number is `s.1`: the requests that wait
-- carry the calls of `s.0`, one for one and in order.
pub record Holds (h : FastPathHandle) (s : Waiting) : Type 0 where
  pub ring : FastPathRing
  pub ring_is : h.h_ring ≡ some ring
  pub valid : IsValid ring
  pub waiting_carry : All2 Carries s.0 (waiting ring)
  pub running_is : h.running ≡ true
  pub id_is : h.next_request_id ≡ s.1

submit-Holds :
    (request : ℕ → FastPathRequest) (call : ℕ → Accepted) (h : FastPathHandle) (s : Waiting)
    → ((id : ℕ) → Carries (call id) (request id))
    → Holds h s
    → Holds (submit_request h.h_ring request h).0 (list_submit call s).0
      × ((submit_request h.h_ring request h).1 ≡ (list_submit call s).1)
unfolding submit_request submitted
submit-Holds request call h (xs, id) carries w =
    let ring : FastPathRing = w.ring in
    let u : ℕ = used ring w.valid in
    let len : length xs ≡ u =
      All2-length Carries xs (waiting ring) w.waiting_carry
      ∙ length-window slot ring.requests ring.head u in
    elim (ltb_cases u 8191) [
      | inl (lt, e) ↦
          let free : leb 8191 (u % 8192) ≡ false = ground (arith, lt) in
          let (v, same) = waiting-fill_slot ring w.valid (λ old. request h.next_request_id) lt in
          rw (len, e, w.ring_is, w.running_is, free)
            (
              record {
                ring = fill_slot (λ old. request h.next_request_id) ring;
                ring_is = refl;
                valid = v;
                waiting_carry = subst (All2 Carries (xs ++ (call id ∷ []))) (sym same) (
                    All2-snoc Carries xs (waiting ring) (call id) (request h.next_request_id)
                      w.waiting_carry
                      (subst (λ i. Carries (call i) (request h.next_request_id)) w.id_is
                        (carries h.next_request_id)));
                running_is = refl;
                id_is = ap (λ i. (i + 1) % 2 ^ 64) w.id_is;
              },
              refl,
            )
      | inr (le, e) ↦
          let full : leb 8191 (u % 8192) ≡ true = ground (arith, le, w.valid.used_le) in
          rw (len, e, w.ring_is, w.running_is, full)
            (
              record {
                ring = ring;
                ring_is = refl;
                valid = w.valid;
                waiting_carry = w.waiting_carry;
                running_is = refl;
                id_is = w.id_is;
              },
              refl,
            )
    ]

taken-Holds :
    (n : ℕ) (h : FastPathHandle) (s : Waiting)
    → Holds h s
    → Holds (taken_from h.h_ring n h) (drop (min n (length s.0)) s.0, s.1)
unfolding taken_from
taken-Holds n h (xs, id) w =
    let ring : FastPathRing = w.ring in
    let u : ℕ = used ring w.valid in
    let len : length xs ≡ u =
      All2-length Carries xs (waiting ring) w.waiting_carry
      ∙ length-window slot ring.requests ring.head u in
    let (v, same) = waiting-kernel_takes ring w.valid n in
    rw (len, w.ring_is)
      (record {
        ring = kernel_takes n ring;
        ring_is = refl;
        valid = v;
        waiting_carry =
            subst (All2 Carries (drop (min n u) xs)) (sym same)
              (All2-drop Carries (min n u) xs (waiting ring) w.waiting_carry);
        running_is = w.running_is;
        id_is = w.id_is;
      })

event-Holds :
    (e : Event) (h : FastPathHandle) (s : Waiting)
    → Holds h s
    → Holds (event e h).0 (list_event e s).0 × ((event e h).1 ≡ (list_event e s).1)
unfolding event fast_path_submit_generic fast_path_submit_multisign
event-Holds (Event.generic g now) h s w =
    submit-Holds (generic_request g now) (λ id. Accepted.generic id g now) h s
      (generic_request-Carries g now) w
event-Holds (Event.multisign m) h s w =
    submit-Holds (multisign_request m) (λ id. Accepted.multisign id m) h s
      (multisign_request-Carries m) w
event-Holds (Event.taken n) h s w = (taken-Holds n h s w, refl)

-- On a running handle with a valid ring, whatever is submitted by the generic and the multi-sign
-- call and taken by the kernel, in any order, the ring stays valid, a submission is accepted exactly
-- when fewer than 8191 requests wait, and the accepted ones wait for the kernel in the order of
-- submission, none lost or written over. Their numbers are consecutive, and each carries the flags,
-- key slot, client, payload and input of its call, of the input 32 bytes at most.
pub events-refine-list_events :
    (es : List Event) (h : FastPathHandle) (s : Waiting)
    → Holds h s
    → Holds (events es h).0 (list_events es s).0 × ((events es h).1 ≡ (list_events es s).1)
unfolding events list_events
events-refine-list_events [] h s w = (w, refl)
events-refine-list_events (e ∷ es) h s w =
    let (w', eq) = event-Holds e h s w in
    let (w'', eqs) = events-refine-list_events es (event e h).0 (list_event e s).0 w' in
    (w'', ap (◌∷◌ (event e h).1) eqs ∙ ap (λ n. n ∷ (list_events es (list_event e s).0).1) eq)
