-- ===== src/FastPath/Queue/Calls.antt =====
-- The calls a dispatcher and a client make on a queue, and the same calls on a bounded list from
-- whose front one takes: what a client may rely on.
use gpu_rotation_engine.Base.{
  ℕ, ◌-◌, ◌≡◌, Bool, true, false, List, [], ◌∷◌, ◌++◌, min, length, take, drop, if◌then◌else◌, ltb,
}
use gpu_rotation_engine.FastPath.Response.{FastPathResponse}
use gpu_rotation_engine.FastPath.Queue.{
  CompletionQueue, contents, IsValid, push, push_bulk, pop, pop_count_only,
}

-- A call on the queue, and what it answers.
pub data Call : Type 0 where
  offer : FastPathResponse → Call
  offer_all : List FastPathResponse → Call
  fetch : ℕ → Call
  skip : ℕ → Call

pub data Answer : Type 0 where
  accepted : Bool → Answer
  pushed : ℕ → Answer
  popped : List FastPathResponse → Answer
  counted : ℕ → Answer

unfoldable pub call : Call → CompletionQueue → CompletionQueue × Answer
call (Call.offer r) q = let (q', b) = push r q in (q', Answer.accepted b)
call (Call.offer_all rs) q = let (q', n) = push_bulk rs q in (q', Answer.pushed n)
call (Call.fetch n) q = let (q', out) = pop n q in (q', Answer.popped out)
call (Call.skip n) q = let (q', k) = pop_count_only n q in (q', Answer.counted k)

unfoldable pub calls : List Call → CompletionQueue → CompletionQueue × List Answer
calls [] q = (q, [])
calls (c ∷ cs) q = let (q', a) = call c q in let (q'', answers) = calls cs q' in (q'', a ∷ answers)

-- The same calls on a list of at most 65536 responses.
abbrev pub list_call : Call → List FastPathResponse → List FastPathResponse × Answer
list_call (Call.offer r) xs =
    if ltb (length xs) 65536
    then (xs ++ (r ∷ []), Answer.accepted true)
    else (xs, Answer.accepted false)
list_call (Call.offer_all rs) xs =
    (xs ++ take (65536 - length xs) rs, Answer.pushed (min (length rs) (65536 - length xs)))
list_call (Call.fetch n) xs = (drop n xs, Answer.popped (take n xs))
list_call (Call.skip n) xs = (drop n xs, Answer.counted (min n (length xs)))

unfoldable pub list_calls : List Call → List FastPathResponse → List FastPathResponse × List Answer
list_calls [] xs = (xs, [])
list_calls (c ∷ cs) xs =
    let (xs', a) = list_call c xs in let (xs'', answers) = list_calls cs xs' in (xs'', a ∷ answers)

-- A queue and an answer that stand for a list and the same answer.
abbrev pub Refines : CompletionQueue × Answer → List FastPathResponse × Answer → Type 0
Refines (q, a) (xs, b) = IsValid q × (contents q ≡ xs) × (a ≡ b)
