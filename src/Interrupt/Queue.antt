-- ===== src/Interrupt/Queue.antt =====
-- The interrupt queue refines a bounded first-in first-out queue, over any sequence of calls.
use rubberos.Base.{
  ℕ, ◌≡◌, refl, Bool, true, false, Option, none, some, List, [], ◌∷◌, ◌++◌, arith, ltb, length,
  if◌then◌else◌, length-replicate, Option-cases, Bool-cases, inl, inr, ap, ◌∙◌,
}
use rubberos.RingBuffer.{is_full, is_empty}
use rubberos.RingBuffer.Fifo.{Holds, Holds-ring_init, push_lem, pop_lem, is_full_lem, is_empty_lem}
use rubberos.Interrupt.{
  IntrMsg, IntrQueue, intr_queue_size, msg_buffer, interrupt_init, intr_queue_push,
  intr_queue_try_pop,
}

-- a call of a handler or of the main loop, and what it returned
pub data Call : Type 0 where
  push_msg : IntrMsg → Call
  try_pop : Call

pub data Answer : Type 0 where
  pushed : Bool → Answer
  popped : Option IntrMsg → Answer

call_push : Option (IntrQueue × Bool) → Option (IntrQueue × Answer)
call_push none = none
call_push (some (queue, done)) = some (queue, pushed done)

call_pop : Option (IntrQueue × Option IntrMsg) → Option (IntrQueue × Answer)
call_pop none = none
call_pop (some (queue, msg)) = some (queue, popped msg)

call : IntrQueue → Call → Option (IntrQueue × Answer)
call queue (push_msg msg) = call_push (intr_queue_push queue msg)
call queue try_pop = call_pop (intr_queue_try_pop queue)

-- the answers to the calls, in order
pub run : IntrQueue → List Call → Option (List Answer)
run queue [] = some []
run queue (c ∷ calls) = elim (call queue c) [
  | none ↦ none
  | some (queue', answer) ↦ elim (run queue' calls) [
    | none ↦ none
    | some answers ↦ some (answer ∷ answers)
  ]
]

-- The specification: a list that grows at its end up to the limit and shrinks at its front.
spec_call : ℕ → List IntrMsg → Call → List IntrMsg × Answer
spec_call limit msgs (push_msg msg) =
    if ltb (length msgs) limit then (msgs ++ msg ∷ [], pushed true) else (msgs, pushed false)
spec_call limit [] try_pop = ([], popped none)
spec_call limit (msg ∷ msgs) try_pop = (msgs, popped (some msg))

pub fifo : ℕ → List IntrMsg → List Call → List Answer
unfolding spec_call
fifo limit msgs [] = []
fifo limit msgs (c ∷ calls) =
    let (msgs', answer) = spec_call limit msgs c in answer ∷ fifo limit msgs' calls

Matches : ℕ → List IntrMsg × Answer → Option (IntrQueue × Answer) → Type 0
Matches limit (msgs, expected) none = ⊥
Matches limit (msgs, expected) (some (queue, answer)) =
    Holds queue msgs × (queue.maxlen ≡ limit) × (answer ≡ expected)

call-Matches :
    (queue : IntrQueue) (msgs : List IntrMsg) (c : Call)
    → Holds queue msgs
    → Matches queue.maxlen (spec_call queue.maxlen msgs c) (call queue c)
unfolding Matches spec_call call call_push call_pop intr_queue_push intr_queue_try_pop
call-Matches queue msgs (push_msg msg) h = elim (Bool-cases (ltb (length msgs) queue.maxlen)) [
  | inl room ↦
      let (queue', stored, holds, kept) = push_lem queue msgs msg h (ground arith) in
      let full : is_full queue ≡ false = ground (arith, is_full_lem queue msgs h) in
      rw (room, call, call_push, intr_queue_push, full, stored) (holds, kept, refl)
  | inr stuffed ↦
      let full : is_full queue ≡ true =
        ground (arith, is_full_lem queue msgs h, h.counted, h.fits) in
      rw (stuffed, call, call_push, intr_queue_push, full) (h, refl, refl)
]
call-Matches queue [] try_pop h =
    let empty : is_empty queue ≡ true = ground (arith, is_empty_lem queue [] h) in
    rw (call, call_pop, intr_queue_try_pop, empty) (h, refl, refl)
call-Matches queue (msg ∷ msgs) try_pop h =
    let (queue', taken, holds, kept) = pop_lem queue msg msgs h in
    let some_msg : is_empty queue ≡ false = ground (arith, is_empty_lem queue (msg ∷ msgs) h) in
    rw (call, call_pop, intr_queue_try_pop, some_msg, taken) (holds, kept, refl)

run_lem :
    (calls : List Call) (queue : IntrQueue) (msgs : List IntrMsg)
    → Holds queue msgs
    → run queue calls ≡ some (fifo queue.maxlen msgs calls)
unfolding run fifo Matches
run_lem [] queue msgs h = refl
run_lem (c ∷ calls) queue msgs h =
    let matches = call-Matches queue msgs c h in
    elim (Option-cases (call queue c)) [
      | inl stuck ↦ absurd (rw stuck at matches)
      | inr ((queue', answer), called) ↦
          let (holds, kept, same) = rw called at matches in
          let rest = run_lem calls queue' (spec_call queue.maxlen msgs c).0 holds in
          rw (run, called, rest, kept, same) refl
    ]

length-msg_buffer : (size : ℕ) → length (msg_buffer size) ≡ size
unfolding msg_buffer
length-msg_buffer size = length-replicate size (record { kind = 0; byte = 0 })

-- From interrupt_init on, whatever the order of the calls, no assertion fails and no access is
-- outside the buffer, and every call answers as a first-in first-out queue of 4096 messages does.
pub run-interrupt_init :
    (calls : List Call) → run interrupt_init calls ≡ some (fifo intr_queue_size [] calls)
unfolding interrupt_init
run-interrupt_init calls =
    let (holds, size) =
      Holds-ring_init (msg_buffer intr_queue_size) intr_queue_size
        (length-msg_buffer intr_queue_size) (omega arith) in
    run_lem calls interrupt_init [] holds ∙ ap (λ n. some (fifo n [] calls)) size
