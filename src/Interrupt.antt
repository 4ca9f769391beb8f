-- ===== src/Interrupt.antt =====
-- kernel/src/interrupt.c: the queue of the messages that the interrupt handlers leave to the main
-- loop, and struct intr_msg of kernel/include/interrupt.h. The handlers run with interrupts off and
-- the main loop pops with interrupts off, so the calls never overlap, and any order of them is a
-- list of calls. `none` is an access behind the buffer or a failed assertion of the ring buffer.
pub mod Queue
mod Tests
use rubberos.Base.{ℕ, Bool, true, false, Option, none, some, List, replicate, if◌then◌else◌}
use rubberos.RingBuffer.{RingBuffer, ring_init, is_full, is_empty, push, pop}

pub record IntrMsg : Type 0 where
  pub kind : ℕ  -- the field `type`
  pub byte : ℕ  -- the field `data`

abbrev pub intr_queue_size : ℕ
intr_queue_size = 4096

abbrev pub IntrQueue : Type 0
IntrQueue = RingBuffer IntrMsg

-- the static array g_msg_buffer, which starts with zeros
msg_buffer : ℕ → List IntrMsg
msg_buffer size = replicate size (record { kind = 0; byte = 0 })

pub interrupt_init : IntrQueue
interrupt_init = ring_init (msg_buffer intr_queue_size) intr_queue_size

-- the queue and what the call returns
pub intr_queue_push : IntrQueue → IntrMsg → Option (IntrQueue × Bool)
intr_queue_push queue msg =
    if is_full queue
    then some (queue, false)
    else elim (push queue msg) [ none ↦ none | some queue' ↦ some (queue', true) ]

-- the message is `none` where the call returns false
pub intr_queue_try_pop : IntrQueue → Option (IntrQueue × Option IntrMsg)
intr_queue_try_pop queue =
    if is_empty queue
    then some (queue, none)
    else elim (pop queue) [ none ↦ none | some (queue', msg) ↦ some (queue', some msg) ]
