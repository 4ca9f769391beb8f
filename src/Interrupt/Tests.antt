-- ===== src/Interrupt/Tests.antt =====
-- The instance of the theorem on the interrupt queue.
use rubberos.Base.{◌≡◌, some, List, [], ◌∷◌}
use rubberos.Interrupt.{interrupt_init, intr_queue_size}
use rubberos.Interrupt.Queue.{Call, push_msg, try_pop, run, fifo, run-interrupt_init}

abbrev calls : List Call
calls = push_msg (record { kind = 0; byte = 0x1e }) ∷ try_pop ∷ try_pop ∷ []

run-interrupt_init_example : run interrupt_init calls ≡ some (fifo intr_queue_size [] calls)
run-interrupt_init_example = run-interrupt_init calls
