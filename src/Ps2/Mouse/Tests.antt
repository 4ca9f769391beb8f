-- ===== src/Ps2/Mouse/Tests.antt =====
-- Instances of the theorems on the mouse driver.
use rubberos.Base.{◌≡◌, refl, some, [], ◌∷◌, arith}
use rubberos.Ps2.Mouse.{init}
use rubberos.Ps2.Mouse.Packet.{IsValid, run, event_of, run_packet}

init-IsValid : IsValid init
unfolding init
init-IsValid = record { three = refl; index_in = omega arith }

starts : init.packet_index ≡ 0
unfolding init
starts = refl

-- left button, one step to the left and three up
run_packet_example :
    run init (0x19 ∷ 0xff ∷ 0x03 ∷ [])
    ≡ some (
      record { packet_index = 0; packet = 0x19 ∷ 0xff ∷ 0x03 ∷ [] },
      event_of 0x19 0xff 0x03 ∷ [],
    )
run_packet_example = run_packet init 0x19 0xff 0x03 init-IsValid starts (omega arith) (omega arith)
