-- ===== src/Ps2/Mouse.antt =====
-- kernel/src/drivers/ps2_mouse.c, and struct ps2_mouse and struct hid_mouse_event of
-- kernel/include/drivers. A byte is a number below 256.
pub mod Packet
mod Tests
use rubberos.Base.{
  ℕ, ◌+◌, ◌-◌, ◌/◌, ◌%◌, ◌^◌, Bool, true, false, Option, none, some, List, [], ◌∷◌, ltb, ◌==◌,
  length, set, get_or, if◌then◌else◌,
}
use rubberos.Base.Int.{ℤ, pos, negsuc}

pub record Mouse : Type 0 where
  pub packet_index : ℕ
  pub packet : List ℕ

pub record MouseEvent : Type 0 where
  pub dx : ℤ
  pub dy : ℤ
  pub left : Bool
  pub right : Bool
  pub middle : Bool

-- the `memset` of ps2_mouse_init
pub init : Mouse
init = record { packet_index = 0; packet = 0 ∷ 0 ∷ 0 ∷ [] }

-- `(flags & (1 << n)) != 0`
abbrev pub has_flag : ℕ → ℕ → Bool
has_flag n flags = flags / 2 ^ n % 2 == 1

-- the number that a 16 bit pattern stands for, as an int16_t
pub int16 : ℕ → ℤ
int16 w = if ltb w 0x8000 then pos w else negsuc (0xffff - w)

-- `(int16_t)(low | (sign ? 0xff00 : 0))`: `low` is a byte, so `|` adds
pub delta : Bool → ℕ → ℤ
unfolding int16
delta sign low = int16 (if sign then 0xff00 + low else low)

-- the event of a full packet
decode : List ℕ → MouseEvent
unfolding delta
decode packet =
    let flags = get_or packet 0 0 in
    record {
      dx = delta (has_flag 4 flags) (get_or packet 1 0);
      dy = delta (has_flag 5 flags) (get_or packet 2 0);
      left = has_flag 0 flags;
      right = has_flag 1 flags;
      middle = has_flag 2 flags;
    }

store : Mouse → ℕ → Mouse × Option MouseEvent
store ms byte =
    let packet = set ms.packet ms.packet_index byte in
    let index = (ms.packet_index + 1) % 256 in
    if ltb index 3
    then (record { packet_index = index; packet = packet }, none)
    else (record { packet_index = 0; packet = packet }, some (decode packet))

-- The new state, and the event if the call returned true. `none` is a write behind the packet.
pub put_byte : Mouse → ℕ → Option (Mouse × Option MouseEvent)
unfolding store
put_byte ms byte = if ltb ms.packet_index (length ms.packet) then some (store ms byte) else none
