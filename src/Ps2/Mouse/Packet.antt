-- ===== src/Ps2/Mouse/Packet.antt =====
-- Three bytes make one mouse event, and a write never leaves the packet.
use rubberos.Base.{
  ℕ, ◌<◌, ◌≡◌, refl, Bool, Option, none, some, List, [], ◌∷◌, arith, length, length-set,
  if◌then◌else◌,
}
use rubberos.Base.Int.{pos, ◌-ℤ◌}
use rubberos.Ps2.Mouse.{Mouse, MouseEvent, has_flag, decode, delta, put_byte}

pub record IsValid (ms : Mouse) : Type 0 where
  pub three : length ms.packet ≡ 3
  pub index_in : ms.packet_index < 3

abbrev pub Returns :
    (Mouse → Option MouseEvent → Type 0) → Option (Mouse × Option MouseEvent) → Type 0
Returns P none = ⊥
Returns P (some (ms, evt)) = P ms evt

-- the bytes in order: the events that they complete
unfoldable pub run : Mouse → List ℕ → Option (Mouse × List MouseEvent)
run ms [] = some (ms, [])
run ms (byte ∷ bytes) = elim (put_byte ms byte) [
  | none ↦ none
  | some (ms', evt) ↦ elim (run ms' bytes) [
    | none ↦ none
    | some (last, evts) ↦ some (last, elim evt [ none ↦ evts | some e ↦ e ∷ evts ])
  ]
]

-- A byte never goes outside the packet, and the state stays valid.
pub put_byte-IsValid :
    (ms : Mouse) (byte : ℕ) → IsValid ms → Returns (λ ms' evt. IsValid ms') (put_byte ms byte)
unfolding put_byte
put_byte-IsValid ms byte v = ground (arith, length-set ms.packet ms.packet_index byte)

length-three : (xs : List ℕ) → length xs ≡ 3 → (a : ℕ) × (b : ℕ) × (c : ℕ) × (xs ≡ a ∷ b ∷ c ∷ [])
length-three [] e = absurd (omega arith)
length-three (a ∷ []) e = absurd (omega arith)
length-three (a ∷ b ∷ []) e = absurd (omega arith)
length-three (a ∷ b ∷ c ∷ []) e = (a, b, c, refl)
length-three (a ∷ b ∷ c ∷ d ∷ xs) e = absurd (omega arith)

-- the movement in a packet: nine bits in two's complement, the ninth in the flags
delta_lem :
    (sign : Bool) (low : ℕ) → low < 256 → delta sign low ≡ pos low -ℤ pos (if sign then 256 else 0)
unfolding delta ◌-ℤ◌
delta_lem sign low h = ground arith

pub event_of : (flags x y : ℕ) → MouseEvent
event_of flags x y = record {
  dx = pos x -ℤ pos (if has_flag 4 flags then 256 else 0);
  dy = pos y -ℤ pos (if has_flag 5 flags then 256 else 0);
  left = has_flag 0 flags;
  right = has_flag 1 flags;
  middle = has_flag 2 flags;
}

run_three :
    (a b c flags x y : ℕ)
    → let packet : List ℕ = flags ∷ x ∷ y ∷ [] in
      run (record { packet_index = 0; packet = a ∷ b ∷ c ∷ [] }) packet
      ≡ some (record { packet_index = 0; packet = packet }, decode packet ∷ [])
unfolding run put_byte
run_three a b c flags x y = refl

decode-event_of :
    (flags x y : ℕ) → x < 256 → y < 256 → decode (flags ∷ x ∷ y ∷ []) ≡ event_of flags x y
unfolding decode event_of
decode-event_of flags x y hx hy =
    ground (arith, delta_lem (has_flag 4 flags) x, delta_lem (has_flag 5 flags) y)

-- Between two packets, three bytes are one event: the buttons are bits 0, 1 and 2 of the first byte,
-- and the movements are the second and third byte, less 256 if bit 4 or bit 5 of the first is set.
pub run_packet :
    (ms : Mouse) (flags x y : ℕ)
    → IsValid ms
    → ms.packet_index ≡ 0
    → x < 256
    → y < 256
    → run ms (flags ∷ x ∷ y ∷ [])
      ≡ some (record { packet_index = 0; packet = flags ∷ x ∷ y ∷ [] }, event_of flags x y ∷ [])
run_packet ms flags x y v start hx hy =
    let (a, b, c, e) = length-three ms.packet v.three in
    let same : ms ≡ record { packet_index = 0; packet = a ∷ b ∷ c ∷ [] } = ground arith in
    rw (same, run_three a b c flags x y, decode-event_of flags x y hx hy)
