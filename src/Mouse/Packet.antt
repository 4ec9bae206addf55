-- ===== src/Mouse/Packet.antt =====
-- How packets are put together, and what reaches the queue.
use piux_kernel.Prelude.{
  ℕ, ◌+◌, ◌-◌, ◌%◌, ◌<◌, ◌≡◌, ◌≢◌, refl, ◌∙◌, ap, true, if◌then◌else◌, arith, List, [], ◌∷◌,
  bit_and, bit_and-mask, pos, negsuc, same_ℤ, same_ℤ→eq, holds_to, look_up, ltb, length-set, inl,
  inr, Option-cases, update,
}
use piux_kernel.Mouse.{
  Mouse, MouseEvent, Ports, int8, wheel_of, event_of, enqueue, take_byte, read_aux,
  mouse_irq_handler,
}
use piux_kernel.Mouse.Queue.{IsValid, contents, put, contents-enqueue}

enqueue-IsValid : (m : Mouse) (e : MouseEvent) → IsValid m → IsValid (enqueue m e)
unfolding enqueue
enqueue-IsValid m e v = ground (arith, length-set m.event_queue m.queue_write e)

pub take_byte-IsValid : (m : Mouse) (b : ℕ) → IsValid m → IsValid (take_byte m b)
unfolding take_byte
take_byte-IsValid m b v =
    let complete : Mouse = record m {
      packet = update m.packet m.packet_index b;
      packet_index = 0;
    } in
    let c : IsValid complete = omega (arith, v.slots, v.read_in, v.write_in, v.lengths) in
    ground (arith, enqueue-IsValid complete (event_of complete) c)

-- `mouse_irq_handler` keeps the ring valid, whatever the ports give.
pub handler-IsValid : (m : Mouse) (p : Ports) → IsValid m → IsValid (mouse_irq_handler m p)
unfolding mouse_irq_handler
handler-IsValid m p v = elim (Option-cases (read_aux p)) [
  | inl nothing ↦ rw (nothing, mouse_irq_handler) v
  | inr (b, byte) ↦ rw (byte, mouse_irq_handler) (take_byte-IsValid m b v)
]

-- The fourth byte holds a signed number of four bits.
wheel_table :
    holds_to
      (λ b. same_ℤ (wheel_of b) (if ltb (b % 16) 8 then pos (b % 16) else negsuc (15 - b % 16)))
      256
    ≡ true
unfolding holds_to wheel_of
wheel_table = refl

pub wheel_of_lem :
    (b : ℕ) → b < 256 → wheel_of b ≡ (if ltb (b % 16) 8 then pos (b % 16) else negsuc (15 - b % 16))
wheel_of_lem b h = same_ℤ→eq _ _ (look_up _ wheel_table h)

abbrev pub take_bytes : Mouse → List ℕ → Mouse
take_bytes m [] = m
take_bytes m (b ∷ bs) = take_bytes (take_byte m b) bs

pub take_bytes-IsValid : (m : Mouse) (bs : List ℕ) → IsValid m → IsValid (take_bytes m bs)
take_bytes-IsValid m [] v = v
take_bytes-IsValid m (b ∷ bs) v = take_bytes-IsValid (take_byte m b) bs (take_byte-IsValid m b v)

-- A byte in front of the last one of a packet is stored.
store_byte :
    (m : Mouse) (b : ℕ)
    → (m.packet_index ≡ 0 → bit_and b 0x08 ≢ 0)
    → m.packet_index + 1 < m.packet_length
    → take_byte m b
      ≡ record m { packet = update m.packet m.packet_index b; packet_index = m.packet_index + 1 }
unfolding take_byte
store_byte m b s h = ground arith

-- The last byte makes the event.
finish_packet :
    (m : Mouse) (b : ℕ)
    → m.packet_index ≢ 0
    → m.packet_index + 1 ≡ m.packet_length
    → let c : Mouse = record m { packet = update m.packet m.packet_index b; packet_index = 0 } in
      take_byte m b ≡ enqueue c (event_of c)
unfolding take_byte
finish_packet m b s h = ground arith

packet_index-enqueue : (m : Mouse) (e : MouseEvent) → (enqueue m e).packet_index ≡ m.packet_index
unfolding enqueue
packet_index-enqueue m e = ground arith

pub finished :
    (m : Mouse) (b : ℕ)
    → IsValid m
    → m.packet_index ≢ 0
    → m.packet_index + 1 ≡ m.packet_length
    → let c : Mouse = record m { packet = update m.packet m.packet_index b; packet_index = 0 } in
      (contents (take_byte m b) ≡ put (contents m) (event_of c))
      × ((take_byte m b).packet_index ≡ 0)
finished m b v s h =
    let c : Mouse = record m { packet = update m.packet m.packet_index b; packet_index = 0 } in
    let w : IsValid c = omega (arith, v.slots, v.read_in, v.write_in, v.lengths) in
    rw (finish_packet m b s h)
      (contents-enqueue c (event_of c) w, packet_index-enqueue c (event_of c))

-- A mouse between two packets, about to read a byte that can begin one.
pub record Aligned (m : Mouse) (b0 : ℕ) : Type 0 where
  pub valid : IsValid m
  pub between : m.packet_index ≡ 0
  pub first : bit_and b0 0x08 ≢ 0

abbrev pub after : Mouse → ℕ → Mouse
after m b = record m {
  packet = update m.packet m.packet_index b;
  packet_index = m.packet_index + 1;
}

two_bytes :
    (m : Mouse) (b0 b1 : ℕ) → Aligned m b0 → take_byte (take_byte m b0) b1 ≡ after (after m b0) b1
two_bytes m b0 b1 a =
    rw (store_byte m b0 (λ _. a.first) (omega (arith, a.between, a.valid.lengths))) (
      store_byte (after m b0) b1 (λ z. absurd (omega arith))
        (omega (arith, a.between, a.valid.lengths)))

after-IsValid :
    (m : Mouse) (b : ℕ) → IsValid m → m.packet_index + 1 < m.packet_length → IsValid (after m b)
after-IsValid m b v h = omega (arith, v.slots, v.read_in, v.write_in, v.lengths)

-- A mouse without a wheel, between two packets of a valid ring: three bytes, the first with its
-- bit 3 set, make one event of the three buttons and the two signed offsets, which joins the
-- queue as any new event does, and the next byte begins a packet.
pub packet_of_three :
    (m : Mouse) (b0 b1 b2 : ℕ)
    → Aligned m b0
    → m.packet_length ≡ 3
    → let m' = take_bytes m (b0 ∷ b1 ∷ b2 ∷ []) in
      (contents m'
        ≡ put (contents m) (record { buttons = b0 % 8; dx = int8 b1; dy = int8 b2; wheel = pos 0 }))
      × (m'.packet_index ≡ 0)
packet_of_three m b0 b1 b2 a l = rw (two_bytes m b0 b1 a) (
    let f =
      finished (after (after m b0) b1) b2 valid (omega (arith, a.between))
        (omega (arith, a.between)) in
    (f.0 ∙ ap (put (contents m)) event, f.1))
  where
    valid : IsValid (after (after m b0) b1)
    valid = omega (arith, a.between, a.valid)

    event :
        event_of (record (after (after (after m b0) b1) b2) { packet_index = 0 })
        ≡ record { buttons = b0 % 8; dx = int8 b1; dy = int8 b2; wheel = pos 0 }
    event = unfold event_of in ground (arith, a.between, bit_and-mask 3 b0)

-- A mouse with a wheel, between two packets of a valid ring: four bytes, the first with its bit 3
-- set and the fourth below 256, make one event of the three buttons, the two signed offsets and the
-- wheel, a signed number of four bits, which joins the queue; the next byte begins a packet.
pub packet_of_four :
    (m : Mouse) (b0 b1 b2 b3 : ℕ)
    → Aligned m b0
    → m.packet_length ≡ 4
    → b3 < 256
    → let m' = take_bytes m (b0 ∷ b1 ∷ b2 ∷ b3 ∷ []) in
      (contents m'
        ≡ put (contents m) (record {
          buttons = b0 % 8;
          dx = int8 b1;
          dy = int8 b2;
          wheel = if ltb (b3 % 16) 8 then pos (b3 % 16) else negsuc (15 - b3 % 16);
        }))
      × (m'.packet_index ≡ 0)
packet_of_four m b0 b1 b2 b3 a l h =
    rw
      (
        two_bytes m b0 b1 a,
        store_byte (after (after m b0) b1) b2 (λ z. absurd (omega arith))
            (omega (arith, a.between, l)),
      )
      (let f =
          finished (after (after (after m b0) b1) b2) b3 valid (omega (arith, a.between))
            (omega (arith, a.between)) in
        (f.0 ∙ ap (put (contents m)) event, f.1))
  where
    valid : IsValid (after (after (after m b0) b1) b2)
    valid = omega (arith, a.between, a.valid)

    event :
        event_of (record (after (after (after (after m b0) b1) b2) b3) { packet_index = 0 })
        ≡ record {
          buttons = b0 % 8;
          dx = int8 b1;
          dy = int8 b2;
          wheel = if ltb (b3 % 16) 8 then pos (b3 % 16) else negsuc (15 - b3 % 16);
        }
    event = unfold event_of in ground (arith, a.between, bit_and-mask 3 b0, wheel_of_lem b3 h)
