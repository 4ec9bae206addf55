-- ===== src/Mouse.antt =====
-- kernel/mouse.c and kernel/mouse.h: PS/2 packets are put together from the bytes of the
-- auxiliary port and wait in a ring of 32 events. What the ports give is an argument.
pub mod Queue
pub mod Packet
pub mod Poll
mod Tests
use piux_kernel.Prelude.{
  ℕ, zero, suc, ◌+◌, ◌-◌, ◌%◌, Bool, true, false, ◌&&◌, ◌||◌, not, ltb, ◌==◌, if◌then◌else◌, List,
  [], ◌∷◌, get_or, set, Option, none, some, bit_and, bit_or, ℤ, pos, negsuc, Buffer, update,
}

abbrev pub mouse_queue_size : ℕ
mouse_queue_size = 32

-- `mouse_event_t`.
pub record MouseEvent : Type 0 where
  pub buttons : ℕ
  pub dx : ℤ
  pub dy : ℤ
  pub wheel : ℤ

abbrev pub zero_event : MouseEvent
zero_event = record { buttons = 0; dx = pos 0; dy = pos 0; wheel = pos 0 }

-- The static variables of the file.
pub record Mouse : Type 0 where
  pub packet_length : ℕ
  pub packet : Buffer
  pub packet_index : ℕ
  pub event_queue : List MouseEvent
  pub queue_read : ℕ
  pub queue_write : ℕ

-- What the two reads of port 0x64 and the read of port 0x60 give.
pub record Ports : Type 0 where
  pub status : ℕ
  pub status_again : ℕ
  pub value : ℕ

-- The byte, if it is one of the mouse.
unfoldable pub read_aux : Ports → Option ℕ
read_aux p =
    if bit_and p.status 1 == 0 || bit_and p.status_again 0x20 == 0 then none else some p.value

-- `(int8_t)` of a byte.
abbrev pub int8 : ℕ → ℤ
int8 b = if ltb b 128 then pos b else negsuc (255 - b)

-- The low four bits of the fourth byte, with their sign carried up.
unfoldable pub wheel_of : ℕ → ℤ
wheel_of b =
    let low = bit_and b 0x0f in int8 (if bit_and low 0x08 == 0 then low else bit_or low 0xf0)

-- The event of a complete packet.
unfoldable pub event_of : Mouse → MouseEvent
event_of m = record {
  buttons = bit_and (m.packet 0) 0x07;
  dx = int8 (m.packet 1);
  dy = int8 (m.packet 2);
  wheel = if m.packet_length == 4 then wheel_of (m.packet 3) else pos 0;
}

-- The end of `mouse_irq_handler`, at a complete packet: a full ring drops the event.
unfoldable pub enqueue : Mouse → MouseEvent → Mouse
enqueue m event =
    let next_write = (m.queue_write + 1) % mouse_queue_size in
    if next_write == m.queue_read
    then m
    else record m { event_queue = set m.event_queue m.queue_write event; queue_write = next_write }

-- `mouse_irq_handler` on a byte of the mouse.
unfoldable pub take_byte : Mouse → ℕ → Mouse
take_byte m value =
    let stored = record m {
      packet = update m.packet m.packet_index value;
      packet_index = m.packet_index + 1;
    } in
    let complete = record stored { packet_index = 0 } in
    if m.packet_index == 0 && bit_and value 0x08 == 0
    then m
    else if ltb stored.packet_index m.packet_length
    then stored
    else enqueue complete (event_of complete)

unfoldable pub mouse_irq_handler : Mouse → Ports → Mouse
mouse_irq_handler m p = elim (read_aux p) [ none ↦ m | some value ↦ take_byte m value ]

-- The end of `mouse_poll`: the event, if there is one, and the state.
unfoldable pub dequeue : Mouse → Option MouseEvent × Mouse
dequeue m = if m.queue_read == m.queue_write then (none, m) else (
  some (get_or m.event_queue m.queue_read zero_event),
  record m { queue_read = (m.queue_read + 1) % mouse_queue_size },
)

-- `mouse_poll` with a place for the event; an empty ring asks the ports first.
unfoldable pub mouse_poll : Mouse → Ports → Option MouseEvent × Mouse
mouse_poll m p = dequeue (if m.queue_read == m.queue_write then mouse_irq_handler m p else m)
