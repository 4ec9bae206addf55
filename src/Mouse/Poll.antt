-- ===== src/Mouse/Poll.antt =====
-- What `mouse_poll` of kernel/mouse.c hands out.
use piux_kernel.Prelude.{
  ℕ, ◌+◌, ◌-◌, ◌%◌, ◌<◌, ◌≡◌, ◌⊎◌, ◌&&◌, not, ◌++◌, Option, none, some, false, refl, ◌∙◌, ap, ◌==◌,
  if◌then◌else◌, arith, List, [], ◌∷◌, bit_and-mask, pos, negsuc, ltb, Bool-cases, inl, inr,
  Option-cases, update,
}
use mathlib.Core.Path.{ap₂}
use piux_kernel.Mouse.{
  Mouse, MouseEvent, Ports, int8, event_of, take_byte, read_aux, mouse_irq_handler, mouse_poll,
  dequeue,
}
use piux_kernel.Mouse.Queue.{IsValid, contents, put, pop, contents-empty, contents-dequeue}
use piux_kernel.Mouse.Packet.{handler-IsValid, wheel_of_lem, finished, after}

dequeue-IsValid : (m : Mouse) → IsValid m → IsValid (dequeue m).1
unfolding dequeue
dequeue-IsValid m v = ground arith

-- The event that the bytes of a packet stand for, the byte `b` being the last one.
abbrev pub event_with : Mouse → ℕ → MouseEvent
event_with m b =
    let bytes = update m.packet m.packet_index b in
    record {
      buttons = bytes 0 % 8;
      dx = int8 (bytes 1);
      dy = int8 (bytes 2);
      wheel =
          if m.packet_length == 4
          then (if ltb (b % 16) 8 then pos (b % 16) else negsuc (15 - b % 16))
          else pos 0;
    }

-- The events that a byte completes: one, if it is the last of a packet.
abbrev pub completed : Mouse → Option ℕ → List MouseEvent
completed m none = []
completed m (some b) =
    if not (m.packet_index == 0) && m.packet_index + 1 == m.packet_length
    then event_with m b ∷ []
    else []

event_of_lem :
    (m : Mouse) (b : ℕ)
    → b < 256
    → m.packet_index + 1 ≡ m.packet_length
    → event_of (record m { packet = update m.packet m.packet_index b; packet_index = 0 })
      ≡ event_with m b
unfolding event_of
event_of_lem m b h last =
    ground (arith, bit_and-mask 3 (update m.packet m.packet_index b 0), wheel_of_lem b h)

-- A byte that is not the last of a packet.
not_last :
    (m : Mouse) (b : ℕ)
    → IsValid m
    → (not (m.packet_index == 0) && m.packet_index + 1 == m.packet_length) ≡ false
    → (take_byte m b ≡ m) ⊎ (take_byte m b ≡ after m b)
unfolding take_byte
not_last m b v e = ground (arith, v.collecting, v.lengths)

-- A byte that an empty ring takes.
take_empty :
    (m : Mouse) (b : ℕ)
    → IsValid m
    → b < 256
    → contents m ≡ []
    → contents (take_byte m b) ≡ completed m (some b)
take_empty m b v h none_wait =
    elim (Bool-cases (not (m.packet_index == 0) && m.packet_index + 1 == m.packet_length)) [
      | inl last ↦
          let end : m.packet_index + 1 ≡ m.packet_length = ground arith in
          rw last
            ((finished m b v (ground arith) end).0 ∙ ap₂ put none_wait (event_of_lem m b h end))
      | inr other ↦ rw other (elim (not_last m b v other) [
        | inl e ↦ ap contents e ∙ none_wait
        | inr e ↦ ap contents e ∙ none_wait
      ])
    ]

-- The byte taken is the one at the port.
read_aux-value : (p : Ports) (b : ℕ) → read_aux p ≡ some b → b ≡ p.value
unfolding read_aux
read_aux-value p b e = ground arith

handle_empty :
    (m : Mouse) (p : Ports)
    → IsValid m
    → p.value < 256
    → contents m ≡ []
    → contents (mouse_irq_handler m p) ≡ completed m (read_aux p)
unfolding mouse_irq_handler
handle_empty m p v h none_wait = elim (Option-cases (read_aux p)) [
  | inl nothing ↦ rw (nothing, mouse_irq_handler) none_wait
  | inr (b, byte) ↦
      rw (byte, mouse_irq_handler)
        (take_empty m b v (omega (arith, read_aux-value p b byte)) none_wait)
]

append_none : (q : List MouseEvent) → q ++ [] ≡ q
append_none [] = refl
append_none (e ∷ q) = ap (λ t. e ∷ t) (append_none q)

-- `mouse_poll` on a valid ring, with a byte at the port: an event that waits is handed out, the
-- oldest one first, and the ports are left alone. With nothing waiting a byte of the mouse is
-- taken: if it is the last one of a packet, the event of the packet's bytes is handed out, three
-- buttons, two signed offsets and the wheel's four signed bits, if there is a wheel, and otherwise
-- none. No other event is lost or added, and the ring stays valid.
pub poll-pop :
    (m : Mouse) (p : Ports)
    → IsValid m
    → p.value < 256
    → let (out, m') = mouse_poll m p in
      let arrived = if m.queue_read == m.queue_write then completed m (read_aux p) else [] in
      ((out, contents m') ≡ pop (contents m ++ arrived)) × IsValid m'
unfolding mouse_poll
poll-pop m p v h = elim (Bool-cases (m.queue_read == m.queue_write)) [
  | inl empty ↦
      let w = handler-IsValid m p v in
      let none_wait = contents-empty m empty in
      rw (empty, none_wait)
        (
          contents-dequeue (mouse_irq_handler m p) w ∙ ap pop (handle_empty m p v h none_wait),
          dequeue-IsValid _ w,
        )
  | inr waiting ↦ rw (waiting, append_none (contents m)) (contents-dequeue m v, dequeue-IsValid m v)
]
