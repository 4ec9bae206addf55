-- ===== src/Mouse/Tests.antt =====
-- Runs of kernel/mouse.c.
use piux_kernel.Prelude.{
  ℕ, ◌≡◌, refl, arith, [], ◌∷◌, ◌++◌, some, replicate, pos, negsuc, if◌then◌else◌, ◌==◌,
}
use piux_kernel.Mouse.{
  Mouse, Ports, zero_event, wheel_of, event_of, enqueue, take_byte, mouse_irq_handler, mouse_poll,
  read_aux, dequeue,
}
use piux_kernel.Mouse.Queue.{IsValid, contents, pop}
use piux_kernel.Mouse.Packet.{Aligned, take_bytes}
use piux_kernel.Mouse.Poll.{completed, poll-pop}

abbrev fresh : ℕ → Mouse
fresh n = record {
  packet_length = n;
  packet = λ _. 0;
  packet_index = 0;
  event_queue = replicate 32 zero_event;
  queue_read = 31;
  queue_write = 31;
}

fresh-Aligned : (Aligned (fresh 3) 0x09) × (Aligned (fresh 4) 0x28)
fresh-Aligned = omega arith

-- A wheel turned by one step down, two bytes after a byte that cannot begin a packet.
run_four :
    contents (take_bytes (fresh 4) (0x00 ∷ 0x28 ∷ 1 ∷ 2 ∷ 0x0f ∷ []))
    ≡ record { buttons = 0; dx = pos 1; dy = pos 2; wheel = negsuc 0 } ∷ []
unfolding take_byte enqueue event_of wheel_of
run_four = refl

-- A mouse that has read two bytes of a packet, and the port with the third one.
abbrev two_read : Mouse
two_read = record (fresh 3) { packet = λ i. if i == 0 then 0x09 else 5; packet_index = 2 }

two_read-IsValid : IsValid two_read
two_read-IsValid = omega arith

abbrev third : Ports
third = record { status = 1; status_again = 0x21; value = 0xff }

poll-pop_example :
    let (out, m') = mouse_poll two_read third in
    let arrived =
      if two_read.queue_read == two_read.queue_write
      then completed two_read (read_aux third)
      else [] in
    ((out, contents m') ≡ pop (contents two_read ++ arrived)) × IsValid m'
poll-pop_example = poll-pop two_read third two_read-IsValid (omega arith)

-- The event of the three bytes is handed out.
run_third :
    (mouse_poll two_read third).0
    ≡ some (record { buttons = 1; dx = pos 5; dy = negsuc 0; wheel = pos 0 })
unfolding mouse_poll mouse_irq_handler read_aux take_byte enqueue event_of dequeue
run_third = refl
