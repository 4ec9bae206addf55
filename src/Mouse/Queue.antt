-- ===== src/Mouse/Queue.antt =====
-- The ring of events is a queue of at most 31 events.
use piux_kernel.Prelude.{
  ℕ, zero, suc, ◌+◌, ◌-◌, ◌%◌, ◌<◌, ◌≤◌, ◌≡◌, ◌≢◌, refl, sym, ◌∙◌, ap, ==_iff, Bool-cases, inl, inr,
  true, false, ◌==◌, if◌then◌else◌, ◌++◌, arith, List, [], ◌∷◌, get_or, set, Option, none, some,
  length, get_or-set_self, get_or-set_ne, ltb,
}
use mathlib.Core.Path.{ap₂}
use piux_kernel.Mouse.{Mouse, MouseEvent, zero_event, mouse_queue_size, enqueue, dequeue}

pub record IsValid (m : Mouse) : Type 0 where
  pub slots : length m.event_queue ≡ mouse_queue_size
  pub read_in : m.queue_read < mouse_queue_size
  pub write_in : m.queue_write < mouse_queue_size
  pub collecting : m.packet_index < m.packet_length
  pub lengths : (3 ≤ m.packet_length) × (m.packet_length ≤ 4)

-- The `n` events from index `start` on, round the ring.
abbrev pub events_from : List MouseEvent → ℕ → ℕ → List MouseEvent
events_from q start zero = []
events_from q start (suc n) =
    get_or q start zero_event ∷ events_from q ((start + 1) % mouse_queue_size) n

abbrev pub waiting : Mouse → ℕ
waiting m = (m.queue_write + mouse_queue_size - m.queue_read) % mouse_queue_size

abbrev pub contents : Mouse → List MouseEvent
contents m = events_from m.event_queue m.queue_read (waiting m)

length-events_from : (q : List MouseEvent) (start n : ℕ) → length (events_from q start n) ≡ n
length-events_from q start zero = refl
length-events_from q start (suc n) =
    ap suc (length-events_from q ((start + 1) % mouse_queue_size) n)

-- An event written just behind the others is the last one.
events_from-set :
    (q : List MouseEvent) (e : MouseEvent) (n start w : ℕ)
    → length q ≡ mouse_queue_size
    → start < mouse_queue_size
    → suc n < mouse_queue_size
    → (start + n) % mouse_queue_size ≡ w
    → events_from (set q w e) start (suc n) ≡ events_from q start n ++ (e ∷ [])
events_from-set q e zero start w l s h at_end =
    let same : start ≡ w = omega arith in
    rw (← same, get_or-set_self q start e zero_event (omega arith))
events_from-set q e (suc n) start w l s h at_end =
    ap₂ ◌∷◌ (get_or-set_ne q w start e zero_event (omega arith)) (
      events_from-set q e n ((start + 1) % mouse_queue_size) w l (omega arith) (omega arith)
        (omega arith))

pub contents-empty : (m : Mouse) → (m.queue_read == m.queue_write) ≡ true → contents m ≡ []
contents-empty m empty =
    let none_wait : waiting m ≡ 0 = omega (arith, (==_iff m.queue_read m.queue_write).0 empty) in
    ap (events_from m.event_queue m.queue_read) none_wait

-- The bounded queue that a client sees.
abbrev pub put : List MouseEvent → MouseEvent → List MouseEvent
put q e = if ltb (length q) 31 then q ++ (e ∷ []) else q

abbrev pub pop : List MouseEvent → Option MouseEvent × List MouseEvent
pop [] = (none, [])
pop (e ∷ q) = (some e, q)

put_room : (q : List MouseEvent) (e : MouseEvent) → length q < 31 → put q e ≡ q ++ (e ∷ [])
put_room q e h = ground arith

put_full : (q : List MouseEvent) (e : MouseEvent) → length q ≡ 31 → put q e ≡ q
put_full q e h = ground arith

module _ (m : Mouse) (e : MouseEvent) (v : IsValid m) where
  enqueue_full :
      ((m.queue_write + 1) % mouse_queue_size == m.queue_read) ≡ true
      → contents (enqueue m e) ≡ put (contents m) e
  unfolding enqueue
  enqueue_full full = rw full (
      sym (
        put_full (contents m) e (
          omega (
            arith,
            length-events_from m.event_queue m.queue_read (waiting m),
            (==_iff _ _).0 full,
            v.write_in,
            v.read_in,
          ))))

  enqueue_room :
      ((m.queue_write + 1) % mouse_queue_size == m.queue_read) ≡ false
      → contents (enqueue m e) ≡ put (contents m) e
  unfolding enqueue
  enqueue_room room =
      let ne : (m.queue_write + 1) % mouse_queue_size ≢ m.queue_read = ground arith in
      let more : ((m.queue_write + 1) % mouse_queue_size + mouse_queue_size - m.queue_read)
            % mouse_queue_size
          ≡ suc (waiting m) =
        omega (arith, v.write_in, v.read_in) in
      rw (room, more)
        (events_from-set m.event_queue e (waiting m) m.queue_read m.queue_write v.slots v.read_in
            (omega (arith, v.write_in, v.read_in)) (omega (arith, v.write_in, v.read_in))
          ∙ sym (
              put_room (contents m) e (
                omega (
                  arith,
                  length-events_from m.event_queue m.queue_read (waiting m),
                  v.write_in,
                  v.read_in,
                ))))

-- In a valid ring a new event goes behind those that wait, if fewer than 31 wait, and is dropped
-- with nothing changed otherwise.
pub contents-enqueue :
    (m : Mouse) (e : MouseEvent) → IsValid m → contents (enqueue m e) ≡ put (contents m) e
contents-enqueue m e v =
    elim (Bool-cases ((m.queue_write + 1) % mouse_queue_size == m.queue_read)) [
      | inl full ↦ enqueue_full m e v full
      | inr room ↦ enqueue_room m e v room
    ]

events_from-pop :
    (q : List MouseEvent) (start n : ℕ)
    → n ≢ 0
    → pop (events_from q start n)
      ≡ (some (get_or q start zero_event), events_from q ((start + 1) % mouse_queue_size) (n - 1))
events_from-pop q start zero h = absurd (h refl)
events_from-pop q start (suc n) h = ap (λ k. pop (events_from q start (suc k))) (omega arith)

-- In a valid ring the oldest waiting event is handed out and the others stay, in order.
pub contents-dequeue :
    (m : Mouse) → IsValid m → let (out, m') = dequeue m in (out, contents m') ≡ pop (contents m)
unfolding dequeue
contents-dequeue m v = elim (Bool-cases (m.queue_read == m.queue_write)) [
  | inl same ↦
      let none_wait : waiting m ≡ 0 = omega (arith, (==_iff m.queue_read m.queue_write).0 same) in
      rw (same, none_wait)
  | inr other ↦
      let ne : m.queue_read ≢ m.queue_write = ground arith in
      let fewer : (m.queue_write + mouse_queue_size - (m.queue_read + 1) % mouse_queue_size)
            % mouse_queue_size
          ≡ waiting m - 1 =
        omega (arith, v.write_in, v.read_in) in
      rw (other, fewer)
        (sym (
          events_from-pop m.event_queue m.queue_read (waiting m)
            (omega (arith, v.write_in, v.read_in))))
]
