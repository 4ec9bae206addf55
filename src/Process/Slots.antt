-- ===== src/Process/Slots.antt =====
-- Writes to the table of kernel/process.c, and the search for a slot.
use piux_kernel.Prelude.{
  ℕ, zero, suc, ◌+◌, ◌<◌, ◌≤◌, ◌≡◌, refl, Bool, true, false, if◌then◌else◌, arith, List, [], ◌∷◌,
  get_or, set, Option, none, some, length, Bool-cases, inl, inr,
}
use piux_kernel.Process.{ProcessState, is_unused, Process, zero_process, first_slot}

-- What the search for a slot may give, with the slots from index `i` on.
abbrev pub FirstSlot : (Process → Bool) → List Process → ℕ → Option ℕ → Type 0
FirstSlot test qs i none = (j : ℕ) → j < length qs → test (get_or qs j zero_process) ≡ false
FirstSlot test qs i (some k) =
    (m : ℕ) × (k ≡ i + m)
    × (m < length qs)
    × (test (get_or qs m zero_process) ≡ true)
    × ((j : ℕ) → j < m → test (get_or qs j zero_process) ≡ false)

FirstSlot-next :
    (test : Process → Bool) (q : Process) (qs : List Process) (i : ℕ) (o : Option ℕ)
    → test q ≡ false
    → FirstSlot test qs (i + 1) o
    → FirstSlot test (q ∷ qs) i o
FirstSlot-next test q qs i none h f = all_of
  where
    all_of : (j : ℕ) → j < suc (length qs) → test (get_or (q ∷ qs) j zero_process) ≡ false
    all_of zero lt = h
    all_of (suc j) lt = f j (omega arith)
FirstSlot-next test q qs i (some k) h (m, e, lt, found, before) =
    (suc m, omega arith, omega arith, found, earlier)
  where
    earlier : (j : ℕ) → j < suc m → test (get_or (q ∷ qs) j zero_process) ≡ false
    earlier zero p = h
    earlier (suc j) p = before j (omega arith)

pub first_slot_lem :
    (test : Process → Bool) (qs : List Process) (i : ℕ) → FirstSlot test qs i (first_slot test qs i)
unfolding first_slot
first_slot_lem test [] i = λ j h. elim h [ ]
first_slot_lem test (q ∷ qs) i = elim (Bool-cases (test q)) [
  | inl found ↦ rw found (zero, omega arith, omega arith, found, λ j h. elim h [ ])
  | inr miss ↦ rw miss (FirstSlot-next test q qs i _ miss (first_slot_lem test qs (i + 1)))
]

abbrev pub state_of : List Process → ℕ → ProcessState
state_of t i = (get_or t i zero_process).state

abbrev pub count_unused : List Process → ℕ
count_unused [] = 0
count_unused (q ∷ qs) = (if is_unused q.state then 1 else 0) + count_unused qs

-- A write that keeps the state of its slot keeps all states.
pub state_of-set_same :
    (t : List Process) (i j : ℕ) (q : Process)
    → q.state ≡ state_of t i
    → state_of (set t i q) j ≡ state_of t j
state_of-set_same [] i j q h = refl
state_of-set_same (x ∷ t) zero zero q h = h
state_of-set_same (x ∷ t) zero (suc j) q h = refl
state_of-set_same (x ∷ t) (suc i) zero q h = refl
state_of-set_same (x ∷ t) (suc i) (suc j) q h = state_of-set_same t i j q h

pub count-set_same :
    (t : List Process) (i : ℕ) (q : Process)
    → q.state ≡ state_of t i
    → count_unused (set t i q) ≡ count_unused t
count-set_same [] i q h = refl
count-set_same (x ∷ t) zero q h = rw h
count-set_same (x ∷ t) (suc i) q h = rw (count-set_same t i q h)

-- A write of a slot in use frees none.
pub count-set-le :
    (t : List Process) (i : ℕ) (q : Process)
    → is_unused q.state ≡ false
    → count_unused (set t i q) ≤ count_unused t
count-set-le [] i q h = omega arith
count-set-le (x ∷ t) zero q h = rw h (omega arith)
count-set-le (x ∷ t) (suc i) q h = omega (arith, count-set-le t i q h)

-- A write of a slot in use over an unused one takes one.
pub count-set_taken :
    (t : List Process) (i : ℕ) (q : Process)
    → i < length t
    → is_unused (state_of t i) ≡ true
    → is_unused q.state ≡ false
    → suc (count_unused (set t i q)) ≡ count_unused t
count-set_taken [] i q lt u h = absurd (omega arith)
count-set_taken (x ∷ t) zero q lt u h = rw (u, h) (omega arith)
count-set_taken (x ∷ t) (suc i) q lt u h = omega (arith, count-set_taken t i q (omega arith) u h)
