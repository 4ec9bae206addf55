-- ===== src/Process/Schedule.antt =====
-- What one creation and one round of the scheduler do in kernel/process.c.
use piux_kernel.Prelude.{ℕ, ◌<◌, ◌≡◌, ◌≢◌, Option, none, some, length}
use piux_kernel.Process.{running, zombie, Process, Processes, slot, modify, set_state}

-- The program that the scheduler runs: it calls into the kernel only to return.
abbrev pub returns : ℕ → ℕ → Processes → Processes
returns entry argument p = p

-- What a round leaves, by the slot that it ran.
abbrev pub RoundAt : Processes → Option ℕ → ℕ × Processes → Type 0
RoundAt p none (z, p') = (z ≡ 0) × (p' ≡ p)
RoundAt p (some k) (z, p') =
    (z ≡ (slot p k).pid)
    × (k ≢ 0 → slot p' k ≡ set_state zombie (slot p k))
    × (slot p' 0 ≡ set_state running (slot p 0))
    × (p'.current ≡ some 0)
    × ((j : ℕ) → k ≢ j → 0 ≢ j → slot p' j ≡ slot p j)

module _ (p : Processes) (k : ℕ) (lt : k < length p.table) where
  abbrev started : Processes
  started = modify (record p { current = some k }) k (set_state running)

  abbrev left : Processes
  left = modify started k (set_state zombie)

  abbrev back : Processes
  back = modify (record left { current = some 0 }) 0 (set_state running)
