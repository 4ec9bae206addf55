-- ===== src/Process/Reap.antt =====
-- No slot of kernel/process.c is ever given back.
use piux_kernel.Prelude.{
  ℕ, zero, suc, ◌+◌, ◌<◌, ◌≤◌, ◌≡◌, ◌⊎◌, refl, ◌∙◌, true, false, ◌==◌, if◌then◌else◌, arith, List,
  [], ◌∷◌, Option, none, some, length, length-set, Bool-cases, inl, inr, CString, is_negative,
}
use piux_kernel.Process.{
  ProcessState, unused, ready, running, zombie, is_unused, is_running, Process, Processes, slot,
  modify, first_slot, create_in, process_create, process_exit, process_init, getuid_of, exit_of,
  leave_of, create_at, dispatch_at, process_getuid, process_getpid, leave_running, dispatch,
  process_schedule_once, process_yield, is_candidate, set_state, process_max, clear_states,
}
use piux_kernel.Process.Slots.{
  state_of, count_unused, state_of-set_same, count-set_same, count-set-le, count-set_taken,
  first_slot_lem, FirstSlot,
}

-- The number of unused slots.
abbrev pub free : Processes → ℕ
free p = count_unused p.table

-- Which states, and how many slots, two tables share.
abbrev SameStates : Processes → Processes → Type 0
SameStates p' p =
    ((j : ℕ) → state_of p'.table j ≡ state_of p.table j)
    × (free p' ≡ free p)
    × (length p'.table ≡ length p.table)

modify-same :
    (p : Processes) (i : ℕ) (f : Process → Process)
    → (f (slot p i)).state ≡ (slot p i).state
    → SameStates (modify p i f) p
modify-same p i f h = (
  λ j. state_of-set_same p.table i j (f (slot p i)) h,
  count-set_same p.table i _ h,
  length-set p.table i _,
)

SameStates-trans : (r q p : Processes) → SameStates r q → SameStates q p → SameStates r p
SameStates-trans r q p a b = (λ j. a.0 j ∙ b.0 j, a.1 ∙ b.1, a.2 ∙ b.2)

getuid-same :
    (auth_uid : ℕ) (p : Processes) (o : Option ℕ) → SameStates (getuid_of auth_uid p o).1 p
unfolding getuid_of
getuid-same auth_uid p none = (λ j. refl, refl, refl)
getuid-same auth_uid p (some i) = elim (Bool-cases ((slot p i).pid == 1)) [
  | inl first ↦ rw first (modify-same p i (λ q. record q { uid = auth_uid }) refl)
  | inr other ↦ rw other (λ j. refl, refl, refl)
]

modify-free :
    (p : Processes) (i : ℕ) (s : ProcessState)
    → is_unused s ≡ false
    → free (modify p i (set_state s)) ≤ free p
modify-free p i s h = count-set-le p.table i _ h

-- `create_in` takes the slot that it is given.
create_in-free :
    (auth_uid : ℕ) (p : Processes) (i : ℕ) (name : CString) (entry argument : ℕ)
    → i < length p.table
    → is_unused (state_of p.table i) ≡ true
    → suc (free (create_in auth_uid p i name entry argument).1) ≡ free p
create_in-free auth_uid p i name entry argument lt u =
    unfold create_in in
    (count-set_taken asked.table i _ (omega (arith, same.2)) (rw (same.0 i) u) refl ∙ same.1)
  where
    numbered : Processes
    numbered = record (modify p i (λ q. record q { pid = p.next_pid })) {
      next_pid = p.next_pid + 1;
    }

    parented : Processes
    parented = modify numbered i (λ q. record q { parent_pid = process_getpid numbered })

    asked : Processes
    asked = (process_getuid auth_uid parented).1

    same : SameStates asked p
    same = SameStates-trans asked parented p (getuid-same auth_uid parented parented.current) (
        SameStates-trans parented numbered p
          (modify-same numbered i (λ q. record q { parent_pid = process_getpid numbered }) refl)
          (modify-same p i (λ q. record q { pid = p.next_pid }) refl))

module _ (auth_uid : ℕ) where
  -- A creation that succeeds takes a slot; one that fails changes nothing.
  create-free :
      (p : Processes) (name : CString) (entry argument : ℕ)
      → let (z, p') = process_create auth_uid p name entry argument in
        (is_negative z ≡ true) × (p' ≡ p) ⊎ (is_negative z ≡ false) × (suc (free p') ≡ free p)
  unfolding process_create create_in
  create-free p name entry argument = by_slot _ (first_slot_lem (λ q. is_unused q.state) p.table 0)
    where
      by_slot :
          (o : Option ℕ)
          → FirstSlot (λ q. is_unused q.state) p.table 0 o
          → let (z, p') = create_at auth_uid p name entry argument o in
            (is_negative z ≡ true) × (p' ≡ p) ⊎ (is_negative z ≡ false) × (suc (free p') ≡ free p)
      by_slot none f = inl (refl, refl)
      by_slot (some k) (m, e, lt, found, before) =
          let e' : k ≡ m = omega arith in
          inr (refl, rw e' (create_in-free auth_uid p m name entry argument lt found))

exit-free : (p : Processes) (o : Option ℕ) → free (exit_of p o) ≤ free p
unfolding exit_of
exit-free p none = omega arith
exit-free p (some i) = modify-free p i zombie refl

leave-free :
    (s : ProcessState) (p : Processes) (o : Option ℕ)
    → is_unused s ≡ false
    → free (leave_of s p o) ≤ free p
unfolding leave_of
leave-free s p none h = omega arith
leave-free s p (some i) h = elim (Bool-cases (is_running (slot p i).state)) [
  | inl on ↦ rw on (modify-free p i s h)
  | inr off ↦ rw off (omega arith)
]

-- What the entries of processes do: they free no slot.
abbrev pub FreesNone : (ℕ → ℕ → Processes → Processes) → Type 0
FreesNone run = (entry argument : ℕ) (p : Processes) → free (run entry argument p) ≤ free p

-- The calls that programs make.
pub data Call : Type 0 where
  create : CString → ℕ → ℕ → Call
  exit yield schedule getuid : Call

module _ (auth_uid : ℕ) (run : ℕ → ℕ → Processes → Processes) (h : FreesNone run) where
  dispatch-free : (p : Processes) (i : ℕ) → free (dispatch run p i).1 ≤ free p
  unfolding dispatch
  dispatch-free p i =
      let started = modify (record p { current = some i }) i (set_state running) in
      let ran = run (slot p i).entry (slot p i).argument started in
      let left = leave_running zombie ran in
      omega (
        arith,
        modify-free (record p { current = some i }) i running refl,
        h (slot p i).entry (slot p i).argument started,
        leave-free zombie ran ran.current refl,
        modify-free (record left { current = some 0 }) 0 running refl,
      )

  schedule-free : (p : Processes) → free (process_schedule_once run p).1 ≤ free p
  unfolding process_schedule_once
  schedule-free p = at_slot (first_slot is_candidate p.table 0)
    where
      at_slot : (o : Option ℕ) → free (dispatch_at run p o).1 ≤ free p
      at_slot none = omega arith
      at_slot (some i) = dispatch-free p i

  yield-free : (p : Processes) → free (process_yield run p) ≤ free p
  unfolding process_yield
  yield-free p =
      omega (arith, schedule-free (leave_running ready p), leave-free ready p p.current refl)

-- Whether the call created a process, and the table after it.
abbrev pub step : ℕ → (ℕ → ℕ → Processes → Processes) → Processes → Call → ℕ × Processes
step auth_uid run p (create name entry argument) =
    let (z, p') = process_create auth_uid p name entry argument in
    (if is_negative z then 0 else 1, p')
step auth_uid run p exit = (0, process_exit p)
step auth_uid run p yield = (0, process_yield run p)
step auth_uid run p schedule = (0, (process_schedule_once run p).1)
step auth_uid run p getuid = (0, (process_getuid auth_uid p).1)

-- The number of processes that a sequence of calls creates.
abbrev pub creations : ℕ → (ℕ → ℕ → Processes → Processes) → Processes → List Call → ℕ
creations auth_uid run p [] = 0
creations auth_uid run p (call ∷ calls) =
    let (n, p') = step auth_uid run p call in n + creations auth_uid run p' calls

module _ (auth_uid : ℕ) (run : ℕ → ℕ → Processes → Processes) (h : FreesNone run) where
  step-free :
      (p : Processes) (call : Call) → let (n, p') = step auth_uid run p call in n + free p' ≤ free p
  step-free p (create name entry argument) =
      ground (arith, create-free auth_uid p name entry argument)
  step-free p exit = omega (arith, exit-free p p.current)
  step-free p yield = omega (arith, yield-free auth_uid run h p)
  step-free p schedule = omega (arith, schedule-free auth_uid run h p)
  step-free p getuid = omega (arith, (getuid-same auth_uid p p.current).1)

  creations-le-free : (p : Processes) (calls : List Call) → creations auth_uid run p calls ≤ free p
  creations-le-free p [] = omega arith
  creations-le-free p (call ∷ calls) =
      omega (arith, step-free p call, creations-le-free (step auth_uid run p call).1 calls)

count-clear_states :
    (qs : List Process)
    → (count_unused (clear_states qs) ≡ length qs) × (length (clear_states qs) ≡ length qs)
count-clear_states [] = (refl, refl)
count-clear_states (q ∷ qs) = omega (arith, (count-clear_states qs).0, (count-clear_states qs).1)

state_of-clear_states : (qs : List Process) (i : ℕ) → state_of (clear_states qs) i ≡ unused
state_of-clear_states [] i = refl
state_of-clear_states (q ∷ qs) zero = refl
state_of-clear_states (q ∷ qs) (suc i) = state_of-clear_states qs i

init-free :
    (auth_uid : ℕ) (p : Processes)
    → length p.table ≡ process_max
    → suc (free (process_init auth_uid p)) ≡ process_max
unfolding process_init
init-free auth_uid p l =
    let c = count-clear_states p.table in
    count-set_taken (clear_states p.table) 0 _ (omega (arith, c.1))
      (rw (state_of-clear_states p.table 0) refl) refl
    ∙ c.0
    ∙ l

-- Started on its 32 slots, whatever they hold, the table serves at most 31 creations ever, in any
-- sequence of creations, exits, yields, schedulings and queries, if the entries that are run free
-- no slot: an exit leaves the slot taken, and no call takes it back.
pub creations_le :
    (auth_uid : ℕ) (run : ℕ → ℕ → Processes → Processes) (p : Processes) (calls : List Call)
    → FreesNone run
    → length p.table ≡ process_max
    → creations auth_uid run (process_init auth_uid p) calls ≤ 31
creations_le auth_uid run p calls h l = omega (
  arith,
  creations-le-free auth_uid run h (process_init auth_uid p) calls,
  init-free auth_uid p l,
)
