-- ===== src/Process.antt =====
-- kernel/process.c and kernel/process.h: the table of 32 processes and the cooperative scheduler.
-- A process is run by calling its entry; what that call does to the table is the argument `run`.
-- `auth_current_uid()` is the argument `auth_uid`. Process numbers are not bounded here, where
-- an `int` would run over after 2 ^ 31 - 1 creations.
pub mod Slots
pub mod Schedule
pub mod Reap
mod Tests
use piux_kernel.Prelude.{
  ℕ, zero, suc, ◌+◌, Bool, true, false, ◌&&◌, ◌||◌, not, ltb, ◌==◌, if◌then◌else◌, List, [], ◌∷◌,
  get_or, set, Option, none, some, ℤ, pos, minus_one, CString, codes,
}
use piux_kernel.CStrings.{copy_up_to}

abbrev pub process_max : ℕ
process_max = 32

-- `process_state_t`.
pub data ProcessState : Type 0 where
  unused ready running sleeping zombie : ProcessState

-- `process_t`; the entry and its argument are addresses, 0 for NULL.
pub record Process : Type 0 where
  pub pid : ℕ
  pub parent_pid : ℕ
  pub uid : ℕ
  pub state : ProcessState
  pub entry : ℕ
  pub argument : ℕ
  pub name : CString

abbrev pub zero_process : Process
zero_process = record {
  pid = 0;
  parent_pid = 0;
  uid = 0;
  state = unused;
  entry = 0;
  argument = 0;
  name = [];
}

-- The static variables; `current_process` is an index of the table.
pub record Processes : Type 0 where
  pub table : List Process
  pub current : Option ℕ
  pub next_pid : ℕ

abbrev pub slot : Processes → ℕ → Process
slot p i = get_or p.table i zero_process

-- An assignment to fields of one slot.
abbrev pub modify : Processes → ℕ → (Process → Process) → Processes
modify p i f = record p { table = set p.table i (f (slot p i)) }

abbrev pub set_state : ProcessState → Process → Process
set_state s q = record q { state = s }

abbrev pub is_unused : ProcessState → Bool
is_unused unused = true
is_unused _ = false

abbrev pub is_ready : ProcessState → Bool
is_ready ready = true
is_ready _ = false

abbrev pub is_running : ProcessState → Bool
is_running running = true
is_running _ = false

-- `copy_name`, into a buffer of `PROCESS_NAME_SIZE` bytes.
abbrev pub copy_name : CString → CString
copy_name source = copy_up_to 31 source

abbrev pub clear_states : List Process → List Process
clear_states [] = []
clear_states (q ∷ qs) = set_state unused q ∷ clear_states qs

unfoldable pub process_init : ℕ → Processes → Processes
process_init auth_uid p =
    let cleared = record p {
      table = clear_states p.table;
      current = some 0;
      next_pid = p.next_pid + 1;
    } in
    modify cleared 0 λ q. record q {
      pid = p.next_pid;
      parent_pid = 0;
      uid = auth_uid;
      state = running;
      name = copy_name (codes "kernel");
    }

unfoldable pub process_getpid : Processes → ℕ
process_getpid p = elim p.current [ none ↦ 0 | some i ↦ (slot p i).pid ]

-- The uid, and the table: the first process takes up the uid of the session.
unfoldable pub getuid_of : ℕ → Processes → Option ℕ → ℕ × Processes
getuid_of auth_uid p none = (auth_uid, p)
getuid_of auth_uid p (some i) =
    let p' = if (slot p i).pid == 1 then modify p i (λ q. record q { uid = auth_uid }) else p in
    ((slot p' i).uid, p')

abbrev pub process_getuid : ℕ → Processes → ℕ × Processes
process_getuid auth_uid p = getuid_of auth_uid p p.current

-- The first slot that passes a test, from index `i` on.
unfoldable pub first_slot : (Process → Bool) → List Process → ℕ → Option ℕ
first_slot test [] i = none
first_slot test (q ∷ qs) i = if test q then some i else first_slot test qs (i + 1)

-- The body of the loop of `process_create` at an unused slot, assignment by assignment.
unfoldable pub create_in : ℕ → Processes → ℕ → CString → ℕ → ℕ → ℤ × Processes
create_in auth_uid p i name entry argument =
    let numbered = record (modify p i (λ q. record q { pid = p.next_pid })) {
      next_pid = p.next_pid + 1;
    } in
    let parented = modify numbered i (λ q. record q { parent_pid = process_getpid numbered }) in
    let (uid, asked) = process_getuid auth_uid parented in
    let created = modify asked i λ q. record q {
      uid = uid;
      state = ready;
      entry = entry;
      argument = argument;
      name = copy_name name;
    } in
    (pos (slot created i).pid, created)

-- At the slot that the loop of `process_create` has found.
abbrev pub create_at : ℕ → Processes → CString → ℕ → ℕ → Option ℕ → ℤ × Processes
create_at auth_uid p name entry argument none = (minus_one, p)
create_at auth_uid p name entry argument (some i) = create_in auth_uid p i name entry argument

unfoldable pub process_create : ℕ → Processes → CString → ℕ → ℕ → ℤ × Processes
process_create auth_uid p name entry argument =
    create_at auth_uid p name entry argument (first_slot (λ q. is_unused q.state) p.table 0)

unfoldable pub exit_of : Processes → Option ℕ → Processes
exit_of p none = p
exit_of p (some i) = modify p i (set_state zombie)

abbrev pub process_exit : Processes → Processes
process_exit p = exit_of p p.current

-- `if (current_process->state == PROCESS_RUNNING) current_process->state = s`.
unfoldable pub leave_of : ProcessState → Processes → Option ℕ → Processes
leave_of s p none = p
leave_of s p (some i) = if is_running (slot p i).state then modify p i (set_state s) else p

abbrev pub leave_running : ProcessState → Processes → Processes
leave_running s p = leave_of s p p.current

abbrev pub is_candidate : Process → Bool
is_candidate q = is_ready q.state && not (q.entry == 0)

module _ (run : ℕ → ℕ → Processes → Processes) where
  -- The body of the loop of `process_schedule_once` at a candidate.
  unfoldable pub dispatch : Processes → ℕ → ℕ × Processes
  dispatch p i =
      let started = modify (record p { current = some i }) i (set_state running) in
      let ran = run (slot p i).entry (slot p i).argument started in
      let left = leave_running zombie ran in
      let back = modify (record left { current = some 0 }) 0 (set_state running) in
      ((slot back i).pid, back)

  abbrev pub dispatch_at : Processes → Option ℕ → ℕ × Processes
  dispatch_at p none = (0, p)
  dispatch_at p (some i) = dispatch p i

  unfoldable pub process_schedule_once : Processes → ℕ × Processes
  process_schedule_once p = dispatch_at p (first_slot is_candidate p.table 0)

  unfoldable pub process_yield : Processes → Processes
  process_yield p = (process_schedule_once (leave_running ready p)).1
