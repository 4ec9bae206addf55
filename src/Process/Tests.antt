-- ===== src/Process/Tests.antt =====
-- Runs of kernel/process.c.
use piux_kernel.Prelude.{◌≤◌, ◌≡◌, refl, arith, List, [], ◌∷◌, none, replicate, codes}
use piux_kernel.Process.{
  Processes, zero_process, slot, process_init, process_create, process_schedule_once, zombie,
  first_slot, create_in, getuid_of, dispatch, leave_of, process_getpid,
}
use piux_kernel.Process.Schedule.{returns}
use piux_kernel.Process.Reap.{
  Call, create, exit, yield, schedule, FreesNone, creations, creations_le,
}

abbrev blank : Processes
blank = record { table = replicate 32 zero_process; current = none; next_pid = 1 }

abbrev started : Processes
started = (process_create 1000 (process_init 1000 blank) (codes "worker") 0x1000 7).1

returns-FreesNone : FreesNone returns
returns-FreesNone entry argument p = omega arith

abbrev calls : List Call
calls = create (codes "a") 0x1000 0 ∷ schedule ∷ exit ∷ create (codes "b") 0x1000 0 ∷ yield ∷ []

creations_le_example : creations 1000 returns (process_init 1000 blank) calls ≤ 31
creations_le_example = creations_le 1000 returns blank calls returns-FreesNone refl

schedule_run :
    ((process_schedule_once returns started).0 ≡ 2)
    × ((slot (process_schedule_once returns started).1 1).state ≡ zombie)
unfolding process_init process_create process_schedule_once first_slot create_in getuid_of dispatch
    leave_of process_getpid
schedule_run = (refl, refl)
