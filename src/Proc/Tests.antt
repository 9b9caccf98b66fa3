-- ===== src/Proc/Tests.antt =====
-- A small process table for kernel/proc.c, and instances of the theorems: slot 0 is `init`, asleep
-- in `wait`; slot 1 is its running child; slot 2 is a zombie, the child of slot 1.
use lainos_fail.Base.{
  ℕ, zero, suc, ◌<◌, ◌≡◌, ◌≢◌, refl, true, false, Option, none, some, [], arith, Outcome, done,
}
use lainos_fail.Proc.{
  ProcState, Proc, Procs, Ptable, Chan, nproc, unused, embryo, sleeping, runnable, running, zombie,
  of_proc, exit, wait, wait_scan, wait_found, kill, allocproc, yield, Waited, got, is_unused,
}
use lainos_fail.Proc.Table.{is_born, is_alive}
use lainos_fail.Proc.Family.{Family}
use lainos_fail.Proc.Reach.{here, next, with_procs, yields, kills, no_orphans}
use lainos_fail.Proc.Waiting.{exit_wakes_parent, WaitDone, wait-WaitDone}
use lainos_fail.Proc.Killing.{kill_zero_poisons}

abbrev slot : ProcState → (pid : ℕ) → Option ℕ → Option Chan → Proc
slot state pid parent chan = record {
  sz = 0;
  pgdir = 0;
  kstack = 0;
  state = state;
  pid = pid;
  parent = parent;
  eax = 0;
  chan = chan;
  killed = false;
  ofile = λ fd. none;
  cwd = none;
  name = [];
}

abbrev table : Procs
table zero = slot sleeping 1 none (some (of_proc 0))
table (suc zero) = slot running 2 (some 0) none
table (suc (suc zero)) = slot zombie 3 (some 1) none
table (suc (suc (suc n))) = slot unused 0 none none

abbrev ptable : Ptable
ptable = record { procs = table; nextpid = 4 }

table_parents :
    (i : ℕ)
    → i < nproc
    → is_born (table i).state ≡ true
    → i ≢ 0
    → (p : ℕ) × ((table i).parent ≡ some p) × (p < nproc) × (is_alive (table p).state ≡ true)
table_parents zero lt born ne = absurd (ne refl)
table_parents (suc zero) lt born ne = (0, refl, omega arith, refl)
table_parents (suc (suc zero)) lt born ne = (1, refl, omega arith, refl)
table_parents (suc (suc (suc n))) lt born ne = absurd (cc)

table-Family : Family 0 table
table-Family = record { init_in = omega arith; init_alive = refl; parents = table_parents }

abbrev after_yield : Ptable
after_yield = with_procs ptable (yield 1 table)

no_orphans_example : Family 0 (with_procs after_yield (kill 1 after_yield.procs).1).procs
no_orphans_example =
    no_orphans 0 table-Family (next (next here (yields ptable 1 refl)) (kills after_yield 1))

abbrev exited : Outcome Procs → Procs
exited (done t) = t
exited _ = table

table_exits : exit 1 0 table ≡ done (exited (exit 1 0 table))
unfolding exit
table_exits = refl

exit_wakes_parent_example :
    let t = exited (exit 1 0 table) in ((t 0).state ≡ runnable) × ((t 1).state ≡ zombie)
exit_wakes_parent_example =
    exit_wakes_parent 1 0 0 table (omega arith) (omega arith) refl refl refl table_exits

wait-WaitDone_example : WaitDone 1 table (wait 1 table)
wait-WaitDone_example = wait-WaitDone 1 table

abbrev pid_of : Waited → Option ℕ
pid_of (got r t) = r
pid_of _ = none

reaps_three : pid_of (wait 1 table) ≡ some 3
unfolding wait wait_scan wait_found
reaps_three = refl

busy_before : (l : ℕ) → l < 3 → ((table l).pid ≢ 0) × (is_unused (table l).state ≡ false)
busy_before zero h = (omega arith, refl)
busy_before (suc zero) h = (omega arith, refl)
busy_before (suc (suc zero)) h = (omega arith, refl)
busy_before (suc (suc (suc l))) h = absurd (omega arith)

kill_zero_poisons_example :
    let (found, t') = kill 0 table in
    let (free, s) = allocproc 4096 (record { procs = t'; nextpid = 4 }) in
    (found ≡ true) × (free ≡ some 3) × ((s.procs 3).state ≡ embryo) × ((s.procs 3).killed ≡ true)
kill_zero_poisons_example =
    kill_zero_poisons 3 4096 4 table
      (record { inside = omega arith; before = λ l h. (busy_before l h).0; at = refl })
      (λ l h. (busy_before l h).1) refl (omega arith)
