-- ===== src/Proc/Reach.antt =====
-- Interleavings of the operations of kernel/proc.c as steps of the whole table. The caller of an
-- operation is the RUNNING process `me`; what the allocators return is left open.
use lainos_fail.Base.{ℕ, ◌<◌, ◌≡◌, Bool, Option, done, arith, subst}
use lainos_fail.Proc.{
  Procs, Ptable, Chan, nproc, running, wakeup1, fork, exit, go_to_sleep, end_sleep, yield, schedule,
  kill, Waited, got, waits, wait, wait_found, wait_scan,
}
use lainos_fail.Proc.Table.{wait_scan-Scanned}
use lainos_fail.Proc.Family.{
  Family, wakeup1-Family, go_to_sleep-Family, end_sleep-Family, yield-Family, schedule-Family,
}
use lainos_fail.Proc.Life.{kill-Family, fork-Family, exit-Family, wait-Family}

abbrev pub with_procs : Ptable → Procs → Ptable
with_procs s t = record s { procs = t }

pub data Step (init : ℕ) : Ptable → Ptable → Type 0 where
  forks :
      (s : Ptable) (me stack pages : ℕ)
      → me < nproc
      → (s.procs me).state ≡ running
      → Step init s (fork me stack pages s).1
  exits :
      (s : Ptable) (me : ℕ) (t : Procs)
      → (s.procs me).state ≡ running
      → exit me init s.procs ≡ done t
      → Step init s (with_procs s t)
  reaps :
      (s : Ptable) (me : ℕ) (r : Option ℕ) (t : Procs)
      → (s.procs me).state ≡ running
      → wait me s.procs ≡ got r t
      → Step init s (with_procs s t)
  waits_on :
      (s : Ptable) (me : ℕ) (t : Procs)
      → (s.procs me).state ≡ running
      → wait me s.procs ≡ waits t
      → Step init s (with_procs s t)
  falls_asleep :
      (s : Ptable) (me : ℕ) (chan : Option Chan)
      → (s.procs me).state ≡ running
      → Step init s (with_procs s (go_to_sleep me chan s.procs))
  awakes : (s : Ptable) (me : ℕ) → Step init s (with_procs s (end_sleep me s.procs))
  wakes : (s : Ptable) (chan : Option Chan) → Step init s (with_procs s (wakeup1 chan s.procs))
  yields :
      (s : Ptable) (me : ℕ)
      → (s.procs me).state ≡ running
      → Step init s (with_procs s (yield me s.procs))
  runs : (s : Ptable) (i : ℕ) → Step init s (with_procs s (schedule i s.procs))
  kills : (s : Ptable) (pid : ℕ) → Step init s (with_procs s (kill pid s.procs).1)

pub data Reach (init : ℕ) (s : Ptable) : Ptable → Type 0 where
  here : Reach init s s
  next : {t u : Ptable} → Reach init s t → Step init t u → Reach init s u

abbrev AfterWait : ℕ → Waited → Type 0
AfterWait init (got r t) = Family init t
AfterWait init (waits t) = Family init t

wait-AfterWait :
    (init me : ℕ) (t : Procs) → Family init t → (t me).state ≡ running → AfterWait init (wait me t)
unfolding wait
wait-AfterWait init me t f run =
    let w = wait_scan nproc 0 me Bool.false t in
    to_after (wait_found me w t) (
      wait-Family init me t f run w (wait_scan-Scanned nproc 0 me nproc Bool.false t (omega arith)))
  where
    to_after :
        (r : Waited)
        → elim r as (λ x. Type 0) [ got o t' ↦ Family init t' | waits t' ↦ Family init t' ]
        → AfterWait init r
    to_after (got o t') h = h
    to_after (waits t') h = h

pub Step-Family :
    (init : ℕ) {s t : Ptable} → Step init s t → Family init s.procs → Family init t.procs
Step-Family init (forks s me stack pages me_in run) f =
    fork-Family init me me_in stack pages s f run
Step-Family init (exits s me t run e) f = exit-Family init me s.procs f run e
Step-Family init (reaps s me r t run e) f =
    subst (AfterWait init) e (wait-AfterWait init me s.procs f run)
Step-Family init (waits_on s me t run e) f =
    subst (AfterWait init) e (wait-AfterWait init me s.procs f run)
Step-Family init (falls_asleep s me chan run) f = go_to_sleep-Family init s.procs f me chan run
Step-Family init (awakes s me) f = end_sleep-Family init s.procs f me
Step-Family init (wakes s chan) f = wakeup1-Family init s.procs f chan
Step-Family init (yields s me run) f = yield-Family init s.procs f me run
Step-Family init (runs s i) f = schedule-Family init s.procs f i
Step-Family init (kills s pid) f = kill-Family init pid s.procs f

-- From a table in which every process that is set up, but `init`, has a living parent, no sequence
-- of forks, exits, waits, sleeps, wakeups, yields, scheduling and kills leads to one in which some
-- process has none: no zombie is left without a process that can still wait for it.
pub no_orphans :
    (init : ℕ) {s t : Ptable} → Family init s.procs → Reach init s t → Family init t.procs
no_orphans init f here = f
no_orphans init f (next r st) = Step-Family init st (no_orphans init f r)
