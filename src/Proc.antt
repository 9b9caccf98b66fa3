-- ===== src/Proc.antt =====
-- kernel/proc.c: the process table and its operations, each one critical section of `ptable.lock`.
-- A process is named by its slot. `kalloc`, `copyuvm`, `filedup`, `idup`, `fileclose` and `iput`
-- enter by what they return, or as lists of the files that they are called on.
pub mod Table
pub mod Family
pub mod Life
pub mod Reach
pub mod Waiting
pub mod Killing
mod Tests
use lainos_fail.Base.{
  ℕ, zero, suc, ◌+◌, Bool, true, false, not, ◌&&◌, ◌||◌, Option, none, some, List, [], ◌∷◌, ◌==◌,
  ltb, if◌then◌else◌, update, Outcome, done, sleeps, panics,
}

-- `enum procstate`
pub data ProcState : Type 0 where
  unused embryo sleeping runnable running zombie : ProcState

-- What a process sleeps on: a process (in `wait`), or another kernel object by its address.
pub data Chan : Type 0 where
  of_proc : ℕ → Chan
  of_addr : ℕ → Chan

-- `struct proc`; `kstack` and `pgdir` are addresses, 0 for none. The trap frame is its `eax`.
pub record Proc : Type 0 where
  pub sz : ℕ
  pub pgdir : ℕ
  pub kstack : ℕ
  pub state : ProcState
  pub pid : ℕ
  pub parent : Option ℕ
  pub eax : ℕ
  pub chan : Option Chan
  pub killed : Bool
  pub ofile : ℕ → Option ℕ
  pub cwd : Option ℕ
  pub name : List ℕ

-- `NPROC` and `NOFILE`
abbrev pub nproc : ℕ
nproc = 64

abbrev pub nofile : ℕ
nofile = 16

abbrev pub Procs : Type 0
Procs = ℕ → Proc

-- `ptable` and `nextpid`
pub record Ptable : Type 0 where
  pub procs : Procs
  pub nextpid : ℕ

abbrev pub is_unused : ProcState → Bool
is_unused unused = true
is_unused _ = false

abbrev pub is_sleeping : ProcState → Bool
is_sleeping sleeping = true
is_sleeping _ = false

abbrev pub is_runnable : ProcState → Bool
is_runnable runnable = true
is_runnable _ = false

abbrev pub is_zombie : ProcState → Bool
is_zombie zombie = true
is_zombie _ = false

abbrev pub same_chan : Option Chan → Option Chan → Bool
same_chan none none = true
same_chan (some (of_proc a)) (some (of_proc b)) = a == b
same_chan (some (of_addr a)) (some (of_addr b)) = a == b
same_chan _ _ = false

abbrev pub is_slot : Option ℕ → ℕ → Bool
is_slot none i = false
is_slot (some p) i = p == i

-- The loop of `wakeup1`, over `k` slots from `i` on.
abbrev pub woken : Option Chan → Proc → Proc
woken chan p =
    if is_sleeping p.state && same_chan p.chan chan then record p { state = runnable } else p

unfoldable pub wakeup_from : (k i : ℕ) → Option Chan → Procs → Procs
wakeup_from zero i chan t = t
wakeup_from (suc k) i chan t = wakeup_from k (i + 1) chan (update t i (woken chan (t i)))

unfoldable pub wakeup1 : Option Chan → Procs → Procs
wakeup1 chan t = wakeup_from nproc 0 chan t

-- The first slot in state UNUSED.
unfoldable pub find_unused : (k i : ℕ) → Procs → Option ℕ
find_unused zero i t = none
find_unused (suc k) i t =
    let rest = find_unused k (i + 1) t in if is_unused (t i).state then some i else rest

-- What `allocproc` does in the slot that it found; `stack` is what `kalloc` returned.
unfoldable pub take_slot : (stack i : ℕ) → Ptable → Option ℕ × Ptable
take_slot stack i s =
    let p = s.procs i in
    let q : Proc = record p { state = embryo; pid = s.nextpid; kstack = stack } in
    if stack == 0
    then (
      none,
      record { procs = update s.procs i (record q { state = unused }); nextpid = s.nextpid + 1 },
    )
    else (some i, record { procs = update s.procs i q; nextpid = s.nextpid + 1 })

unfoldable pub alloc_found : (stack : ℕ) → Option ℕ → Ptable → Option ℕ × Ptable
alloc_found stack none s = (none, s)
alloc_found stack (some i) s = take_slot stack i s

unfoldable pub allocproc : (stack : ℕ) → Ptable → Option ℕ × Ptable
allocproc stack s = alloc_found stack (find_unused nproc 0 s.procs) s

-- `fork` in the slot that `allocproc` gave: `me` is the caller, `pages` what `copyuvm` returned.
-- `none` stands for -1.
unfoldable pub fork_into : (me pages i : ℕ) → Ptable → Option ℕ × Ptable
fork_into me pages i s =
    let parent = s.procs me in
    let child = s.procs i in
    if pages == 0
    then (
      none,
      record s {
        procs = update s.procs i (record child { pgdir = pages; kstack = 0; state = unused });
      },
    )
    else (
      some child.pid,
      record s {
        procs = update s.procs i (record child {
          pgdir = pages;
          sz = parent.sz;
          parent = some me;
          eax = 0;
          ofile = λ fd. elim (parent.ofile fd) [ none ↦ child.ofile fd | some f ↦ some f ];
          cwd = parent.cwd;
          state = runnable;
          name = parent.name;
        });
      },
    )

unfoldable pub fork_slot : (me pages : ℕ) → Option ℕ → Ptable → Option ℕ × Ptable
fork_slot me pages none s = (none, s)
fork_slot me pages (some i) s = fork_into me pages i s

unfoldable pub fork : (me stack pages : ℕ) → Ptable → Option ℕ × Ptable
fork me stack pages s = let (slot, s₁) = allocproc stack s in fork_slot me pages slot s₁

-- The loop of `exit` that passes the children of `me` to `init`.
abbrev pub adopt : (me init i : ℕ) → Procs → Procs
adopt me init i t =
    let p = t i in
    let t' = update t i (record p { parent = some init }) in
    if is_slot p.parent me
    then (if is_zombie p.state then wakeup1 (some (of_proc init)) t' else t')
    else t

unfoldable pub adopt_from : (k i me init : ℕ) → Procs → Procs
adopt_from zero i me init t = t
adopt_from (suc k) i me init t = adopt_from k (i + 1) me init (adopt me init i t)

abbrev pub parent_chan : Option ℕ → Option Chan
parent_chan none = none
parent_chan (some p) = some (of_proc p)

-- `exit` up to its call of `sched`.
unfoldable pub exit : (me init : ℕ) → Procs → Outcome Procs
exit me init t =
    if me == init
    then panics
    else let p = t me in
      let t₁ = update t me (record p { ofile = λ fd. none; cwd = none }) in
      let t₂ = wakeup1 (parent_chan p.parent) t₁ in
      let t₃ = adopt_from nproc 0 me init t₂ in
      let q = t₃ me in done (update t₃ me (record q { state = zombie }))

-- What one scan of `wait` comes to.
pub data WaitScan : Type 0 where
  reaped : (pid slot : ℕ) → WaitScan
  no_child : WaitScan
  has_child : WaitScan

unfoldable pub wait_scan : (k i me : ℕ) → (havekids : Bool) → Procs → WaitScan
wait_scan zero i me havekids t = if havekids then has_child else no_child
wait_scan (suc k) i me havekids t =
    let mine = is_slot (t i).parent me in
    let rest = wait_scan k (i + 1) me (havekids || mine) t in
    if mine && is_zombie (t i).state then reaped (t i).pid i else rest

-- The cleaning of a reaped slot; `name[0] = 0` empties the name.
unfoldable pub reap : ℕ → Procs → Procs
reap i t =
    let p = t i in
    update t i
      (record p { kstack = 0; state = unused; pid = 0; parent = none; name = []; killed = false })

-- `sleep(chan)` until it gives up the processor.
unfoldable pub go_to_sleep : (me : ℕ) → Option Chan → Procs → Procs
go_to_sleep me chan t = let p = t me in update t me (record p { chan = chan; state = sleeping })

-- One round of `wait`: a pid, `none` for -1, or the table of the sleeper.
pub data Waited : Type 0 where
  got : Option ℕ → Procs → Waited
  waits : Procs → Waited

unfoldable pub wait_found : (me : ℕ) → WaitScan → Procs → Waited
wait_found me (reaped pid i) t = got (some pid) (reap i t)
wait_found me no_child t = got none t
wait_found me has_child t =
    if (t me).killed then got none t else waits (go_to_sleep me (some (of_proc me)) t)

unfoldable pub wait : (me : ℕ) → Procs → Waited
wait me t = wait_found me (wait_scan nproc 0 me false t) t

-- `sleep` once the processor is back: `proc->chan = 0`.
unfoldable pub end_sleep : (me : ℕ) → Procs → Procs
end_sleep me t = let p = t me in update t me (record p { chan = none })

unfoldable pub yield : (me : ℕ) → Procs → Procs
yield me t = let p = t me in update t me (record p { state = runnable })

-- The scheduler's choice of slot `i`.
unfoldable pub schedule : (i : ℕ) → Procs → Procs
schedule i t =
    let p = t i in if is_runnable p.state then update t i (record p { state = running }) else t

-- `kill`: the first slot with this pid, `false` for -1.
abbrev pub marked : Proc → Proc
marked p = record p { killed = true; state = if is_sleeping p.state then runnable else p.state }

unfoldable pub kill_from : (k i pid : ℕ) → Procs → Bool × Procs
kill_from zero i pid t = (false, t)
kill_from (suc k) i pid t =
    let rest = kill_from k (i + 1) pid t in
    if (t i).pid == pid then (true, update t i (marked (t i))) else rest

unfoldable pub kill : (pid : ℕ) → Procs → Bool × Procs
kill pid t = kill_from nproc 0 pid t
