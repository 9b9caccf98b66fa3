-- ===== src/Spinlock.antt =====
-- kernel/spinlock.c: the lock, the disabling of interrupts by depth, and `acquire` and `release` cut
-- into the steps that other CPUs see: each runs from one access of the lock to the next.
mod Mutex
mod Nesting
mod Tests
use lainos_fail.Base.{
  ℕ, zero, suc, ◌+◌, ◌-◌, Bool, true, false, not, ◌&&◌, Option, none, some, ◌==◌, ◌≡◌,
  if◌then◌else◌, update, Outcome, done, panics, ◌>>=◌,
}

-- `struct spinlock`, less what it keeps for debugging; `cpu` is the index of the holder's entry.
pub record Spinlock : Type 0 where
  pub locked : Bool
  pub cpu : Option ℕ

-- The fields of `struct cpu` that the locks use, with the interrupt flag of the CPU itself.
pub record Cpu : Type 0 where
  pub ncli : ℕ
  pub intena : Bool
  pub interrupts : Bool

unfoldable pub initlock : Spinlock
initlock = record { locked = false; cpu = none }

abbrev pub is_cpu : Option ℕ → ℕ → Bool
is_cpu none me = false
is_cpu (some c) me = c == me

unfoldable pub holding : (me : ℕ) → Spinlock → Bool
holding me lk = lk.locked && is_cpu lk.cpu me

unfoldable pub pushcli : Cpu → Cpu
pushcli c = record {
  ncli = c.ncli + 1;
  intena = if c.ncli == 0 then c.interrupts else c.intena;
  interrupts = false;
}

-- The depth goes below 0 where it was 0.
abbrev pub sti_if : Bool → Cpu → Cpu
sti_if test c = if test then record c { interrupts = true } else c

unfoldable pub popcli : Cpu → Outcome Cpu
popcli c =
    if c.interrupts
    then panics
    else if c.ncli == 0
    then panics
    else (let d : Cpu = record c { ncli = c.ncli - 1 } in done (sti_if (d.ncli == 0 && d.intena) d))

-- Where a CPU is: outside, spinning in the loop of `acquire`, past the loop, inside its critical
-- section, or in `release` before its `xchg`.
pub data Place : Type 0 where
  outside : Place
  spinning : Place
  taken : Place
  inside : Place
  leaving : Place

pub record Machine : Type 0 where
  pub lock : Spinlock
  pub cpus : ℕ → Cpu
  pub place : ℕ → Place

-- `acquire` up to its loop.
abbrev pub enter : (me : ℕ) → Machine → Outcome Machine
enter me m =
    let m₁ : Machine = record m { cpus = update m.cpus me (pushcli (m.cpus me)) } in
    if holding me m.lock then panics else done (record m₁ { place = update m.place me spinning })

-- One round of the loop: `xchg(&lk->locked, 1)`.
abbrev pub spin : (me : ℕ) → Machine → Outcome Machine
spin me m =
    let m₁ : Machine = record m { lock = record (m.lock) { locked = true } } in
    done (if m.lock.locked then m₁ else record m₁ { place = update m.place me taken })

-- `lk->cpu = cpu`
abbrev pub sign : (me : ℕ) → Machine → Outcome Machine
sign me m =
    done (record m { lock = record (m.lock) { cpu = some me }; place = update m.place me inside })

-- `release` up to `lk->cpu = 0`.
abbrev pub leave : (me : ℕ) → Machine → Outcome Machine
leave me m =
    if holding me m.lock
    then done
        (record m { lock = record (m.lock) { cpu = none }; place = update m.place me leaving })
    else panics

-- `xchg(&lk->locked, 0)` and `popcli`.
abbrev pub free : (me : ℕ) → Machine → Outcome Machine
free me m = popcli (m.cpus me) >>= λ c. done (record {
  lock = record (m.lock) { locked = false };
  cpus = update m.cpus me c;
  place = update m.place me outside;
})

-- The next step of CPU `me`; a CPU outside calls `acquire`, a CPU inside calls `release`.
unfoldable pub advance : (me : ℕ) → Machine → Outcome Machine
advance me m = elim (m.place me) [
  | outside ↦ enter me m
  | spinning ↦ spin me m
  | taken ↦ sign me m
  | inside ↦ leave me m
  | leaving ↦ free me m
]
