-- ===== src/Proc/Table.antt =====
-- The scans of the process table in kernel/proc.c, slot by slot.
use lainos_fail.Base.{
  ℕ, zero, suc, ◌+◌, ◌≤◌, ◌<◌, ◌≡◌, ◌⊎◌, refl, ◌∙◌, ◌&&◌, ◌||◌, Bool, true, false, Option, some,
  arith, leb, ltb, ◌==◌, Bool-cases, inl, inr, if◌then◌else◌, update,
}
use lainos_fail.Proc.{
  ProcState, Proc, Procs, Chan, nproc, unused, embryo, sleeping, runnable, running, is_zombie,
  is_unused, is_slot, woken, wakeup_from, wakeup1, find_unused, adopt, adopt_from, WaitScan, reaped,
  no_child, has_child, wait_scan, of_proc,
}

-- The process can run, or waits to.
abbrev pub is_alive : ProcState → Bool
is_alive sleeping = true
is_alive runnable = true
is_alive running = true
is_alive _ = false

-- The process has been set up and not been reaped.
abbrev pub is_born : ProcState → Bool
is_born unused = false
is_born embryo = false
is_born _ = true

-- A change of the process table that leaves a process where it is in its life.
abbrev pub SameKind : Proc → Proc → Type 0
SameKind p q =
    (q.parent ≡ p.parent)
    × (is_alive q.state ≡ is_alive p.state)
    × (is_born q.state ≡ is_born p.state)
    × (is_zombie q.state ≡ is_zombie p.state)
    × (q.pid ≡ p.pid)
    × (is_unused q.state ≡ is_unused p.state)

pub wakeup_from_at :
    (k i : ℕ) (chan : Option Chan) (t : Procs) (j : ℕ)
    → wakeup_from k i chan t j ≡ (if leb i j && ltb j (i + k) then woken chan (t j) else t j)
unfolding wakeup_from
wakeup_from_at zero i chan t j = ground arith
wakeup_from_at (suc k) i chan t j = elim (Bool-cases (j == i)) [
  | inl here ↦
      let e : j ≡ i = ground arith in
      rw (wakeup_from_at k (i + 1) chan (update t i (woken chan (t i))) j, e) (ground arith)
  | inr other ↦
      rw (wakeup_from_at k (i + 1) chan (update t i (woken chan (t i))) j, other) (ground arith)
]

-- `wakeup1` makes runnable what sleeps on the channel, and nothing else.
pub wakeup1_at :
    (chan : Option Chan) (t : Procs) (j : ℕ)
    → wakeup1 chan t j ≡ (if ltb j nproc then woken chan (t j) else t j)
unfolding wakeup1
wakeup1_at chan t j = wakeup_from_at nproc 0 chan t j ∙ ground arith

woken-SameKind : (chan : Option Chan) (p : Proc) → SameKind p (woken chan p)
woken-SameKind chan p = ground arith

pub wakeup1-SameKind : (chan : Option Chan) (t : Procs) (j : ℕ) → SameKind (t j) (wakeup1 chan t j)
wakeup1-SameKind chan t j = elim (Bool-cases (ltb j nproc)) [
  | inl here ↦
      let e : wakeup1 chan t j ≡ woken chan (t j) = wakeup1_at chan t j ∙ rw here in
      rw e (woken-SameKind chan (t j))
  | inr out ↦
      let e : wakeup1 chan t j ≡ t j = wakeup1_at chan t j ∙ rw out in
      rw e (refl, refl, refl, refl, refl, refl)
]

pub SameKind-trans : (p q r : Proc) → SameKind p q → SameKind q r → SameKind p r
SameKind-trans p q r h k = (k.0 ∙ h.0, k.1 ∙ h.1, k.2 ∙ h.2, k.3 ∙ h.3, k.4 ∙ h.4, k.5 ∙ h.5)

-- One slot of the loop of `exit`: a child of `me` gets `init` for its parent.
abbrev pub new_parent : (me init : ℕ) → Option ℕ → Option ℕ
new_parent me init p = if is_slot p me then some init else p

-- The kind of a process but for its parent.
abbrev pub SameLife : Proc → Proc → Type 0
SameLife p q =
    (is_alive q.state ≡ is_alive p.state)
    × (is_born q.state ≡ is_born p.state)
    × (is_zombie q.state ≡ is_zombie p.state)
    × (q.pid ≡ p.pid)
    × (is_unused q.state ≡ is_unused p.state)

adopt_at :
    (me init i : ℕ) (t : Procs) (j : ℕ)
    → ((adopt me init i t j).parent
        ≡ (if j == i then new_parent me init (t j).parent else (t j).parent))
      × SameLife (t j) (adopt me init i t j)
adopt_at me init i t j =
    let p = t i in
    let t' : Procs = update t i (record p { parent = some init }) in
    let w = wakeup1-SameKind (some (of_proc init)) t' j in
    elim (Bool-cases (j == i)) [
      | inl here ↦ let e : j ≡ i = ground arith in ground (arith, w)
      | inr other ↦ ground (arith, w)
    ]

pub adopt_from_at :
    (k i me init : ℕ) (t : Procs) (j : ℕ)
    → ((adopt_from k i me init t j).parent
        ≡ (if leb i j && ltb j (i + k) then new_parent me init (t j).parent else (t j).parent))
      × SameLife (t j) (adopt_from k i me init t j)
unfolding adopt_from
adopt_from_at zero i me init t j = ground arith
adopt_from_at (suc k) i me init t j =
    let one = adopt_at me init i t j in
    let rest = adopt_from_at k (i + 1) me init (adopt me init i t) j in
    (
      ground (arith, one.0, rest.0),
      (
        rest.1.0 ∙ one.1.0,
        rest.1.1 ∙ one.1.1,
        rest.1.2 ∙ one.1.2,
        rest.1.3 ∙ one.1.3,
        rest.1.4 ∙ one.1.4,
      ),
    )

pub find_unused_at :
    (k i : ℕ) (t : Procs) (j : ℕ)
    → find_unused k i t ≡ some j
    → (i ≤ j) × (j < i + k) × (is_unused (t j).state ≡ true)
unfolding find_unused
find_unused_at zero i t j h = cc
find_unused_at (suc k) i t j h = elim (Bool-cases (is_unused (t i).state)) [
  | inl free ↦ ground arith
  | inr taken ↦
      let rest : find_unused k (i + 1) t ≡ some j = ground arith in
      let found = find_unused_at k (i + 1) t j rest in (omega arith, omega arith, found.2)
]

-- What a scan of `wait` says of the slots below `end`.
abbrev pub Scanned : (t : Procs) (me i end : ℕ) (havekids : Bool) → WaitScan → Type 0
Scanned t me i end havekids (reaped pid j) =
    (i ≤ j)
    × (j < end)
    × (is_slot (t j).parent me ≡ true)
    × (is_zombie (t j).state ≡ true)
    × (pid ≡ (t j).pid)
Scanned t me i end havekids no_child =
    (havekids ≡ false) × ((j : ℕ) → i ≤ j → j < end → is_slot (t j).parent me ≡ false)
Scanned t me i end havekids has_child =
    ((havekids ≡ true) ⊎ ((j : ℕ) × (i ≤ j) × (j < end) × (is_slot (t j).parent me ≡ true)))
    × ((j : ℕ) → i ≤ j → j < end → is_slot (t j).parent me ≡ true → is_zombie (t j).state ≡ false)

Scanned-next :
    (t : Procs) (me i end : ℕ) (havekids : Bool) (w : WaitScan)
    → i < end
    → (is_slot (t i).parent me && is_zombie (t i).state) ≡ false
    → Scanned t me (i + 1) end (havekids || is_slot (t i).parent me) w
    → Scanned t me i end havekids w
Scanned-next t me i end havekids (reaped pid j) lt past h = (omega arith, h.1, h.2, h.3, h.4)
Scanned-next t me i end havekids no_child lt past h = (
  ground (arith, h.0),
  λ j lo hi. elim (Bool-cases (j == i)) [
    | inl here ↦ let e : j ≡ i = ground arith in rw e (ground (arith, h.0))
    | inr other ↦ h.1 j (ground arith) hi
  ],
)
Scanned-next t me i end havekids has_child lt past h = (
  elim h.0 [
    | inl had ↦ elim (Bool-cases (is_slot (t i).parent me)) [
      | inl mine ↦ inr (i, omega arith, lt, mine)
      | inr not_mine ↦ inl (ground (arith, had))
    ]
    | inr (j, lo, hi, mine) ↦ inr (j, omega arith, hi, mine)
  ],
  λ j lo hi mine. elim (Bool-cases (j == i)) [
    | inl here ↦
        let e : j ≡ i = ground arith in
        let mine' : is_slot (t i).parent me ≡ true = rw (← e) mine in rw e (ground arith)
    | inr other ↦ h.1 j (ground arith) hi mine
  ],
)

pub wait_scan-Scanned :
    (k i me end : ℕ) (havekids : Bool) (t : Procs)
    → i + k ≡ end
    → Scanned t me i end havekids (wait_scan k i me havekids t)
unfolding wait_scan
wait_scan-Scanned zero i me end true t e = (inl refl, λ j lo hi. absurd (omega arith))
wait_scan-Scanned zero i me end false t e = (refl, λ j lo hi. absurd (omega arith))
wait_scan-Scanned (suc k) i me end havekids t e =
    elim (Bool-cases (is_slot (t i).parent me && is_zombie (t i).state)) [
      | inl found ↦ rw found (omega arith, omega arith, ground arith, ground arith, refl)
      | inr past ↦ rw past (
          Scanned-next t me i end havekids _ (omega arith) past (
            wait_scan-Scanned k (i + 1) me end (havekids || is_slot (t i).parent me) t
              (omega arith)))
    ]
