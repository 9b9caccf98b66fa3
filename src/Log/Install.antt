-- ===== src/Log/Install.antt =====
-- `install_trans` of kernel/log.c on a disk that holds a committed transaction.
use lainos_fail.Base.{
  ℕ, zero, suc, ◌+◌, ◌≤◌, ◌<◌, ◌≡◌, refl, ◌⊎◌, inl, inr, arith, ◌==◌, Bool-cases, All, update,
  subst,
}
use lainos_fail.Log.{Disk, Log, log_size, rounds, bwrite, install_from, install_trans}

-- The sector is the target's already, or one of the slots from `tail` on still brings it.
abbrev pub Pending : Disk → (ℕ → ℕ) → (tail n : ℕ) → Disk → ℕ → Type 0
Pending target sector tail n d b =
    (d b ≡ target b) ⊎ ((j : ℕ) × (tail ≤ j) × (j < n) × (sector j ≡ b))

-- A disk whose log header commits `n` slots, with which every home block can reach `target`.
pub record Armed (start n : ℕ) (sector : ℕ → ℕ) (target d : Disk) : Type 0 where
  pub few : n ≤ log_size
  pub count : d start 0 ≡ n
  pub slots : (i : ℕ) → i < n → d start (i + 1) ≡ sector i
  pub homes : (i : ℕ) → i < n → sector i < start
  pub saved : (i : ℕ) → i < n → d (start + i + 1) ≡ target (sector i)
  pub rest : (b : ℕ) → b < start → Pending target sector 0 n d b

module _ (start n : ℕ) (sector : ℕ → ℕ) (target : Disk) where
  Pending-update :
      (tail : ℕ) (d : Disk) (b : ℕ)
      → Pending target sector tail n d b
      → Pending target sector (tail + 1) n (update d (sector tail) (target (sector tail))) b
  Pending-update tail d b (inl same) = elim (Bool-cases (b == sector tail)) [
    | inl here ↦ let e : b ≡ sector tail = ground arith in inl (rw (← e) (ground arith))
    | inr other ↦ inl (rw other same)
  ]
  Pending-update tail d b (inr (j, from, to, e)) = elim (Bool-cases (j == tail)) [
    | inl here ↦ let at : b ≡ sector tail = rw (← e) (ground arith) in inl (rw at (ground arith))
    | inr later ↦ inr (j, ground arith, to, e)
  ]

  Pending-weaken :
      (tail : ℕ) (d : Disk) (b : ℕ)
      → Pending target sector (tail + 1) n d b
      → Pending target sector tail n d b
  Pending-weaken tail d b (inl same) = inl same
  Pending-weaken tail d b (inr (j, from, to, e)) = inr (j, omega arith, to, e)

  Pending-end : (d : Disk) (b : ℕ) → Pending target sector n n d b → d b ≡ target b
  Pending-end d b (inl same) = same
  Pending-end d b (inr (j, from, to, e)) = absurd (omega arith)

  Pending-keep :
      (tail t : ℕ) (d : Disk) (b : ℕ)
      → Pending target sector tail n d b
      → Pending target sector tail n (update d (sector t) (target (sector t))) b
  Pending-keep tail t d b p = elim (Bool-cases (b == sector t)) [
    | inl here ↦ let e : b ≡ sector t = ground arith in inl (rw (← e) (ground arith))
    | inr other ↦ elim p [ inl same ↦ inl (rw other same) | inr later ↦ inr later ]
  ]

  -- Copying one slot home keeps a committed disk committed.
  pub Armed-update :
      (t : ℕ) (d : Disk)
      → t < n
      → Armed start n sector target d
      → Armed start n sector target (update d (sector t) (target (sector t)))
  Armed-update t d lt a = record {
    few = a.few;
    count = ground (arith, a.homes t lt, a.count);
    slots = λ i h. ground (arith, a.homes t lt, a.slots i h);
    homes = a.homes;
    saved = λ i h. ground (arith, a.homes t lt, a.saved i h);
    rest = λ b h. Pending-keep 0 t d b (a.rest b h);
  }

  -- The state of `install_trans` when the slots below `tail` are home.
  pub record Installing (tail : ℕ) (s : Log) : Type 0 where
    pub at : s.start ≡ start
    pub all : s.n ≡ n
    pub sectors : s.sector ≡ sector
    pub armed : Armed start n sector target s.disk
    pub shown : (i : ℕ) → i < n → s.view (start + i + 1) ≡ target (sector i)
    pub pending : (b : ℕ) → b < start → Pending target sector tail n s.disk b
    pub shows : (b : ℕ) → b < start → Pending target sector tail n s.view b

  abbrev install_one : ℕ → Log → Log
  install_one tail s = bwrite (s.sector tail) (s.view (s.start + tail + 1)) s

  install_one-eq :
      (tail : ℕ) (s : Log)
      → tail < n
      → Installing tail s
      → install_one tail s ≡ bwrite (sector tail) (target (sector tail)) s
  install_one-eq tail s h v = rw (v.at, v.sectors, v.shown tail h)

  Installing-step :
      (tail : ℕ) (s : Log)
      → tail < n
      → Installing tail s
      → Installing (tail + 1) (install_one tail s)
  Installing-step tail s h v = rw (install_one-eq tail s h v) (record {
    at = v.at;
    all = v.all;
    sectors = v.sectors;
    armed = Armed-update tail s.disk h v.armed;
    shown = λ i lt. ground (arith, v.armed.homes tail h, v.shown i lt);
    pending = λ b lt. Pending-update tail s.disk b (v.pending b lt);
    shows = λ b lt. Pending-update tail s.view b (v.shows b lt);
  })

  -- The loop runs to the end, and every disk on the way is a committed one.
  install_from-Installing :
      (k tail : ℕ) (s : Log) {P : Disk → Type 0}
      → ((d : Disk) → Armed start n sector target d → P d)
      → tail + k ≡ n
      → Installing tail s
      → All P s.past
      → Installing n (install_from k tail s) × All P (install_from k tail s).past
  unfolding install_from
  install_from-Installing zero tail s keep e v h = (subst (λ t. Installing t s) (omega arith) v, h)
  install_from-Installing (suc k) tail s keep e v h =
      install_from-Installing k (tail + 1) (install_one tail s) keep (omega arith)
        (Installing-step tail s (omega arith) v) (keep s.disk v.armed, h)

  -- `install_trans` brings every home block to its target.
  pub install_trans-Installing :
      (s : Log) {P : Disk → Type 0}
      → ((d : Disk) → Armed start n sector target d → P d)
      → Installing 0 s
      → All P s.past
      → Installing n (install_trans s) × All P (install_trans s).past
  unfolding install_trans
  install_trans-Installing s keep v h =
      install_from-Installing (rounds s.n) 0 s keep (ground (arith, v.all, v.armed.few)) v h

  pub Installing-target :
      (s : Log)
      → Installing n s
      → (b : ℕ) → b < start
      → (s.disk b ≡ target b) × (s.view b ≡ target b)
  Installing-target s v b h =
      (Pending-end s.disk b (v.pending b h), Pending-end s.view b (v.shows b h))

install_from_keeps :
    (k tail : ℕ) (s : Log)
    → ((install_from k tail s).busy ≡ s.busy) × ((install_from k tail s).size ≡ s.size)
unfolding install_from
install_from_keeps zero tail s = (refl, refl)
install_from_keeps (suc k) tail s =
    install_from_keeps k (tail + 1) (bwrite (s.sector tail) (s.view (s.start + tail + 1)) s)

pub install_trans_keeps :
    (s : Log) → ((install_trans s).busy ≡ s.busy) × ((install_trans s).size ≡ s.size)
unfolding install_trans
install_trans_keeps s = install_from_keeps (rounds s.n) 0 s
