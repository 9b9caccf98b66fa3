-- ===== src/Log/Write.antt =====
-- `log_write` of kernel/log.c inside a transaction: the state between `begin_trans` and
-- `commit_trans`, when nothing but log blocks has been written.
use lainos_fail.Base.{
  ℕ, zero, suc, Bool, leb, ◌+◌, ◌≤◌, ◌<◌, ◌≡◌, ◌≢◌, refl, ◌⊎◌, inl, inr, true, false, List, [], ◌∷◌,
  arith, ◌==◌, Bool-cases, All, length, update, ◌∙◌, done,
}
use lainos_fail.Log.{
  Block, Disk, Log, log_size, rounds, edit, find_slot, append_slot, log_write, log_block,
  log_blocks, count_dirty,
}
use lainos_fail.Bcache.{nbuf}
use lainos_fail.Log.Search.{Found, hit, miss, find_slot-Found}
use lainos_fail.Log.Crash.{Idle}

-- What the changes leave in block `b`, over the disk `base`.
abbrev pub changed : Disk → List (ℕ × Block) → Disk
changed base [] = base
changed base ((b, x) ∷ ws) = changed (update base b x) ws

count_dirty_bound :
    (k i : ℕ) (sector : ℕ → ℕ) (dirty : ℕ → Bool) (b : ℕ) → count_dirty k i sector dirty b ≤ k
unfolding count_dirty
count_dirty_bound zero i sector dirty b = omega arith
count_dirty_bound (suc k) i sector dirty b =
    ground (arith, count_dirty_bound k (i + 1) sector dirty b)

module _ (start : ℕ) (base : Disk) where
  -- Every slot holds the newest content of its sector, and the home blocks are still `base`.
  pub record Open (target : Disk) (s : Log) : Type 0 where
    pub at : s.start ≡ start
    pub active : s.busy ≡ true
    pub few : s.n ≤ log_size
    pub homes : (i : ℕ) → i < s.n → s.sector i < start
    pub distinct : (i j : ℕ) → i < s.n → j < s.n → s.sector i ≡ s.sector j → i ≡ j
    pub saved : (i : ℕ) → i < s.n → s.disk (start + i + 1) ≡ target (s.sector i)
    pub shown : (i : ℕ) → i < s.n → s.view (start + i + 1) ≡ target (s.sector i)
    pub idle : Idle start base s.disk
    pub buffers : (b : ℕ) → b < start → s.view b ≡ target b
    pub rest : (b : ℕ) → b < start → (base b ≡ target b) ⊎ ((j : ℕ) × (j < s.n) × (s.sector j ≡ b))

  module _ (target : Disk) (s : Log) (b : ℕ) (x : Block) (home : b < start)
      (v : Open target s) where
    abbrev target' : Disk
    target' = update target b x

    hit-rest :
        (i : ℕ)
        → i < s.n
        → s.sector i ≡ b
        → (c : ℕ) → c < start
        → (base c ≡ target' c) ⊎ ((j : ℕ) × (j < s.n) × (update s.sector i b j ≡ c))
    hit-rest i lt e c hc = elim (Bool-cases (c == b)) [
      | inl here ↦ inr (i, lt, ground arith)
      | inr other ↦ elim (v.rest c hc) [
        | inl same ↦ inl (rw other same)
        | inr (j, hj, at_j) ↦ inr (j, hj, ground arith)
      ]
    ]

    miss-rest :
        (c : ℕ)
        → c < start
        → (base c ≡ target' c) ⊎ ((j : ℕ) × (j < s.n + 1) × (update s.sector s.n b j ≡ c))
    miss-rest c hc = elim (Bool-cases (c == b)) [
      | inl here ↦ inr (s.n, omega arith, ground arith)
      | inr other ↦ elim (v.rest c hc) [
        | inl same ↦ inl (rw other same)
        | inr (j, hj, at_j) ↦ inr (j, omega arith, ground arith)
      ]
    ]

    append-hit : (i : ℕ) → i < s.n → s.sector i ≡ b → Open target' (append_slot b i (edit b x s))
    unfolding append_slot edit
    append-hit i lt e = record {
      at = v.at;
      active = v.active;
      few = ground (arith, v.few);
      homes = λ j h. ground (arith, v.homes j, home);
      distinct = λ j k hj hk same. ground (arith, v.distinct j k);
      saved = λ j h. ground (arith, v.at, v.saved j, v.distinct i j);
      shown = λ j h. ground (arith, v.at, v.shown j, v.distinct i j, home);
      idle = record {
        empty = ground (arith, v.at, v.idle.empty);
        same = λ c h. ground (arith, v.at, v.idle.same c);
      };
      buffers = λ c h. ground (arith, v.at, v.buffers c);
      rest = let e' : (i == s.n) ≡ false = ground arith in rw e' (hit-rest i lt e);
    }

    append-miss :
        (i : ℕ)
        → i ≡ s.n
        → s.n < log_size
        → ((j : ℕ) → 0 ≤ j → j < s.n → s.sector j ≢ b)
        → Open target' (append_slot b i (edit b x s))
    unfolding append_slot edit
    append-miss i e room fresh =
        let e' : (i == s.n) ≡ true = ground arith in
        rw (e', e)
          (record {
            at = v.at;
            active = v.active;
            few = omega arith;
            homes = λ j h. ground (arith, v.homes j, home);
            distinct = λ j k hj hk same.
                ground (arith, v.distinct j k, fresh j (omega arith), fresh k (omega arith));
            saved = λ j h. ground (arith, v.at, v.saved j, fresh j (omega arith));
            shown = λ j h. ground (arith, v.at, v.shown j, fresh j (omega arith), home);
            idle = record {
              empty = ground (arith, v.at, v.idle.empty);
              same = λ c h. ground (arith, v.at, v.idle.same c);
            };
            buffers = λ c h. ground (arith, v.at, v.buffers c);
            rest = miss-rest;
          })

    append-Open :
        s.n < log_size
        → (i : ℕ) → Found s.sector b 0 s.n i
        → Open target' (append_slot b i (edit b x s))
    append-Open room i (hit lt e) = append-hit i lt e
    append-Open room i (miss e fresh) = append-miss i e room fresh

    -- One logged change: no panic while the log has room, and only log blocks are written.
    abbrev logged : Log
    logged = append_slot b (find_slot (rounds s.n) 0 s.sector b) (edit b x s)

    pub log_block-done : s.n + 1 < nbuf → s.n + 1 < s.size → log_block (b, x) s ≡ done logged
    unfolding log_block log_write edit
    log_block-done room space =
        let few = count_dirty_bound (rounds s.n) 0 s.sector s.dirty b in
        let fits : leb nbuf (count_dirty (rounds s.n) 0 s.sector s.dirty b + 1) ≡ false =
          ground (arith, few, room) in
        rw fits (ground (arith, v.active, room))

    pub logged-Open : s.n < log_size → Open target' logged
    logged-Open room =
        append-Open room (find_slot (rounds s.n) 0 s.sector b)
          (find_slot-Found (rounds s.n) 0 s.sector b s.n (ground arith))

    pub logged-past : All (Idle start base) s.past → All (Idle start base) logged.past
    unfolding append_slot edit
    logged-past h = (v.idle, h)

    pub logged-size : (logged.size ≡ s.size) × (logged.n ≤ s.n + 1)
    unfolding append_slot edit
    logged-size = ground arith

  -- What a run of logged changes leaves.
  pub record Logged (target : Disk) (size : ℕ) (s : Log) : Type 0 where
    pub open_log : Open target s
    pub past : All (Idle start base) s.past
    pub sized : s.size ≡ size

  pub log_blocks-Logged :
      (ws : List (ℕ × Block)) (target : Disk) (size : ℕ) (s : Log)
      → All (λ w. w.0 < start) ws
      → Logged target size s
      → s.n + length ws < nbuf
      → s.n + length ws < size
      → (s' : Log) × (log_blocks ws s ≡ done s') × Logged (changed target ws) size s'
  unfolding log_blocks
  log_blocks-Logged [] target size s homes v room space = (s, refl, v)
  log_blocks-Logged ((b, x) ∷ ws) target size s homes v room space =
      let o = v.open_log in
      let here = homes.0 in
      let t = logged target s b x here o in
      let (same_size, more) = logged-size target s b x here o in
      rw (log_block-done target s b x here o (omega arith) (omega (arith, v.sized))) (
        log_blocks-Logged ws (update target b x) size t homes.1
          (record {
            open_log = logged-Open target s b x here o (omega arith);
            past = logged-past target s b x here o v.past;
            sized = same_size ∙ v.sized;
          })
          (omega arith) (omega arith))
