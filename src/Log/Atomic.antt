-- ===== src/Log/Atomic.antt =====
-- A whole transaction of kernel/log.c: `begin_trans`, logged changes, `commit_trans`.
use lainos_fail.Base.{
  ℕ, ◌+◌, ◌<◌, ◌≡◌, refl, ◌⊎◌, inl, inr, true, false, List, [], arith, ltb, Bool-cases, All,
  All-mono, length, ◌∙◌, done,
}
use lainos_fail.Log.{
  Block, Disk, Log, rounds, write_head, install_trans, begin_trans, commit_writes, commit_trans,
  transaction,
}
use lainos_fail.Bcache.{nbuf}
use lainos_fail.Log.Header.{write_head-count, write_head-slot}
use lainos_fail.Log.Install.{Armed, Installing, Installing-target}
use lainos_fail.Log.Crash.{
  Idle, Safe, idle, Ready, Recovers, emptied-Ready, install_erase, Safe-Recovers,
}
use lainos_fail.Log.Write.{changed, Open, log_blocks-Logged}

-- Old or new: the disk recovers to the content before the transaction or to that after it.
abbrev pub OldOrNew : (start : ℕ) (base target d : Disk) → Type 0
OldOrNew start base target d = Idle start base d ⊎ Safe start target d

module _ (start : ℕ) (base target : Disk) (s : Log) (v : Open start base target s) where
  open v use {at, few, homes, saved, shown, idle as untouched, buffers, rest}

  -- The write of the header is the commit.
  write_head-Armed : Armed start s.n s.sector target (write_head s).disk
  unfolding write_head
  write_head-Armed = record {
    few = few;
    count = ground (arith, at, write_head-count s);
    slots = λ i h. ground (arith, at, write_head-slot s i h few);
    homes = homes;
    saved = λ i h. ground (arith, at, saved i h);
    rest = λ b h. elim (rest b h) [
      | inl same ↦ inl (ground (arith, at, untouched.same b h))
      | inr (j, lt, e) ↦ inr (j, omega arith, lt, e)
    ];
  }

  write_head-Installing : Installing start s.n s.sector target 0 (write_head s)
  unfolding write_head
  write_head-Installing = record {
    at = at;
    all = refl;
    sectors = refl;
    armed = write_head-Armed;
    shown = λ i h. ground (arith, at, shown i h);
    pending = write_head-Armed.rest;
    shows = λ b h. inl (ground (arith, at, buffers b h));
  }

  commit_writes-Ready :
      All (Idle start base) s.past
      → let t = commit_writes s in
        Ready start target (record t { busy = false; wakeups = t.wakeups + 1 })
        × All (OldOrNew start base target) t.past
  unfolding commit_writes write_head
  commit_writes-Ready past =
      let t = install_trans (write_head s) in
      let (w, seen) =
        install_erase start s.n s.sector target (write_head s) {P = OldOrNew start base target}
          (λ d safe. inr safe) write_head-Installing
          (inl untouched, All-mono (λ d i. inl i) s.past past) in
      (
        emptied-Ready start target (record t { busy = false; wakeups = t.wakeups + 1 }) w.at refl
            (Installing-target start s.n s.sector target t w),
        seen,
      )

  -- With nothing logged there is nothing to change.
  empty-same : s.n ≡ 0 → (b : ℕ) → b < start → base b ≡ target b
  empty-same e b h = elim (rest b h) [ inl same ↦ same | inr (j, lt, at_j) ↦ absurd (omega arith) ]

  commit_trans-Ready :
      All (Idle start base) s.past
      → let t = commit_trans s in Ready start target t × All (OldOrNew start base target) t.past
  unfolding commit_trans
  commit_trans-Ready past = elim (Bool-cases (ltb 0 (rounds s.n))) [
    | inl some_logged ↦ rw some_logged (commit_writes-Ready past)
    | inr none_logged ↦
        let e : s.n ≡ 0 = ground (arith, few) in
        rw none_logged (
          record {
            at = at;
            quiet = refl;
            none_logged = e;
            on_disk = record {
              empty = untouched.empty;
              same = λ b h. untouched.same b h ∙ empty-same e b h;
            };
            buffers = buffers;
          },
          All-mono (λ d i. inl i) s.past past,
        )
  ]

Ready-Open :
    (start : ℕ) (base : Disk) (s : Log)
    → Ready start base s
    → Open start base base (record s { busy = true })
Ready-Open start base s r = record {
  at = r.at;
  active = refl;
  few = omega (arith, r.none_logged);
  homes = λ i h. absurd (omega (arith, r.none_logged));
  distinct = λ i j h k e. absurd (omega (arith, r.none_logged));
  saved = λ i h. absurd (omega (arith, r.none_logged));
  shown = λ i h. absurd (omega (arith, r.none_logged));
  idle = r.on_disk;
  buffers = r.buffers;
  rest = λ b h. inl refl;
}

OldOrNew-Recovers :
    (start : ℕ) (base target d : Disk)
    → OldOrNew start base target d
    → Recovers start base d ⊎ Recovers start target d
OldOrNew-Recovers start base target d (inl i) = inl (Safe-Recovers start base d (idle i))
OldOrNew-Recovers start base target d (inr safe) = inr (Safe-Recovers start target d safe)

-- A transaction of fewer writes than there are buffers, of blocks below the log and few enough for it,
-- started between transactions, returns without a panic. It ends between transactions with all its changes on the disk and in
-- the buffers. Whenever the power fails on the way, recovery from the disk of that moment gives
-- all the blocks as they were before the transaction, or all of them with every change.
pub transaction_atomic :
    (start : ℕ) (base : Disk) (ws : List (ℕ × Block)) (s : Log)
    → Ready start base s
    → s.past ≡ []
    → All (λ w. w.0 < start) ws
    → length ws < nbuf
    → length ws < s.size
    → (s' : Log) × (transaction ws s ≡ done s')
      × Ready start (changed base ws) s'
      × All (λ d. Recovers start base d ⊎ Recovers start (changed base ws) d) s'.past
unfolding transaction begin_trans
transaction_atomic start base ws s r fresh homes room space =
    let s₁ : Log = record s { busy = true } in
    let (s₂, ran, l) =
      log_blocks-Logged start base ws base s.size s₁ homes
        (record { open_log = Ready-Open start base s r; past = rw fresh tt; sized = refl })
        (omega (arith, r.none_logged)) (omega (arith, r.none_logged)) in
    let s' = commit_trans s₂ in
    let (end, seen) = commit_trans-Ready start base (changed base ws) s₂ l.open_log l.past in
    (
      s',
      rw (r.quiet, ran),
      end,
      All-mono (OldOrNew-Recovers start base (changed base ws)) s'.past seen,
    )
