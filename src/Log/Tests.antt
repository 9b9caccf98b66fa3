-- ===== src/Log/Tests.antt =====
-- Runs of kernel/log.c and instances of its theorems: a log of 12 blocks from block 100 on.
use lainos_fail.Base.{
  ℕ, ltb, ◌==◌, ◌≡◌, refl, ◌⊎◌, inl, inr, Bool, List, [], ◌∷◌, arith, Bool-cases, All, fun_ext,
  Outcome, done, panics, ◌>>=◌,
}
use lainos_fail.Log.{
  Block, Disk, Log, boot, transaction, log_blocks, log_block, log_write, count_dirty, append_slot,
  find_slot, edit, begin_trans, commit_trans, commit_writes, install_trans, install_from,
  write_head, put_sectors, recover_from_log,
}
use lainos_fail.Log.Crash.{Ready, Safe, armed, Recovers, booted, recovery_restartable}
use lainos_fail.Log.Write.{changed}
use lainos_fail.Log.Atomic.{transaction_atomic}

abbrev blank : Disk
blank = λ b w. 0

abbrev filled : ℕ → Block
filled v = λ w. v

abbrev fresh : Log
fresh = record (booted 100 blank) { size = 12 }

-- Block 5 is logged twice and takes one slot.
abbrev writes : List (ℕ × Block)
writes = (5, filled 1) ∷ (6, filled 2) ∷ (5, filled 3) ∷ []

fresh-Ready : Ready 100 blank fresh
unfolding boot
fresh-Ready = record {
  at = refl;
  quiet = refl;
  none_logged = refl;
  on_disk = record { empty = refl; same = λ b h. refl };
  buffers = λ b h. refl;
}

transaction_atomic_example :
    (s' : Log) × (transaction writes fresh ≡ done s')
    × Ready 100 (changed blank writes) s'
    × All (λ d. Recovers 100 blank d ⊎ Recovers 100 (changed blank writes) d) s'.past
unfolding boot
transaction_atomic_example =
    transaction_atomic 100 blank writes fresh fresh-Ready refl (omega arith) (omega arith)
      (omega arith)

-- The home block, two log blocks and the erased count after the run.
abbrev sample : Log → Outcome (List ℕ)
sample s = done (s.disk 5 0 ∷ s.disk 101 9 ∷ s.disk 102 9 ∷ s.disk 100 0 ∷ [])

after_run : (transaction writes fresh >>= sample) ≡ done (3 ∷ 3 ∷ 2 ∷ 0 ∷ [])
unfolding transaction begin_trans log_blocks log_block log_write count_dirty append_slot find_slot
    edit commit_trans commit_writes install_trans install_from write_head put_sectors boot
after_run = refl

too_big : log_blocks writes (record fresh { size = 2; busy = Bool.true }) ≡ panics
unfolding log_blocks log_block log_write count_dirty append_slot find_slot edit boot
too_big = refl

-- With nine blocks logged a tenth finds every other buffer dirty, although the log has room for it.
abbrev nine_logged : Log
nine_logged = record fresh { busy = Bool.true; n = 9; sector = λ i. i; dirty = λ b. ltb b 9 }

no_buffers : log_block (9, filled 1) nine_logged ≡ panics
unfolding log_block log_write count_dirty append_slot find_slot edit boot
no_buffers = refl

-- A disk that the power left after the commit of block 7, before its copy was home.
abbrev committed : Disk
committed = λ b w. elim (b == 100) [
  | Bool.true ↦ elim (w == 0) [ Bool.true ↦ 1 | Bool.false ↦ 7 ]
  | Bool.false ↦ elim (b == 101) [ Bool.true ↦ 9 | Bool.false ↦ 0 ]
]

abbrev redone : Disk
redone = λ b w. elim (b == 7) [ Bool.true ↦ 9 | Bool.false ↦ 0 ]

committed-Safe : Safe 100 redone committed
committed-Safe =
    armed 1 (λ _. 7)
      (record {
        few = omega arith;
        count = refl;
        slots = λ i h. ground arith;
        homes = λ i h. omega arith;
        saved = λ i h. let e : i ≡ 0 = omega arith in rw e refl;
        rest = λ b h. elim (Bool-cases (b == 7)) [
          | inl here ↦ inr (0, omega arith, omega arith, ground arith)
          | inr other ↦ inl (fun_ext λ w. ground arith)
        ];
      })

recovery_restartable_example :
    let s = recover_from_log (booted 100 committed) in
    Ready 100 redone s × All (Recovers 100 redone) s.past
recovery_restartable_example = recovery_restartable 100 redone committed committed-Safe
