-- ===== src/Log/Crash.antt =====
-- Power failures: what `recover_from_log` of kernel/log.c makes of the disk it finds.
use lainos_fail.Base.{ℕ, ◌<◌, ◌≡◌, refl, false, inl, inr, arith, All, All-mono, ◌∙◌}
use lainos_fail.Log.{Disk, Log, write_head, read_head, install_trans, recover_from_log, boot}
use lainos_fail.Log.Header.{write_head-count, read_head-slot}
use lainos_fail.Log.Install.{
  Armed, Installing, install_trans-Installing, Installing-target, install_trans_keeps,
}

-- The machine that comes up on disk `d`, before it looks at the log.
abbrev pub booted : ℕ → Disk → Log
booted start d = record (boot d) { start = start }

-- After recovery from `d` every block below the log holds the target.
abbrev pub Recovers : (start : ℕ) (target d : Disk) → Type 0
Recovers start target d =
    (b : ℕ) → b < start → (recover_from_log (booted start d)).disk b ≡ target b

-- A disk with an empty log and the target already in place.
pub record Idle (start : ℕ) (target d : Disk) : Type 0 where
  pub empty : d start 0 ≡ 0
  pub same : (b : ℕ) → b < start → d b ≡ target b

-- A disk on which the transaction to `target` is in place or committed.
pub data Safe (start : ℕ) (target d : Disk) : Type 0 where
  idle : Idle start target d → Safe start target d
  armed : (n : ℕ) (sector : ℕ → ℕ) → Armed start n sector target d → Safe start target d

-- Between transactions: nothing logged, no transaction active, the disk and the buffers agree.
pub record Ready (start : ℕ) (content : Disk) (s : Log) : Type 0 where
  pub at : s.start ≡ start
  pub quiet : s.busy ≡ false
  pub none_logged : s.n ≡ 0
  pub on_disk : Idle start content s.disk
  pub buffers : (b : ℕ) → b < start → s.view b ≡ content b

abbrev pub emptied : Log → Log
emptied s = write_head (record s { n = 0 })

pub emptied-Ready :
    (start : ℕ) (target : Disk) (s : Log)
    → s.start ≡ start
    → s.busy ≡ false
    → ((b : ℕ) → b < start → (s.disk b ≡ target b) × (s.view b ≡ target b))
    → Ready start target (emptied s)
unfolding write_head
emptied-Ready start target s at quiet home = record {
  at = at;
  quiet = quiet;
  none_logged = refl;
  on_disk = record {
    empty = ground (arith, write_head-count (record s { n = 0 }));
    same = λ b h. ground (arith, home b h);
  };
  buffers = λ b h. ground (arith, home b h);
}

-- Installing and then erasing the log, from a committed disk: every disk on the way is safe.
pub install_erase :
    (start n : ℕ) (sector : ℕ → ℕ) (target : Disk) (s : Log) {P : Disk → Type 0}
    → ((d : Disk) → Safe start target d → P d)
    → Installing start n sector target 0 s
    → All P s.past
    → let t = install_trans s in Installing start n sector target n t × All P (emptied t).past
unfolding write_head
install_erase start n sector target s keep v h =
    let t = install_trans s in
    let (w, past) =
      install_trans-Installing start n sector target s (λ d a. keep d (armed n sector a)) v h in
    (w, (keep t.disk (armed n sector w.armed), past))

Idle-Armed :
    (start : ℕ) (target d : Disk) (sector : ℕ → ℕ)
    → Idle start target d
    → Armed start 0 sector target d
Idle-Armed start target d sector v = record {
  few = omega arith;
  count = v.empty;
  slots = λ i h. absurd (omega arith);
  homes = λ i h. absurd (omega arith);
  saved = λ i h. absurd (omega arith);
  rest = λ b h. inl (v.same b h);
}

Armed-sector :
    (start n : ℕ) (sector sector' : ℕ → ℕ) (target d : Disk)
    → ((i : ℕ) → i < n → sector' i ≡ sector i)
    → Armed start n sector target d
    → Armed start n sector' target d
Armed-sector start n sector sector' target d same a = record {
  few = a.few;
  count = a.count;
  slots = λ i h. rw (same i h) (a.slots i h);
  homes = λ i h. rw (same i h) (a.homes i h);
  saved = λ i h. rw (same i h) (a.saved i h);
  rest = λ b h. elim (a.rest b h) [
    | inl done ↦ inl done
    | inr (j, from, to, e) ↦ inr (j, from, to, same j to ∙ e)
  ];
}

-- Reading the header of a committed disk gives the state in which `install_trans` starts.
read_head-Installing :
    (start n : ℕ) (sector : ℕ → ℕ) (target d : Disk)
    → Armed start n sector target d
    → let s = read_head (booted start d) in Installing start n s.sector target 0 s
unfolding read_head boot
read_head-Installing start n sector target d a =
    let s = read_head (booted start d) in
    let same : (i : ℕ) → i < n → s.sector i ≡ sector i = λ i h.
      read_head-slot (booted start d) i (omega (arith, a.count)) (omega (arith, a.count, a.few))
      ∙ a.slots i h in
    let armed' = Armed-sector start n sector s.sector target d same a in
    record {
      at = refl;
      all = a.count;
      sectors = refl;
      armed = armed';
      shown = armed'.saved;
      pending = armed'.rest;
      shows = armed'.rest;
    }

Safe-Armed :
    (start : ℕ) (target d : Disk)
    → Safe start target d
    → (n : ℕ) × (sector : ℕ → ℕ) × Armed start n sector target d
Safe-Armed start target d (idle v) = (0, λ _. 0, Idle-Armed start target d (λ _. 0) v)
Safe-Armed start target d (armed n sector a) = (n, sector, a)

-- Recovery of a safe disk ends ready, and every disk that it leaves on the way is safe.
pub recover-Safe :
    (start : ℕ) (target d : Disk)
    → Safe start target d
    → let s = recover_from_log (booted start d) in
      Ready start target s × All (Safe start target) s.past
unfolding recover_from_log read_head boot
recover-Safe start target d safe =
    let (n, sector, a) = Safe-Armed start target d safe in
    let s = read_head (booted start d) in
    let t = install_trans s in
    let (w, past) =
      install_erase start n s.sector target s (λ d' v. v)
        (read_head-Installing start n sector target d a) tt in
    (
      emptied-Ready start target t w.at (install_trans_keeps s).0
          (Installing-target start n s.sector target t w),
      past,
    )

pub Safe-Recovers : (start : ℕ) (target d : Disk) → Safe start target d → Recovers start target d
Safe-Recovers start target d safe = (recover-Safe start target d safe).0.on_disk.same

-- `recover_from_log` can itself be cut off. From a disk on which a transaction is committed or
-- in place it ends with the target on the disk and in the buffers and an empty log, and every
-- disk that it leaves on the way recovers to the same target.
pub recovery_restartable :
    (start : ℕ) (target d : Disk)
    → Safe start target d
    → let s = recover_from_log (booted start d) in
      Ready start target s × All (Recovers start target) s.past
recovery_restartable start target d safe =
    let s = recover_from_log (booted start d) in
    let (end, past) = recover-Safe start target d safe in
    (end, All-mono (Safe-Recovers start target) s.past past)
