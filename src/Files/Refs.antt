-- ===== src/Files/Refs.antt =====
-- The reference counts of the open files of kernel/file.c count the descriptors that refer to them.
use lainos_fail.Base.{
  ℕ, zero, suc, ◌+◌, ◌-◌, ◌≡◌, ◌≤◌, ◌<◌, refl, true, false, Option, none, some, List, [], ◌∷◌, leb,
  ltb, ◌==◌, arith, if◌then◌else◌, update, Outcome, done, ◌>>=◌, Bool-cases, Option-cases, All, ◌⊎◌,
  inl, inr,
}
use lainos_fail.Proc.{nproc, nofile}
use lainos_fail.Files.{
  fd_none, Ftable, Descriptors, Closing, keeps, closing, filedup, fileclose, find_fd, fdalloc, Open,
  argfd, Called, sys_dup, sys_close,
}
use lainos_fail.Files.Count.{total, total-change, total-member}

-- Every file's count is the number of descriptors that refer to it, and an unused file has no type.
pub record Counted (s : Open) : Type 0 where
  pub counts : (f : ℕ) → (s.files f).ref ≡ total s.ofile f
  pub untyped : (f : ℕ) → (s.files f).ref ≡ 0 → (s.files f).type ≡ fd_none

-- `fdalloc` finds a free descriptor.
find_fd-IsFree :
    (k fd : ℕ) (o : Descriptors) (d : ℕ) → find_fd k fd o ≡ some d → (d < fd + k) × (o d ≡ none)
unfolding find_fd
find_fd-IsFree zero fd o d eq = absurd (ground (arith, eq))
find_fd-IsFree (suc k) fd o d eq = elim (Option-cases (o fd)) [
  | inl free ↦
      let here : fd ≡ d = ground (arith, eq, free) in
      (ground (arith, here), ground (arith, here, free))
  | inr (f, taken) ↦
      let later : find_fd k (fd + 1) o ≡ some d = ground (arith, eq, taken) in
      let (lt, free) = find_fd-IsFree k (fd + 1) o d later in (omega arith, free)
]

-- A reference that a descriptor takes over keeps the counts.
filedup-Counted :
    (me fd f : ℕ) (s : Open)
    → me < nproc
    → fd < nofile
    → s.ofile me fd ≡ none
    → 1 ≤ (s.files f).ref
    → Counted s
    → (t : Ftable) × (filedup f s.files ≡ done t)
      × Counted
          (record s { files = t; ofile = update s.ofile me (update (s.ofile me) fd (some f)) })
unfolding filedup
filedup-Counted me fd f s lt lt' free live c =
    let alive : ltb (s.files f).ref 1 ≡ false = ground arith in
    rw alive (
      _,
      refl,
      record {
        counts =
            λ g. ground (arith, c.counts g, free, total-change s.ofile me fd (some f) g lt lt');
        untyped = λ g none_left. ground (arith, c.untyped g);
      },
    )

-- A descriptor given back keeps the counts. What is done for it: nothing while other descriptors
-- refer to the file, and else what its type asks for.
fileclose-Counted :
    (me fd f : ℕ) (s : Open)
    → me < nproc
    → fd < nofile
    → s.ofile me fd ≡ some f
    → Counted s
    → (t : Ftable) × (fileclose f s.files
        ≡ done ((if total s.ofile f == 1 then closing (s.files f) else keeps), t))
      × ((closings : List Closing)
          → Counted (record {
            files = t;
            ofile = update s.ofile me (update (s.ofile me) fd none);
            closings = closings;
          }))
unfolding fileclose
fileclose-Counted me fd f s lt lt' here c = elim (Bool-cases (total s.ofile f == 1)) [
  | inl last ↦
      let one : (s.files f).ref ≡ 1 = ground (arith, c.counts f, last) in
      rw (last, one)
        (
          _,
          refl,
          λ closings. record {
            counts =
                λ g. ground (arith, c.counts g, here, total-change s.ofile me fd none g lt lt');
            untyped = λ g none_left. ground (arith, c.untyped g);
          },
        )
  | inr more ↦
      let many : ltb 0 ((s.files f).ref - 1) ≡ true =
        ground (arith, c.counts f, more, total-member s.ofile me fd f lt lt' here) in
      let alive : ltb (s.files f).ref 1 ≡ false = ground (arith, many) in
      rw (more, alive, many)
        (
          _,
          refl,
          λ closings. record {
            counts =
                λ g. ground (arith, c.counts g, here, total-change s.ofile me fd none g lt lt');
            untyped = λ g none_left. ground (arith, c.untyped g);
          },
        )
]

-- `sys_close` of an open descriptor returns 0 and frees it; while other descriptors refer to the file
-- nothing else happens, and with the last of them the pipe's end is closed or the inode put. The
-- counts stay right.
pub sys_close_lem :
    (me fd f : ℕ) (s : Open)
    → me < nproc
    → fd < nofile
    → s.ofile me fd ≡ some f
    → Counted s
    → (s' : Open) × (sys_close me fd s ≡ done (some 0, s'))
      × Counted s'
      × (s'.ofile ≡ update s.ofile me (update (s.ofile me) fd none))
      × (s'.closings ≡ (if total s.ofile f == 1 then closing (s.files f) else keeps) ∷ s.closings)
unfolding sys_close
sys_close_lem me fd f s lt lt' here c =
    let inside : leb nofile fd ≡ false = ground (arith, lt') in
    let (t, closed, c') = fileclose-Counted me fd f s lt lt' here c in
    rw (inside, here, closed) (_, refl, c' _, refl, refl)

-- `sys_dup` of an open descriptor gives a second one for the same file, or -1 and no change where
-- none is free. The counts stay right.
pub sys_dup_lem :
    (me fd f : ℕ) (s : Open)
    → me < nproc
    → fd < nofile
    → s.ofile me fd ≡ some f
    → Counted s
    → (sys_dup me fd s ≡ done (none, s))
      ⊎ ((d : ℕ) × (s' : Open) × (sys_dup me fd s ≡ done (some d, s'))
          × Counted s'
          × (s.ofile me d ≡ none)
          × (s'.ofile ≡ update s.ofile me (update (s.ofile me) d (some f))))
unfolding sys_dup fdalloc find_fd
sys_dup_lem me fd f s lt lt' here c =
    let inside : leb nofile fd ≡ false = ground (arith, lt') in
    let live : 1 ≤ (s.files f).ref =
      ground (arith, c.counts f, total-member s.ofile me fd f lt lt' here) in
    elim (Option-cases (find_fd nofile 0 (s.ofile me))) [
      | inl full ↦ inl (rw (inside, here, full) refl)
      | inr (d, found) ↦
          let (low, free) = find_fd-IsFree nofile 0 (s.ofile me) d found in
          let (t, dupped, c') = filedup-Counted me d f s lt (omega arith) free live c in
          inr (d, _, rw (inside, here, found, dupped) refl, c', free, refl)
    ]

-- The calls of the processes, in the order in which they run.
pub data Call : Type 0 where
  dups : (me fd : ℕ) → Call
  closes : (me fd : ℕ) → Call

abbrev pub caller : Call → ℕ
caller (dups me fd) = me
caller (closes me fd) = me

abbrev pub perform : Call → Open → Called
perform (dups me fd) s = sys_dup me fd s
perform (closes me fd) s = sys_close me fd s

abbrev pub performs : List Call → Open → Outcome Open
performs [] s = done s
performs (call ∷ later) s = perform call s >>= λ r. performs later r.1

abbrev StaysCounted : Outcome (Option ℕ × Open) → Type 0
StaysCounted o = (r : Option ℕ) × (s' : Open) × (o ≡ done (r, s')) × Counted s'

argfd-cases :
    (me fd : ℕ) (s : Open)
    → (argfd me fd s ≡ none) ⊎ ((f : ℕ) × (fd < nofile) × (s.ofile me fd ≡ some f))
argfd-cases me fd s = elim (Bool-cases (leb nofile fd)) [
  | inl out ↦ inl (rw out refl)
  | inr inside ↦ elim (Option-cases (s.ofile me fd)) [
    | inl free ↦ inl (rw (inside, free) refl)
    | inr (f, here) ↦ inr (f, ground (arith, inside), here)
  ]
]

perform-Counted :
    (call : Call) (s : Open) → caller call < nproc → Counted s → StaysCounted (perform call s)
unfolding sys_dup sys_close
perform-Counted (dups me fd) s lt c = elim (argfd-cases me fd s) [
  | inl bad ↦ rw bad (_, _, refl, c)
  | inr (f, lt', here) ↦ elim (sys_dup_lem me fd f s lt lt' here c) [
    | inl full ↦ (_, _, full, c)
    | inr (d, s', ran, c', free, o) ↦ (_, _, ran, c')
  ]
]
perform-Counted (closes me fd) s lt c = elim (argfd-cases me fd s) [
  | inl bad ↦ rw bad (_, _, refl, c)
  | inr (f, lt', here) ↦
      let (s', ran, c', o, l) = sys_close_lem me fd f s lt lt' here c in (_, s', ran, c')
]

-- No sequence of `sys_dup` and `sys_close` calls of any processes, on open descriptors or not, makes
-- `filedup` or `fileclose` panic, and after it every reference count is the number of descriptors.
pub performs-Counted :
    (calls : List Call) (s : Open)
    → All (λ call. caller call < nproc) calls
    → Counted s
    → (s' : Open) × (performs calls s ≡ done s') × Counted s'
performs-Counted [] s lts c = (s, refl, c)
performs-Counted (call ∷ later) s lts c =
    let (r, s₁, ran, c₁) = perform-Counted call s lts.0 c in
    rw ran (performs-Counted later s₁ lts.1 c₁)
