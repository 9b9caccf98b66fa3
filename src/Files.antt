-- ===== src/Files.antt =====
-- kernel/file.c, the descriptors of kernel/sysfile.c, and `pipealloc` of kernel/pipe.c: the table of
-- open files with its reference counts, and the processes' descriptors that refer to it.
mod Count
mod Refs
mod Tests
use lainos_fail.Base.{
  ℕ, zero, suc, ◌+◌, ◌-◌, Bool, true, false, not, Option, none, some, List, [], ◌∷◌, leb, ltb, ◌==◌,
  if◌then◌else◌, update, Outcome, done, panics, ◌>>=◌,
}
use lainos_fail.Proc.{nofile}

-- `NFILE`
abbrev pub nfile : ℕ
nfile = 100

pub data FileType : Type 0 where
  fd_none : FileType
  fd_pipe : FileType
  fd_inode : FileType

pub record File : Type 0 where
  pub type : FileType
  pub ref : ℕ
  pub readable : Bool
  pub writable : Bool
  pub pipe : ℕ
  pub ip : ℕ
  pub off : ℕ

abbrev pub Ftable : Type 0
Ftable = ℕ → File

-- A process's `ofile`.
abbrev pub Descriptors : Type 0
Descriptors = ℕ → Option ℕ

-- What `fileclose` does after the table is updated: nothing, `pipeclose`, or `iput` in a transaction.
pub data Closing : Type 0 where
  keeps : Closing
  closes_pipe : (pipe : ℕ) → (writable : Bool) → Closing
  puts_inode : (ip : ℕ) → Closing

-- The search of `filealloc` over the `k` files from `i`.
unfoldable pub find_file : (k i : ℕ) → Ftable → Option ℕ
find_file zero i t = none
find_file (suc k) i t = let rest = find_file k (i + 1) t in if (t i).ref == 0 then some i else rest

abbrev pub take_file : Ftable → ℕ → ℕ × Ftable
take_file t f = (f, update t f (record (t f) { ref = 1 }))

unfoldable pub filealloc : Ftable → Option (ℕ × Ftable)
filealloc t = elim (find_file nfile 0 t) [ none ↦ none | some f ↦ some (take_file t f) ]

unfoldable pub filedup : ℕ → Ftable → Outcome Ftable
filedup f t =
    if ltb (t f).ref 1 then panics else done (update t f (record (t f) { ref = (t f).ref + 1 }))

abbrev pub closing : File → Closing
closing ff = elim ff.type [
  | fd_none ↦ keeps
  | fd_pipe ↦ closes_pipe ff.pipe ff.writable
  | fd_inode ↦ puts_inode ff.ip
]

unfoldable pub fileclose : ℕ → Ftable → Outcome (Closing × Ftable)
fileclose f t =
    let ff = t f in
    if ltb ff.ref 1
    then panics
    else if ltb 0 (ff.ref - 1)
    then done (keeps, update t f (record ff { ref = ff.ref - 1 }))
    else done (closing ff, update t f (record ff { ref = 0; type = fd_none }))

-- The loop of `fdalloc` over the `k` descriptors from `fd`.
unfoldable pub find_fd : (k fd : ℕ) → Descriptors → Option ℕ
find_fd zero fd o = none
find_fd (suc k) fd o =
    let rest = find_fd k (fd + 1) o in elim (o fd) [ none ↦ some fd | some f ↦ rest ]

unfoldable pub fdalloc : (f : ℕ) → Descriptors → Option (ℕ × Descriptors)
fdalloc f o = elim (find_fd nofile 0 o) [ none ↦ none | some fd ↦ some (fd, update o fd (some f)) ]

-- The table, the descriptors by process, and what the closes did, the last first.
pub record Open : Type 0 where
  pub files : Ftable
  pub ofile : ℕ → Descriptors
  pub closings : List Closing

-- `argfd`: `fd` is the 32-bit pattern of the argument, so a negative one is not below `nofile`.
abbrev pub argfd : (me fd : ℕ) → Open → Option ℕ
argfd me fd s = if leb nofile fd then none else s.ofile me fd

-- A call's result, `none` for -1, and the state after it.
abbrev pub Called : Type 0
Called = Outcome (Option ℕ × Open)

abbrev pub dup_to : (me f : ℕ) → Open → Option (ℕ × Descriptors) → Called
dup_to me f s none = done (none, s)
dup_to me f s (some (fd, o)) =
    filedup f s.files >>= λ t. done (some fd, record s { files = t; ofile = update s.ofile me o })

abbrev pub dup_file : (me : ℕ) → Open → Option ℕ → Called
dup_file me s none = done (none, s)
dup_file me s (some f) = dup_to me f s (fdalloc f (s.ofile me))

unfoldable pub sys_dup : (me fd : ℕ) → Open → Called
sys_dup me fd s = dup_file me s (argfd me fd s)

-- `fileclose` with what it does recorded.
abbrev pub drop_file : (f : ℕ) → Open → Outcome Open
drop_file f s =
    fileclose f s.files >>= λ r. done (record s { files = r.1; closings = r.0 ∷ s.closings })

abbrev pub close_fd : (me fd : ℕ) → Open → Option ℕ → Called
close_fd me fd s none = done (none, s)
close_fd me fd s (some f) =
    drop_file f (record s { ofile = update s.ofile me (update (s.ofile me) fd none) }) >>= λ s'.
    done (some 0, s')

unfoldable pub sys_close : (me fd : ℕ) → Open → Called
sys_close me fd s = close_fd me fd s (argfd me fd s)

-- The end of a new pipe that `f` is, in `pipealloc`.
abbrev pub pipe_end : (f pipe : ℕ) → (is_writer : Bool) → Ftable → Ftable
pipe_end f pipe is_writer t =
    update t f
      (record (t f) { type = fd_pipe; readable = not is_writer; writable = is_writer; pipe = pipe })

-- `pipealloc` after it took the file `f0`; `page` is what `kalloc` returns there.
abbrev pub second_end : (page f0 : ℕ) → Open → Option (ℕ × Ftable) → Outcome (Option (ℕ × ℕ) × Open)
second_end page f0 s none = drop_file f0 s >>= λ s'. done (none, s')
second_end page f0 s (some (f1, t)) =
    let s₁ : Open = record s { files = t } in
    if page == 0
    then ((drop_file f0 s₁ >>= drop_file f1) >>= λ s'. done (none, s'))
    else done (some (f0, f1), record s { files = pipe_end f1 page true (pipe_end f0 page false t) })

abbrev pub first_end : (page : ℕ) → Open → Option (ℕ × Ftable) → Outcome (Option (ℕ × ℕ) × Open)
first_end page s none = done (none, s)
first_end page s (some (f0, t)) = second_end page f0 (record s { files = t }) (filealloc t)

unfoldable pub pipealloc : (page : ℕ) → Open → Outcome (Option (ℕ × ℕ) × Open)
pipealloc page s = first_end page s (filealloc s.files)

-- `sys_pipe` after `fd0`: the descriptor is taken back where there is no second one.
abbrev pub second_fd :
    (me rf wf fd0 : ℕ)
    → (o : Descriptors) → Open
    → Option (ℕ × Descriptors)
    → Outcome (Option (ℕ × ℕ) × Open)
second_fd me rf wf fd0 o s none =
    (drop_file rf (record s { ofile = update s.ofile me (update o fd0 none) }) >>= drop_file wf)
    >>= λ s'. done (none, s')
second_fd me rf wf fd0 o s (some (fd1, o')) =
    done (some (fd0, fd1), record s { ofile = update s.ofile me o' })

abbrev pub first_fd :
    (me rf wf : ℕ) → Open → Option (ℕ × Descriptors) → Outcome (Option (ℕ × ℕ) × Open)
first_fd me rf wf s none = (drop_file rf s >>= drop_file wf) >>= λ s'. done (none, s')
first_fd me rf wf s (some (fd0, o)) = second_fd me rf wf fd0 o s (fdalloc wf o)

abbrev pub pipe_fds : (me : ℕ) → Option (ℕ × ℕ) × Open → Outcome (Option (ℕ × ℕ) × Open)
pipe_fds me (none, s) = done (none, s)
pipe_fds me (some (rf, wf), s) = first_fd me rf wf s (fdalloc rf (s.ofile me))

-- The two descriptors, which the code stores at its argument, or `none` for -1.
unfoldable pub sys_pipe : (me page : ℕ) → Open → Outcome (Option (ℕ × ℕ) × Open)
sys_pipe me page s = pipealloc page s >>= pipe_fds me
