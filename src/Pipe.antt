-- ===== src/Pipe.antt =====
-- kernel/pipe.c: the pipe buffer, its blocking writer and reader, and `pipeclose`. The lock makes
-- each call atomic between two sleeps. A call that reaches `sleep()` gives back what is left to do:
-- the sleeper runs the same loop on the rest when it has been woken. Counters are `uint`s.
pub mod Queue
pub mod Calls
pub mod Stream
mod Tests
use lainos_fail.Base.{
  ℕ, zero, suc, ◌+◌, ◌-◌, ◌%◌, ◌^◌, Bool, true, false, not, ◌&&◌, ◌||◌, List, [], ◌∷◌, ◌==◌,
  if◌then◌else◌, update, add32, length,
}

-- `PIPESIZE`
abbrev pub pipe_size : ℕ
pipe_size = 512

-- `struct pipe` without its lock
pub record Pipe : Type 0 where
  pub buf : ℕ → ℕ
  pub nread : ℕ
  pub nwrite : ℕ
  pub readopen : Bool
  pub writeopen : Bool

-- The channels that a process sleeps on: `&p->nread` and `&p->nwrite`.
pub data Chan : Type 0 where
  on_nread on_nwrite : Chan

-- How a call stops: it returns its count, it returns -1, or it sleeps.
pub data Stop : Type 0 where
  returned : ℕ → Stop
  failed : Stop
  asleep : Chan → Stop

-- What `pipealloc` puts in a fresh pipe; the page's bytes are whatever they were.
unfoldable pub fresh_pipe : (ℕ → ℕ) → Pipe
fresh_pipe page = record { buf = page; nread = 0; nwrite = 0; readopen = true; writeopen = true }

abbrev pub is_full : Pipe → Bool
is_full p = p.nwrite == add32 p.nread pipe_size

abbrev pub is_empty : Pipe → Bool
is_empty p = p.nread == p.nwrite

-- `p->data[p->nwrite++ % PIPESIZE] = c`
unfoldable pub put : ℕ → Pipe → Pipe
put c p = record p { buf = update p.buf (p.nwrite % pipe_size) c; nwrite = add32 p.nwrite 1 }

-- `p->data[p->nread++ % PIPESIZE]`, and the pipe after it
unfoldable pub get : Pipe → Pipe
get p = record p { nread = add32 p.nread 1 }

abbrev pub front : Pipe → ℕ
front p = p.buf (p.nread % pipe_size)

pub record Written : Type 0 where
  pub pipe : Pipe
  pub stop : Stop
  pub rest : List ℕ
  pub woken : List Chan

-- The loop of `pipewrite` on the bytes `addr[i..n)`, up to its return or its next sleep.
unfoldable pub write_loop : (killed : Bool) → (n : ℕ) → List ℕ → Pipe → Written
write_loop killed n [] p = record { pipe = p; stop = returned n; rest = []; woken = on_nread ∷ [] }
write_loop killed n (c ∷ cs) p =
    let next = write_loop killed n cs (put c p) in
    if is_full p
    then (if not p.readopen || killed
        then record { pipe = p; stop = failed; rest = c ∷ cs; woken = [] }
        else record { pipe = p; stop = asleep on_nwrite; rest = c ∷ cs; woken = on_nread ∷ [] })
    else next

unfoldable pub pipewrite : (killed : Bool) → List ℕ → Pipe → Written
pipewrite killed addr p = write_loop killed (length addr) addr p

pub record Read : Type 0 where
  pub pipe : Pipe
  pub stop : Stop
  pub bytes : List ℕ
  pub woken : List Chan

-- The copying loop of `piperead`: at most `n` bytes, until the pipe is empty.
unfoldable pub read_loop : ℕ → Pipe → List ℕ
read_loop zero p = []
read_loop (suc n) p = let rest = front p ∷ read_loop n (get p) in if is_empty p then [] else rest

unfoldable pub after_read : ℕ → Pipe → Pipe
after_read zero p = p
after_read (suc n) p = let rest = after_read n (get p) in if is_empty p then p else rest

unfoldable pub piperead : (killed : Bool) → ℕ → Pipe → Read
piperead killed n p =
    if is_empty p && p.writeopen
    then (if killed
        then record { pipe = p; stop = failed; bytes = []; woken = [] }
        else record { pipe = p; stop = asleep on_nread; bytes = []; woken = [] })
    else let bytes = read_loop n p in
      record {
        pipe = after_read n p;
        stop = returned (length bytes);
        bytes = bytes;
        woken = on_nwrite ∷ [];
      }

pub record Closed : Type 0 where
  pub pipe : Pipe
  pub freed : Bool
  pub woken : List Chan

-- `freed` says whether the page goes back by `kfree`.
unfoldable pub pipeclose : (writable : Bool) → Pipe → Closed
pipeclose writable p =
    let p' = if writable then record p { writeopen = false } else record p { readopen = false } in
    record {
      pipe = p';
      freed = not p'.readopen && not p'.writeopen;
      woken = (if writable then on_nread else on_nwrite) ∷ [];
    }
