-- ===== src/Pipe/Calls.antt =====
-- What one call of `pipewrite` or `piperead` of kernel/pipe.c does to the bytes in the pipe.
use mathlib.Core.List.{append-nil, append_assoc}
use lainos_fail.Base.{
  ℕ, zero, suc, ◌-◌, ◌<◌, ◌≡◌, ◌≢◌, refl, ap, List, [], ◌∷◌, ◌++◌, arith, Bool, not, ◌||◌, ◌&&◌,
  leb, ◌==◌, Bool-cases, if◌then◌else◌, length, take, drop, take-nil, drop-nil, true, false, inl,
  inr, ◌∙◌,
}
use lainos_fail.Pipe.{
  Pipe, pipe_size, put, get, front, is_empty, Chan, on_nread, on_nwrite, Stop, returned, failed,
  asleep, Written, write_loop, pipewrite, Read, read_loop, after_read, piperead,
}
use lainos_fail.Pipe.Queue.{
  IsValid, fill, contents, is_full-eq, is_empty-eq, fill-put, put-IsValid, contents-put,
  get-IsValid, contents-get,
}

-- The bytes of `addr` that fit, the rest, and the way the call stops.
pub record Wrote (killed : Bool) (n : ℕ) (cs : List ℕ) (p : Pipe) (w : Written) : Type 0 where
  pub valid : IsValid w.pipe
  pub bytes : contents w.pipe ≡ contents p ++ take (pipe_size - fill p) cs
  pub rest : w.rest ≡ drop (pipe_size - fill p) cs
  pub stop : w.stop ≡ (
      if leb (length cs) (pipe_size - fill p)
      then returned n
      else if not p.readopen || killed
      then failed
      else asleep on_nwrite)
  pub woken : w.woken ≡ (
      if leb (length cs) (pipe_size - fill p)
      then on_nread ∷ []
      else if not p.readopen || killed
      then []
      else on_nread ∷ [])
  pub flags : (w.pipe.readopen ≡ p.readopen) × (w.pipe.writeopen ≡ p.writeopen)

take_room :
    (room c : ℕ) (cs : List ℕ)
    → 0 < room
    → (take room (c ∷ cs) ≡ c ∷ take (room - 1) cs) × (drop room (c ∷ cs) ≡ drop (room - 1) cs)
take_room zero c cs h = absurd (omega arith)
take_room (suc room) c cs h = let e : suc room - 1 ≡ room = omega arith in rw e (refl, refl)

Wrote-full :
    (killed : Bool) (n c : ℕ) (cs : List ℕ) (p : Pipe) (stop : Stop) (woken : List Chan)
    → IsValid p
    → fill p ≡ pipe_size
    → stop ≡ (if not p.readopen || killed then failed else asleep on_nwrite)
    → woken ≡ (if not p.readopen || killed then [] else on_nread ∷ [])
    → Wrote killed n (c ∷ cs) p (record { pipe = p; stop = stop; rest = c ∷ cs; woken = woken })
Wrote-full killed n c cs p stop woken v full how who =
    let none_left : pipe_size - fill p ≡ 0 = omega arith in
    record {
      valid = v;
      bytes = rw (none_left, append-nil);
      rest = rw none_left;
      stop = how ∙ ground (arith, none_left);
      woken = who ∙ ground (arith, none_left);
      flags = (refl, refl);
    }

Wrote-put :
    (killed : Bool) (n c : ℕ) (cs : List ℕ) (p : Pipe) (w : Written)
    → IsValid p
    → fill p < pipe_size
    → fill (put c p) ≡ suc (fill p)
    → ((put c p).readopen ≡ p.readopen) × ((put c p).writeopen ≡ p.writeopen)
    → Wrote killed n cs (put c p) w
    → Wrote killed n (c ∷ cs) p w
Wrote-put killed n c cs p w v room more same rec =
    let left : pipe_size - fill (put c p) ≡ pipe_size - fill p - 1 = omega arith in
    let split = take_room (pipe_size - fill p) c cs (omega arith) in
    record {
      valid = rec.valid;
      bytes =
          rec.bytes
          ∙ rw (contents-put p v c room, left, split.0) (append_assoc (contents p) (c ∷ []) _);
      rest = rec.rest ∙ rw (left, split.1);
      stop = ground (arith, rec.stop, same, left);
      woken = ground (arith, rec.woken, same, left);
      flags = (rec.flags.0 ∙ same.0, rec.flags.1 ∙ same.1);
    }

put_flags :
    (c : ℕ) (p : Pipe) → ((put c p).readopen ≡ p.readopen) × ((put c p).writeopen ≡ p.writeopen)
unfolding put
put_flags c p = (refl, refl)

write_loop-Wrote :
    (killed : Bool) (n : ℕ) (cs : List ℕ) (p : Pipe)
    → IsValid p
    → Wrote killed n cs p (write_loop killed n cs p)
unfolding write_loop
write_loop-Wrote killed n [] p v = record {
  valid = v;
  bytes = rw (take-nil, append-nil);
  rest = rw drop-nil;
  stop = ground arith;
  woken = ground arith;
  flags = (refl, refl);
}
write_loop-Wrote killed n (c ∷ cs) p v = elim (Bool-cases (fill p == pipe_size)) [
  | inl full ↦
      let e : fill p ≡ pipe_size = ground arith in
      rw (is_full-eq p v ∙ full) (elim (Bool-cases (not p.readopen || killed)) [
        | inl over ↦ rw over (Wrote-full killed n c cs p _ _ v e (rw over) (rw over))
        | inr wait ↦ rw wait (Wrote-full killed n c cs p _ _ v e (rw wait) (rw wait))
      ])
  | inr room ↦
      let lt : fill p < pipe_size = ground (arith, v.bounded) in
      rw (is_full-eq p v ∙ room) (
        Wrote-put killed n c cs p _ v lt (fill-put p v c lt) (put_flags c p)
          (write_loop-Wrote killed n cs (put c p) (put-IsValid p v c lt)))
]

-- `pipewrite` appends as many bytes as fit. It returns the count when all of them fit; else it
-- fails when no reader is left or the process is killed, and sleeps on `nwrite` when not, with
-- the bytes that did not fit left to write. The pipe stays valid and its ends keep their state.
pub pipewrite_lem :
    (killed : Bool) (addr : List ℕ) (p : Pipe)
    → IsValid p
    → Wrote killed (length addr) addr p (pipewrite killed addr p)
unfolding pipewrite
pipewrite_lem killed addr p v = write_loop-Wrote killed (length addr) addr p v

-- A writer that sleeps, or that has written all its bytes, has woken the readers.
pub pipewrite_wakes :
    (killed : Bool) (addr : List ℕ) (p : Pipe)
    → IsValid p
    → (pipewrite killed addr p).stop ≢ failed
    → (pipewrite killed addr p).woken ≡ on_nread ∷ []
pipewrite_wakes killed addr p v fine =
    let w = pipewrite_lem killed addr p v in ground (arith, w.stop, w.woken)

-- A killed writer that finds an empty pipe and has more bytes than fit leaves the pipe full and
-- returns -1, and no reader that sleeps on the empty pipe has been woken.
pub killed_writer_wakes_none :
    (addr : List ℕ) (p : Pipe)
    → IsValid p
    → fill p ≡ 0
    → pipe_size < length addr
    → let w = pipewrite true addr p in
      (w.stop ≡ failed) × (w.woken ≡ []) × (contents w.pipe ≡ take pipe_size addr)
killed_writer_wakes_none addr p v empty long =
    let w = pipewrite_lem true addr p v in
    let room : pipe_size - fill p ≡ pipe_size = omega arith in
    let all : not p.readopen || true ≡ true = ground arith in
    let bytes : contents p ≡ [] = rw empty in
    (w.stop ∙ ground (arith, room), w.woken ∙ ground (arith, room), w.bytes ∙ rw (room, bytes))

pub record Took (n : ℕ) (p : Pipe) : Type 0 where
  pub valid : IsValid (after_read n p)
  pub bytes : read_loop n p ≡ take n (contents p)
  pub left : contents (after_read n p) ≡ drop n (contents p)

read_loop-Took : (n : ℕ) (p : Pipe) → IsValid p → Took n p
unfolding read_loop after_read
read_loop-Took zero p v = record { valid = v; bytes = refl; left = refl }
read_loop-Took (suc n) p v = elim (Bool-cases (fill p == 0)) [
  | inl none_left ↦
      let e : fill p ≡ 0 = ground arith in
      let empty : is_empty p ≡ true = is_empty-eq p v ∙ none_left in
      record { valid = rw empty v; bytes = rw (empty, e); left = rw (empty, e) }
  | inr some_left ↦
      let ne : fill p ≢ 0 = ground arith in
      let busy : is_empty p ≡ false = is_empty-eq p v ∙ some_left in
      let rec = read_loop-Took n (get p) (get-IsValid p v ne) in
      record {
        valid = rw busy rec.valid;
        bytes = rw (busy, contents-get p v ne) (ap (λ r. front p ∷ r) rec.bytes);
        left = rw (busy, contents-get p v ne) rec.left;
      }
]

-- What `piperead` does: it waits or fails only on an empty pipe with a writer left.
pub record DidRead (killed : Bool) (n : ℕ) (p : Pipe) (r : Read) : Type 0 where
  pub valid : IsValid r.pipe
  pub bytes : r.bytes ≡ take n (contents p)
  pub left : contents r.pipe ≡ drop n (contents p)
  pub stop : r.stop ≡ (
      if (fill p == 0) && p.writeopen
      then (if killed then failed else asleep on_nread)
      else returned (length (take n (contents p))))
  pub woken : r.woken ≡ (if (fill p == 0) && p.writeopen then [] else on_nwrite ∷ [])

-- `piperead` takes the oldest bytes, at most `n` of them, and leaves the others in order. On an
-- empty pipe it returns 0 when no writer is left; else it fails when the process is killed and
-- sleeps on `nread` when not. It wakes the writers whenever it returns a count.
pub piperead_lem :
    (killed : Bool) (n : ℕ) (p : Pipe) → IsValid p → DidRead killed n p (piperead killed n p)
unfolding piperead
piperead_lem killed n p v = elim (Bool-cases ((fill p == 0) && p.writeopen)) [
  | inl wait ↦
      let e : fill p ≡ 0 = ground arith in
      let now : (is_empty p && p.writeopen) ≡ true = rw (is_empty-eq p v) wait in
      let nothing : contents p ≡ [] = rw e in
      elim (Bool-cases killed) [
        | inl k ↦
            rw (now, k)
              (record {
                valid = v;
                bytes = rw (nothing, take-nil);
                left = rw (nothing, drop-nil);
                stop = rw wait;
                woken = rw wait;
              })
        | inr k ↦
            rw (now, k)
              (record {
                valid = v;
                bytes = rw (nothing, take-nil);
                left = rw (nothing, drop-nil);
                stop = rw wait;
                woken = rw wait;
              })
      ]
  | inr go ↦
      let now : (is_empty p && p.writeopen) ≡ false = rw (is_empty-eq p v) go in
      let t = read_loop-Took n p v in
      rw now (record {
        valid = t.valid;
        bytes = t.bytes;
        left = t.left;
        stop = rw (go, t.bytes);
        woken = rw go;
      })
]
