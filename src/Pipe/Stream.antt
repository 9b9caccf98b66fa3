-- ===== src/Pipe/Stream.antt =====
-- Writers and readers of a pipe in any order: kernel/pipe.c delivers a stream of bytes.
use mathlib.Core.List.{append_assoc, append-nil}
use lainos_fail.Base.{
  ℕ, zero, suc, ◌-◌, ◌≡◌, refl, ap, ◌∙◌, List, [], ◌∷◌, ◌++◌, arith, Bool, length, take, drop,
  take-append-drop, take-nil, length-drop, sym, true, false,
}
use lainos_fail.Pipe.{Pipe, pipe_size, pipewrite, piperead, pipeclose}
use lainos_fail.Pipe.Queue.{IsValid, fill, contents}
use lainos_fail.Pipe.Calls.{pipewrite_lem, piperead_lem}

-- A call on the pipe by some process, run to its return or its next sleep. The `Bool` of a write
-- or a read is the `killed` flag of the process, that of a close says which end is closed.
pub data Op : Type 0 where
  write : Bool → List ℕ → Op
  read : Bool → ℕ → Op
  close : Bool → Op

abbrev pub after : Op → Pipe → Pipe
after (write killed cs) p = (pipewrite killed cs p).pipe
after (read killed n) p = (piperead killed n p).pipe
after (close writable) p = (pipeclose writable p).pipe

-- the bytes that a call put in: those of `addr` that are not left to write
abbrev pub sent : Op → Pipe → List ℕ
sent (write killed cs) p = take (length cs - length (pipewrite killed cs p).rest) cs
sent _ p = []

-- the bytes that a call took out
abbrev pub received : Op → Pipe → List ℕ
received (read killed n) p = (piperead killed n p).bytes
received _ p = []

abbrev pub final : List Op → Pipe → Pipe
final [] p = p
final (op ∷ ops) p = final ops (after op p)

abbrev pub all_sent : List Op → Pipe → List ℕ
all_sent [] p = []
all_sent (op ∷ ops) p = sent op p ++ all_sent ops (after op p)

abbrev pub all_received : List Op → Pipe → List ℕ
all_received [] p = []
all_received (op ∷ ops) p = received op p ++ all_received ops (after op p)

take_sent : (room : ℕ) (cs : List ℕ) → take (length cs - length (drop room cs)) cs ≡ take room cs
take_sent zero cs = let e : length cs - length cs ≡ 0 = omega arith in rw e
take_sent (suc room) [] = rw take-nil
take_sent (suc room) (c ∷ cs) =
    let e : suc (length cs) - length (drop room cs) ≡ suc (length cs - length (drop room cs)) =
      omega (arith, length-drop room cs) in
    rw e (ap (λ r. c ∷ r) (take_sent room cs))

pipeclose_keeps :
    (writable : Bool) (p : Pipe)
    → let q = (pipeclose writable p).pipe in
      (q.buf ≡ p.buf) × (q.nread ≡ p.nread) × (q.nwrite ≡ p.nwrite)
unfolding pipeclose
pipeclose_keeps true p = (refl, refl, refl)
pipeclose_keeps false p = (refl, refl, refl)

step_fifo :
    (op : Op) (p : Pipe)
    → IsValid p
    → IsValid (after op p) × (contents p ++ sent op p ≡ received op p ++ contents (after op p))
step_fifo (write killed cs) p v =
    let w = pipewrite_lem killed cs p v in
    (w.valid, rw (w.bytes, w.rest, take_sent (pipe_size - fill p) cs))
step_fifo (read killed n) p v =
    let r = piperead_lem killed n p v in
    (r.valid, rw (append-nil, r.bytes, r.left, take-append-drop n (contents p)))
step_fifo (close writable) p v =
    let (b, r, w) = pipeclose_keeps writable p in
    (
      record { read_word = omega arith; write_word = omega arith; bounded = omega arith },
      rw (append-nil, b, r, w),
    )

-- However calls of writers and readers follow one another on a valid pipe, the bytes in the pipe
-- and those put in, in order, are those taken out, in order, and those in the pipe at the end.
-- The pipe stays valid: it never holds more than 512 bytes.
pub pipe_fifo :
    (ops : List Op) (p : Pipe)
    → IsValid p
    → IsValid (final ops p)
      × (contents p ++ all_sent ops p ≡ all_received ops p ++ contents (final ops p))
pipe_fifo [] p v = (v, append-nil (contents p))
pipe_fifo (op ∷ ops) p v =
    let (v', step) = step_fifo op p v in
    let (end, rest) = pipe_fifo ops (after op p) v' in
    (
      end,
      sym (append_assoc (contents p) (sent op p) (all_sent ops (after op p)))
          ∙ ap (λ l. l ++ all_sent ops (after op p)) step
          ∙ append_assoc (received op p) (contents (after op p)) (all_sent ops (after op p))
          ∙ ap (λ l. received op p ++ l) rest
          ∙ sym (append_assoc (received op p) (all_received ops (after op p)) _),
    )
