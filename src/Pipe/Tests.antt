-- ===== src/Pipe/Tests.antt =====
-- Runs of kernel/pipe.c and instances of its theorems.
use lainos_fail.Base.{
  ℕ, ◌≡◌, refl, List, [], ◌∷◌, ◌++◌, arith, true, false, take, replicate, ◌-◌, ◌^◌,
}
use lainos_fail.Pipe.{
  Pipe, pipe_size, put, get, failed, asleep, on_nwrite, write_loop, pipewrite, read_loop,
  after_read, piperead, pipeclose,
}
use lainos_fail.Pipe.Queue.{IsValid, contents}
use lainos_fail.Pipe.Calls.{killed_writer_wakes_none}
use lainos_fail.Pipe.Stream.{Op, write, read, close, final, all_sent, all_received, pipe_fifo}

-- An empty pipe whose counters are about to wrap.
abbrev late : Pipe
late = record {
  buf = λ i. 0;
  nread = 2 ^ 32 - 2;
  nwrite = 2 ^ 32 - 2;
  readopen = true;
  writeopen = true;
}

late-IsValid : IsValid late
late-IsValid = record { read_word = omega arith; write_word = omega arith; bounded = omega arith }

abbrev long : List ℕ
long = replicate 600 7

sleeping_writer : (pipewrite false long late).stop ≡ asleep on_nwrite
unfolding pipewrite write_loop put
sleeping_writer = refl

killed_writer_wakes_none_example :
    let w = pipewrite true long late in
    (w.stop ≡ failed) × (w.woken ≡ []) × (contents w.pipe ≡ take pipe_size long)
killed_writer_wakes_none_example =
    killed_writer_wakes_none long late late-IsValid refl (omega arith)

abbrev three : Pipe
three = record late { buf = λ i. i; nwrite = 1 }

read_across_the_wrap : (piperead false 2 three).bytes ≡ 510 ∷ 511 ∷ []
unfolding piperead read_loop get
read_across_the_wrap = refl

abbrev script : List Op
script =
    write false (1 ∷ 2 ∷ 3 ∷ []) ∷ read false 2 ∷ write true long ∷ close true ∷ read false 9 ∷ []

pipe_fifo_example :
    IsValid (final script late)
    × (contents late ++ all_sent script late
        ≡ all_received script late ++ contents (final script late))
pipe_fifo_example = pipe_fifo script late late-IsValid

script_received : all_received script late ≡ 1 ∷ 2 ∷ 3 ∷ replicate 8 7
unfolding pipewrite write_loop put piperead read_loop after_read get pipeclose
script_received = refl
