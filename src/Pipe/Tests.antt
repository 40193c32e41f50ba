-- ===== src/Pipe/Tests.antt =====
-- Tests of the pipe, and the theorems at a small pipe.
use fog_os.Prelude.{ℕ, ◌+◌, ◌≤◌, ◌≡◌, refl, Bool, true, false, some, [], ◌∷◌, ◌++◌, arith, rounds}
use fog_os.Pipe.{
  Pipe, pipe_size, Channel, Turn, ReadTurn, put, write_loop, pipewrite, read_loop, piperead,
  pipe_init,
}
use fog_os.Pipe.Ring.{fill, queue, IsPipe}
use fog_os.Pipe.Write.{Written, write_loop-Written}
use fog_os.Pipe.Read.{Delivered, piperead-Delivered}
use fog_os.Pipe.Fifo.{Traffic, pipe_of, accepted, after_read, write, read, fresh, later, pipe_fifo}

abbrev never : ℕ → Bool
never i = false

abbrev always : ℕ → Bool
always i = true

abbrev letters : ℕ → ℕ
letters i = 97 + i

-- Both counters stand just below 2^32.
abbrev wrapping : Pipe
wrapping = record (pipe_init (λ i. 0)) { nread = 0xffff_fffe; nwrite = 0xffff_fffe }

wrapping-IsPipe : IsPipe wrapping
unfolding pipe_init
wrapping-IsPipe = record {
  read_word = omega arith;
  write_word = omega arith;
  bounded = omega arith;
}

write_loop-Written_example :
    Written never always letters 0 (0 + 3) wrapping (write_loop never always letters 3 0 wrapping)
write_loop-Written_example = write_loop-Written never always letters 3 0 wrapping wrapping-IsPipe

-- Three bytes go round the end of the counters, and two come back.
abbrev three : Pipe
three = put 99 (put 98 (put 97 wrapping))

three_bytes :
    pipewrite never always letters 3 wrapping ≡ Turn.returned (some 3) three (Channel.nread ∷ [])
unfolding pipewrite write_loop put pipe_init
three_bytes = refl

two_back :
    piperead always false 2 three
    ≡ ReadTurn.returned (some 2) (record three { nread = 0 }) (Channel.nwrite ∷ []) (97 ∷ 98 ∷ [])
unfolding piperead read_loop put pipe_init
two_back = refl

-- At a pipe whose write end is open and that is empty a reader sleeps.
empty_sleeps : piperead always false 2 wrapping ≡ ReadTurn.asleep Channel.nread wrapping
unfolding piperead read_loop pipe_init
empty_sleeps = refl

piperead-Delivered_example :
    Delivered false always (rounds 2) wrapping (piperead always false 2 wrapping)
piperead-Delivered_example = piperead-Delivered false always 2 wrapping wrapping-IsPipe

abbrev begin : Traffic
begin = record { pipe = pipe_init (λ i. 0); sent = []; received = [] }

abbrev written : Pipe
written = pipe_of (write_loop never always letters 3 0 begin.pipe)

abbrev one_write : Traffic
one_write = record {
  pipe = written;
  sent = [] ++ accepted letters 0 begin.pipe written;
  received = [];
}

abbrev exchange : Traffic
exchange = after_read one_write (piperead always false 2 written)

pipe_fifo_example :
    (exchange.sent ≡ exchange.received ++ queue exchange.pipe) × (fill exchange.pipe ≤ pipe_size)
pipe_fifo_example =
    pipe_fifo {page = λ i. 0} (later (later fresh (write never always letters 3 0)) (read false 2))
