-- ===== src/Pipe.antt =====
-- kernel/pipe.c: a pipe is a ring of PIPESIZE bytes with two counters of type `uint`.
-- A routine runs, with the pipe's lock held, until it returns or sleeps; what the other side does
-- while it sleeps comes between two turns.
pub mod Ring
pub mod Write
pub mod Read
pub mod Fifo
mod Tests
use fog_os.Prelude.{
  ℕ, zero, suc, ◌+◌, ◌%◌, Bool, true, false, not, ◌&&◌, ◌||◌, ◌==◌, if◌then◌else◌, update, add32,
  rounds, Option, none, some, List, [], ◌∷◌, ◌++◌,
}

abbrev pub pipe_size : ℕ
pipe_size = 512

-- `struct pipe` without its lock.
pub record Pipe : Type 0 where
  pub bytes : ℕ → ℕ
  pub nread : ℕ
  pub nwrite : ℕ
  pub readopen : Bool
  pub writeopen : Bool

-- What one sleeps on: `&pi->nread` or `&pi->nwrite`.
pub data Channel : Type 0 where
  nread nwrite : Channel

-- The end of a turn. A result of -1 is `none`; `woken` lists the channels given to `wakeup`.
pub data Turn : Type 0 where
  returned : (result : Option ℕ) → Pipe → (woken : List Channel) → Turn
  asleep : (on : Channel) (i : ℕ) → Pipe → (woken : List Channel) → Turn

-- `pi->data[pi->nwrite++ % PIPESIZE] = ch`
unfoldable pub put : ℕ → Pipe → Pipe
put ch pi = record pi {
  bytes = update pi.bytes (pi.nwrite % pipe_size) ch;
  nwrite = add32 pi.nwrite 1;
}

-- The loop of `pipewrite` at `i`, with `rest` bytes to go. The user's byte `i` is `src i`, and
-- `copyin` reads it if `mapped i`; `killed i` is what `killed(pr)` answers in this round.
module _ (killed mapped : ℕ → Bool) (src : ℕ → ℕ) where
  unfoldable pub write_loop : (rest i : ℕ) → Pipe → Turn
  write_loop zero i pi = returned (some i) pi (nread ∷ [])
  write_loop (suc rest) i pi =
      let next = write_loop rest (i + 1) (put (src i) pi) in
      if not pi.readopen || killed i
      then returned none pi []
      else if pi.nwrite == add32 pi.nread pipe_size
      then asleep nwrite i pi (nread ∷ [])
      else if mapped i
      then next
      else returned (some i) pi (nread ∷ [])

  unfoldable pub pipewrite : (n : ℕ) → Pipe → Turn
  pipewrite n pi = write_loop (rounds n) 0 pi

-- The end of a turn of a reader, with the bytes that `copyout` has put into the user's memory.
pub data ReadTurn : Type 0 where
  returned : (result : Option ℕ) → Pipe → (woken : List Channel) → (delivered : List ℕ) → ReadTurn
  asleep : (on : Channel) → Pipe → ReadTurn

abbrev pub take_one : Pipe → Pipe
take_one pi = record pi { nread = add32 pi.nread 1 }

module _ (mapped : ℕ → Bool) where
  unfoldable pub read_loop : (rest i : ℕ) → Pipe → List ℕ → ReadTurn
  read_loop zero i pi out = returned (some i) pi (nwrite ∷ []) out
  read_loop (suc rest) i pi out =
      let ch = pi.bytes (pi.nread % pipe_size) in
      let next = read_loop rest (i + 1) (take_one pi) (out ++ ch ∷ []) in
      if pi.nread == pi.nwrite
      then returned (some i) pi (nwrite ∷ []) out
      else if mapped i
      then next
      else returned (some i) (take_one pi) (nwrite ∷ []) out

  -- From the test of `while(pi->nread == pi->nwrite && pi->writeopen)` on.
  unfoldable pub piperead : (killed : Bool) (n : ℕ) → Pipe → ReadTurn
  piperead killed n pi =
      if pi.nread == pi.nwrite && pi.writeopen
      then (if killed then returned none pi [] [] else asleep nread pi)
      else read_loop (rounds n) 0 pi []

-- `pipeclose`: whether the pipe's page is freed, and the channel that is woken.
unfoldable pub pipeclose : (writable : Bool) → Pipe → Pipe × Bool × Channel
pipeclose writable pi =
    let closed =
      if writable then record pi { writeopen = false } else record pi { readopen = false } in
    (closed, not closed.readopen && not closed.writeopen, if writable then nread else nwrite)

-- What `pipealloc` makes of a fresh page.
unfoldable pub pipe_init : (page : ℕ → ℕ) → Pipe
pipe_init page = record { bytes = page; nread = 0; nwrite = 0; readopen = true; writeopen = true }
