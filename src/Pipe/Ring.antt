-- ===== src/Pipe/Ring.antt =====
-- The bytes in a pipe, in the order in which they will be read.
use mathlib.Core.Path.{subst}
use fog_os.Prelude.{
  leb, sym, ℕ, suc, ◌+◌, ◌%◌, ◌^◌, ◌≤◌, ◌<◌, ◌≡◌, ap, List, [], ◌∷◌, ◌++◌, arith, add32, sub32,
  ◌==◌,
}
use fog_os.Ring.{ring, Apart, ring_push, ring_congr}
use fog_os.Pipe.{Pipe, pipe_size, put, take_one}

-- `nwrite - nread` as `uint`s: the number of bytes in the pipe.
abbrev pub fill : Pipe → ℕ
fill pi = sub32 pi.nwrite pi.nread

unfoldable pub queue : Pipe → List ℕ
queue pi = ring pipe_size pi.bytes pi.nread (fill pi)

pub record IsPipe (pi : Pipe) : Type 0 where
  pub read_word : pi.nread < 2 ^ 32
  pub write_word : pi.nwrite < 2 ^ 32
  pub bounded : fill pi ≤ pipe_size

Apart-pipe_size : Apart pipe_size
Apart-pipe_size r d pos h e = omega arith

module _ (pi : Pipe) (is : IsPipe pi) where
  -- A byte that is put goes to the end of the queue.
  pub queue-put : (v : ℕ) → fill pi < pipe_size → queue (put v pi) ≡ queue pi ++ v ∷ []
  unfolding queue put
  queue-put v room =
      let at : pi.nwrite % 512 ≡ (pi.nread + fill pi) % 512 =
        omega (arith, is.read_word, is.write_word) in
      let more : sub32 (add32 pi.nwrite 1) pi.nread ≡ suc (fill pi) =
        omega (arith, is.read_word, is.write_word) in
      rw (at, more) (ring_push pipe_size Apart-pipe_size pi.bytes pi.nread (fill pi) v room)

  pub put-IsPipe :
      (v : ℕ) → fill pi < pipe_size → IsPipe (put v pi) × (fill (put v pi) ≡ fill pi + 1)
  unfolding put
  put-IsPipe v room = (
    record {
      read_word = is.read_word;
      write_word = omega arith;
      bounded = omega (arith, is.read_word, is.write_word);
    },
    omega (arith, is.read_word, is.write_word),
  )

  -- The byte that is read next is the first of the queue.
  pub queue-take_one :
      0 < fill pi → queue pi ≡ pi.bytes (pi.nread % pipe_size) ∷ queue (take_one pi)
  unfolding queue ring
  queue-take_one some_left =
      let less : fill pi ≡ suc (sub32 pi.nwrite (add32 pi.nread 1)) =
        omega (arith, is.read_word, is.write_word) in
      let next =
        ring_congr pipe_size pi.bytes (pi.nread + 1) (add32 pi.nread 1) (fill (take_one pi))
          (λ j. omega arith) in
      subst
        (λ k.
          ring pipe_size pi.bytes pi.nread k
          ≡ pi.bytes (pi.nread % pipe_size) ∷ queue (take_one pi))
        (sym less) (ap (λ q. pi.bytes (pi.nread % pipe_size) ∷ q) next)

  pub take_one-IsPipe : 0 < fill pi → IsPipe (take_one pi) × (fill (take_one pi) + 1 ≡ fill pi)
  take_one-IsPipe some_left = (
    record {
      read_word = omega arith;
      write_word = is.write_word;
      bounded = omega (arith, is.read_word, is.write_word, is.bounded);
    },
    omega (arith, is.read_word, is.write_word),
  )

  -- The tests of the code for a full and for an empty pipe.
  pub full_iff : (pi.nwrite == add32 pi.nread pipe_size) ≡ leb pipe_size (fill pi)
  full_iff = ground (arith, is.read_word, is.write_word, is.bounded)

  pub empty_iff : (pi.nread == pi.nwrite) ≡ (fill pi == 0)
  empty_iff = ground (arith, is.read_word, is.write_word)
