-- ===== src/Buffers/Tests.antt =====
-- Tests and examples for the buffer cache: a first block is read and released.
use mathlib.Core.Path.{subst}
use fog_os.Prelude.{ℕ, ◌+◌, ◌==◌, if◌then◌else◌, ◌≡◌, refl, false, Outcome, ok, panic}
use fog_os.Buffers.{
  Cache, Turn, locked, nbuf, binit, bread, bget, brelse, bpin, recycle, init_loop, put_first,
  unlink, forward, backward, lock_buf, fill,
}
use fog_os.Sleeplock.{initsleeplock, acquiresleep, releasesleep, holdingsleep}
use fog_os.Buffers.Lru.{lru_get, descending, to_front}
use fog_os.Buffers.History.{Reach, start, get, release, cache, Reach-bget}

abbrev blank : Cache
blank = record {
  buf = λ b. record {
    valid = false;
    dev = 0;
    blockno = 0;
    lock = record { locked = false; pid = 0 };
    refcnt = 0;
    content = λ i. 0;
  };
  prev = λ b. 0;
  next = λ b. 0;
  disk = λ b i. b;
}

-- The buffer that a turn is about.
abbrev about : Outcome Turn → ℕ
about (ok (locked b c)) = b
about (ok (Turn.waits b c)) = 1000 + b
about (panic why) = 2000

abbrev turn : Outcome Turn → Turn
turn (ok t) = t
turn (panic why) = locked 0 blank

abbrev released : Outcome Cache → Cache
released (ok c) = c
released (panic why) = blank

-- The cache after process 5 reads block 7 of device 1, and after it releases the buffer.
abbrev after_read : Cache
after_read = cache (turn (bread 5 1 7 (binit blank)))

abbrev after_release : Cache
after_release = released (brelse 5 0 after_read)

read_returns : bread 5 1 7 (binit blank) ≡ ok (turn (bread 5 1 7 (binit blank)))
unfolding bread bget binit init_loop put_first forward backward lock_buf recycle fill
read_returns = refl

release_returns : brelse 5 0 after_read ≡ ok after_release
unfolding bread bget binit init_loop put_first unlink forward backward lock_buf recycle fill
    initsleeplock acquiresleep releasesleep holdingsleep brelse
release_returns = refl

first_is_0 : about (bread 5 1 7 (binit blank)) ≡ 0
unfolding bread bget binit init_loop put_first forward backward lock_buf recycle fill initsleeplock
    acquiresleep
first_is_0 = refl

-- The released buffer is the last to be recycled.
next_is_1 : about (bread 5 1 8 after_release) ≡ 1
unfolding bread bget binit init_loop put_first unlink forward backward lock_buf recycle fill
    initsleeplock acquiresleep releasesleep holdingsleep brelse
next_is_1 = refl

again_is_0 : about (bread 5 1 7 after_release) ≡ 0
unfolding bread bget binit init_loop put_first unlink forward backward lock_buf recycle fill
    initsleeplock acquiresleep releasesleep holdingsleep brelse bpin
again_is_0 = refl

no_references : (after_release.buf 0).refcnt ≡ 0
unfolding bread bget binit init_loop put_first unlink forward backward lock_buf recycle fill
    initsleeplock acquiresleep releasesleep holdingsleep brelse
no_references = refl

after_release-Reach : Reach after_release (to_front 0 (descending nbuf))
after_release-Reach =
    let read = get 5 1 7 (turn (bread 5 1 7 (binit blank))) (start blank) read_returns in
    let done = release 5 0 after_release read refl release_returns in
    subst
      (λ n. Reach after_release (if n == 0 then to_front 0 (descending nbuf) else descending nbuf))
      no_references done

Reach-bget_example :
    bget 5 1 8 after_release ≡ lru_get 5 1 8 after_release (to_front 0 (descending nbuf))
Reach-bget_example =
    Reach-bget after_release (to_front 0 (descending nbuf)) after_release-Reach 5 1 8
