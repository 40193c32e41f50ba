-- ===== src/Buffers.antt =====
-- kernel/bio.c: the cache of disk blocks, with its list of buffers from the most recently used to
-- the least. A pointer to a buffer is its index in `bcache.buf`, and `bcache.head`, which lies
-- behind that array, has the next index.
pub mod Ring
pub mod Lru
pub mod History
mod Tests
use fog_os.Prelude.{
  ℕ, zero, suc, ◌+◌, Bool, true, false, not, ◌&&◌, ◌==◌, if◌then◌else◌, update, Option, none, some,
  Outcome, ok, panic, add32, sub32,
}
use fog_os.Sleeplock.{Sleeplock, initsleeplock, acquiresleep, releasesleep, holdingsleep}

abbrev pub nbuf : ℕ
nbuf = 30

abbrev pub head : ℕ
head = 30

-- `struct buf` but for its two links.
pub record Buf : Type 0 where
  pub valid : Bool
  pub dev : ℕ
  pub blockno : ℕ
  pub lock : Sleeplock
  pub refcnt : ℕ
  pub content : ℕ → ℕ

-- `bcache`, with the links `prev` and `next` of each buffer, and the blocks of the disk.
pub record Cache : Type 0 where
  pub buf : ℕ → Buf
  pub prev : ℕ → ℕ
  pub next : ℕ → ℕ
  pub disk : ℕ → ℕ → ℕ

abbrev pub set_buf : ℕ → Buf → Cache → Cache
set_buf b x c = record c { buf = update c.buf b x }

abbrev pub set_prev : ℕ → ℕ → Cache → Cache
set_prev b to c = record c { prev = update c.prev b to }

abbrev pub set_next : ℕ → ℕ → Cache → Cache
set_next b to c = record c { next = update c.next b to }

-- Takes `b` out of the list: `b->next->prev = b->prev; b->prev->next = b->next`.
unfoldable pub unlink : ℕ → Cache → Cache
unlink b c =
    let c = set_prev (c.next b) (c.prev b) c in let c = set_next (c.prev b) (c.next b) c in c

-- Puts `b` behind the head of the list.
unfoldable pub put_first : ℕ → Cache → Cache
put_first b c =
    let c = set_next b (c.next head) c in
    let c = set_prev b head c in
    let c = set_prev (c.next head) b c in let c = set_next head b c in c

-- The loop of `binit`, for `left` buffers from `b` on.
unfoldable pub init_loop : (left b : ℕ) → Cache → Cache
init_loop zero b c = c
init_loop (suc left) b c =
    let c = set_buf b (record (c.buf b) { lock = initsleeplock }) c in
    init_loop left (b + 1) (put_first b c)

unfoldable pub binit : Cache → Cache
binit c = let c = set_prev head head c in let c = set_next head head c in init_loop nbuf 0 c

abbrev pub is_for : (dev blockno : ℕ) → Cache → ℕ → Bool
is_for dev blockno c b = (c.buf b).dev == dev && (c.buf b).blockno == blockno

abbrev pub is_unused : Cache → ℕ → Bool
is_unused c b = (c.buf b).refcnt == 0

-- The two loops of `bget`, forward and backward, from `b` on for at most `fuel` buffers, up to the
-- first buffer that passes the test.
unfoldable pub forward : (fuel b : ℕ) (test : ℕ → Bool) → Cache → Option ℕ
forward zero b test c = none
forward (suc fuel) b test c =
    let rest = forward fuel (c.next b) test c in
    if not (b == head) then (if test b then some b else rest) else none

unfoldable pub backward : (fuel b : ℕ) (test : ℕ → Bool) → Cache → Option ℕ
backward zero b test c = none
backward (suc fuel) b test c =
    let rest = backward fuel (c.prev b) test c in
    if not (b == head) then (if test b then some b else rest) else none

-- The locked buffer, or the buffer for whose lock the process sleeps.
pub data Turn : Type 0 where
  locked : ℕ → Cache → Turn
  waits : ℕ → Cache → Turn

-- `acquiresleep(&b->lock)` by process `pid`.
unfoldable pub lock_buf : (pid b : ℕ) → Cache → Turn
lock_buf pid b c = elim (acquiresleep pid (c.buf b).lock) [
  | none ↦ waits b c
  | some lk ↦ locked b (set_buf b (record (c.buf b) { lock = lk }) c)
]

unfoldable pub bpin : ℕ → Cache → Cache
bpin b c = set_buf b (record (c.buf b) { refcnt = add32 (c.buf b).refcnt 1 }) c

unfoldable pub bunpin : ℕ → Cache → Cache
bunpin b c = set_buf b (record (c.buf b) { refcnt = sub32 (c.buf b).refcnt 1 }) c

-- An unused buffer for another block.
unfoldable pub recycle : (dev blockno b : ℕ) → Cache → Cache
recycle dev blockno b c =
    set_buf b (record (c.buf b) { dev = dev; blockno = blockno; valid = false; refcnt = 1 }) c

unfoldable pub bget : (pid dev blockno : ℕ) → Cache → Outcome Turn
bget pid dev blockno c = elim (forward (nbuf + 1) (c.next head) (is_for dev blockno c) c) [
  | some b ↦ ok (lock_buf pid b (bpin b c))
  | none ↦ elim (backward (nbuf + 1) (c.prev head) (is_unused c) c) [
    | some b ↦ ok (lock_buf pid b (recycle dev blockno b c))
    | none ↦ panic "bget: no buffers"
  ]
]

-- What `bread` does once it has the buffer; `virtio_disk_rw` fills it with the block of the disk.
unfoldable pub fill : Turn → Turn
fill (waits b c) = waits b c
fill (locked b c) =
    let x = c.buf b in
    if not x.valid
    then locked b (set_buf b (record x { content = c.disk x.blockno; valid = true }) c)
    else locked b c

unfoldable pub bread : (pid dev blockno : ℕ) → Cache → Outcome Turn
bread pid dev blockno c = elim (bget pid dev blockno c) [
  | ok t ↦ ok (fill t)
  | panic why ↦ panic why
]

unfoldable pub bwrite : (pid b : ℕ) → Cache → Outcome Cache
bwrite pid b c =
    if not (holdingsleep pid (c.buf b).lock)
    then panic "bwrite"
    else ok (record c { disk = update c.disk (c.buf b).blockno (c.buf b).content })

unfoldable pub brelse : (pid b : ℕ) → Cache → Outcome Cache
brelse pid b c =
    let x = c.buf b in
    let left = sub32 x.refcnt 1 in
    let c' = set_buf b (record x { lock = releasesleep x.lock; refcnt = left }) c in
    if not (holdingsleep pid x.lock)
    then panic "brelse"
    else ok (if left == 0 then put_first b (unlink b c') else c')
