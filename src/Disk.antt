-- ===== src/Disk.antt =====
-- Disk blocks as kernel/log.c sees them, through the interface of kernel/bio.c: what the disk
-- holds, what a `bread` of a block gives, how many references its buffer has, how many of the NBUF
-- buffers have references, and how many more writes the disk makes before the power fails.
pub mod Safe
use fog_os.Prelude.{
  ℕ, zero, suc, ◌+◌, ◌-◌, ◌≡◌, Bool, ◌&&◌, ◌==◌, leb, if◌then◌else◌, update, String,
}
use fog_os.Buffers.{nbuf}

-- A block of BSIZE = 1024 bytes, as its 256 words of type `uint`.
abbrev pub Block : Type 0
Block = ℕ → ℕ

-- A buffer that no one refers to may be recycled by `bget`, and is then read from the disk again.
-- `keeps b` says whether block `b` stays in the cache when its buffer is released for the last
-- time; it is arbitrary, since it depends on what the rest of the system reads.
-- `used` is the number of buffers with references, at most NBUF.
-- `power` is the number of block writes that reach the disk before the machine stops.
pub record State : Type 0 where
  pub disk : ℕ → Block
  pub contents : ℕ → Block
  pub ref : ℕ → ℕ
  pub used : ℕ
  pub keeps : ℕ → Bool
  pub power : ℕ

-- A routine returns, stops with the power (only the disk is left), or calls `panic`.
pub data Run (A : Type 0) : Type 0 where
  done : A → State → Run A
  crash : (ℕ → Block) → Run A
  panic : String → Run A

abbrev pub Cmd : Type 0 → Type 0
Cmd A = State → Run A

abbrev pub pure : {A : Type 0} → A → Cmd A
pure = done

module _ {A B : Type 0} where
  abbrev pub and_then : Run A → (A → Cmd B) → Run B
  and_then (done a s) k = k a s
  and_then (crash d) k = crash d
  and_then (panic why) k = panic why

  infixl 5 ◌>>=◌ ◌>>◌
  abbrev pub ◌>>=◌ : Cmd A → (A → Cmd B) → Cmd B
  m >>= k = λ s. and_then (m s) k

  abbrev pub ◌>>◌ : Cmd A → Cmd B → Cmd B
  m >> n = m >>= λ _. n

-- One more reference to the buffer of block `b`.
unfoldable pub add_ref : ℕ → State → State
add_ref b s = record s {
  ref = update s.ref b (s.ref b + 1);
  used = if s.ref b == 0 then s.used + 1 else s.used;
}

-- One reference less.
unfoldable pub drop_ref : ℕ → State → State
drop_ref b s = record s {
  ref = update s.ref b (s.ref b - 1);
  used = if s.ref b - 1 == 0 then s.used - 1 else s.used;
}

-- `bread`: one more reference to the buffer; gives the data in it. If all NBUF buffers have
-- references, and none of them is for the block, `bget` panics.
unfoldable pub bread : ℕ → Cmd Block
bread b s =
    if s.ref b == 0 && leb nbuf s.used
    then panic "bget: no buffers"
    else done (s.contents b) (add_ref b s)

-- `memmove(b->data, d, BSIZE)`, or the assignments that amount to it.
unfoldable pub set_data : ℕ → Block → Cmd (Unit {0})
set_data b d s = done tt (record s { contents = update s.contents b d })

-- `bwrite`: the write reaches the disk as a whole, or the power is gone.
unfoldable pub bwrite : ℕ → Cmd (Unit {0})
bwrite b s = elim s.power [
  | zero ↦ crash s.disk
  | suc k ↦ done tt (record s { disk = update s.disk b (s.contents b); power = k })
]

-- `brelse`: one reference less. If it was the last, the buffer may be recycled, and what it held
-- and the disk does not is lost.
unfoldable pub brelse : ℕ → Cmd (Unit {0})
brelse b s =
    let left = s.ref b - 1 in
    let lost = if left == 0 then (if s.keeps b then s.contents b else s.disk b) else s.contents b in
    done tt (record (drop_ref b s) { contents = update s.contents b lost })

unfoldable pub bpin : ℕ → Cmd (Unit {0})
bpin b s = done tt (add_ref b s)

-- `bunpin` has no test for the last reference: the caller still holds the buffer.
unfoldable pub bunpin : ℕ → Cmd (Unit {0})
bunpin b s = done tt (drop_ref b s)
