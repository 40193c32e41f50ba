-- ===== src/Fs.antt =====
-- kernel/fs.c: the block bitmap. Every change goes through the log, so a routine sees and changes
-- the contents of the blocks in the transaction, as bytes; kernel/log.c is modelled in Log.
pub mod Bits
pub mod Bitmap
pub mod Balloc
mod Tests
use Prim.Native.Nat.{bit_and, bit_or}
use fog_os.Prelude.{
  ℕ, zero, suc, ◌+◌, ◌-◌, ◌*◌, ◌/◌, ◌%◌, ◌^◌, Bool, true, false, not, ◌&&◌, ◌||◌, ◌==◌, ltb, leb,
  if◌then◌else◌, update, Option, none, some, add32, Outcome, ok, panic,
}

-- The fields of `struct superblock` that these routines use.
pub record SuperBlock : Type 0 where
  pub size : ℕ
  pub ninodes : ℕ
  pub inodestart : ℕ
  pub bmapstart : ℕ

-- Bits of a bitmap block.
abbrev pub bpb : ℕ
bpb = 8192

-- The block of the bit of block `b`.
abbrev pub bblock : ℕ → SuperBlock → ℕ
bblock b sb = add32 (b / bpb) sb.bmapstart

-- Byte `i` of block `b` is `blocks b i`.
abbrev pub Blocks : Type 0
Blocks = ℕ → ℕ → ℕ

-- `1 << (bi % 8)`
abbrev pub mask : ℕ → ℕ
mask bi = 2 ^ (bi % 8)

unfoldable pub bzero : ℕ → Blocks → Blocks
bzero b blocks = update blocks b (λ i. 0)

module _ (sb : SuperBlock) where
  -- The inner loop of `balloc` at bit `bi`, with `left` bits of the block to go: the first clear bit.
  unfoldable pub scan : (bytes : ℕ → ℕ) (b left bi : ℕ) → Option ℕ
  scan bytes b zero bi = none
  scan bytes b (suc left) bi =
      let rest = scan bytes b left (bi + 1) in
      if not (ltb (add32 b bi) sb.size)
      then none
      else if bit_and (bytes (bi / 8)) (mask bi) == 0
      then some bi
      else rest

  -- The block in use, and zeroed.
  unfoldable pub take_block : (b bi : ℕ) → Blocks → ℕ × Blocks
  take_block b bi blocks =
      let bytes = blocks (bblock b sb) in
      let marked =
        update blocks (bblock b sb) (update bytes (bi / 8) (bit_or (bytes (bi / 8)) (mask bi))) in
      (add32 b bi, bzero (add32 b bi) marked)

  -- The outer loop at `b`, for at most `fuel` bitmap blocks.
  unfoldable pub balloc_loop : (fuel b : ℕ) → Blocks → ℕ × Blocks
  balloc_loop zero b blocks = (0, blocks)
  balloc_loop (suc fuel) b blocks =
      let rest = balloc_loop fuel (add32 b bpb) blocks in
      if ltb b sb.size
      then elim (scan (blocks (bblock b sb)) b bpb 0) [
        | none ↦ rest
        | some bi ↦ take_block b bi blocks
      ]
      else (0, blocks)

  unfoldable pub balloc : Blocks → ℕ × Blocks
  balloc blocks = balloc_loop (sb.size / bpb + 1) 0 blocks

  unfoldable pub bfree : ℕ → Blocks → Outcome Blocks
  bfree b blocks =
      let bytes = blocks (bblock b sb) in
      let bi = b % bpb in
      if bit_and (bytes (bi / 8)) (mask bi) == 0
      then panic "freeing free block"
      else ok (
          update blocks (bblock b sb)
            (update bytes (bi / 8) (bit_and (bytes (bi / 8)) (255 - mask bi))))
