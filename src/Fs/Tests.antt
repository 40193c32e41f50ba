-- ===== src/Fs/Tests.antt =====
-- Tests of the block bitmap, in a file system of ten blocks whose bitmap is block 3 and in which
-- blocks 0 to 4 and 6 are in use.
use Prim.Native.Nat.{bit_and}
use fog_os.Prelude.{ℕ, ◌≡◌, ◌<◌, refl, Bool, true, false, arith, Outcome, if◌then◌else◌, ◌==◌, ◌&&◌}
use fog_os.Fs.{SuperBlock, bblock, Blocks, bzero, scan, take_block, balloc_loop, balloc, bfree}
use fog_os.Fs.Bitmap.{in_use, IsSuper, AreBytes, Bfree, bfree-Bfree}
use fog_os.Fs.Balloc.{IsBitmap, Balloc, balloc-Balloc}

abbrev small : SuperBlock
small = record { size = 10; ninodes = 16; inodestart = 2; bmapstart = 3 }

small-IsSuper : IsSuper small
small-IsSuper = record { size_fits = omega arith; map_fits = omega arith }

abbrev disk : Blocks
disk b i = if b == 3 && i == 0 then 0x5f else 0

disk-bytes : (y : ℕ) → AreBytes (disk y)
disk-bytes y i = ground arith

map_block : (x : ℕ) → x < 10 → bblock x small ≡ 3
map_block x lt = omega arith

disk-IsBitmap : IsBitmap small disk
unfolding in_use
disk-IsBitmap = record {
  bytes = disk-bytes;
  map_inside = λ x hx. omega (arith, map_block x hx);
  map_used = λ x hx. rw (map_block x hx) refl;
  zero_used = refl;
}

first_free : (balloc small disk).0 ≡ 5
unfolding balloc balloc_loop scan take_block
first_free = refl

then_next : (balloc small (balloc small disk).1).0 ≡ 7
unfolding balloc balloc_loop scan take_block bzero
then_next = refl

abbrev bit_six_after : Outcome Blocks → Bool
bit_six_after (Outcome.ok after) = bit_and (after 3 0) 0x40 == 0
bit_six_after (Outcome.panic why) = false

six_freed : bit_six_after (bfree small 6 disk) ≡ true
unfolding bfree
six_freed = refl

balloc-Balloc_example : Balloc small disk (balloc small disk)
balloc-Balloc_example = balloc-Balloc small disk small-IsSuper disk-IsBitmap

bfree-Bfree_example : Bfree small small-IsSuper disk disk-bytes 6 (omega arith) (bfree small 6 disk)
bfree-Bfree_example = bfree-Bfree small small-IsSuper disk disk-bytes 6 (omega arith)
