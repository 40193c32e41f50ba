-- ===== src/Inodes/Tests.antt =====
-- Tests and examples for the inodes: one entry of the table is in use, for inode 21, a file of three
-- bytes in block 100.
use fog_os.Prelude.{ℕ, ◌+◌, ◌≡◌, refl, arith, Bool, false, ◌==◌, if◌then◌else◌, ok, Outcome}
use fog_os.Bytes.{Memory}
use fog_os.Fs.{SuperBlock}
use fog_os.Inodes.{Dinode, World, iupdate, ilock, iget, get_loop, idup}
use fog_os.Inodes.Update.{Same, Fits, iupdate-ilock}
use fog_os.Inodes.Table.{Keeps, IsUnique, iget-Keeps}
use fog_os.Inodes.Content.{readi, paste}
use fog_os.Inodes.Content.Read.{content, readi_lem}

abbrev sb : SuperBlock
sb = record { size = 1000; ninodes = 200; inodestart = 32; bmapstart = 45 }

abbrev file : Dinode
file = record {
  type = 2;
  major = 0;
  minor = 0;
  nlink = 1;
  size = 3;
  addrs = λ i. if i == 0 then 100 else 0;
}

abbrev world : World
world = record {
  blocks = λ b i. if b == 100 then i + 65 else 0;
  inode = λ ip. record {
    dev = 1;
    inum = 21;
    ref = if ip == 0 then 1 else 0;
    valid = false;
    disk = file;
  };
  mem = λ a. 0;
}

file-Fits : Fits file
file-Fits = record {
  type = omega arith;
  major = omega arith;
  minor = omega arith;
  nlink = omega arith;
  size = omega arith;
  addrs = λ i under. ground arith;
}

iupdate-ilock_example :
    (w : World) × (ilock sb 0 (iupdate sb 0 world) ≡ ok w) × Same (w.inode 0).disk file
iupdate-ilock_example =
    iupdate-ilock sb 0 0 world file-Fits (λ e. absurd (omega (arith, e))) (omega arith) refl refl
      refl

world-IsUnique : IsUnique world
world-IsUnique dev inum i j hi hj at_i at_j = ground (arith, at_i, at_j)

iget-Keeps_example : Keeps 1 30 world (iget 1 30 world)
iget-Keeps_example = iget-Keeps 1 30 world (λ i. ground arith) world-IsUnique

-- A second reference to the inode in use, and the next free entry for another.
abbrev entry_of : Outcome (ℕ × World) → ℕ
entry_of (Outcome.ok (ip, w)) = ip
entry_of (Outcome.panic why) = 50

again : entry_of (iget 1 21 world) ≡ 0
unfolding iget get_loop idup
again = refl

another : entry_of (iget 1 30 world) ≡ 1
unfolding iget get_loop idup
another = refl

-- No process copies to a user address here.
abbrev refuse : (bytes : ℕ → ℕ) (dst m : ℕ) → Memory → Bool × Memory
refuse bytes dst m mem = (false, mem)

readi_lem_example :
    readi refuse sb 0 false 500 1 10 world
    ≡ ok (2, record world { mem = paste 500 2 (λ i. content 0 world (1 + i)) world.mem })
readi_lem_example =
    readi_lem refuse sb 0 500 1 10 world
      (record {
        size_fits = omega arith;
        mapped = λ bn inside. ground (arith, inside);
        indirect = λ inside. absurd (omega (arith, inside));
      })
      (omega arith) (omega arith)
