-- ===== src/Inodes.antt =====
-- kernel/fs.c: inodes, on the disk and in the table `itable`. The locks are left out: a routine
-- runs here without steps of others. There is one disk; an inode in memory is its index in the
-- table, a null pointer is `none`, and the blocks are those of the transaction, as in Fs.
pub mod Content
pub mod Update
pub mod Table
pub mod Dirs
mod Tests
use fog_os.Prelude.{
  ℕ, zero, suc, ◌+◌, ◌-◌, ◌*◌, ◌/◌, ◌%◌, ◌^◌, Bool, true, false, not, ◌&&◌, ◌||◌, ◌==◌, ltb, leb,
  if◌then◌else◌, update, Option, none, some, Outcome, ok, panic, ◌>>=◌, add32, sub32, slt,
}
use fog_os.Bytes.{Memory}
use fog_os.Bytes.Little.{little, put_little}
use fog_os.Fs.{SuperBlock, Blocks, balloc, bfree}

abbrev pub ninode : ℕ
ninode = 50

abbrev pub ndirect : ℕ
ndirect = 12

abbrev pub nindirect : ℕ
nindirect = 256

abbrev pub bsize : ℕ
bsize = 1024

-- Inodes of a block.
abbrev pub ipb : ℕ
ipb = 16

abbrev pub iblock : ℕ → SuperBlock → ℕ
iblock i sb = add32 (i / ipb) sb.inodestart

-- `struct dinode`, with `addrs i` for `addrs[i]`.
pub record Dinode : Type 0 where
  pub type : ℕ
  pub major : ℕ
  pub minor : ℕ
  pub nlink : ℕ
  pub size : ℕ
  pub addrs : ℕ → ℕ

pub record Inode : Type 0 where
  pub dev : ℕ
  pub inum : ℕ
  pub ref : ℕ
  pub valid : Bool
  -- What the code keeps from the disk.
  pub disk : Dinode

-- The blocks, `itable`, and the memory of the kernel.
pub record World : Type 0 where
  pub blocks : Blocks
  pub inode : ℕ → Inode
  pub mem : Memory

-- `(struct dinode*)bp->data + inum%IPB`, as an offset in the block.
abbrev pub dinode_at : ℕ → ℕ
dinode_at inum = inum % ipb * 64

abbrev pub load : (at : ℕ) → Memory → Dinode
load at bytes = record {
  type = little 2 at bytes;
  major = little 2 (at + 2) bytes;
  minor = little 2 (at + 4) bytes;
  nlink = little 2 (at + 6) bytes;
  size = little 4 (at + 8) bytes;
  addrs = λ i. little 4 (at + 12 + i * 4) bytes;
}

-- The `n` addresses from `i` on, stored at `at`.
unfoldable pub store_addrs : (n i at : ℕ) (addrs : ℕ → ℕ) → Memory → Memory
store_addrs zero i at addrs bytes = bytes
store_addrs (suc n) i at addrs bytes =
    store_addrs n (i + 1) at addrs (put_little 4 (at + i * 4) (addrs i) bytes)

unfoldable pub store : (at : ℕ) → Dinode → Memory → Memory
store at d bytes =
    let b = put_little 2 at d.type bytes in
    let b = put_little 2 (at + 2) d.major b in
    let b = put_little 2 (at + 4) d.minor b in
    let b = put_little 2 (at + 6) d.nlink b in
    let b = put_little 4 (at + 8) d.size b in store_addrs (ndirect + 1) 0 (at + 12) d.addrs b

abbrev pub set_inode : World → ℕ → Inode → World
set_inode w ip i = record w { inode = update w.inode ip i }

abbrev pub set_disk : World → ℕ → Dinode → World
set_disk w ip d = set_inode w ip (record (w.inode ip) { disk = d })

unfoldable pub idup : ℕ → World → World
idup ip w = set_inode w ip (record (w.inode ip) { ref = add32 (w.inode ip).ref 1 })

-- The loop of `iget` at inode `i`, for `left` inodes, and what follows it.
unfoldable pub get_loop :
    (left i : ℕ) (empty : Option ℕ) (dev inum : ℕ) → World → Outcome (ℕ × World)
get_loop zero i none dev inum w = panic "iget: no inodes"
get_loop zero i (some ip) dev inum w =
    ok (ip, set_inode w ip (record (w.inode ip) { dev = dev; inum = inum; ref = 1; valid = false }))
get_loop (suc left) i empty dev inum w =
    let it = w.inode i in
    let here = get_loop left (i + 1) (some i) dev inum w in
    let rest = get_loop left (i + 1) empty dev inum w in
    if slt 0 it.ref && (it.dev == dev && it.inum == inum)
    then ok (i, idup i w)
    else elim empty [ none ↦ (if it.ref == 0 then here else rest) | some e ↦ rest ]

unfoldable pub iget : (dev inum : ℕ) → World → Outcome (ℕ × World)
iget dev inum w = get_loop ninode 0 none dev inum w

module _ (sb : SuperBlock) where
  unfoldable pub iupdate : ℕ → World → World
  iupdate ip w =
      let i = w.inode ip in
      let b = iblock i.inum sb in
      record w { blocks = update w.blocks b (store (dinode_at i.inum) i.disk (w.blocks b)) }

  -- Whether the inode can be locked is whether its pointer is not null and it has a reference.
  unfoldable pub ilock : ℕ → World → Outcome World
  ilock ip w =
      let i = w.inode ip in
      let d = load (dinode_at i.inum) (w.blocks (iblock i.inum sb)) in
      if slt i.ref 1
      then panic "ilock"
      else if i.valid
      then ok w
      else if d.type == 0
      then panic "ilock: no type"
      else ok (set_inode w ip (record i { valid = true; disk = d }))

  -- The loop of `ialloc` at inode `inum`, for at most `fuel` inodes.
  unfoldable pub ialloc_loop : (fuel inum dev type : ℕ) → World → Outcome (Option ℕ × World)
  ialloc_loop zero inum dev type w = ok (none, w)
  ialloc_loop (suc fuel) inum dev type w =
      let b = iblock inum sb in
      let at = dinode_at inum in
      let zeroed : Memory = λ a. if leb at a && ltb a (at + 64) then 0 else w.blocks b a in
      let rest = ialloc_loop fuel (inum + 1) dev type w in
      if not (ltb inum sb.ninodes)
      then ok (none, w)
      else if little 2 at (w.blocks b) == 0
      then (iget dev inum (record w { blocks = update w.blocks b (put_little 2 at type zeroed) })
          >>= λ (ip, w'). ok (some ip, w'))
      else rest

  unfoldable pub ialloc : (dev type : ℕ) → World → Outcome (Option ℕ × World)
  ialloc dev type w = ialloc_loop sb.ninodes 1 dev type w

  -- `balloc`, with the rest of the world.
  abbrev pub alloc_block : World → ℕ × World
  alloc_block w = let (addr, blocks) = balloc sb w.blocks in (addr, record w { blocks = blocks })

  -- `addrs[i]`, allocated if it is 0 and there is a free block.
  unfoldable pub map_addr : (ip i : ℕ) → World → ℕ × World
  map_addr ip i w =
      let d = (w.inode ip).disk in
      let (addr, w') = alloc_block w in
      if not (d.addrs i == 0)
      then (d.addrs i, w)
      else if addr == 0
      then (0, w')
      else (addr, set_disk w' ip (record d { addrs = update d.addrs i addr }))

  -- Entry `bn` of the indirect block `indirect`, likewise.
  unfoldable pub map_indirect : (indirect bn : ℕ) → World → ℕ × World
  map_indirect indirect bn w =
      let found = little 4 (bn * 4) (w.blocks indirect) in
      let (addr, w') = alloc_block w in
      if not (found == 0) then (found, w) else if addr == 0 then (0, w') else (
        addr,
        record w' {
          blocks = update w'.blocks indirect (put_little 4 (bn * 4) addr (w'.blocks indirect));
        },
      )

  unfoldable pub bmap : (ip bn : ℕ) → World → Outcome (ℕ × World)
  bmap ip bn w =
      let (addr, w') = map_addr ip ndirect w in
      if ltb bn ndirect
      then ok (map_addr ip bn w)
      else if ltb (bn - ndirect) nindirect
      then ok (if addr == 0 then (0, w') else map_indirect addr (bn - ndirect) w')
      else panic "bmap: out of range"

  -- The first loop of `itrunc` at `i`, for `n` addresses.
  unfoldable pub free_direct : (n i ip : ℕ) → World → Outcome World
  free_direct zero i ip w = ok w
  free_direct (suc n) i ip w =
      let d = (w.inode ip).disk in
      (if d.addrs i == 0
        then ok w
        else (bfree sb (d.addrs i) w.blocks >>= λ blocks.
            ok (
              set_disk (record w { blocks = blocks }) ip
                (record d { addrs = update d.addrs i 0 }))))
      >>= free_direct n (i + 1) ip

  -- The second loop, at entry `j` of the indirect block, whose bytes are `a`.
  unfoldable pub free_indirect : (n j : ℕ) (a : Memory) → Blocks → Outcome Blocks
  free_indirect zero j a blocks = ok blocks
  free_indirect (suc n) j a blocks =
      (if little 4 (j * 4) a == 0 then ok blocks else bfree sb (little 4 (j * 4) a) blocks)
      >>= free_indirect n (j + 1) a

  unfoldable pub itrunc : ℕ → World → Outcome World
  itrunc ip w = free_direct ndirect 0 ip w >>= λ w.
      (let d = (w.inode ip).disk in
        let indirect = d.addrs ndirect in
        if indirect == 0
        then ok w
        else (free_indirect nindirect 0 (w.blocks indirect) w.blocks
            >>= bfree sb indirect
            >>= λ blocks. ok (
                set_disk (record w { blocks = blocks }) ip
                  (record d { addrs = update d.addrs ndirect 0 }))))
      >>= λ w. ok (iupdate ip (set_disk w ip (record (w.inode ip).disk { size = 0 })))

  unfoldable pub iput : ℕ → World → Outcome World
  iput ip w =
      let i = w.inode ip in
      (if i.ref == 1 && (i.valid && i.disk.nlink == 0)
        then (itrunc ip w >>= λ w.
            (let w = iupdate ip (set_disk w ip (record (w.inode ip).disk { type = 0 })) in
              ok (set_inode w ip (record (w.inode ip) { valid = false }))))
        else ok w)
      >>= λ w. ok (set_inode w ip (record (w.inode ip) { ref = sub32 (w.inode ip).ref 1 }))
