-- ===== src/Inodes/Content.antt =====
-- kernel/fs.c: the bytes of a file are read and written. `copyout` and `copyin` stand for those of
-- Vm.Copy at the page table of the running process, which has a memory of its own here: the bytes,
-- the user address and the number; whether it returns 0.
pub mod Read
use fog_os.Prelude.{
  ℕ, zero, suc, ◌+◌, ◌-◌, ◌*◌, ◌/◌, ◌%◌, ◌^◌, Bool, true, false, not, ◌&&◌, ◌||◌, ◌==◌, ltb, leb,
  if◌then◌else◌, update, Outcome, ok, panic, ◌>>=◌, add32, sub32,
}
use fog_os.Bytes.{Memory}
use fog_os.Bytes.Block.{within}
use fog_os.Fs.{SuperBlock}
use fog_os.Inodes.{Inode, Dinode, World, ndirect, nindirect, bsize, set_disk, bmap, iupdate}

-- `struct stat`
pub record Stat : Type 0 where
  pub dev : ℕ
  pub ino : ℕ
  pub type : ℕ
  pub nlink : ℕ
  pub size : ℕ

unfoldable pub stati : ℕ → World → Stat
stati ip w =
    let i = w.inode ip in
    record {
      dev = i.dev;
      ino = i.inum;
      type = i.disk.type;
      nlink = i.disk.nlink;
      size = i.disk.size;
    }

abbrev pub min : ℕ → ℕ → ℕ
min a b = if ltb a b then a else b

-- `memmove` of `m` bytes of a block to `dst`.
abbrev pub paste : (dst m : ℕ) (bytes : ℕ → ℕ) → Memory → Memory
paste dst m bytes mem a = if within dst m a then bytes (a - dst) else mem a

module _ (copyout : (bytes : ℕ → ℕ) (dst m : ℕ) → Memory → Bool × Memory) where
  unfoldable pub either_copyout :
      (user_dst : Bool) (dst m : ℕ) (bytes : ℕ → ℕ) → Memory → Bool × Memory
  either_copyout user_dst dst m bytes mem =
      if user_dst then copyout bytes dst m mem else (true, paste dst m bytes mem)

  module _ (sb : SuperBlock) where
    -- The loop of `readi`, for at most `fuel` blocks.
    unfoldable pub read_loop :
        (fuel ip : ℕ) (user_dst : Bool) (dst off n tot : ℕ) → World → Outcome (ℕ × World)
    read_loop zero ip user_dst dst off n tot w = ok (tot, w)
    read_loop (suc fuel) ip user_dst dst off n tot w =
        let m = min (n - tot) (bsize - off % bsize) in
        elim (ltb tot n) [
          | false ↦ ok (tot, w)
          | true ↦ bmap sb ip (off / bsize) w >>= λ (addr, w'). elim (addr == 0) [
            | true ↦ ok (tot, w')
            | false ↦
                let (copied, mem) =
                  either_copyout user_dst dst m (λ i. w'.blocks addr (off % bsize + i)) w'.mem in
                let w'' = record w' { mem = mem } in
                elim copied [
                  | false ↦ ok (2 ^ 32 - 1, w'')
                  | true ↦ read_loop fuel ip user_dst (dst + m) (add32 off m) n (tot + m) w''
                ]
          ]
        ]

    unfoldable pub readi : (ip : ℕ) (user_dst : Bool) (dst off n : ℕ) → World → Outcome (ℕ × World)
    readi ip user_dst dst off n w =
        let size = (w.inode ip).disk.size in
        let count = if ltb size (add32 off n) then size - off else n in
        if ltb size off || ltb (add32 off n) off
        then ok (0, w)
        else read_loop count ip user_dst dst off count 0 w

module _ (copyin : (at src m : ℕ) → Memory → (bytes : ℕ → ℕ) → Bool × (ℕ → ℕ)) where
  -- The bytes of the block afterwards, with `m` bytes from `src` on at `at`.
  unfoldable pub either_copyin :
      (at : ℕ) (user_src : Bool) (src m : ℕ) → Memory → (bytes : ℕ → ℕ) → Bool × (ℕ → ℕ)
  either_copyin at user_src src m mem bytes =
      if user_src then copyin at src m mem bytes else (true, paste at m (λ i. mem (src + i)) bytes)

  module _ (sb : SuperBlock) where
    -- The loop of `writei`, for at most `fuel` blocks, with the `off` and `tot` that it ends at. A
    -- block that is only copied to in part keeps that part in the cache.
    unfoldable pub write_loop :
        (fuel ip : ℕ) (user_src : Bool) (src off n tot : ℕ) → World → Outcome (ℕ × (ℕ × World))
    write_loop zero ip user_src src off n tot w = ok (off, (tot, w))
    write_loop (suc fuel) ip user_src src off n tot w =
        let m = min (n - tot) (bsize - off % bsize) in
        elim (ltb tot n) [
          | false ↦ ok (off, (tot, w))
          | true ↦ bmap sb ip (off / bsize) w >>= λ (addr, w'). elim (addr == 0) [
            | true ↦ ok (off, (tot, w'))
            | false ↦
                let (copied, bytes) =
                  either_copyin (off % bsize) user_src src m w'.mem (w'.blocks addr) in
                let w'' = record w' { blocks = update w'.blocks addr bytes } in
                elim copied [
                  | false ↦ ok (off, (tot, w''))
                  | true ↦ write_loop fuel ip user_src (src + m) (add32 off m) n (tot + m) w''
                ]
          ]
        ]

    unfoldable pub writei : (ip : ℕ) (user_src : Bool) (src off n : ℕ) → World → Outcome (ℕ × World)
    writei ip user_src src off n w =
        if ltb (w.inode ip).disk.size off || ltb (add32 off n) off
        then ok (2 ^ 32 - 1, w)
        else if ltb ((ndirect + nindirect) * bsize) (add32 off n)
        then ok (2 ^ 32 - 1, w)
        else write_loop n ip user_src src off n 0 w >>= λ (end, (tot, w')).
            (let d = (w'.inode ip).disk in
              ok (
                tot,
                iupdate sb ip
                    (if ltb d.size end then set_disk w' ip (record d { size = end }) else w'),
              ))
