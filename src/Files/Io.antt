-- ===== src/Files/Io.antt =====
-- kernel/file.c: reading, writing and the metadata of an open file, by its type. Pipes and devices
-- are arguments: Pipe and Console model the repository's. The transactions around each call of
-- `writei` are those of Log.
use fog_os.Prelude.{
  ℕ, zero, suc, ◌+◌, ◌-◌, ◌*◌, ◌/◌, ◌^◌, Bool, true, false, not, ◌==◌, ltb, if◌then◌else◌, update,
  Option, none, some, Outcome, ok, panic, ◌>>=◌, add32, add64, slt,
}
use fog_os.Bytes.{Memory}
use fog_os.Fs.{SuperBlock}
use fog_os.Inodes.{World, bsize, ilock}
use fog_os.Inodes.Content.{Stat, stati, readi, writei}
use fog_os.Files.{File, fd_none, fd_pipe, fd_inode, fd_device, FileTable}

abbrev pub ndev : ℕ
ndev = 10

abbrev pub maxopblocks : ℕ
maxopblocks = 10

-- -1
abbrev pub fail : ℕ
fail = 2 ^ 32 - 1

-- The table of open files and the inodes.
pub record Open : Type 0 where
  pub files : FileTable
  pub world : World

-- A call that reads or writes `n` bytes at a user address.
abbrev pub Transfer : Type 0
Transfer = (addr n : ℕ) → World → Outcome (ℕ × World)

abbrev pub with_world : Open → Outcome (ℕ × World) → Outcome (ℕ × Open)
with_world o r = r >>= λ (n, w). ok (n, record o { world = w })

-- `if (r > 0) f->off += r;`
abbrev pub advance : (f r : ℕ) → Open → Open
advance f r o = record o {
  files =
      (if slt 0 r
        then update o.files f (record (o.files f) { off = add32 (o.files f).off r })
        else o.files);
}

-- `max` of `filewrite`.
abbrev pub max_chunk : ℕ
max_chunk = (maxopblocks - 1 - 1 - 2) / 2 * bsize

module _ (copyout : (bytes : ℕ → ℕ) (dst m : ℕ) → Memory → Bool × Memory)
    (copyin : (at src m : ℕ) → Memory → (bytes : ℕ → ℕ) → Bool × (ℕ → ℕ)) (sb : SuperBlock) where
  -- The `struct stat` that is copied to the user, if there is one.
  unfoldable pub filestat : ℕ → Open → Outcome (Option Stat × Open)
  filestat f o =
      let found = ilock sb (o.files f).ip o.world >>= λ w.
      ok (some (stati (o.files f).ip w), record o { world = w }) in
      elim (o.files f).type [
        | fd_none ↦ ok (none, o)
        | fd_pipe ↦ ok (none, o)
        | fd_inode ↦ found
        | fd_device ↦ found
      ]

  unfoldable pub fileread :
      (piperead : File → Transfer) (devsw_read : ℕ → Option Transfer) (f addr n : ℕ)
      → Open
      → Outcome (ℕ × Open)
  fileread piperead devsw_read f addr n o =
      let it = o.files f in
      if not it.readable then ok (fail, o) else elim it.type [
        | fd_pipe ↦ with_world o (piperead it addr n o.world)
        | fd_device ↦ if not (ltb it.major ndev) then ok (fail, o) else elim (devsw_read it.major) [
          | none ↦ ok (fail, o)
          | some read ↦ with_world o (read addr n o.world)
        ]
        | fd_inode ↦ ilock sb it.ip o.world >>= λ w.
            readi copyout sb it.ip true addr it.off n w >>= λ (r, w').
            ok (r, advance f r (record o { world = w' }))
        | fd_none ↦ panic "fileread"
      ]

  -- The loop of `filewrite` at `i`, for at most `fuel` chunks: the final `i`.
  unfoldable pub write_chunks : (fuel f addr i n : ℕ) → Open → Outcome (ℕ × Open)
  write_chunks zero f addr i n o = ok (i, o)
  write_chunks (suc fuel) f addr i n o =
      let it = o.files f in
      let n1 = if ltb max_chunk (n - i) then max_chunk else n - i in
      elim (slt i n) [
        | false ↦ ok (i, o)
        | true ↦ ilock sb it.ip o.world >>= λ w.
            writei copyin sb it.ip true (add64 addr i) it.off n1 w >>= λ (r, w').
            let o' = advance f r (record o { world = w' }) in
            elim (r == n1) [ false ↦ ok (i, o') | true ↦ write_chunks fuel f addr (i + r) n o' ]
      ]

  unfoldable pub filewrite :
      (pipewrite : File → Transfer) (devsw_write : ℕ → Option Transfer) (f addr n : ℕ)
      → Open
      → Outcome (ℕ × Open)
  filewrite pipewrite devsw_write f addr n o =
      let it = o.files f in
      if not it.writable then ok (fail, o) else elim it.type [
        | fd_pipe ↦ with_world o (pipewrite it addr n o.world)
        | fd_device ↦
            if not (ltb it.major ndev) then ok (fail, o) else elim (devsw_write it.major) [
              | none ↦ ok (fail, o)
              | some write ↦ with_world o (write addr n o.world)
            ]
        | fd_inode ↦ write_chunks n f addr 0 n o >>= λ (i, o'). ok (if i == n then n else fail, o')
        | fd_none ↦ panic "filewrite"
      ]
