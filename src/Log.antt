-- ===== src/Log.antt =====
-- kernel/log.c: the redo log of the file system.
pub mod Logical
mod Install
mod Head
pub mod Recover
mod WriteLog
pub mod Commit
pub mod Write
pub mod Transaction
pub mod Reserve
mod Tests
use fog_os.Prelude.{
  ℕ, zero, suc, ◌+◌, ◌*◌, Bool, true, false, ◌||◌, not, ◌==◌, slt, rounds, if◌then◌else◌, update,
  add32, sub32,
}
use fog_os.Disk.{
  Block, Cmd, pure, panic, ◌>>=◌, ◌>>◌, bread, set_data, bwrite, brelse, bpin, bunpin,
}

abbrev pub max_op_blocks : ℕ
max_op_blocks = 10

abbrev pub log_size : ℕ
log_size = max_op_blocks * 3

-- `struct log` with its header `lh`. The fields of type `int` are 32-bit patterns.
pub record Log : Type 0 where
  pub start : ℕ
  pub size : ℕ
  pub outstanding : ℕ
  pub committing : Bool
  pub n : ℕ
  pub block : ℕ → ℕ

-- One round of `install_trans`: copy a log block to its home block.
unfoldable pub install_one : (recovering : Bool) → Log → ℕ → Cmd (Unit {0})
install_one recovering l tail = do
  lbuf ← bread (l.start + tail + 1)
  dbuf ← bread (l.block tail)
  set_data (l.block tail) lbuf
  bwrite (l.block tail)
  if recovering then pure tt else bunpin (l.block tail)
  brelse (l.start + tail + 1)
  brelse (l.block tail)

unfoldable pub install_loop : (recovering : Bool) → Log → (rest tail : ℕ) → Cmd (Unit {0})
install_loop recovering l zero tail = pure tt
install_loop recovering l (suc rest) tail =
    install_one recovering l tail >> install_loop recovering l rest (tail + 1)

unfoldable pub install_trans : (recovering : Bool) → Log → Cmd (Unit {0})
install_trans recovering l = install_loop recovering l (rounds l.n) 0

-- The header block: word 0 is `n`, word `i + 1` is `block[i]`.
unfoldable pub read_entries : (rest i : ℕ) → Block → (ℕ → ℕ) → ℕ → ℕ
read_entries zero i lh block = block
read_entries (suc rest) i lh block = read_entries rest (i + 1) lh (update block i (lh (i + 1)))

unfoldable pub read_head : Log → Cmd Log
read_head l = do
  lh ← bread l.start
  brelse l.start
  pure (record l { n = lh 0; block = read_entries (rounds (lh 0)) 0 lh l.block })

unfoldable pub put_entries : (rest i : ℕ) → (ℕ → ℕ) → Block → Block
put_entries zero i block hb = hb
put_entries (suc rest) i block hb = put_entries rest (i + 1) block (update hb (i + 1) (block i))

unfoldable pub write_head : Log → Cmd (Unit {0})
write_head l = do
  hb ← bread l.start
  set_data l.start (put_entries (rounds l.n) 0 l.block (update hb 0 l.n))
  bwrite l.start
  brelse l.start

unfoldable pub recover_from_log : Log → Cmd Log
recover_from_log l = do
  l ← read_head l
  install_trans true l
  write_head (record l { n = 0 })
  pure (record l { n = 0 })

-- One round of `write_log`: copy a cached block to the log.
unfoldable pub write_one : Log → ℕ → Cmd (Unit {0})
write_one l tail = do
  to ← bread (l.start + tail + 1)
  from ← bread (l.block tail)
  set_data (l.start + tail + 1) from
  bwrite (l.start + tail + 1)
  brelse (l.block tail)
  brelse (l.start + tail + 1)

unfoldable pub write_loop : Log → (rest tail : ℕ) → Cmd (Unit {0})
write_loop l zero tail = pure tt
write_loop l (suc rest) tail = write_one l tail >> write_loop l rest (tail + 1)

unfoldable pub write_log : Log → Cmd (Unit {0})
write_log l = write_loop l (rounds l.n) 0

unfoldable pub commit : Log → Cmd Log
commit l =
    if slt 0 l.n
    then (do
      write_log l
      write_head l
      install_trans false l
      write_head (record l { n = 0 })
      pure (record l { n = 0 }))
    else pure l

-- `initlog`. A header of LOGSIZE + 1 words is shorter than a block, so its `panic` is not reached.
unfoldable pub initlog : (logstart nlog : ℕ) → Log → Cmd Log
initlog logstart nlog l = recover_from_log (record l { start = logstart; size = nlog })

-- What `begin_op` comes to when it has the lock: it sleeps and tests again, or it reserves space.
pub data Begin : Type 0 where
  asleep : Begin
  begun : Log → Begin

unfoldable pub begin_op : Log → Begin
begin_op l =
    if l.committing
    then asleep
    else if slt log_size (add32 l.n (add32 l.outstanding 1 * max_op_blocks))
    then asleep
    else begun (record l { outstanding = add32 l.outstanding 1 })

-- The first critical section of `end_op`, with `do_commit`.
unfoldable pub end_op_enter : Log → Cmd (Bool × Log)
end_op_enter l =
    let left = sub32 l.outstanding 1 in
    if l.committing
    then (λ _. panic "log.committing")
    else if left == 0
    then pure (true, record l { outstanding = left; committing = true })
    else pure (false, record l { outstanding = left })

unfoldable pub end_op : Log → Cmd Log
end_op l = do
  (do_commit, l) ← end_op_enter l
  if do_commit then (do l ← commit l; pure (record l { committing = false })) else pure l

-- Where `log_write` leaves its loop: the first entry that is `b`, or the end.
unfoldable pub find_entry : (rest i : ℕ) → (ℕ → ℕ) → ℕ → ℕ
find_entry zero i block b = i
find_entry (suc rest) i block b =
    let later = find_entry rest (i + 1) block b in if block i == b then i else later

-- `log_write` of the buffer of block `b`, whose data the caller has changed.
unfoldable pub log_write : Log → ℕ → Cmd Log
log_write l b =
    let i = find_entry (rounds l.n) 0 l.block b in
    if not (slt l.n log_size) || not (slt l.n (sub32 l.size 1))
    then (λ _. panic "too big a transaction")
    else if slt l.outstanding 1
    then (λ _. panic "log_write outside of trans")
    else if i == l.n
    then (do bpin b; pure (record l { block = update l.block i b; n = add32 l.n 1 }))
    else pure (record l { block = update l.block i b })
