-- ===== src/Files.antt =====
-- kernel/file.c: the table of open files and its reference counts.
pub mod Count
pub mod Io
pub mod Calls
pub mod Descriptors
pub mod Opening
mod Tests
use fog_os.Prelude.{
  ℕ, zero, suc, ◌+◌, Bool, true, false, not, ◌==◌, if◌then◌else◌, update, Option, none, some,
  Outcome, ok, panic, add32, sub32, slt,
}

abbrev pub nfile : ℕ
nfile = 100

-- FD_NONE, FD_PIPE, FD_INODE, FD_DEVICE
pub data FileType : Type 0 where
  fd_none fd_pipe fd_inode fd_device : FileType

-- `struct file`, without its pipe; a file is its index in `ftable`, and an inode its index in
-- `itable`.
pub record File : Type 0 where
  pub type : FileType
  pub ref : ℕ
  pub readable : Bool
  pub writable : Bool
  pub ip : ℕ
  pub off : ℕ
  pub major : ℕ

abbrev pub FileTable : Type 0
FileTable = ℕ → File

unfoldable pub alloc_loop : (left i : ℕ) → FileTable → Option ℕ × FileTable
alloc_loop zero i t = (none, t)
alloc_loop (suc left) i t =
    let rest = alloc_loop left (i + 1) t in
    if (t i).ref == 0 then (some i, update t i (record (t i) { ref = 1 })) else rest

unfoldable pub filealloc : FileTable → Option ℕ × FileTable
filealloc t = alloc_loop nfile 0 t

unfoldable pub filedup : ℕ → FileTable → Outcome FileTable
filedup f t =
    if slt (t f).ref 1
    then panic "filedup"
    else ok (update t f (record (t f) { ref = add32 (t f).ref 1 }))

-- What `fileclose` does with the object behind the file: nothing, as it is still open or has none;
-- `pipeclose`, for the writer's or the reader's end; or `iput`, in a transaction.
pub data Closing : Type 0 where
  nothing : Closing
  close_pipe : (writable : Bool) → Closing
  put_inode : Closing

abbrev pub closing : File → Closing
closing f = elim f.type [
  | fd_none ↦ nothing
  | fd_pipe ↦ close_pipe f.writable
  | fd_inode ↦ put_inode
  | fd_device ↦ put_inode
]

unfoldable pub fileclose : ℕ → FileTable → Outcome (Closing × FileTable)
fileclose f t =
    let left = sub32 (t f).ref 1 in
    if slt (t f).ref 1
    then panic "fileclose"
    else if slt 0 left
    then ok (nothing, update t f (record (t f) { ref = left }))
    else ok (closing (t f), update t f (record (t f) { ref = 0; type = fd_none }))
