-- ===== src/Files/Opening.antt =====
-- kernel/sysfile.c: `sys_open` and the descriptors of `sys_pipe`, as in Files.Calls. `pipealloc`,
-- which Pipe models in part, gives the two files or nothing.
use fog_os.Prelude.{
  ℕ, Bool, not, ◌&&◌, ◌||◌, ◌==◌, ltb, if◌then◌else◌, update, List, Option, none, some, Outcome, ok,
  ◌>>=◌, add64,
}
use fog_os.Bytes.{Memory}
use fog_os.Fs.{SuperBlock}
use fog_os.Inodes.{World, ilock, iput, itrunc}
use fog_os.Inodes.Dirs.{t_dir, namei}
use fog_os.Files.{File, fd_inode, fd_device, filealloc}
use fog_os.Files.Io.{ndev, fail}
use fog_os.Files.Calls.{
  Sys, t_file, t_device, o_wronly, o_rdwr, o_create, o_trunc, with_inodes, fdalloc, close_file,
  create,
}

-- The fields that `sys_open` sets in a new file, which keeps the others.
unfoldable pub set_up : (ip omode : ℕ) → World → File → File
set_up ip omode w f =
    let d = (w.inode ip).disk in
    let device = d.type == t_device in
    record f {
      type = if device then fd_device else fd_inode;
      readable = not (o_wronly omode);
      writable = o_wronly omode || o_rdwr omode;
      ip = ip;
      off = if device then f.off else 0;
      major = if device then d.major else f.major;
    }

module _ (copyout : (bytes : ℕ → ℕ) (dst m : ℕ) → Memory → Bool × Memory)
    (copyin : (at src m : ℕ) → Memory → (bytes : ℕ → ℕ) → Bool × (ℕ → ℕ))
    (pipeclose : File → Bool → Sys → Sys) (sb : SuperBlock) (de name dot dotdot : ℕ) where
  -- The inode, locked, or nothing.
  unfoldable pub find_inode : (omode cwd : ℕ) (path : List ℕ) → World → Outcome (Option ℕ × World)
  find_inode omode cwd path w =
      if o_create omode
      then create copyout copyin sb de name dot dotdot cwd path t_file 0 0 w
      else namei copyout copyin sb de cwd path name w >>= λ (found, w). elim found [
        | none ↦ ok (none, w)
        | some ip ↦ ilock sb ip w >>= λ w.
            if (w.inode ip).disk.type == t_dir && not (omode == 0)
            then (iput sb ip w >>= λ w. ok (none, w))
            else ok (some ip, w)
      ]

  -- The file and the descriptor for the inode.
  unfoldable pub open_inode : (ip omode : ℕ) → Sys → Outcome (ℕ × Sys)
  open_inode ip omode s =
      let drop : Sys → Outcome (ℕ × Sys) =
        λ s. iput sb ip s.opened.world >>= λ w. ok (fail, with_inodes s w) in
      let d = (s.opened.world.inode ip).disk in
      let (new, t) = filealloc s.opened.files in
      let s' = record s { opened = record s.opened { files = t } } in
      if d.type == t_device && not (ltb d.major ndev) then drop s else elim new [
        | none ↦ drop s'
        | some f ↦
            let (fd, s'') = fdalloc f s' in
            elim fd [
              | none ↦ close_file pipeclose sb f s'' >>= drop
              | some fd ↦
                  let w = s''.opened.world in
                  (if o_trunc omode && d.type == t_file then itrunc sb ip w else ok w) >>= λ w'.
                  ok (
                    fd,
                    record s'' {
                      opened = record { files = update t f (set_up ip omode w (t f)); world = w' };
                    },
                  )
            ]
      ]

  unfoldable pub sys_open : (path : List ℕ) (omode : ℕ) → Sys → Outcome (ℕ × Sys)
  sys_open path omode s = find_inode omode s.cwd path s.opened.world >>= λ (found, w). elim found [
    | none ↦ ok (fail, with_inodes s w)
    | some ip ↦ open_inode ip omode (with_inodes s w)
  ]

  -- Both files are closed again.
  abbrev pub close_both : (rf wf : ℕ) → Sys → Outcome (ℕ × Sys)
  close_both rf wf s =
      close_file pipeclose sb rf s >>= close_file pipeclose sb wf >>= λ s. ok (fail, s)

  -- `store` copies a descriptor to a user address, by `copyout`; whether that returns 0.
  unfoldable pub sys_pipe :
      (pipealloc : Sys → Option (ℕ × ℕ) × Sys) (store : (fd addr : ℕ) → Sys → Bool × Sys)
      (fdarray : ℕ)
      → Sys
      → Outcome (ℕ × Sys)
  sys_pipe pipealloc store fdarray s =
      let (made, s) = pipealloc s in
      elim made [
        | none ↦ ok (fail, s)
        | some (rf, wf) ↦
            let (fd0, s) = fdalloc rf s in
            elim fd0 [
              | none ↦ close_both rf wf s
              | some fd0 ↦
                  let (fd1, s') = fdalloc wf s in
                  elim fd1 [
                    | none ↦ close_both rf wf (record s' { ofile = update s'.ofile fd0 none })
                    | some fd1 ↦
                        let (one, s1) = store fd0 fdarray s' in
                        let (two, s2) = store fd1 (add64 fdarray 4) s1 in
                        let undo : Sys → Outcome (ℕ × Sys) = λ u.
                          close_both rf wf
                            (record u { ofile = update (update u.ofile fd0 none) fd1 none }) in
                        if not one then undo s1 else if not two then undo s2 else ok (0, s2)
                  ]
            ]
      ]
