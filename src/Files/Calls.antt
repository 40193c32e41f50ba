-- ===== src/Files/Calls.antt =====
-- kernel/sysfile.c: the calls on files. The arguments are what `argint`, `argaddr` and `argstr`
-- give, with a failed `argstr` left out; `dot` and `dotdot` are the addresses of the literals "."
-- and "..", `name` and `de` those of the locals; a transaction goes round each call, as in Log.
use fog_os.Prelude.{
  ℕ, zero, suc, ◌+◌, ◌-◌, ◌/◌, ◌%◌, ◌^◌, Bool, true, false, not, ◌&&◌, ◌||◌, ◌==◌, ltb, leb,
  if◌then◌else◌, update, List, Option, none, some, Outcome, ok, panic, ◌>>=◌, add32,
}
use fog_os.Bytes.{Memory, memset}
use fog_os.Bytes.Little.{little}
use fog_os.Fs.{SuperBlock}
use fog_os.Inodes.{World, set_disk, iupdate, ilock, ialloc, iput}
use fog_os.Inodes.Content.{readi, writei}
use fog_os.Inodes.Dirs.{t_dir, namecmp, dirlookup, dirlink, namei, nameiparent}
use fog_os.Files.{File, nothing, close_pipe, put_inode, filedup, fileclose}
use fog_os.Files.Io.{Open, fail}

abbrev pub nofile : ℕ
nofile = 16

abbrev pub t_file : ℕ
t_file = 2

abbrev pub t_device : ℕ
t_device = 3

-- `omode & O_WRONLY`, `omode & O_RDWR`, `omode & O_CREATE` and `omode & O_TRUNC`, as tests.
abbrev pub o_wronly : ℕ → Bool
o_wronly omode = not (omode % 2 == 0)

abbrev pub o_rdwr : ℕ → Bool
o_rdwr omode = not (omode / 2 % 2 == 0)

abbrev pub o_create : ℕ → Bool
o_create omode = not (omode / 0x200 % 2 == 0)

abbrev pub o_trunc : ℕ → Bool
o_trunc omode = not (omode / 0x400 % 2 == 0)

-- The descriptors and the directory of the running process, with the files and the inodes.
pub record Sys : Type 0 where
  pub opened : Open
  pub ofile : ℕ → Option ℕ
  pub cwd : ℕ

abbrev pub with_inodes : Sys → World → Sys
with_inodes s w = record s { opened = record s.opened { world = w } }

-- The file of a descriptor, if there is one.
unfoldable pub argfd : ℕ → Sys → Option ℕ
argfd fd s = if not (ltb fd nofile) then none else s.ofile fd

-- The loop of `fdalloc` at `fd`, for `left` descriptors.
unfoldable pub fd_loop : (left fd f : ℕ) → Sys → Option ℕ × Sys
fd_loop zero fd f s = (none, s)
fd_loop (suc left) fd f s = elim (s.ofile fd) [
  | none ↦ (some fd, record s { ofile = update s.ofile fd (some f) })
  | some g ↦ fd_loop left (fd + 1) f s
]

unfoldable pub fdalloc : ℕ → Sys → Option ℕ × Sys
fdalloc f s = fd_loop nofile 0 f s

unfoldable pub sys_dup : ℕ → Sys → Outcome (ℕ × Sys)
sys_dup fd s = elim (argfd fd s) [
  | none ↦ ok (fail, s)
  | some f ↦
      let (new, s') = fdalloc f s in
      elim new [
        | none ↦ ok (fail, s')
        | some fd' ↦ filedup f s'.opened.files >>= λ t.
            ok (fd', record s' { opened = record s'.opened { files = t } })
      ]
]

module _ (pipeclose : File → Bool → Sys → Sys) (sb : SuperBlock) where
  -- `fileclose`, with what it does with the object behind the file.
  unfoldable pub close_file : ℕ → Sys → Outcome Sys
  close_file f s =
      let it = s.opened.files f in
      fileclose f s.opened.files >>= λ (closing, t).
      (let s' = record s { opened = record s.opened { files = t } } in
        elim closing [
          | nothing ↦ ok s'
          | close_pipe writable ↦ ok (pipeclose it writable s')
          | put_inode ↦ iput sb it.ip s'.opened.world >>= λ w. ok (with_inodes s' w)
        ])

  unfoldable pub sys_close : ℕ → Sys → Outcome (ℕ × Sys)
  sys_close fd s = elim (argfd fd s) [
    | none ↦ ok (fail, s)
    | some f ↦ close_file f (record s { ofile = update s.ofile fd none }) >>= λ s'. ok (0, s')
  ]

module _ (copyout : (bytes : ℕ → ℕ) (dst m : ℕ) → Memory → Bool × Memory)
    (copyin : (at src m : ℕ) → Memory → (bytes : ℕ → ℕ) → Bool × (ℕ → ℕ)) (sb : SuperBlock)
    (de name dot dotdot : ℕ) where
  -- `ip->nlink++` and `ip->nlink--`, with `iupdate`.
  abbrev pub link_more : ℕ → World → World
  link_more ip w =
      let d = (w.inode ip).disk in
      iupdate sb ip (set_disk w ip (record d { nlink = (d.nlink + 1) % 2 ^ 16 }))

  abbrev pub link_less : ℕ → World → World
  link_less ip w =
      let d = (w.inode ip).disk in
      iupdate sb ip (set_disk w ip (record d { nlink = (d.nlink + 2 ^ 16 - 1) % 2 ^ 16 }))

  -- The part of `sys_link` at `bad`.
  abbrev pub undo_link : ℕ → World → Outcome (ℕ × World)
  undo_link ip w = ilock sb ip w >>= λ w. iput sb ip (link_less ip w) >>= λ w. ok (fail, w)

  unfoldable pub sys_link : (cwd : ℕ) (old new : List ℕ) → World → Outcome (ℕ × World)
  sys_link cwd old new w = namei copyout copyin sb de cwd old name w >>= λ (found, w). elim found [
    | none ↦ ok (fail, w)
    | some ip ↦ ilock sb ip w >>= λ w.
        if (w.inode ip).disk.type == t_dir
        then (iput sb ip w >>= λ w. ok (fail, w))
        else nameiparent copyout copyin sb de cwd new name (link_more ip w) >>= λ (parent, w).
            elim parent [
              | none ↦ undo_link ip w
              | some dp ↦ ilock sb dp w >>= λ w.
                  if not ((w.inode dp).dev == (w.inode ip).dev)
                  then (iput sb dp w >>= undo_link ip)
                  else dirlink copyout copyin sb de dp name (w.inode ip).inum w >>= λ (linked, w).
                      iput sb dp w >>= λ w.
                      if linked then (iput sb ip w >>= λ w. ok (0, w)) else undo_link ip w
            ]
  ]

  -- The loop of `isdirempty` at `off`, for at most `fuel` entries.
  unfoldable pub empty_dir_loop : (fuel dp off : ℕ) → World → Outcome (Bool × World)
  empty_dir_loop zero dp off w = ok (true, w)
  empty_dir_loop (suc fuel) dp off w = elim (ltb off (w.inode dp).disk.size) [
    | false ↦ ok (true, w)
    | true ↦ readi copyout sb dp false de off 16 w >>= λ (got, w').
        if not (got == 16) then panic "isdirempty: readi" else elim (little 2 de w'.mem == 0) [
          | false ↦ ok (false, w')
          | true ↦ empty_dir_loop fuel dp (add32 off 16) w'
        ]
  ]

  unfoldable pub isdirempty : ℕ → World → Outcome (Bool × World)
  isdirempty dp w = empty_dir_loop ((w.inode dp).disk.size / 16 + 1) dp 32 w

  -- The entry at `off` of the directory `dp`, which is for `ip`, is cleared.
  abbrev pub clear_entry : (dp ip off : ℕ) → World → Outcome (ℕ × World)
  clear_entry dp ip off w =
      writei copyin sb dp false de off 16 (record w { mem = memset de 0 16 w.mem }) >>= λ (put, w).
      if not (put == 16)
      then panic "unlink: writei"
      else iput sb dp (if (w.inode ip).disk.type == t_dir then link_less dp w else w) >>= λ w.
          iput sb ip (link_less ip w) >>= λ w. ok (0, w)

  unfoldable pub sys_unlink : (cwd : ℕ) (path : List ℕ) → World → Outcome (ℕ × World)
  sys_unlink cwd path w =
      let bad : ℕ → World → Outcome (ℕ × World) = λ dp w. iput sb dp w >>= λ w. ok (fail, w) in
      nameiparent copyout copyin sb de cwd path name w >>= λ (parent, w). elim parent [
        | none ↦ ok (fail, w)
        | some dp ↦ ilock sb dp w >>= λ w.
            if namecmp name dot w.mem == 0 || namecmp name dotdot w.mem == 0
            then bad dp w
            else dirlookup copyout copyin sb de dp name w >>= λ (found, w). elim found [
              | none ↦ bad dp w
              | some (off, ip) ↦ ilock sb ip w >>= λ w.
                  if (w.inode ip).disk.nlink == 0 || leb (2 ^ 15) (w.inode ip).disk.nlink
                  then panic "unlink: nlink < 1"
                  else (if (w.inode ip).disk.type == t_dir then isdirempty ip w else ok (true, w))
                    >>= λ (empty, w).
                        if empty then clear_entry dp ip off w else iput sb ip w >>= bad dp
            ]
      ]

  -- The part of `create` at `fail`.
  abbrev pub undo_create : (dp ip : ℕ) → World → Outcome (Option ℕ × World)
  undo_create dp ip w =
      iput sb ip (iupdate sb ip (set_disk w ip (record (w.inode ip).disk { nlink = 0 }))) >>= λ w.
      iput sb dp w >>= λ w. ok (none, w)

  -- What follows `ialloc` in `create`.
  unfoldable pub create_in : (dp ip type major minor : ℕ) → World → Outcome (Option ℕ × World)
  create_in dp ip type major minor w =
      let link : (dir at inum : ℕ) → World → Outcome (Bool × World) =
        λ dir at inum w. dirlink copyout copyin sb de dir at inum w in
      ilock sb ip w >>= λ w.
      (let d = record (w.inode ip).disk { major = major; minor = minor; nlink = 1 } in
        let w = iupdate sb ip (set_disk w ip d) in
        (if type == t_dir
          then (link ip dot (w.inode ip).inum w >>= λ (one, w).
              if one then link ip dotdot (w.inode dp).inum w else ok (false, w))
          else ok (true, w))
        >>= λ (dots, w).
            if not dots
            then undo_create dp ip w
            else link dp name (w.inode ip).inum w >>= λ (linked, w).
                if not linked
                then undo_create dp ip w
                else iput sb dp (if type == t_dir then link_more dp w else w) >>= λ w.
                    ok (some ip, w))

  unfoldable pub create :
      (cwd : ℕ) (path : List ℕ) (type major minor : ℕ) → World → Outcome (Option ℕ × World)
  create cwd path type major minor w =
      nameiparent copyout copyin sb de cwd path name w >>= λ (parent, w). elim parent [
        | none ↦ ok (none, w)
        | some dp ↦ ilock sb dp w >>= λ w.
            dirlookup copyout copyin sb de dp name w >>= λ (found, w). elim found [
              | some (off, ip) ↦ iput sb dp w >>= λ w. ilock sb ip w >>= λ w.
                  (let old = (w.inode ip).disk.type in
                    if type == t_file && (old == t_file || old == t_device)
                    then ok (some ip, w)
                    else iput sb ip w >>= λ w. ok (none, w))
              | none ↦ ialloc sb (w.inode dp).dev type w >>= λ (made, w). elim made [
                | none ↦ iput sb dp w >>= λ w. ok (none, w)
                | some ip ↦ create_in dp ip type major minor w
              ]
            ]
      ]

  unfoldable pub sys_mkdir : (cwd : ℕ) (path : List ℕ) → World → Outcome (ℕ × World)
  sys_mkdir cwd path w = create cwd path t_dir 0 0 w >>= λ (made, w). elim made [
    | none ↦ ok (fail, w)
    | some ip ↦ iput sb ip w >>= λ w. ok (0, w)
  ]

  unfoldable pub sys_mknod :
      (cwd : ℕ) (path : List ℕ) (major minor : ℕ) → World → Outcome (ℕ × World)
  sys_mknod cwd path major minor w =
      create cwd path t_device (major % 2 ^ 16) (minor % 2 ^ 16) w >>= λ (made, w). elim made [
        | none ↦ ok (fail, w)
        | some ip ↦ iput sb ip w >>= λ w. ok (0, w)
      ]

  unfoldable pub sys_chdir : (path : List ℕ) → Sys → Outcome (ℕ × Sys)
  sys_chdir path s = namei copyout copyin sb de s.cwd path name s.opened.world >>= λ (found, w).
      elim found [
        | none ↦ ok (fail, with_inodes s w)
        | some ip ↦ ilock sb ip w >>= λ w.
            if not ((w.inode ip).disk.type == t_dir)
            then (iput sb ip w >>= λ w. ok (fail, with_inodes s w))
            else iput sb s.cwd w >>= λ w. ok (0, record (with_inodes s w) { cwd = ip })
      ]
