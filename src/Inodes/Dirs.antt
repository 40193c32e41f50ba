-- ===== src/Inodes/Dirs.antt =====
-- kernel/fs.c: directories and path names. `de` is the address of the local `struct dirent`, `cwd`
-- the inode of the process, a path is the list of its bytes, as in Names, and `none` a null pointer.
use fog_os.Prelude.{
  ℕ, zero, suc, ◌+◌, ◌/◌, ◌%◌, ◌^◌, Bool, true, false, not, ◌&&◌, ◌==◌, ltb, if◌then◌else◌, update,
  List, [], ◌∷◌, length, Option, none, some, Outcome, ok, panic, ◌>>=◌, add32,
}
use fog_os.Bytes.{Memory, strncmp, strncpy}
use fog_os.Bytes.Little.{little, put_little}
use fog_os.Fs.{SuperBlock}
use fog_os.Names.{dirsiz, slash, skipelem}
use fog_os.Inodes.{World, iget, idup, ilock, iput}
use fog_os.Inodes.Content.{readi, writei}

abbrev pub t_dir : ℕ
t_dir = 1

abbrev pub rootdev : ℕ
rootdev = 1

abbrev pub rootino : ℕ
rootino = 1

unfoldable pub namecmp : (s t : ℕ) → Memory → ℕ
namecmp s t mem = strncmp s t dirsiz mem

-- `*path == '/'` and `*path == '\0'`
abbrev pub is_absolute : List ℕ → Bool
is_absolute [] = false
is_absolute (c ∷ cs) = c == slash

abbrev pub is_empty : List ℕ → Bool
is_empty [] = true
is_empty (c ∷ cs) = false

-- A name that `skipelem` takes, stored at `name`, with a 0 if it is shorter than DIRSIZ bytes.
unfoldable pub store_name : (name i : ℕ) → List ℕ → Memory → Memory
store_name name i [] mem = if i == dirsiz then mem else update mem (name + i) 0
store_name name i (c ∷ cs) mem = store_name name (i + 1) cs (update mem (name + i) c)

module _ (copyout : (bytes : ℕ → ℕ) (dst m : ℕ) → Memory → Bool × Memory)
    (copyin : (at src m : ℕ) → Memory → (bytes : ℕ → ℕ) → Bool × (ℕ → ℕ)) (sb : SuperBlock)
    (de : ℕ) where
  -- The loop of `dirlookup` at `off`, for at most `fuel` entries: the offset, and the inode.
  unfoldable pub lookup_loop : (fuel dp name off : ℕ) → World → Outcome (Option (ℕ × ℕ) × World)
  lookup_loop zero dp name off w = ok (none, w)
  lookup_loop (suc fuel) dp name off w = elim (ltb off (w.inode dp).disk.size) [
    | false ↦ ok (none, w)
    | true ↦ readi copyout sb dp false de off 16 w >>= λ (got, w').
        let inum = little 2 de w'.mem in
        if not (got == 16)
        then panic "dirlookup read"
        else elim (not (inum == 0) && namecmp name (de + 2) w'.mem == 0) [
          | false ↦ lookup_loop fuel dp name (add32 off 16) w'
          | true ↦ iget (w'.inode dp).dev inum w' >>= λ (ip, w''). ok (some (off, ip), w'')
        ]
  ]

  unfoldable pub dirlookup : (dp name : ℕ) → World → Outcome (Option (ℕ × ℕ) × World)
  dirlookup dp name w =
      let disk = (w.inode dp).disk in
      if not (disk.type == t_dir)
      then panic "dirlookup not DIR"
      else lookup_loop (disk.size / 16 + 1) dp name 0 w

  -- The loop of `dirlink`: the offset of the first entry that is not in use, or of the end.
  unfoldable pub empty_loop : (fuel dp off : ℕ) → World → Outcome (ℕ × World)
  empty_loop zero dp off w = ok (off, w)
  empty_loop (suc fuel) dp off w = elim (ltb off (w.inode dp).disk.size) [
    | false ↦ ok (off, w)
    | true ↦ readi copyout sb dp false de off 16 w >>= λ (got, w').
        if not (got == 16) then panic "dirlink read" else elim (little 2 de w'.mem == 0) [
          | true ↦ ok (off, w')
          | false ↦ empty_loop fuel dp (add32 off 16) w'
        ]
  ]

  -- Whether it returns 0.
  unfoldable pub dirlink : (dp name inum : ℕ) → World → Outcome (Bool × World)
  dirlink dp name inum w = dirlookup dp name w >>= λ (found, w'). elim found [
    | some (off, ip) ↦ iput sb ip w' >>= λ w''. ok (false, w'')
    | none ↦ empty_loop ((w'.inode dp).disk.size / 16 + 1) dp 0 w' >>= λ (off, w'').
        let entry = put_little 2 de (inum % 2 ^ 16) (strncpy (de + 2) name dirsiz w''.mem) in
        writei copyin sb dp false de off 16 (record w'' { mem = entry }) >>= λ (put, w3).
        ok (put == 16, w3)
  ]

  -- The loop of `namex` at `ip`, for at most `fuel` path elements, and what follows it.
  unfoldable pub walk_path :
      (fuel ip : ℕ) (path : List ℕ) (nameiparent : Bool) (name : ℕ)
      → World
      → Outcome (Option ℕ × World)
  walk_path zero ip path nameiparent name w = ok (none, w)
  walk_path (suc fuel) ip path nameiparent name w = elim (skipelem path) [
    | none ↦ if nameiparent then (iput sb ip w >>= λ w'. ok (none, w')) else ok (some ip, w)
    | some (elem, rest) ↦ ilock sb ip (record w { mem = store_name name 0 elem w.mem }) >>= λ w'.
        if not ((w'.inode ip).disk.type == t_dir)
        then (iput sb ip w' >>= λ w''. ok (none, w''))
        else if nameiparent && is_empty rest
        then ok (some ip, w')
        else dirlookup ip name w' >>= λ (next, w'').
            (iput sb ip w'' >>= λ w3. elim next [
              | none ↦ ok (none, w3)
              | some (off, ip') ↦ walk_path fuel ip' rest nameiparent name w3
            ])
  ]

  unfoldable pub namex :
      (cwd : ℕ) (path : List ℕ) (nameiparent : Bool) (name : ℕ) → World → Outcome (Option ℕ × World)
  namex cwd path nameiparent name w =
      (if is_absolute path then iget rootdev rootino w else ok (cwd, idup cwd w)) >>= λ (ip, w').
      walk_path (length path + 1) ip path nameiparent name w'

  -- The callers' `name` is a local of DIRSIZ bytes for `namei`, and an argument for `nameiparent`.
  unfoldable pub namei : (cwd : ℕ) (path : List ℕ) (name : ℕ) → World → Outcome (Option ℕ × World)
  namei cwd path name w = namex cwd path false name w

  unfoldable pub nameiparent :
      (cwd : ℕ) (path : List ℕ) (name : ℕ) → World → Outcome (Option ℕ × World)
  nameiparent cwd path name w = namex cwd path true name w
