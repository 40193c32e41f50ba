-- ===== src/Files/Count.antt =====
-- The reference count of a file is the number of its holders.
use mathlib.Core.Path.{subst}
use fog_os.Prelude.{
  ℕ, zero, suc, ◌+◌, ◌-◌, ◌≤◌, ◌<◌, ◌^◌, ◌≡◌, ◌≢◌, refl, ap, sym, ◌∙◌, true, false, ◌==◌, arith,
  if◌then◌else◌, update, Outcome, ok, panic, Bool-cases, inl, inr, Option, none, some, eqb_refl,
  add32, sub32, slt,
}
use fog_os.Files.{
  FileTable, File, FileType, fd_none, fd_pipe, fd_inode, fd_device, Closing, nothing, close_pipe,
  put_inode, closing, nfile, alloc_loop, filealloc, filedup, fileclose,
}

-- The table, and how many file descriptors or calls hold each file.
pub record Open : Type 0 where
  pub table : FileTable
  pub holders : ℕ → ℕ

abbrev pub taken : Open → Option ℕ → ℕ → ℕ
taken o none = o.holders
taken o (some i) = update o.holders i (o.holders i + 1)

-- Fewer than 2^31 - 1 hold one file. A holder may change the other fields of its file.
pub data Step (o : Open) : Open → Type 0 where
  alloc : Step o (record { table = (filealloc o.table).1; holders = taken o (filealloc o.table).0 })
  dup :
      (f : ℕ) (t : FileTable)
      → 0 < o.holders f
      → o.holders f + 1 < 2 ^ 31
      → filedup f o.table ≡ ok t
      → Step o (record { table = t; holders = update o.holders f (o.holders f + 1) })
  close :
      (f : ℕ) (c : Closing) (t : FileTable)
      → 0 < o.holders f
      → fileclose f o.table ≡ ok (c, t)
      → Step o (record { table = t; holders = update o.holders f (o.holders f - 1) })
  set_up :
      (f : ℕ) (new : File)
      → 0 < o.holders f
      → Step o (record o { table = update o.table f (record new { ref = (o.table f).ref }) })

pub data Reach : Open → Type 0 where
  fresh :
      (t : FileTable) → ((i : ℕ) → (t i).ref ≡ 0) → Reach (record { table = t; holders = λ i. 0 })
  later : {o o' : Open} → Reach o → Step o o' → Reach o'

pub record Counted (o : Open) : Type 0 where
  pub counts : (i : ℕ) → (o.table i).ref ≡ o.holders i
  pub fits : (i : ℕ) → o.holders i < 2 ^ 31

-- What the scan of `filealloc` gives from file `i` on.
data Given (t : FileTable) (i : ℕ) : Option ℕ × FileTable → Type 0 where
  a_file :
      (j : ℕ)
      → j < nfile
      → (t j).ref ≡ 0
      → Given t i (some j, update t j (record (t j) { ref = 1 }))
  no_file : ((j : ℕ) → i ≤ j → j < nfile → (t j).ref ≢ 0) → Given t i (none, t)

Given-later :
    (t : FileTable) (i : ℕ) {r : Option ℕ × FileTable}
    → (t i).ref ≢ 0
    → Given t (i + 1) r
    → Given t i r
Given-later t i used (a_file j hj free_) = a_file j hj free_
Given-later t i used (no_file all_used) = no_file (λ j from hj. elim (Bool-cases (j == i)) [
  | inl e ↦ (let same : j ≡ i = ground arith in rw same used)
  | inr e ↦ all_used j (ground arith) hj
])

alloc_loop-Given : (left i : ℕ) (t : FileTable) → i + left ≡ nfile → Given t i (alloc_loop left i t)
unfolding alloc_loop
alloc_loop-Given zero i t e = no_file (λ j from hj. absurd (omega arith))
alloc_loop-Given (suc left) i t e = elim (Bool-cases ((t i).ref == 0)) [
  | inl free_ ↦ rw free_ (a_file i (omega arith) (ground arith))
  | inr used ↦
      rw (used, alloc_loop)
        (Given-later t i (ground arith) (alloc_loop-Given left (i + 1) t (omega arith)))
]

update_ref :
    (t : FileTable) (f i : ℕ) (p : File)
    → (update t f p i).ref ≡ (if i == f then p.ref else (t i).ref)
update_ref t f i p = elim (Bool-cases (i == f)) [ inl e ↦ rw e refl | inr e ↦ rw e refl ]

-- A count and the holders of one file change alike.
recounted :
    (o : Open) (f n : ℕ) (p : File)
    → p.ref ≡ n
    → n < 2 ^ 31
    → Counted o
    → Counted (record { table = update o.table f p; holders = update o.holders f n })
recounted o f n p e fits c = record {
  counts = λ i. update_ref o.table f i p ∙ ground (arith, c.counts i);
  fits = λ i. ground (arith, c.fits i);
}

alloc-Counted :
    (o : Open) {r : Option ℕ × FileTable}
    → Counted o
    → Given o.table 0 r
    → Counted (record { table = r.1; holders = taken o r.0 })
alloc-Counted o c (no_file _) = c
alloc-Counted o c (a_file i hi free_) =
    recounted o i (o.holders i + 1) _ (omega (arith, free_, c.counts i))
      (omega (arith, free_, c.counts i)) c

-- The outcome of `filedup` and of `fileclose` at a file that is held.
dup_lem :
    (o : Open) (f : ℕ)
    → Counted o
    → 0 < o.holders f
    → filedup f o.table
      ≡ ok (update o.table f (record (o.table f) { ref = add32 (o.table f).ref 1 }))
unfolding filedup
dup_lem o f c held =
    let test : slt (o.table f).ref 1 ≡ false = ground (arith, c.counts f, c.fits f) in rw test refl

abbrev closed : Open → ℕ → Closing × FileTable
closed o f =
    if o.holders f == 1
    then (
      closing (o.table f),
      update o.table f (record (o.table f) { ref = 0; type = FileType.fd_none }),
    )
    else (nothing, update o.table f (record (o.table f) { ref = o.holders f - 1 }))

close_lem : (o : Open) (f : ℕ) → Counted o → 0 < o.holders f → fileclose f o.table ≡ ok (closed o f)
unfolding fileclose
close_lem o f c held =
    let test : slt (o.table f).ref 1 ≡ false = ground (arith, c.counts f, c.fits f) in
    let left : sub32 (o.table f).ref 1 ≡ o.holders f - 1 = omega (arith, c.counts f, c.fits f) in
    elim (Bool-cases (o.holders f == 1)) [
      | inl last ↦
          (let ends : slt 0 (o.holders f - 1) ≡ false = ground arith in
            rw (test, left, ends, last) refl)
      | inr more ↦
          (let stays : slt 0 (o.holders f - 1) ≡ true = ground (arith, c.fits f) in
            rw (test, left, stays, more) refl)
    ]

table_of : FileTable → Outcome FileTable → FileTable
table_of t (ok t') = t'
table_of t (panic why) = t

table_after : FileTable → Outcome (Closing × FileTable) → FileTable
table_after t (ok r) = r.1
table_after t (panic why) = t

Step-Counted : {o o' : Open} → Step o o' → Counted o → Counted o'
unfolding filealloc table_of table_after
Step-Counted {o} alloc c = alloc-Counted o c (alloc_loop-Given nfile 0 o.table (omega arith))
Step-Counted {o} (dup f t held fits done) c =
    let e = ap (table_of o.table) (sym (dup_lem o f c held) ∙ done) in
    subst (λ x. Counted (record { table = x; holders = update o.holders f (o.holders f + 1) })) e
      (recounted o f (o.holders f + 1) _ (omega (arith, c.counts f)) fits c)
Step-Counted {o} (close f k t held done) c =
    let e = ap (table_after o.table) (sym (close_lem o f c held) ∙ done) in
    subst (λ x. Counted (record { table = x; holders = update o.holders f (o.holders f - 1) })) e
      (elim (Bool-cases (o.holders f == 1)) [
        | inl last ↦
            rw last (recounted o f (o.holders f - 1) _ (ground arith) (omega (arith, c.fits f)) c)
        | inr more ↦ rw more (recounted o f (o.holders f - 1) _ refl (omega (arith, c.fits f)) c)
      ])
Step-Counted {o} (set_up f new held) c = record {
  counts = λ i. update_ref o.table f i _ ∙ ground (arith, c.counts i, c.counts f);
  fits = c.fits;
}

Reach-Counted : {o : Open} → Reach o → Counted o
Reach-Counted (fresh t empty) = record { counts = empty; fits = λ i. omega arith }
Reach-Counted (later r step) = Step-Counted step (Reach-Counted r)

-- What `fileclose` is to do with the object behind the file `p`.
pub record Finishes (p : File) (c : Closing) : Type 0 where
  pub of_none : p.type ≡ fd_none → c ≡ nothing
  pub of_pipe : p.type ≡ fd_pipe → c ≡ close_pipe p.writable
  pub of_inode : p.type ≡ fd_inode → c ≡ put_inode
  pub of_device : p.type ≡ fd_device → c ≡ put_inode

closing-Finishes : (p : File) → Finishes p (closing p)
closing-Finishes p = record {
  of_none = λ e. rw e refl;
  of_pipe = λ e. rw e refl;
  of_inode = λ e. rw e refl;
  of_device = λ e. rw e refl;
}

-- `fileclose` of a file by one of its holders.
pub data Closes (o : Open) (f : ℕ) : Outcome (Closing × FileTable) → Type 0 where
  last :
      (c : Closing) (t : FileTable)
      → o.holders f ≡ 1
      → (t f).ref ≡ 0
      → Finishes (o.table f) c
      → Closes o f (ok (c, t))
  stays : (t : FileTable) → 1 < o.holders f → Closes o f (ok (nothing, t))

-- `filealloc`.
pub data Gives (o : Open) : Option ℕ → Type 0 where
  unheld : (i : ℕ) → i < nfile → o.holders i ≡ 0 → Gives o (some i)
  all_held : ((i : ℕ) → i < nfile → 0 < o.holders i) → Gives o none

-- What the next calls do.
pub record IsSound (o : Open) : Type 0 where
  pub gives : Gives o (filealloc o.table).0
  pub dups : (f : ℕ) → 0 < o.holders f → (t : FileTable) × (filedup f o.table ≡ ok t)
  pub closes : (f : ℕ) → 0 < o.holders f → Closes o f (fileclose f o.table)

gives_lem : (o : Open) {r : Option ℕ × FileTable} → Counted o → Given o.table 0 r → Gives o r.0
gives_lem o c (a_file i hi free_) = unheld i hi (sym (c.counts i) ∙ free_)
gives_lem o c (no_file all_used) = all_held (λ i hi. ground (arith, all_used i, c.counts i))

closes_lem : (o : Open) (f : ℕ) → Counted o → 0 < o.holders f → Closes o f (fileclose f o.table)
closes_lem o f c held = rw (close_lem o f c held) (elim (Bool-cases (o.holders f == 1)) [
  | inl one ↦ rw one (last _ _ (ground arith) (rw (eqb_refl f) refl) (closing-Finishes (o.table f)))
  | inr more ↦ rw more (stays _ (ground arith))
])

-- From an empty table on, through any calls of `filealloc`, `filedup` and `fileclose` by holders,
-- with fewer than 2^31 holders of a file: `filealloc` gives a file that nobody holds, and none only
-- if each is held; `filedup` and `fileclose` of a file that is held do not panic; and `fileclose`
-- does nothing behind the file while there are other holders, and at the last one closes the end of
-- a pipe, puts the inode of a file or a device, and does nothing for a file without a type.
pub Reach-IsSound : {o : Open} → Reach o → IsSound o
unfolding filealloc
Reach-IsSound {o} r = record {
  gives = gives_lem o (Reach-Counted r) (alloc_loop-Given nfile 0 o.table (omega arith));
  dups = λ f held. (_, dup_lem o f (Reach-Counted r) held);
  closes = λ f held. closes_lem o f (Reach-Counted r) held;
}
