-- ===== src/Inodes/Update.antt =====
-- What `iupdate` writes to the disk, `ilock` reads back.
use mathlib.Core.Path.{subst}
use fog_os.Prelude.{
  ℕ, zero, suc, ◌+◌, ◌*◌, ◌/◌, ◌%◌, ◌^◌, ◌≤◌, ◌<◌, ◌≡◌, ◌≢◌, ◌∙◌, refl, sym, arith, true, false,
  ◌==◌, ltb, update, if◌then◌else◌, ◌⊎◌, inl, inr, eqb_refl, eqb_ne, Bool-cases, ok, slt,
}
use fog_os.Bytes.{Memory}
use fog_os.Bytes.Little.{
  little, put_little, little-congr, little-put_little, little-apart, put_little_apart,
}
use fog_os.Fs.{SuperBlock}
use fog_os.Inodes.{
  Dinode, World, iblock, dinode_at, load, store_addrs, store, set_inode, iupdate, ilock,
}

-- The same fields, and the same addresses.
pub record Same (d d' : Dinode) : Type 0 where
  pub type : d.type ≡ d'.type
  pub major : d.major ≡ d'.major
  pub minor : d.minor ≡ d'.minor
  pub nlink : d.nlink ≡ d'.nlink
  pub size : d.size ≡ d'.size
  pub addrs : (i : ℕ) → i < 13 → d.addrs i ≡ d'.addrs i

-- The fields are values of their types in C.
pub record Fits (d : Dinode) : Type 0 where
  pub type : d.type < 2 ^ 16
  pub major : d.major < 2 ^ 16
  pub minor : d.minor < 2 ^ 16
  pub nlink : d.nlink < 2 ^ 16
  pub size : d.size < 2 ^ 32
  pub addrs : (i : ℕ) → i < 13 → d.addrs i < 2 ^ 32

store_addrs_apart :
    (n i at x : ℕ) (addrs : ℕ → ℕ) (b : Memory)
    → (x < at + i * 4) ⊎ (at + (i + n) * 4 ≤ x)
    → store_addrs n i at addrs b x ≡ b x
unfolding store_addrs
store_addrs_apart zero i at x addrs b apart = refl
store_addrs_apart (suc n) i at x addrs b apart =
    store_addrs_apart n (i + 1) at x addrs (put_little 4 (at + i * 4) (addrs i) b)
      (elim apart [ inl h ↦ inl (omega (arith, h)) | inr h ↦ inr (omega (arith, h)) ])
    ∙ put_little_apart 4 (at + i * 4) (addrs i) x b
        (elim apart [ inl h ↦ inl (omega (arith, h)) | inr h ↦ inr (omega (arith, h)) ])

little-store_addrs_apart :
    (n i at k c : ℕ) (addrs : ℕ → ℕ) (b : Memory)
    → (c + k ≤ at + i * 4) ⊎ (at + (i + n) * 4 ≤ c)
    → little k c (store_addrs n i at addrs b) ≡ little k c b
little-store_addrs_apart n i at k c addrs b apart = little-congr k c _ b (λ x from to.
    store_addrs_apart n i at x addrs b
      (elim apart [ inl h ↦ inl (omega (arith, h, to)) | inr h ↦ inr (omega (arith, h, from)) ]))

-- Address `j` is found where it was stored.
little-store_addrs :
    (n i at j : ℕ) (addrs : ℕ → ℕ) (b : Memory)
    → i ≤ j
    → j < i + n
    → little 4 (at + j * 4) (store_addrs n i at addrs b) ≡ addrs j % 2 ^ 32
unfolding store_addrs
little-store_addrs zero i at j addrs b from to = absurd (omega (arith, from, to))
little-store_addrs (suc n) i at j addrs b from to = elim (Bool-cases (j == i)) [
  | inl e ↦
      let same : j ≡ i = ground (arith, e) in
      rw same (
        little-store_addrs_apart n (i + 1) at 4 (at + i * 4) addrs
          (put_little 4 (at + i * 4) (addrs i) b) (inl (omega arith))
        ∙ little-put_little 4 (at + i * 4) (addrs i) b)
  | inr e ↦
      little-store_addrs n (i + 1) at j addrs (put_little 4 (at + i * 4) (addrs i) b)
        (ground (arith, e, from)) (omega (arith, to))
]

module _ (at : ℕ) (d : Dinode) (b : Memory) where
  -- The block after each of the fields.
  abbrev with_type : Memory
  with_type = put_little 2 at d.type b

  abbrev with_major : Memory
  with_major = put_little 2 (at + 2) d.major with_type

  abbrev with_minor : Memory
  with_minor = put_little 2 (at + 4) d.minor with_major

  abbrev with_nlink : Memory
  with_nlink = put_little 2 (at + 6) d.nlink with_minor

  abbrev with_size : Memory
  with_size = put_little 4 (at + 8) d.size with_nlink

  store_apart : (x : ℕ) → (x < at) ⊎ (at + 64 ≤ x) → store at d b x ≡ b x
  unfolding store
  store_apart x apart =
      store_addrs_apart 13 0 (at + 12) x d.addrs with_size
        (elim apart [ inl h ↦ inl (omega (arith, h)) | inr h ↦ inr (omega (arith, h)) ])
      ∙ put_little_apart 4 (at + 8) d.size x with_nlink (clear 8 4 (omega arith))
      ∙ put_little_apart 2 (at + 6) d.nlink x with_minor (clear 6 2 (omega arith))
      ∙ put_little_apart 2 (at + 4) d.minor x with_major (clear 4 2 (omega arith))
      ∙ put_little_apart 2 (at + 2) d.major x with_type (clear 2 2 (omega arith))
      ∙ put_little_apart 2 at d.type x b
          (elim apart [ inl h ↦ inl h | inr h ↦ inr (omega (arith, h)) ])
    where
      clear : (o k : ℕ) → o + k ≤ 64 → (x < at + o) ⊎ (at + o + k ≤ x)
      clear o k le = elim apart [ inl h ↦ inl (omega (arith, h)) | inr h ↦ inr (omega (arith, h)) ]

  stored_addr : (i : ℕ) → i < 13 → little 4 (at + 12 + i * 4) (store at d b) ≡ d.addrs i % 2 ^ 32
  unfolding store
  stored_addr i under =
      little-store_addrs 13 0 (at + 12) i d.addrs with_size (omega arith) (omega (arith, under))

  -- A field that the later ones leave alone.
  stored :
      (k o v : ℕ)
      → o + k ≤ 12
      → little k (at + o) with_size ≡ v
      → little k (at + o) (store at d b) ≡ v
  unfolding store
  stored k o v le e =
      little-store_addrs_apart 13 0 (at + 12) k (at + o) d.addrs with_size (inl (omega (arith, le)))
      ∙ e

  load-store : Fits d → Same (load at (store at d b)) d
  load-store fits = record {
    type =
        subst (λ a. little 2 a (store at d b) ≡ d.type) first
          (stored 2 0 d.type (omega arith) (
            little-apart 2 (at + 0) 4 (at + 8) d.size with_nlink (inl (omega arith))
            ∙ little-apart 2 (at + 0) 2 (at + 6) d.nlink with_minor (inl (omega arith))
            ∙ little-apart 2 (at + 0) 2 (at + 4) d.minor with_major (inl (omega arith))
            ∙ little-apart 2 (at + 0) 2 (at + 2) d.major with_type (inl (omega arith))
            ∙ subst (λ a. little 2 a with_type ≡ d.type % 2 ^ 16) (sym first)
                (little-put_little 2 at d.type b)
            ∙ omega (arith, fits.type)));
    major = stored 2 2 d.major (omega arith) (
        little-apart 2 (at + 2) 4 (at + 8) d.size with_nlink (inl (omega arith))
        ∙ little-apart 2 (at + 2) 2 (at + 6) d.nlink with_minor (inl (omega arith))
        ∙ little-apart 2 (at + 2) 2 (at + 4) d.minor with_major (inl (omega arith))
        ∙ little-put_little 2 (at + 2) d.major with_type
        ∙ omega (arith, fits.major));
    minor = stored 2 4 d.minor (omega arith) (
        little-apart 2 (at + 4) 4 (at + 8) d.size with_nlink (inl (omega arith))
        ∙ little-apart 2 (at + 4) 2 (at + 6) d.nlink with_minor (inl (omega arith))
        ∙ little-put_little 2 (at + 4) d.minor with_major
        ∙ omega (arith, fits.minor));
    nlink = stored 2 6 d.nlink (omega arith) (
        little-apart 2 (at + 6) 4 (at + 8) d.size with_nlink (inl (omega arith))
        ∙ little-put_little 2 (at + 6) d.nlink with_minor
        ∙ omega (arith, fits.nlink));
    size =
        stored 4 8 d.size (omega arith)
          (little-put_little 4 (at + 8) d.size with_nlink ∙ omega (arith, fits.size));
    addrs = λ i under. stored_addr i under ∙ omega (arith, fits.addrs i under);
  }
    where
      first : at + 0 ≡ at
      first = omega arith

-- The fields of an inode depend on its 64 bytes.
load-congr :
    (at : ℕ) (b b' : Memory)
    → ((x : ℕ) → at ≤ x → x < at + 64 → b x ≡ b' x)
    → Same (load at b) (load at b')
load-congr at b b' same = record {
  type = little-congr 2 at b b' (λ x from to. same x from (omega (arith, to)));
  major =
      little-congr 2 (at + 2) b b' (λ x from to. same x (omega (arith, from)) (omega (arith, to)));
  minor =
      little-congr 2 (at + 4) b b' (λ x from to. same x (omega (arith, from)) (omega (arith, to)));
  nlink =
      little-congr 2 (at + 6) b b' (λ x from to. same x (omega (arith, from)) (omega (arith, to)));
  size =
      little-congr 4 (at + 8) b b' (λ x from to. same x (omega (arith, from)) (omega (arith, to)));
  addrs = λ i under.
      little-congr 4 (at + 12 + i * 4) b b'
        (λ x from to. same x (omega (arith, from)) (omega (arith, to, under)));
}

module _ (sb : SuperBlock) where
  -- What `ilock` reads for inode `j` after `iupdate`: the fields, if it is the inode of `ip`, and
  -- what it would have read before, if it is another.
  load-iupdate :
      (ip j : ℕ) (w : World)
      → let i = (w.inode ip).inum in
        Fits (w.inode ip).disk
        → i < 2 ^ 32
        → j < 2 ^ 32
        → Same
            (load (dinode_at j) ((iupdate sb ip w).blocks (iblock j sb)))
            (if j == i then (w.inode ip).disk else load (dinode_at j) (w.blocks (iblock j sb)))
  unfolding iupdate
  load-iupdate ip j w fits i_bound j_bound = elim (Bool-cases (j == i)) [
    | inl e ↦
        let same : j ≡ i = ground (arith, e) in
        rw e (
          subst
            (λ n.
              Same
                (load (dinode_at n)
                  (update w.blocks b (store (dinode_at i) d (w.blocks b)) (iblock n sb)))
                d)
            (sym same) (rw (eqb_refl b) (load-store (dinode_at i) d (w.blocks b) fits)))
    | inr e ↦ rw e (elim (Bool-cases (iblock j sb == b)) [
      | inr other ↦ rw other (load-congr (dinode_at j) _ _ (λ x from to. refl))
      | inl here ↦
          let block : iblock j sb ≡ b = ground (arith, here) in
          let row : j / 16 ≡ i / 16 = omega (arith, block, i_bound, j_bound) in
          rw (block, eqb_refl b)
            (load-congr (dinode_at j) _ _ (λ x from to.
              store_apart (dinode_at i) d (w.blocks b) x
                (sides x (ground (arith, row, e)) from to)))
    ])
  ]
    where
      i : ℕ
      i = (w.inode ip).inum

      d : Dinode
      d = (w.inode ip).disk

      b : ℕ
      b = iblock i sb

      sides :
          (x : ℕ)
          → j % 16 ≢ i % 16
          → dinode_at j ≤ x
          → x < dinode_at j + 64
          → (x < dinode_at i) ⊎ (dinode_at i + 64 ≤ x)
      sides x other from to = elim (Bool-cases (ltb x (dinode_at i))) [
        | inl h ↦ inl (ground (arith, h))
        | inr h ↦ inr (ground (arith, h, from, to, other))
      ]

-- For an entry `jp` of the table that holds the number of `ip`, is in use and not valid: `ilock`
-- after `iupdate` reads the fields of `ip`, which are values of their types with a nonzero type.
pub iupdate-ilock :
    (sb : SuperBlock) (ip jp : ℕ) (w : World)
    → Fits (w.inode ip).disk
    → (w.inode ip).disk.type ≢ 0
    → (w.inode ip).inum < 2 ^ 32
    → (w.inode jp).inum ≡ (w.inode ip).inum
    → (w.inode jp).valid ≡ false
    → slt (w.inode jp).ref 1 ≡ false
    → (w' : World) × (ilock sb jp (iupdate sb ip w) ≡ ok w')
      × Same (w'.inode jp).disk (w.inode ip).disk
unfolding ilock iupdate
iupdate-ilock sb ip jp w fits typed bound same invalid used =
    let i = (w.inode ip).inum in
    let b = iblock i sb in
    let read = load-store (dinode_at i) (w.inode ip).disk (w.blocks b) fits in
    let test : (little 2 (dinode_at i) (store (dinode_at i) (w.inode ip).disk (w.blocks b)) == 0)
        ≡ false =
      eqb_ne _ 0 (λ e. typed (sym read.type ∙ e)) in
    (
      set_inode (iupdate sb ip w) jp (record (w.inode jp) {
        valid = true;
        disk = load (dinode_at i) (store (dinode_at i) (w.inode ip).disk (w.blocks b));
      }),
      rw (used, invalid, same, eqb_refl b) (rw test refl),
      rw (eqb_refl jp) read,
    )
