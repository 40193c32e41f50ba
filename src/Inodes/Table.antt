-- ===== src/Inodes/Table.antt =====
-- `iget` keeps one entry of the table for each inode in use.
use mathlib.Core.Path.{subst}
use fog_os.Prelude.{
  ℕ, zero, suc, ◌+◌, ◌<◌, ◌^◌, ◌≡◌, ◌≢◌, ◌∙◌, refl, sym, ap, arith, Bool, true, false, ◌&&◌, ◌==◌,
  inl, inr, eqb_refl, Bool-cases, Option, none, some, Outcome, ok, panic, slt, add32,
}
use fog_os.Inodes.{Inode, World, ninode, set_inode, idup, get_loop, iget}

-- Whether entry `i` is in use, for the inode `inum` of `dev`.
abbrev pub holds : (dev inum : ℕ) → World → ℕ → Bool
holds dev inum w i = slt 0 (w.inode i).ref && ((w.inode i).dev == dev && (w.inode i).inum == inum)

-- No two entries in use are for the same inode.
abbrev pub IsUnique : World → Type 0
IsUnique w =
    (dev inum i j : ℕ)
    → i < ninode
    → j < ninode
    → holds dev inum w i ≡ true
    → holds dev inum w j ≡ true
    → i ≡ j

-- One more reference to any entry stays in an `int`.
abbrev pub HasRoom : World → Type 0
HasRoom w = (i : ℕ) → (w.inode i).ref + 1 < 2 ^ 31

-- The entry as `iget` sets it up.
abbrev pub fresh : (dev inum : ℕ) → Inode → Inode
fresh dev inum i = record i { dev = dev; inum = inum; ref = 1; valid = false }

-- What `iget` returns: the entry that is in use for the inode, with one more reference; or else a
-- free entry, set up for it; or, if there is neither, the panic.
pub data Got (dev inum : ℕ) (w : World) : Outcome (ℕ × World) → Type 0 where
  already :
      (ip : ℕ) (w' : World)
      → ip < ninode
      → holds dev inum w ip ≡ true
      → w' ≡ set_inode w ip (record (w.inode ip) { ref = (w.inode ip).ref + 1 })
      → Got dev inum w (ok (ip, w'))
  recycled :
      (ip : ℕ)
      → ip < ninode
      → (w.inode ip).ref ≡ 0
      → ((j : ℕ) → j < ninode → holds dev inum w j ≡ false)
      → Got dev inum w (ok (ip, set_inode w ip (fresh dev inum (w.inode ip))))
  table_full :
      ((j : ℕ) → j < ninode → holds dev inum w j ≡ false)
      → ((j : ℕ) → j < ninode → (w.inode j).ref ≢ 0)
      → Got dev inum w (panic "iget: no inodes")

-- What the loop knows of the first entry that is free, at entry `i`.
data Seen (w : World) (i : ℕ) : Option ℕ → Type 0 where
  all_used : ((j : ℕ) → j < i → (w.inode j).ref ≢ 0) → Seen w i none
  first_free : (ip : ℕ) → ip < i → (w.inode ip).ref ≡ 0 → Seen w i (some ip)

module _ (dev inum : ℕ) (w : World) (room : HasRoom w) where
  idup_lem :
      (ip : ℕ) → idup ip w ≡ set_inode w ip (record (w.inode ip) { ref = (w.inode ip).ref + 1 })
  unfolding idup
  idup_lem ip =
      let count : add32 (w.inode ip).ref 1 ≡ (w.inode ip).ref + 1 = omega (arith, room ip) in
      ap (λ r. set_inode w ip (record (w.inode ip) { ref = r })) count

  -- One more entry that does not hold the inode.
  none_before :
      (i : ℕ)
      → ((j : ℕ) → j < i → holds dev inum w j ≡ false)
      → holds dev inum w i ≡ false
      → (j : ℕ) → j < i + 1
      → holds dev inum w j ≡ false
  none_before i before here j under = elim (Bool-cases (j == i)) [
    | inl same ↦
        let at : i ≡ j = ground (arith, same) in subst (λ x. holds dev inum w x ≡ false) at here
    | inr other ↦ before j (ground (arith, other, under))
  ]

  get_loop-Got :
      (left i : ℕ) (empty : Option ℕ)
      → i + left ≡ ninode
      → ((j : ℕ) → j < i → holds dev inum w j ≡ false)
      → Seen w i empty
      → Got dev inum w (get_loop left i empty dev inum w)
  unfolding get_loop
  get_loop-Got zero i none all before (all_used used) =
      table_full (λ j under. before j (omega (arith, all, under)))
        (λ j under. used j (omega (arith, all, under)))
  get_loop-Got zero i (some ip) all before (first_free ip' under free_) =
      recycled ip (omega (arith, all, under)) free_
        (λ j under'. before j (omega (arith, all, under')))
  get_loop-Got (suc left) i (some ip) all before (first_free ip' under free_) =
      elim (Bool-cases (holds dev inum w i)) [
        | inl e ↦ rw e (already i _ (omega (arith, all)) e (idup_lem i))
        | inr e ↦ rw e (
            get_loop-Got left (i + 1) (some ip) (omega (arith, all)) (none_before i before e)
              (first_free ip (omega (arith, under)) free_))
      ]
  get_loop-Got (suc left) i none all before (all_used used) =
      elim (Bool-cases (holds dev inum w i)) [
        | inl e ↦ rw e (already i _ (omega (arith, all)) e (idup_lem i))
        | inr e ↦ elim (Bool-cases ((w.inode i).ref == 0)) [
          | inl z ↦
              rw (e, z)
                (get_loop-Got left (i + 1) (some i) (omega (arith, all)) (none_before i before e)
                  (first_free i (omega arith) (ground (arith, z))))
          | inr z ↦
              rw (e, z)
                (get_loop-Got left (i + 1) none (omega (arith, all)) (none_before i before e) (
                  all_used (λ j under. elim (Bool-cases (j == i)) [
                    | inl same ↦ ground (arith, same, z)
                    | inr other ↦ used j (ground (arith, other, under))
                  ])))
        ]
      ]

  iget-Got : Got dev inum w (iget dev inum w)
  unfolding iget
  iget-Got =
      get_loop-Got 50 0 none refl (λ j under. absurd (omega (arith, under)))
        (all_used (λ j under. absurd (omega (arith, under))))

-- The table with one entry for each inode.
pub data Keeps (dev inum : ℕ) (w : World) : Outcome (ℕ × World) → Type 0 where
  kept :
      (ip : ℕ) (w' : World)
      → Got dev inum w (ok (ip, w'))
      → holds dev inum w' ip ≡ true
      → IsUnique w'
      → Keeps dev inum w (ok (ip, w'))
  full : Got dev inum w (panic "iget: no inodes") → Keeps dev inum w (panic "iget: no inodes")

module _ (dev inum : ℕ) (w : World) (room : HasRoom w) (unique : IsUnique w) where
  -- One more reference changes nothing of what an entry in use holds.
  holds-more :
      (ip : ℕ)
      → slt 0 (w.inode ip).ref ≡ true
      → (d n j : ℕ)
      → holds d n (set_inode w ip (record (w.inode ip) { ref = (w.inode ip).ref + 1 })) j
        ≡ holds d n w j
  holds-more ip live d n j = elim (Bool-cases (j == ip)) [
    | inl e ↦
        let same : j ≡ ip = ground (arith, e) in
        let live' : slt 0 ((w.inode ip).ref + 1) ≡ true = ground (arith, room ip) in
        rw (same, eqb_refl ip, live', live) refl
    | inr e ↦ rw e refl
  ]

  module _ (ip : ℕ) (none_ : (j : ℕ) → j < ninode → holds dev inum w j ≡ false) where
    abbrev set_up : World
    set_up = set_inode w ip (fresh dev inum (w.inode ip))

    set_up-elsewhere : (d n j : ℕ) → (j == ip) ≡ false → holds d n set_up j ≡ holds d n w j
    set_up-elsewhere d n j e = rw e refl

    set_up-here : (d n j : ℕ) → (j == ip) ≡ true → holds d n set_up j ≡ (dev == d && inum == n)
    set_up-here d n j e = rw e refl

    clash :
        (d n i j : ℕ)
        → j < ninode
        → (i == ip) ≡ true
        → (j == ip) ≡ false
        → holds d n set_up i ≡ true
        → holds d n set_up j ≡ true
        → ⊥
    clash d n i j hj e e' at_i at_j =
        let both = sym (set_up-here d n i e) ∙ at_i in
        let d_same : d ≡ dev = ground (arith, both) in
        let n_same : n ≡ inum = ground (arith, both) in
        let other : holds d n w j ≡ true = sym (set_up-elsewhere d n j e') ∙ at_j in
        let other' : holds dev inum w j ≡ true =
          subst (λ x. holds x inum w j ≡ true) d_same
            (subst (λ x. holds d x w j ≡ true) n_same other) in
        absurd (ground (arith, sym other' ∙ none_ j hj))

    -- The entry that is set up is the only one.
    set_up-IsUnique : IsUnique set_up
    set_up-IsUnique d n i j hi hj at_i at_j = elim (Bool-cases (i == ip)) [
      | inl e ↦ elim (Bool-cases (j == ip)) [
        | inl e' ↦ ground (arith, e, e')
        | inr e' ↦ absurd (clash d n i j hj e e' at_i at_j)
      ]
      | inr e ↦ elim (Bool-cases (j == ip)) [
        | inl e' ↦ absurd (clash d n j i hi e' e at_j at_i)
        | inr e' ↦
            unique d n i j hi hj (sym (set_up-elsewhere d n i e) ∙ at_i)
              (sym (set_up-elsewhere d n j e') ∙ at_j)
      ]
    ]

  Got-Keeps : {o : Outcome (ℕ × World)} → Got dev inum w o → Keeps dev inum w o
  Got-Keeps (table_full none_ used) = full (table_full none_ used)
  Got-Keeps (recycled ip under free_ none_) =
      kept ip _ (recycled ip under free_ none_)
        (set_up-here ip none_ dev inum ip (eqb_refl ip) ∙ ground arith) (set_up-IsUnique ip none_)
  Got-Keeps (already ip w' under here same) =
      let live : slt 0 (w.inode ip).ref ≡ true = ground (arith, here) in
      kept ip w' (already ip w' under here same)
        (subst (λ v. holds dev inum v ip ≡ true) (sym same) (holds-more ip live dev inum ip ∙ here))
        (subst IsUnique (sym same) (λ d n i j hi hj at_i at_j.
          unique d n i j hi hj (sym (holds-more ip live d n i) ∙ at_i)
            (sym (holds-more ip live d n j) ∙ at_j)))

  -- While no two entries in use are for the same inode, and one more reference to any entry fits an
  -- `int`, `iget` returns an entry that is in use for the inode asked for: the one that was, or a
  -- free one if there was none, and it panics only if there is neither; and afterwards still no two
  -- entries are for the same inode.
  pub iget-Keeps : Keeps dev inum w (iget dev inum w)
  iget-Keeps = Got-Keeps (iget-Got dev inum w room)
