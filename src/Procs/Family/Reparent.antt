-- ===== src/Procs/Family/Reparent.antt =====
-- `reparent` gives the children of a process to `init`, which it wakes if there are any.
use mathlib.Core.Path.{subst}
use fog_os.Prelude.{
  ℕ, zero, suc, ◌+◌, ◌<◌, ◌≡◌, ◌≢◌, refl, ap, sym, ◌∙◌, Bool, true, false, not, ◌&&◌, ◌==◌, ltb,
  arith, if◌then◌else◌, update, Bool-cases, inl, inr, Option, none, some, eqb_refl,
}
use fog_os.Procs.{
  Slots, Chan, of_proc, same_chan, Proc, nproc, is_unused, is_sleeping, is_zombie, child_of, wake,
  wakeup, adopt, reparent_loop, reparent, parent_chan,
}
use fog_os.Procs.Wake.{wakeup_lem}
use fog_os.Procs.Family.{waits_as, has_parent}
use fog_os.Procs.Family.Quiet.{QuietAt, wake-QuietAt}

pub wake-awake : (me i : ℕ) (p : Proc) → i ≢ me → waits_as i (wake me (of_proc i) i p) ≡ false
wake-awake me i p other =
    elim (Bool-cases (not (i == me) && is_sleeping p.state && same_chan p.chan (of_proc i))) [
      | inl yes_ ↦ rw yes_ refl
      | inr no_ ↦ rw no_ (ground arith)
    ]

pub child_of-parent_chan : (i : ℕ) (p : Proc) → child_of i p ≡ true → parent_chan p ≡ of_proc i
child_of-parent_chan i p h = go p.parent h
  where
    go :
        (o : Option ℕ)
        → elim o [ none ↦ false | some q ↦ q == i ] ≡ true
        → elim o [ none ↦ Chan.null | some q ↦ of_proc q ] ≡ of_proc i
    go none h = absurd (ground arith)
    go (some q) h = (let e : q ≡ i = ground arith in ap of_proc e)

child_of-has_parent : (i : ℕ) (p : Proc) → child_of i p ≡ true → has_parent p ≡ true
child_of-has_parent i p h = go p.parent h
  where
    go :
        (o : Option ℕ)
        → elim o [ none ↦ false | some q ↦ q == i ] ≡ true
        → elim o [ none ↦ false | some q ↦ true ] ≡ true
    go none h = h
    go (some q) h = refl

module _ (me init : ℕ) (other : init ≢ me) (init_in : init < nproc) where
  -- The slots under `i` have been gone through.
  pub record Moved (i : ℕ) (s s' : Slots) : Type 0 where
    pub unused_same : (j : ℕ) → j < nproc → is_unused (s' j).state ≡ is_unused (s j).state
    pub zombie_same : (j : ℕ) → j < nproc → is_zombie (s' j).state ≡ is_zombie (s j).state
    pub parent_same : (j : ℕ) → j < nproc → has_parent (s' j) ≡ has_parent (s j)
    pub waits_less : (j k : ℕ) → j < nproc → waits_as k (s' j) ≡ true → waits_as k (s j) ≡ true
    pub child_moved :
        (j k : ℕ)
        → j < nproc
        → child_of k (s' j) ≡ (if ltb j i && child_of me (s j) then init == k else child_of k (s j))
    pub init_awake : (j : ℕ) → j < i → child_of me (s j) ≡ true → waits_as init (s' init) ≡ false

  unfoldable adopted : Slots → ℕ → Slots
  adopted s i = update s i (record (s i) { parent = some init })

  module _ (s : Slots) (i : ℕ) where
    adopted_state : (j : ℕ) → (adopted s i j).state ≡ (s j).state
    unfolding adopted
    adopted_state j = elim (Bool-cases (j == i)) [
      | inl e ↦ (let same : j ≡ i = ground arith in rw (same, eqb_refl i) refl)
      | inr e ↦ rw e refl
    ]

    adopted_waits : (j k : ℕ) → waits_as k (adopted s i j) ≡ waits_as k (s j)
    unfolding adopted
    adopted_waits j k = elim (Bool-cases (j == i)) [
      | inl e ↦ (let same : j ≡ i = ground arith in rw (same, eqb_refl i) refl)
      | inr e ↦ rw e refl
    ]

    adopted_child :
        (j k : ℕ) → child_of k (adopted s i j) ≡ (if j == i then init == k else child_of k (s j))
    unfolding adopted
    adopted_child j k = elim (Bool-cases (j == i)) [ inl e ↦ rw e refl | inr e ↦ rw e refl ]

    adopted_has : child_of me (s i) ≡ true → (j : ℕ) → has_parent (adopted s i j) ≡ has_parent (s j)
    unfolding adopted
    adopted_has child j = elim (Bool-cases (j == i)) [
      | inl e ↦
          let same : j ≡ i = ground arith in
          rw (same, eqb_refl i) (sym (child_of-has_parent me (s i) child))
      | inr e ↦ rw e refl
    ]

  -- A slot that is not the child at hand is gone through before or after alike.
  passed : (i j : ℕ) (c : Bool) → (j == i && c) ≡ false → (ltb j i && c) ≡ (ltb j (i + 1) && c)
  passed i j c h = ground arith

  adopt-Moved :
      (i : ℕ) (s s' : Slots) → i < nproc → Moved i s s' → Moved (i + 1) s (adopt me me init i s')
  unfolding adopted
  adopt-Moved i s s' hi m =
      let was : child_of me (s' i) ≡ child_of me (s i) =
        m.child_moved i me hi
        ∙ (let now : (ltb i i && child_of me (s i)) ≡ false = ground arith in rw now refl) in
      elim (Bool-cases (child_of me (s' i))) [
        | inr no_ ↦
            let no_child : (j : ℕ) → (j == i && child_of me (s j)) ≡ false = λ j.
              elim (Bool-cases (j == i)) [
                | inl e ↦ (let same : j ≡ i = ground arith in rw (e, same) (sym was ∙ no_))
                | inr e ↦ rw e refl
              ] in
            rw no_ (record {
              unused_same = m.unused_same;
              zombie_same = m.zombie_same;
              parent_same = m.parent_same;
              waits_less = m.waits_less;
              child_moved = λ j k hj.
                  m.child_moved j k hj ∙ rw (passed i j (child_of me (s j)) (no_child j)) refl;
              init_awake = λ j lt h. m.init_awake j (ground (arith, no_child j)) h;
            })
        | inl yes_ ↦
            let quiet : (j : ℕ)
                → j < nproc
                → QuietAt (adopted s' i j) (wakeup me (of_proc init) (adopted s' i) j) =
              λ j hj.
                rw (wakeup_lem me (of_proc init) (adopted s' i) j hj)
                  (wake-QuietAt me (of_proc init) j (adopted s' i j)) in
            rw yes_ (record {
              unused_same = λ j hj.
                  (quiet j hj).unused_same
                  ∙ ap is_unused (adopted_state s' i j)
                  ∙ m.unused_same j hj;
              zombie_same = λ j hj.
                  (quiet j hj).zombie_same
                  ∙ ap is_zombie (adopted_state s' i j)
                  ∙ m.zombie_same j hj;
              parent_same =
                  λ j hj. (quiet j hj).parent_same ∙ adopted_has s' i yes_ j ∙ m.parent_same j hj;
              waits_less = λ j k hj h.
                  m.waits_less j k hj (sym (adopted_waits s' i j k) ∙ (quiet j hj).waits_less k h);
              child_moved = λ j k hj.
                  (quiet j hj).child_same k ∙ adopted_child s' i j k ∙ elim (Bool-cases (j == i)) [
                    | inl e ↦
                        let same : j ≡ i = ground arith in
                        let child : child_of me (s i) ≡ true = sym was ∙ yes_ in
                        let gone : (ltb i (i + 1) && true) ≡ true = ground arith in
                        rw (same, eqb_refl i, child, gone) refl
                    | inr e ↦
                        rw (e, ← passed i j (child_of me (s j)) (ground arith))
                          (m.child_moved j k hj)
                  ];
              init_awake = λ j lt h.
                  rw (wakeup_lem me (of_proc init) (adopted s' i) init init_in)
                    (wake-awake me init (adopted s' i init) other);
            })
      ]

  reparent_loop-Moved :
      (left i : ℕ) (s s' : Slots)
      → i + left ≡ nproc
      → Moved i s s'
      → Moved nproc s (reparent_loop me me init left i s')
  unfolding reparent_loop
  reparent_loop-Moved zero i s s' e m =
      let end : i ≡ nproc = omega arith in subst (λ n. Moved n s s') end m
  reparent_loop-Moved (suc left) i s s' e m =
      reparent_loop-Moved left (i + 1) s (adopt me me init i s') (omega arith)
        (adopt-Moved i s s' (omega arith) m)

  pub reparent-Moved : (s : Slots) → Moved nproc s (reparent me me init s)
  unfolding reparent
  reparent-Moved s = reparent_loop-Moved nproc 0 s s (omega arith) (record {
    unused_same = λ j hj. refl;
    zombie_same = λ j hj. refl;
    parent_same = λ j hj. refl;
    waits_less = λ j k hj h. h;
    child_moved = λ j k hj. ground arith;
    init_awake = λ j lt h. absurd (omega arith);
  })
