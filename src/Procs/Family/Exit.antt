-- ===== src/Procs/Family/Exit.antt =====
-- `exit` gives the children of a process to `init`, wakes its parent and leaves a zombie.
use fog_os.Prelude.{
  ℕ, ◌<◌, ◌≡◌, ◌≢◌, refl, ap, sym, ◌∙◌, true, false, ◌==◌, arith, update, Bool-cases, inl, inr,
  eqb_refl, ◌⊎◌,
}
use fog_os.Procs.{
  Slots, of_proc, ProcState, nproc, is_unused, is_zombie, child_of, wakeup, reparent, parent_chan,
}
use fog_os.Procs.Wake.{wakeup_lem}
use fog_os.Procs.Family.{Family, is_live, waits_as, has_parent}
use fog_os.Procs.Family.Quiet.{QuietAt, wake-QuietAt}
use fog_os.Procs.Family.Reparent.{Moved, reparent-Moved, wake-awake, child_of-parent_chan}

module _ (status me init : ℕ) (s : Slots) (f : Family init s) (hme : me < nproc) (other : init ≢ me)
    (live : is_live (s me).state ≡ true) where
  abbrev s1 : Slots
  s1 = reparent me me init s

  abbrev s2 : Slots
  s2 = wakeup me (parent_chan (s1 me)) s1

  abbrev s3 : Slots
  s3 = update s2 me (record (s2 me) { xstate = status; state = ProcState.zombie })

  moved : Moved me init other f.init_in nproc s s1
  moved = reparent-Moved me init other f.init_in s

  woken : (j : ℕ) → j < nproc → QuietAt (s1 j) (s2 j)
  woken j hj =
      rw (wakeup_lem me (parent_chan (s1 me)) s1 j hj)
        (wake-QuietAt me (parent_chan (s1 me)) j (s1 j))

  last_other : (j : ℕ) → j ≢ me → s3 j ≡ s2 j
  last_other j away = let e : (j == me) ≡ false = ground arith in rw e refl

  last_child : (j k : ℕ) → child_of k (s3 j) ≡ child_of k (s2 j)
  last_child j k = elim (Bool-cases (j == me)) [
    | inl e ↦ (let same : j ≡ me = ground arith in rw (same, eqb_refl me) refl)
    | inr e ↦ rw e refl
  ]

  last_has : (j : ℕ) → has_parent (s3 j) ≡ has_parent (s2 j)
  last_has j = elim (Bool-cases (j == me)) [
    | inl e ↦ (let same : j ≡ me = ground arith in rw (same, eqb_refl me) refl)
    | inr e ↦ rw e refl
  ]

  -- The children of a process other than `init` are those that it had, and none are left to `me`.
  child_after :
      (j k : ℕ)
      → j < nproc
      → child_of k (s3 j) ≡ true
      → ((init ≡ k) × (child_of me (s j) ≡ true))
        ⊎ ((child_of me (s j) ≡ false) × (child_of k (s j) ≡ true))
  child_after j k hj h =
      let was =
        sym (moved.child_moved j k hj)
        ∙ sym ((woken j hj).child_same k)
        ∙ sym (last_child j k)
        ∙ h in
      elim (Bool-cases (child_of me (s j))) [
        | inl yes_ ↦ inl (ground arith, yes_)
        | inr no_ ↦ inr (no_, ground arith)
      ]

  live_after :
      (p : ℕ) → p < nproc → p ≢ me → is_live (s p).state ≡ true → is_live (s3 p).state ≡ true
  live_after p hp away h =
      rw
        (
          last_other p away,
          (woken p hp).unused_same,
          (woken p hp).zombie_same,
          moved.unused_same p hp,
          moved.zombie_same p hp,
        )
        h

  waits_after :
      (i k : ℕ) → i < nproc → waits_as k (s3 i) ≡ true → (i ≢ me) × (waits_as k (s1 i) ≡ true)
  waits_after i k hi h = elim (Bool-cases (i == me)) [
    | inl e ↦ absurd (ground arith)
    | inr e ↦
        let away : i ≢ me = ground arith in
        (away, (woken i hi).waits_less k (ap (waits_as k) (sym (last_other i away)) ∙ h))
  ]

  -- Nobody waits as the parent of the process that exits.
  parent_awake :
      (i : ℕ) → i < nproc → i ≢ me → child_of i (s1 me) ≡ true → waits_as i (s2 i) ≡ false
  parent_awake i hi away child =
      rw (child_of-parent_chan i (s1 me) child, wakeup_lem me (of_proc i) s1 i hi)
        (wake-awake me i (s1 i) away)

  waiter_after :
      (i j : ℕ)
      → i < nproc
      → j < nproc
      → waits_as i (s3 i) ≡ true
      → child_of i (s3 j) ≡ true
      → is_zombie (s3 j).state ≡ false
  waiter_after i j hi hj h c =
      let (away, waited) = waits_after i i hi h in
      let still : waits_as i (s2 i) ≡ true = ap (waits_as i) (sym (last_other i away)) ∙ h in
      elim (Bool-cases (j == me)) [
        | inl e ↦
            let same : j ≡ me = ground arith in
            let child : child_of i (s1 me) ≡ true =
              sym ((woken me hme).child_same i)
              ∙ sym (last_child me i)
              ∙ ap (λ x. child_of i (s3 x)) (sym same)
              ∙ c in
            absurd (ground (arith, parent_awake i hi away child, still))
        | inr e ↦
            let apart : j ≢ me = ground arith in
            ap (λ p. is_zombie p.state) (last_other j apart)
            ∙ (woken j hj).zombie_same
            ∙ moved.zombie_same j hj
            ∙ elim (child_after j i hj c) [
              | inl (is_init, child) ↦
                  let awake = moved.init_awake j hj child in
                  absurd (ground (arith, awake, waited, ap (λ x. waits_as x (s1 x)) is_init))
              | inr (_, was) ↦ f.waiter i j hi hj (moved.waits_less i i hi waited) was
            ]
      ]

  pub exit-Family : Family init s3
  exit-Family = record {
    init_in = f.init_in;
    init_live = live_after init f.init_in other f.init_live;
    parent_in = λ i p hi h. elim (child_after i p hi h) [
      | inl (is_init, _) ↦ (rw (← is_init) f.init_in)
      | inr (_, was) ↦ f.parent_in i p hi was
    ];
    parent_live = λ i p hi h. elim (child_after i p hi h) [
      | inl (is_init, _) ↦ (rw (← is_init) (live_after init f.init_in other f.init_live))
      | inr (no_child, was) ↦
          live_after p (f.parent_in i p hi was)
            (λ e. absurd (ground (arith, no_child, was, ap (λ q. child_of q (s i)) e)))
            (f.parent_live i p hi was)
    ];
    orphan = λ i hi away h.
        last_has i
        ∙ (woken i hi).parent_same
        ∙ moved.parent_same i hi
        ∙ f.orphan i hi away (elim (Bool-cases (i == me)) [
          | inl e ↦ (let same : i ≡ me = ground arith in rw same (ground arith))
          | inr e ↦
              let apart : i ≢ me = ground arith in
              sym (moved.unused_same i hi)
              ∙ sym (woken i hi).unused_same
              ∙ ap (λ p. is_unused p.state) (sym (last_other i apart))
              ∙ h
        ]);
    own_chan = λ i k hi h. f.own_chan i k hi (moved.waits_less i k hi (waits_after i k hi h).1);
    waiter = waiter_after;
  }
