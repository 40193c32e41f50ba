-- ===== src/Procs/Family/Wait.antt =====
-- `wait` reaps a zombie child, or sleeps when there is none.
use fog_os.Prelude.{
  ℕ, ◌≤◌, ◌<◌, ◌≡◌, ◌≢◌, refl, ap, sym, ◌∙◌, Bool, true, false, not, ◌||◌, ◌==◌, arith,
  if◌then◌else◌, update, Bool-cases, inl, inr, none, some, eqb_refl,
}
use fog_os.Procs.{
  Slots, of_proc, ProcState, nproc, is_unused, is_zombie, child_of, sleep, free_slot, freeproc,
  Found, reap, no_zombie, Waited, returned, asleep, wait,
}
use fog_os.Procs.Family.{Family, is_live, waits_as}
use fog_os.Procs.Family.Slot.{
  Scanned, zombie_child, no_zombie_child, wait_scan-Scanned, zombie-not_live, away, emptied-Family,
}

abbrev pub slots_of : Waited → Slots
slots_of (returned result s) = s
slots_of (asleep s) = s

module _ (init me : ℕ) (s : Slots) (f : Family init s) (hme : me < nproc)
    (live : is_live (s me).state ≡ true) where
  kept_other : (j : ℕ) → j ≢ me → sleep me (of_proc me) s j ≡ s j
  unfolding sleep
  kept_other j other = rw (away me j other) refl

  at : sleep me (of_proc me) s me ≡ record (s me) { chan = of_proc me; state = ProcState.sleeping }
  unfolding sleep
  at = rw (eqb_refl me) refl

  child_after : (j k : ℕ) → child_of k (sleep me (of_proc me) s j) ≡ child_of k (s j)
  child_after j k = elim (Bool-cases (j == me)) [
    | inl e ↦ (let same : j ≡ me = ground arith in rw (same, at) refl)
    | inr e ↦ ap (child_of k) (kept_other j (ground arith))
  ]

  live_after :
      (p : ℕ) → is_live (s p).state ≡ true → is_live (sleep me (of_proc me) s p).state ≡ true
  live_after p h = elim (Bool-cases (p == me)) [
    | inl e ↦ (let same : p ≡ me = ground arith in rw (same, at) refl)
    | inr e ↦ rw (kept_other p (ground arith)) h
  ]

  slept_own-Family :
      ((j : ℕ) → 0 ≤ j → j < nproc → child_of me (s j) ≡ true → is_zombie (s j).state ≡ false)
      → Family init (sleep me (of_proc me) s)
  slept_own-Family clean = record {
    init_in = f.init_in;
    init_live = live_after init f.init_live;
    parent_in = λ i p hi h. f.parent_in i p hi (sym (child_after i p) ∙ h);
    parent_live = λ i p hi h. live_after p (f.parent_live i p hi (sym (child_after i p) ∙ h));
    orphan = λ i hi other h. elim (Bool-cases (i == me)) [
      | inl e ↦
          (let same : i ≡ me = ground arith in
            rw (same, at) (f.orphan me hme (λ z. other (same ∙ z)) (ground arith)))
      | inr e ↦
          let kept = kept_other i (ground arith) in
          rw kept (f.orphan i hi other (ap (λ p. is_unused p.state) (sym kept) ∙ h))
    ];
    own_chan = λ i k hi h. elim (Bool-cases (i == me)) [
      | inl e ↦
          (let same : i ≡ me = ground arith in
            ground
              (arith, ap (λ x. waits_as k (sleep me (of_proc me) s x)) same, ap (waits_as k) at))
      | inr e ↦ f.own_chan i k hi (ap (waits_as k) (sym (kept_other i (ground arith))) ∙ h)
    ];
    waiter = λ i j hi hj h c. elim (Bool-cases (j == me)) [
      | inl e ↦ (let same : j ≡ me = ground arith in rw (same, at) refl)
      | inr e ↦
          let kept = kept_other j (ground arith) in
          let child : child_of i (s j) ≡ true = sym (child_after j i) ∙ c in
          rw kept (elim (Bool-cases (i == me)) [
            | inl e' ↦
                (let same : i ≡ me = ground arith in
                  clean j (omega arith) hj (ap (λ x. child_of x (s j)) (sym same) ∙ child))
            | inr e' ↦
                f.waiter i j hi hj (ap (waits_as i) (sym (kept_other i (ground arith))) ∙ h) child
          ])
    ];
  }

pub wait-Family :
    (copied : Bool) (init me : ℕ) (s : Slots)
    → Family init s
    → me < nproc
    → is_live (s me).state ≡ true
    → Family init (slots_of (wait copied me s))
unfolding wait freeproc
wait-Family copied init me s f hme live = go (wait_scan-Scanned me nproc 0 false s (omega arith))
  where
    go :
        {o : Found}
        → Scanned me 0 s o
        → Family init (
            slots_of (elim o [
              | reap i ↦
                  if copied
                  then returned (some (s i).pid) (update s i free_slot)
                  else returned none s
              | no_zombie havekids ↦
                  if not havekids || (s me).is_killed
                  then returned none s
                  else asleep (sleep me (of_proc me) s)
            ]))
    go (zombie_child j hj child z) = elim (Bool-cases copied) [
      | inr no_ ↦ rw no_ f
      | inl yes_ ↦ rw yes_ (
          emptied-Family init me j s _ f hme live (zombie-not_live (s j).state z)
            (λ k other. rw (away j k other) refl) (rw (eqb_refl j) refl))
    ]
    go (no_zombie_child h clean) = elim (Bool-cases (not h || (s me).is_killed)) [
      | inl yes_ ↦ rw yes_ f
      | inr no_ ↦ rw no_ (slept_own-Family init me s f hme live clean)
    ]
