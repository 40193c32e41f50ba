-- ===== src/Procs/Family/Quiet.antt =====
-- Steps that make, reap and reparent nobody and let nobody start to wait.
use fog_os.Prelude.{
  ℕ, zero, suc, ◌+◌, ◌<◌, ◌≡◌, refl, sym, ◌∙◌, true, false, not, ◌&&◌, ◌==◌, arith, if◌then◌else◌,
  update, Bool-cases, inl, inr, eqb_refl,
}
use fog_os.Procs.{
  Slots, Chan, same_chan, Proc, ProcState, nproc, is_unused, is_sleeping, is_zombie, child_of, wake,
  wakeup, kill_loop, kill,
}
use fog_os.Procs.Wake.{wakeup_lem}
use fog_os.Procs.Family.{Family, is_live, waits_as, has_parent}

-- A sleeping process is in use and no zombie.
pub sleeping_lem :
    (st : ProcState) → is_sleeping st ≡ true → (is_unused st ≡ false) × (is_zombie st ≡ false)
sleeping_lem ProcState.unused h = absurd (ground arith)
sleeping_lem ProcState.used h = absurd (ground arith)
sleeping_lem ProcState.sleeping h = (refl, refl)
sleeping_lem ProcState.runnable h = absurd (ground arith)
sleeping_lem ProcState.running h = absurd (ground arith)
sleeping_lem ProcState.zombie h = absurd (ground arith)

pub record QuietAt (p p' : Proc) : Type 0 where
  pub unused_same : is_unused p'.state ≡ is_unused p.state
  pub zombie_same : is_zombie p'.state ≡ is_zombie p.state
  pub child_same : (k : ℕ) → child_of k p' ≡ child_of k p
  pub parent_same : has_parent p' ≡ has_parent p
  pub waits_less : (k : ℕ) → waits_as k p' ≡ true → waits_as k p ≡ true

pub QuietAt-refl : (p : Proc) → QuietAt p p
QuietAt-refl p = record {
  unused_same = refl;
  zombie_same = refl;
  child_same = λ k. refl;
  parent_same = refl;
  waits_less = λ k h. h;
}

pub wake-QuietAt : (me : ℕ) (c : Chan) (i : ℕ) (p : Proc) → QuietAt p (wake me c i p)
wake-QuietAt me c i p =
    elim (Bool-cases (not (i == me) && is_sleeping p.state && same_chan p.chan c)) [
      | inr no_ ↦ rw no_ (QuietAt-refl p)
      | inl yes_ ↦
          let asleep : is_sleeping p.state ≡ true = ground arith in
          let (in_use, no_zombie) = sleeping_lem p.state asleep in
          rw yes_ (record {
            unused_same = sym in_use;
            zombie_same = sym no_zombie;
            child_same = λ k. refl;
            parent_same = refl;
            waits_less = λ k h. absurd (ground arith);
          })
    ]

-- If each slot changes quietly, the family is kept.
pub Quiet-Family :
    (init : ℕ) (s s' : Slots)
    → ((i : ℕ) → i < nproc → QuietAt (s i) (s' i))
    → Family init s
    → Family init s'
Quiet-Family init s s' quiet f = record {
  init_in = f.init_in;
  init_live = (let q = quiet init f.init_in in rw (q.unused_same, q.zombie_same) f.init_live);
  parent_in = λ i p hi h. f.parent_in i p hi (sym ((quiet i hi).child_same p) ∙ h);
  parent_live = λ i p hi h.
      let was = sym ((quiet i hi).child_same p) ∙ h in
      let q = quiet p (f.parent_in i p hi was) in
      rw (q.unused_same, q.zombie_same) (f.parent_live i p hi was);
  orphan = λ i hi other h.
      (quiet i hi).parent_same ∙ f.orphan i hi other (sym (quiet i hi).unused_same ∙ h);
  own_chan = λ i k hi h. f.own_chan i k hi ((quiet i hi).waits_less k h);
  waiter = λ i j hi hj h c.
      (quiet j hj).zombie_same
      ∙ f.waiter i j hi hj ((quiet i hi).waits_less i h) (sym ((quiet j hj).child_same i) ∙ c);
}

pub wakeup-Family :
    (init me : ℕ) (c : Chan) (s : Slots) → Family init s → Family init (wakeup me c s)
wakeup-Family init me c s f =
    Quiet-Family init s (wakeup me c s)
      (λ i hi. rw (wakeup_lem me c s i hi) (wake-QuietAt me c i (s i))) f

-- One slot changes quietly.
pub update-Family :
    (init i : ℕ) (p : Proc) (s : Slots)
    → QuietAt (s i) p
    → Family init s
    → Family init (update s i p)
update-Family init i p s q f =
    Quiet-Family init s (update s i p)
      (λ j hj. elim (Bool-cases (j == i)) [
        | inl e ↦ (let same : j ≡ i = ground arith in rw (same, eqb_refl i) q)
        | inr e ↦ rw e (QuietAt-refl (s j))
      ])
      f

-- A process that is neither free nor a zombie changes into such a one that is not in `wait`.
pub QuietAt-live :
    (p : Proc) (st : ProcState) (c : Chan)
    → is_live p.state ≡ true
    → is_live st ≡ true
    → ((k : ℕ) → waits_as k (record p { state = st; chan = c }) ≡ false)
    → QuietAt p (record p { state = st; chan = c })
QuietAt-live p st c was is_ awake = record {
  unused_same = ground arith;
  zombie_same = ground arith;
  child_same = λ k. refl;
  parent_same = refl;
  waits_less = λ k h. absurd (ground (arith, awake k));
}

kill-QuietAt :
    (p : Proc)
    → QuietAt p (record p {
      is_killed = true;
      state = if is_sleeping p.state then ProcState.runnable else p.state;
    })
kill-QuietAt p = elim (Bool-cases (is_sleeping p.state)) [
  | inr no_ ↦ rw no_ (record {
    unused_same = refl;
    zombie_same = refl;
    child_same = λ k. refl;
    parent_same = refl;
    waits_less = λ k h. h;
  })
  | inl yes_ ↦
      let (in_use, no_zombie) = sleeping_lem p.state yes_ in
      rw yes_ (record {
        unused_same = sym in_use;
        zombie_same = sym no_zombie;
        child_same = λ k. refl;
        parent_same = refl;
        waits_less = λ k h. absurd (ground arith);
      })
]

kill_loop-Family :
    (init pid left i : ℕ) (s : Slots) → Family init s → Family init (kill_loop pid left i s).1
unfolding kill_loop
kill_loop-Family init pid zero i s f = f
kill_loop-Family init pid (suc left) i s f = elim (Bool-cases ((s i).pid == pid)) [
  | inl e ↦ rw e (update-Family init i _ s (kill-QuietAt (s i)) f)
  | inr e ↦ rw (e, kill_loop) (kill_loop-Family init pid left (i + 1) s f)
]

pub kill-Family : (init pid : ℕ) (s : Slots) → Family init s → Family init (kill pid s).1
unfolding kill
kill-Family init pid s f = kill_loop-Family init pid nproc 0 s f
