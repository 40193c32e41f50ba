-- ===== src/Spinlock/Exclusion.antt =====
-- One lock and any number of CPUs, whose stores to the lock come in any order.
use mathlib.Core.Path.{subst}
use fog_os.Prelude.{
  ℕ, ◌≡◌, refl, ap, sym, ◌∙◌, Bool, true, false, ◌==◌, if◌then◌else◌, arith, update, Outcome, ok,
  panic, IfOk, ◌>>=◌, Bool-cases, inl, inr, eqb_refl, none,
}
use fog_os.Spinlock.{
  Cpu, push_off, pop_off, Lock, free_lock, is_mine, holding, Acquired, panicked, spins, acquired,
  try_lock, acquire, note_cpu, begin_release, end_release,
}

-- Where a CPU is: it does not have the lock; it has taken it and not noted that; it is between
-- `acquire` and `release`; or it has withdrawn its note and not yet given the lock back.
pub data Place : Type 0 where
  outside taking inside leaving : Place

abbrev pub has_lock : Place → Bool
has_lock outside = false
has_lock _ = true

abbrev pub is_inside : Place → Bool
is_inside inside = true
is_inside _ = false

abbrev pub is_settled : Place → Bool
is_settled outside = true
is_settled taking = false
is_settled inside = true
is_settled leaving = false

pub record Machine : Type 0 where
  pub lock : Lock
  pub cpus : ℕ → Cpu
  pub place : ℕ → Place

abbrev pub after_try : (me : ℕ) → Machine → Acquired → Machine
after_try me m panicked = m
after_try me m (spins c) = record m { cpus = update m.cpus me c }
after_try me m (acquired c lk) = record {
  lock = lk;
  cpus = update m.cpus me c;
  place = update m.place me taking;
}

-- `enter` is a call of `acquire` up to its first test-and-set, `retry` a later one, and `note` the
-- end of the call; `leave` is a call of `release` up to its first store, and `unlock` its end.
pub data Step (m : Machine) : Machine → Type 0 where
  enter :
      (me : ℕ)
      → is_settled (m.place me) ≡ true
      → Step m (after_try me m (acquire me (m.cpus me) m.lock))
  retry : (me : ℕ) → m.place me ≡ outside → Step m (after_try me m (try_lock (m.cpus me) m.lock))
  note :
      (me : ℕ)
      → m.place me ≡ taking
      → Step m (record m { lock = note_cpu me m.lock; place = update m.place me inside })
  leave :
      (me : ℕ) (lk : Lock)
      → is_settled (m.place me) ≡ true
      → begin_release me m.lock ≡ ok lk
      → Step m (record m { lock = lk; place = update m.place me leaving })
  unlock :
      (me : ℕ) (c : Cpu) (lk : Lock)
      → m.place me ≡ leaving
      → end_release (m.cpus me) m.lock ≡ ok (c, lk)
      → Step m (record { lock = lk; cpus = update m.cpus me c; place = update m.place me outside })

pub data Reach : Machine → Type 0 where
  fresh : (cpus : ℕ → Cpu) → Reach (record { lock = free_lock; cpus = cpus; place = λ i. outside })
  later : {m m' : Machine} → Reach m → Step m m' → Reach m'

record Agrees (lk : Lock) (place : ℕ → Place) : Type 0 where
  locked : (i : ℕ) → has_lock (place i) ≡ true → lk.locked ≡ true
  alone : (i j : ℕ) → has_lock (place i) ≡ true → has_lock (place j) ≡ true → i ≡ j
  knows : (i : ℕ) → is_inside (place i) ≡ is_mine i lk.cpu

inside_has : (p : Place) → is_inside p ≡ true → has_lock p ≡ true
inside_has outside h = absurd (ground (arith, h))
inside_has taking h = refl
inside_has inside h = refl
inside_has leaving h = refl

-- A CPU that has the lock goes on to another place.
module _ (me : ℕ) (lk lk' : Lock) (place : ℕ → Place) (to : Place) (agrees : Agrees lk place)
    (has : has_lock (place me) ≡ true) where
  moved_has : (i : ℕ) → has_lock (update place me to i) ≡ true → has_lock (place i) ≡ true
  moved_has i h = elim (Bool-cases (i == me)) [
    | inl e ↦
        let same : me ≡ i = ground (arith, e) in subst (λ x. has_lock (place x) ≡ true) same has
    | inr e ↦ subst (λ b. has_lock (if b then to else place i) ≡ true) e h
  ]

  moved_elsewhere : (i : ℕ) → (i == me) ≡ false → is_inside (place i) ≡ false
  moved_elsewhere i e = elim (Bool-cases (is_inside (place i))) [
    | inr out ↦ out
    | inl in_ ↦
        (let same = agrees.alone i me (inside_has (place i) in_) has in
          absurd (ground (arith, same, e)))
  ]

  moved-Agrees :
      ((i : ℕ) → has_lock (update place me to i) ≡ true → lk'.locked ≡ true)
      → is_inside to ≡ is_mine me lk'.cpu
      → ((i : ℕ) → (i == me) ≡ false → is_mine i lk'.cpu ≡ false)
      → Agrees lk' (update place me to)
  moved-Agrees locked here elsewhere = record {
    locked = locked;
    alone = λ i j hi hj. agrees.alone i j (moved_has i hi) (moved_has j hj);
    knows = λ i. elim (Bool-cases (i == me)) [
      | inl e ↦ (let same : i ≡ me = ground (arith, e) in rw (same, eqb_refl me) here)
      | inr e ↦ rw e (moved_elsewhere i e ∙ sym (elsewhere i e))
    ];
  }

try_lock-Agrees :
    (me : ℕ) (c : Cpu) (m : Machine)
    → Agrees m.lock m.place
    → (let m' = after_try me m (try_lock c m.lock) in Agrees m'.lock m'.place)
try_lock-Agrees me c m agrees = elim (Bool-cases m.lock.locked) [
  | inl taken ↦ (let e : try_lock c m.lock ≡ spins c = rw taken refl in rw e agrees)
  | inr free_ ↦
      let none_has : (i : ℕ) → has_lock (m.place i) ≡ false = λ i.
        (elim (Bool-cases (has_lock (m.place i))) [
          | inl has ↦ absurd (ground (arith, agrees.locked i has, free_))
          | inr no_ ↦ no_
        ]) in
      let only : (i : ℕ) → has_lock (update m.place me taking i) ≡ true → i ≡ me = λ i h.
        (elim (Bool-cases (i == me)) [
          | inl e ↦ ground (arith, e)
          | inr e ↦ absurd (
              ground (
                arith,
                none_has i,
                subst (λ b. has_lock (if b then taking else m.place i) ≡ true) e h,
              ))
        ]) in
      let e : try_lock c m.lock ≡ acquired c (record m.lock { locked = true }) = rw free_ refl in
      subst (λ a. (let m' = after_try me m a in Agrees m'.lock m'.place)) (sym e)
        (record {
          locked = λ i h. refl;
          alone = λ i j hi hj. only i hi ∙ sym (only j hj);
          knows = λ i. elim (Bool-cases (i == me)) [
            | inl at ↦
                let same : i ≡ me = ground (arith, at) in
                let out : is_inside (m.place me) ≡ false =
                  elim (Bool-cases (is_inside (m.place me))) [
                    | inl in_ ↦ absurd (ground (arith, inside_has (m.place me) in_, none_has me))
                    | inr no_ ↦ no_
                  ] in
                rw (same, eqb_refl me) (sym out ∙ agrees.knows me)
            | inr at ↦ rw at (agrees.knows i)
          ];
        })
]

enter-Agrees :
    (me : ℕ) (m : Machine)
    → Agrees m.lock m.place
    → (let m' = after_try me m (acquire me (m.cpus me) m.lock) in Agrees m'.lock m'.place)
unfolding acquire
enter-Agrees me m agrees = elim (Bool-cases (holding me m.lock)) [
  | inl mine ↦ (let e : acquire me (m.cpus me) m.lock ≡ panicked = rw mine refl in rw e agrees)
  | inr other ↦
      let e : acquire me (m.cpus me) m.lock ≡ try_lock (push_off (m.cpus me)) m.lock =
        rw other refl in
      subst (λ a. (let m' = after_try me m a in Agrees m'.lock m'.place)) (sym e)
        (try_lock-Agrees me (push_off (m.cpus me)) m agrees)
]

note-Agrees :
    (me : ℕ) (lk : Lock) (place : ℕ → Place)
    → Agrees lk place
    → place me ≡ taking
    → Agrees (note_cpu me lk) (update place me inside)
note-Agrees me lk place agrees at =
    let has : has_lock (place me) ≡ true = ap has_lock at in
    moved-Agrees me lk (note_cpu me lk) place inside agrees has (λ i h. agrees.locked me has)
      (sym (eqb_refl me)) (λ i e. ground (arith, e))

leave-Agrees :
    (me : ℕ) (lk : Lock) (place : ℕ → Place)
    → Agrees lk place
    → IfOk (λ lk'. Agrees lk' (update place me leaving)) (begin_release me lk)
unfolding begin_release
leave-Agrees me lk place agrees = elim (Bool-cases (holding me lk)) [
  | inr other ↦ rw (other, IfOk) tt
  | inl mine ↦
      let in_ : is_inside (place me) ≡ true = agrees.knows me ∙ ground (arith, mine) in
      let has = inside_has (place me) in_ in
      rw (mine, IfOk)
        (moved-Agrees me lk (record lk { cpu = none }) place leaving agrees has
          (λ i h. agrees.locked me has) refl (λ i e. refl))
]

unlock-Agrees :
    (me : ℕ) (c : Cpu) (lk : Lock) (place : ℕ → Place)
    → Agrees lk place
    → place me ≡ leaving
    → IfOk {A = Cpu × Lock} (λ r. Agrees r.1 (update place me outside)) (end_release c lk)
unfolding end_release
unlock-Agrees me c lk place agrees at = go (pop_off c)
  where
    has : has_lock (place me) ≡ true
    has = ap has_lock at

    none_has : (i : ℕ) → has_lock (update place me outside i) ≡ true → ⊥
    none_has i h = elim (Bool-cases (i == me)) [
      | inl e ↦
          absurd (ground (arith, subst (λ b. has_lock (if b then outside else place i) ≡ true) e h))
      | inr e ↦
          let still = subst (λ b. has_lock (if b then outside else place i) ≡ true) e h in
          let same = agrees.alone i me still has in absurd (ground (arith, same, e))
    ]

    unlocked : Agrees (record lk { locked = false }) (update place me outside)
    unlocked =
        moved-Agrees me lk (record lk { locked = false }) place outside agrees has
          (λ i h. absurd (none_has i h)) (sym (ap is_inside at) ∙ agrees.knows me)
          (λ i e. sym (agrees.knows i) ∙ moved_elsewhere me lk lk place leaving agrees has i e)

    go :
        (o : Outcome Cpu)
        → IfOk {A = Cpu × Lock}
            (λ r. Agrees r.1 (update place me outside))
            (o >>= λ c'. ok (c', record lk { locked = false }))
    go (ok c') = unlocked
    go (panic why) = tt

Reach-Agrees : {m : Machine} → Reach m → Agrees m.lock m.place
Reach-Agrees (fresh cpus) = record {
  locked = λ i h. absurd (ground (arith, h));
  alone = λ i j h h'. absurd (ground (arith, h));
  knows = λ i. refl;
}
Reach-Agrees (later {m} r (enter me settled)) = enter-Agrees me m (Reach-Agrees r)
Reach-Agrees (later {m} r (retry me out)) = try_lock-Agrees me (m.cpus me) m (Reach-Agrees r)
Reach-Agrees (later {m} r (note me at)) = note-Agrees me m.lock m.place (Reach-Agrees r) at
Reach-Agrees (later {m} r (leave me lk settled done)) =
    subst (IfOk (λ lk'. Agrees lk' (update m.place me leaving))) done
      (leave-Agrees me m.lock m.place (Reach-Agrees r))
Reach-Agrees (later {m} r (unlock me c lk at done)) =
    subst (IfOk {A = Cpu × Lock} (λ r'. Agrees r'.1 (update m.place me outside))) done
      (unlock-Agrees me (m.cpus me) m.lock m.place (Reach-Agrees r) at)

-- What a reachable machine satisfies.
pub record Exclusive (m : Machine) : Type 0 where
  pub one_has : (i j : ℕ) → has_lock (m.place i) ≡ true → has_lock (m.place j) ≡ true → i ≡ j
  pub knows : (i : ℕ) → holding i m.lock ≡ is_inside (m.place i)

-- From a free lock on, through any calls of `acquire` and `release` by any CPUs, with their
-- test-and-sets and their stores to the lock in any order and any spinning, at most one CPU has the
-- lock, from its test-and-set in `acquire` to its store to `locked` in `release`, and `holding` tells
-- each CPU whether it is the one between `acquire` and `release`.
pub Reach-Exclusive : {m : Machine} → Reach m → Exclusive m
Reach-Exclusive {m} r =
    let agrees = Reach-Agrees r in
    record {
      one_has = agrees.alone;
      knows = λ i. elim (Bool-cases (is_inside (m.place i))) [
        | inl in_ ↦
            let lk = agrees.locked i (inside_has (m.place i) in_) in
            let mine = sym (agrees.knows i) ∙ in_ in rw (in_, lk, mine) refl
        | inr out ↦ (let other = sym (agrees.knows i) ∙ out in ground (arith, out, other))
      ];
    }
