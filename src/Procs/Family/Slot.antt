-- ===== src/Procs/Family/Slot.antt =====
-- `fork`, and the reaping of a zombie: one slot that is no parent changes.
use fog_os.Prelude.{
  ℕ, zero, suc, ◌+◌, ◌≤◌, ◌<◌, ◌≡◌, ◌≢◌, refl, ap, sym, ◌∙◌, Bool, true, false, ◌&&◌, ◌||◌, ◌==◌,
  arith, if◌then◌else◌, update, Bool-cases, Option-cases, inl, inr, Option, none, some, eqb_refl,
}
use fog_os.Procs.{
  Slots, Proc, ProcState, Table, nproc, is_unused, is_zombie, child_of, free_slot, freeproc,
  find_unused, allocproc, fork, Found, reap, no_zombie, wait_scan,
}
use fog_os.Procs.Family.{Family, is_live, waits_as, has_parent}

-- A slot that is free or a zombie becomes what has no other parent than `me`, a live process.
record Refilled (init me i : ℕ) (s s' : Slots) : Type 0 where
  others : (j : ℕ) → j ≢ i → s' j ≡ s j
  not_live : is_live (s i).state ≡ false
  me_in : me < nproc
  me_live : is_live (s me).state ≡ true
  parent_me : (k : ℕ) → child_of k (s' i) ≡ true → me ≡ k
  parent_if_used : is_unused (s' i).state ≡ false → has_parent (s' i) ≡ true
  no_zombie_now : is_zombie (s' i).state ≡ false
  no_wait : (k : ℕ) → waits_as k (s' i) ≡ false

module _ (init me i : ℕ) (s s' : Slots) (r : Refilled init me i s s') (f : Family init s) where
  apart : (p : ℕ) → is_live (s p).state ≡ true → p ≢ i
  apart p live e = absurd (ground (arith, live, r.not_live, ap (λ q. is_live (s q).state) e))

  kept_live : (p : ℕ) → is_live (s p).state ≡ true → is_live (s' p).state ≡ true
  kept_live p live = rw (r.others p (apart p live)) live

  parent_after :
      (j p : ℕ) → j < nproc → child_of p (s' j) ≡ true → (p < nproc) × (is_live (s p).state ≡ true)
  parent_after j p hj h = elim (Bool-cases (j == i)) [
    | inl e ↦
        let same : j ≡ i = ground arith in
        let mine = r.parent_me p (ap (λ x. child_of p (s' x)) (sym same) ∙ h) in
        (rw (← mine) r.me_in, rw (← mine) r.me_live)
    | inr e ↦
        let was = ap (child_of p) (sym (r.others j (ground arith))) ∙ h in
        (f.parent_in j p hj was, f.parent_live j p hj was)
  ]

  waits_before : (j k : ℕ) → waits_as k (s' j) ≡ true → (j ≢ i) × (waits_as k (s j) ≡ true)
  waits_before j k h = elim (Bool-cases (j == i)) [
    | inl e ↦
        (let same : j ≡ i = ground arith in
          absurd (ground (arith, r.no_wait k, ap (λ x. waits_as k (s' x)) same, h)))
    | inr e ↦
        (let other : j ≢ i = ground arith in (other, ap (waits_as k) (sym (r.others j other)) ∙ h))
  ]

  Refilled-Family : Family init s'
  Refilled-Family = record {
    init_in = f.init_in;
    init_live = kept_live init f.init_live;
    parent_in = λ j p hj h. (parent_after j p hj h).0;
    parent_live = λ j p hj h. kept_live p (parent_after j p hj h).1;
    orphan = λ j hj away h. elim (Bool-cases (j == i)) [
      | inl e ↦
          (let same : j ≡ i = ground arith in
            rw same (r.parent_if_used (ap (λ x. is_unused (s' x).state) (sym same) ∙ h)))
      | inr e ↦
          let other = r.others j (ground arith) in
          rw other (f.orphan j hj away (ap (λ p. is_unused p.state) (sym other) ∙ h))
    ];
    own_chan = λ j k hj h. f.own_chan j k hj (waits_before j k h).1;
    waiter = λ j k hj hk h c. elim (Bool-cases (k == i)) [
      | inl e ↦ (let same : k ≡ i = ground arith in rw same r.no_zombie_now)
      | inr e ↦
          let other = r.others k (ground arith) in
          rw other (f.waiter j k hj hk (waits_before j j h).1 (ap (child_of j) (sym other) ∙ c))
    ];
  }

-- The slot is free afterwards.
module _ (init me i : ℕ) (s s' : Slots) (f : Family init s) (hme : me < nproc)
    (live : is_live (s me).state ≡ true) where
  pub emptied-Family :
      is_live (s i).state ≡ false
      → ((j : ℕ) → j ≢ i → s' j ≡ s j)
      → s' i ≡ free_slot
      → Family init s'
  emptied-Family dead others at =
      Refilled-Family init me i s s'
        (record {
          others = others;
          not_live = dead;
          me_in = hme;
          me_live = live;
          parent_me = λ k h. absurd (ground (arith, ap (child_of k) at, h));
          parent_if_used = λ h. absurd (ground (arith, ap (λ p. is_unused p.state) at, h));
          no_zombie_now = ap (λ p. is_zombie p.state) at;
          no_wait = λ k. ap (waits_as k) at;
        })
        f

  -- The slot is a child of `me` afterwards, and can run.
  started-Family :
      (p : Proc)
      → is_live (s i).state ≡ false
      → ((j : ℕ) → j ≢ i → s' j ≡ s j)
      → s' i ≡ record p { parent = some me; state = ProcState.runnable }
      → Family init s'
  started-Family p dead others at =
      Refilled-Family init me i s s'
        (record {
          others = others;
          not_live = dead;
          me_in = hme;
          me_live = live;
          parent_me = λ k h. (let mine = ap (child_of k) (sym at) ∙ h in ground arith);
          parent_if_used = λ h. ap has_parent at;
          no_zombie_now = ap (λ p. is_zombie p.state) at;
          no_wait = λ k. ap (waits_as k) at;
        })
        f

value : Option ℕ → ℕ
value none = 0
value (some i) = i

some-inj : (i j : ℕ) → some i ≡ some j → i ≡ j
unfolding value
some-inj i j e = ap value e

pub find_unused_lem :
    (left i : ℕ) (s : Slots) (j : ℕ)
    → find_unused left i s ≡ some j
    → (j < i + left) × (is_unused (s j).state ≡ true)
unfolding find_unused
find_unused_lem zero i s j h = absurd (ground arith)
find_unused_lem (suc left) i s j h = elim (Bool-cases (is_unused (s i).state)) [
  | inl free_ ↦
      let first : find_unused (suc left) i s ≡ some i = rw free_ refl in
      let same = some-inj i j (sym first ∙ h) in (omega arith, rw (← same) free_)
  | inr taken ↦
      let first : find_unused (suc left) i s ≡ find_unused left (i + 1) s = rw taken refl in
      let (inside, free_) = find_unused_lem left (i + 1) s j (sym first ∙ h) in (omega arith, free_)
]

unused-not_live : (st : ProcState) → is_unused st ≡ true → is_live st ≡ false
unused-not_live st h = ground arith

pub zombie-not_live : (st : ProcState) → is_zombie st ≡ true → is_live st ≡ false
zombie-not_live st h = ground arith

pub away : (i j : ℕ) → j ≢ i → (j == i) ≡ false
away i j other = ground arith

abbrev pub named : Table → ℕ → Slots
named t i = update t.slots i (record (t.slots i) { pid = t.nextpid; state = ProcState.used })

pub allocproc_lem :
    (memory : Bool) (t : Table) (i : ℕ)
    → find_unused nproc 0 t.slots ≡ some i
    → allocproc memory t ≡ (
        if memory
        then (some i, record t { slots = named t i; nextpid = t.nextpid + 1 })
        else (none, record t { slots = freeproc i (named t i); nextpid = t.nextpid + 1 }))
unfolding allocproc
allocproc_lem memory t i found = rw (found, allocproc) refl

allocproc_full :
    (memory : Bool) (t : Table)
    → find_unused nproc 0 t.slots ≡ none
    → allocproc memory t ≡ (none, t)
unfolding allocproc
allocproc_full memory t full = rw (full, allocproc) refl

module _ (me : ℕ) (t : Table) (f : Family t.initproc t.slots) (hme : me < nproc)
    (live : is_live (t.slots me).state ≡ true) where
  pub fork-Family :
      (memory copied : Bool)
      → Family (fork memory copied me t).1.initproc (fork memory copied me t).1.slots
  unfolding fork freeproc
  fork-Family memory copied = elim (Option-cases (find_unused nproc 0 t.slots)) [
    | inl none_ ↦ rw (allocproc_full memory t none_, fork) (rw (allocproc_full memory t none_) f)
    | inr (i, found) ↦
        let (inside, free_) = find_unused_lem nproc 0 t.slots i found in
        let dead = unused-not_live (t.slots i).state free_ in
        elim (Bool-cases memory) [
          | inr no_ ↦
              rw (allocproc_lem memory t i found, no_, fork)
                (rw (allocproc_lem memory t i found, no_)
                  (emptied-Family t.initproc me i t.slots _ f hme live dead
                    (λ j other. rw (away i j other) refl) (rw (eqb_refl i) refl)))
          | inl yes_ ↦ elim (Bool-cases copied) [
            | inr no_ ↦
                rw (allocproc_lem memory t i found, yes_, no_, fork)
                  (rw (allocproc_lem memory t i found, yes_)
                    (emptied-Family t.initproc me i t.slots _ f hme live dead
                      (λ j other. rw (away i j other) refl) (rw (eqb_refl i) refl)))
            | inl copied_ ↦
                rw (allocproc_lem memory t i found, yes_, copied_, fork)
                  (rw (allocproc_lem memory t i found, yes_)
                    (started-Family t.initproc me i t.slots _ f hme live
                      (record (t.slots i) { pid = t.nextpid }) dead
                      (λ j other. rw (away i j other) refl) (rw (eqb_refl i) refl)))
          ]
        ]
  ]

-- What the scan of `wait` finds from slot `i` on.
pub data Scanned (me i : ℕ) (s : Slots) : Found → Type 0 where
  zombie_child :
      (j : ℕ)
      → j < nproc
      → child_of me (s j) ≡ true
      → is_zombie (s j).state ≡ true
      → Scanned me i s (reap j)
  no_zombie_child :
      (havekids : Bool)
      → ((j : ℕ) → i ≤ j → j < nproc → child_of me (s j) ≡ true → is_zombie (s j).state ≡ false)
      → Scanned me i s (no_zombie havekids)

Scanned-later :
    (me i : ℕ) (s : Slots) {o : Found}
    → (child_of me (s i) && is_zombie (s i).state) ≡ false
    → Scanned me (i + 1) s o
    → Scanned me i s o
Scanned-later me i s no_ (zombie_child j hj child z) = zombie_child j hj child z
Scanned-later me i s no_ (no_zombie_child h clean) = no_zombie_child h (λ j from hj child.
    elim (Bool-cases (j == i)) [
      | inl e ↦
          (let same : j ≡ i = ground arith in
            rw same (ground (arith, ap (λ x. child_of me (s x)) (sym same) ∙ child)))
      | inr e ↦ clean j (ground arith) hj child
    ])

pub wait_scan-Scanned :
    (me left i : ℕ) (h : Bool) (s : Slots)
    → i + left ≡ nproc
    → Scanned me i s (wait_scan me left i h s)
unfolding wait_scan
wait_scan-Scanned me zero i h s e = no_zombie_child h (λ j from hj child. absurd (omega arith))
wait_scan-Scanned me (suc left) i h s e =
    elim (Bool-cases (child_of me (s i) && is_zombie (s i).state)) [
      | inl yes_ ↦ rw yes_ (zombie_child i (omega arith) (ground arith) (ground arith))
      | inr no_ ↦
          rw (no_, wait_scan)
            (Scanned-later me i s no_
              (wait_scan-Scanned me left (i + 1) (h || child_of me (s i)) s (omega arith)))
    ]
