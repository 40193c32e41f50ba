-- ===== src/Procs/Wake.antt =====
-- `wakeup` makes runnable exactly the processes that sleep on its channel, but its caller.
use mathlib.Core.Path.{subst}
use fog_os.Prelude.{
  ℕ, zero, suc, ◌+◌, ◌<◌, ◌≡◌, ◌≢◌, refl, sym, ap, ◌∙◌, true, false, not, ◌&&◌, ◌==◌, ltb, leb,
  arith, if◌then◌else◌, update, Bool-cases, eqb_refl, eqb_ne, inl, inr,
}
use fog_os.Procs.{
  Slots, Proc, ProcState, unused, used, sleeping, runnable, running, zombie, is_sleeping, Chan,
  null, of_proc, of_object, same_chan, wake, wakeup_loop, wakeup, nproc,
}

wakeup_loop_lem :
    (me : ℕ) (c : Chan) (left i : ℕ) (s : Slots) (j : ℕ)
    → wakeup_loop me c left i s j ≡ (if leb i j && ltb j (i + left) then wake me c j (s j) else s j)
unfolding wakeup_loop
wakeup_loop_lem me c zero i s j =
    let out : (leb i j && ltb j (i + 0)) ≡ false = ground arith in rw out refl
wakeup_loop_lem me c (suc left) i s j =
    wakeup_loop_lem me c left (i + 1) (update s i (wake me c i (s i))) j
    ∙ elim (Bool-cases (j == i)) [
      | inl e ↦
          let same : j ≡ i = ground arith in
          let done : (leb (i + 1) i && ltb i (i + 1 + left)) ≡ false = ground arith in
          let here : (leb i i && ltb i (i + suc left)) ≡ true = ground arith in
          rw (same, done, here, eqb_refl i) refl
      | inr e ↦
          let rest : (leb (i + 1) j && ltb j (i + 1 + left)) ≡ (leb i j && ltb j (i + suc left)) =
            ground arith in
          rw (e, rest) refl
    ]

-- `wakeup` runs one round for each slot.
pub wakeup_lem :
    (me : ℕ) (c : Chan) (s : Slots) (j : ℕ) → j < nproc → wakeup me c s j ≡ wake me c j (s j)
unfolding wakeup
wakeup_lem me c s j hj =
    wakeup_loop_lem me c nproc 0 s j
    ∙ (let in_ : (leb 0 j && ltb j (0 + nproc)) ≡ true = ground arith in rw in_ refl)

same_chan_refl : (c : Chan) → same_chan c c ≡ true
same_chan_refl null = refl
same_chan_refl (of_proc i) = eqb_refl i
same_chan_refl (of_object i) = eqb_refl i

same_chan_eq : (c d : Chan) → same_chan c d ≡ true → c ≡ d
same_chan_eq null null h = refl
same_chan_eq null (of_proc j) h = absurd (ground (arith, h))
same_chan_eq null (of_object j) h = absurd (ground (arith, h))
same_chan_eq (of_proc i) null h = absurd (ground (arith, h))
same_chan_eq (of_proc i) (of_proc j) h = (let e : i ≡ j = ground (arith, h) in ap of_proc e)
same_chan_eq (of_proc i) (of_object j) h = absurd (ground (arith, h))
same_chan_eq (of_object i) null h = absurd (ground (arith, h))
same_chan_eq (of_object i) (of_proc j) h = absurd (ground (arith, h))
same_chan_eq (of_object i) (of_object j) h = (let e : i ≡ j = ground (arith, h) in ap of_object e)

is_sleeping_eq : (t : ProcState) → is_sleeping t ≡ true → t ≡ sleeping
is_sleeping_eq unused h = absurd (ground (arith, h))
is_sleeping_eq used h = absurd (ground (arith, h))
is_sleeping_eq sleeping h = refl
is_sleeping_eq runnable h = absurd (ground (arith, h))
is_sleeping_eq running h = absurd (ground (arith, h))
is_sleeping_eq zombie h = absurd (ground (arith, h))

-- What becomes of process `j`, `p` before and `p'` after a wakeup of `c` by `me`.
pub record Woken (me : ℕ) (c : Chan) (j : ℕ) (p p' : Proc) : Type 0 where
  pub woken : j ≢ me → p.state ≡ sleeping → p.chan ≡ c → p' ≡ record p { state = runnable }
  pub self : j ≡ me → p' ≡ p
  pub awake : p.state ≢ sleeping → p' ≡ p
  pub elsewhere : p.chan ≢ c → p' ≡ p

wake-Woken : (me : ℕ) (c : Chan) (j : ℕ) (p : Proc) → Woken me c j p (wake me c j p)
wake-Woken me c j p = record {
  woken = λ other asleep on.
      let test : (j == me) ≡ false = eqb_ne j me other in
      let on' : same_chan p.chan c ≡ true =
        ap (same_chan p.chan) (sym on) ∙ same_chan_refl p.chan in
      rw (test, ap is_sleeping asleep, on') refl;
  self = λ e. (let test : (j == me) ≡ true = ground (arith, e) in rw test refl);
  awake = λ ne. elim (Bool-cases (is_sleeping p.state)) [
    | inl e ↦ absurd (ne (is_sleeping_eq p.state e))
    | inr e ↦
        (let test : (not (j == me) && is_sleeping p.state && same_chan p.chan c) ≡ false =
            ground (arith, e) in
          rw test refl)
  ];
  elsewhere = λ ne. elim (Bool-cases (same_chan p.chan c)) [
    | inl e ↦ absurd (ne (same_chan_eq p.chan c e))
    | inr e ↦
        (let test : (not (j == me) && is_sleeping p.state && same_chan p.chan c) ≡ false =
            ground (arith, e) in
          rw test refl)
  ];
}

-- `wakeup` of a channel, called by `me`, makes each process of the table runnable that sleeps on
-- that channel and is not `me`, with its other fields as they were. It leaves `me` as it was, and
-- each process that does not sleep, and each whose channel is another.
pub wakeup-Woken :
    (me : ℕ) (c : Chan) (s : Slots) (j : ℕ) → j < nproc → Woken me c j (s j) (wakeup me c s j)
wakeup-Woken me c s j hj =
    subst (Woken me c j (s j)) (sym (wakeup_lem me c s j hj)) (wake-Woken me c j (s j))
