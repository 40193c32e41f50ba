-- ===== src/Log/Install.antt =====
-- `install_trans`: what one round and the whole loop do to the disk.
use mathlib.Core.Path.{subst}
use native.Mathlib.Numerals.{add-one}
use fog_os.Prelude.{
  ℕ, zero, suc, ◌+◌, ◌-◌, ◌≤◌, ◌<◌, ◌≡◌, ◌≢◌, refl, ◌⊎◌, inl, inr, Bool, true, false, arith, ◌==◌,
  Bool-cases, if◌then◌else◌,
}
use fog_os.Disk.{
  Block, State, Run, Cmd, and_then, ◌>>=◌, bread, add_ref, drop_ref, set_data, bwrite, brelse,
  bunpin,
}
use fog_os.Buffers.{nbuf}
use fog_os.Disk.Safe
use fog_os.Disk.Safe.{Safe, after_bread}
use fog_os.Log.{Log, install_one, install_loop}
use fog_os.Log.Logical.{Inside, Outside, installed, Fits}

pub ℕ-cases : (n : ℕ) → (n ≡ 0) ⊎ ((k : ℕ) × (n ≡ suc k))
ℕ-cases zero = inl refl
ℕ-cases (suc k) = inr (k, refl)

-- The effect of one round on a state in which the buffer of the log block is as on the disk.
record Copied (lb home : ℕ) (s t : State) : Type 0 where
  pub disk : (x : ℕ) → t.disk x ≡ (if x == home then s.disk lb else s.disk x)
  pub contents : (x : ℕ) → x ≢ home → s.contents x ≡ s.disk x → t.contents x ≡ s.contents x
  pub power : t.power + 1 ≡ s.power
  pub used : t.used ≤ s.used
  pub ref : ((x : ℕ) → 0 < s.ref x → 0 < t.ref x) ⊎ (t.used ≤ s.used - 1)

-- Two buffers can be had, or one, and one is that of block `b`.
abbrev pub HasTwo : ℕ → State → Type 0
HasTwo b s = (s.used + 1 < nbuf) ⊎ ((s.used < nbuf) × (0 < s.ref b))

module _ (l : Log) (tail : ℕ) (s : State) (apart : l.block tail ≢ l.start + tail + 1)
    (clean : s.contents (l.start + tail + 1) ≡ s.disk (l.start + tail + 1))
    (two : HasTwo (l.block tail) s) where
  abbrev Ends : Run (Unit {0}) → Type 0
  Ends =
      Safe (λ d. (d ≡ s.disk) × (s.power ≡ 0)) (λ _. Copied (l.start + tail + 1) (l.block tail) s)

  read_both :
      (k : Block → Block → Cmd (Unit {0}))
      → let lb = l.start + tail + 1 in
        Ends (k (s.contents lb) (s.contents (l.block tail)) (add_ref (l.block tail) (add_ref lb s)))
        → Ends (and_then (bread lb s) (λ lbuf. bread (l.block tail) >>= k lbuf))
  unfolding add_ref
  read_both k next =
      after_bread _ _ (l.start + tail + 1) s _ (λ e. ground (arith, two))
        (after_bread _ _ (l.block tail) (add_ref (l.start + tail + 1) s) _
          (λ e. ground (arith, two, e, apart)) next)

  install_one-Safe : (recovering : Bool) → Ends (install_one recovering l tail s)
  unfolding install_one set_data bwrite brelse bunpin add_ref drop_ref
  install_one-Safe true = read_both _ (elim (ℕ-cases s.power) [
    | inl e ↦ rw e (refl, refl)
    | inr (k, e) ↦ rw e (record {
      disk = λ x. ground arith;
      contents = λ x ne c. ground arith;
      power = omega arith;
      used = ground (arith, apart);
      ref = inl (λ x h. ground (arith, apart, h));
    })
  ])
  install_one-Safe false = read_both _ (elim (ℕ-cases s.power) [
    | inl e ↦ rw e (refl, refl)
    | inr (k, e) ↦ rw e (record {
      disk = λ x. ground arith;
      contents = λ x ne c. ground arith;
      power = omega arith;
      used = ground (arith, apart);
      ref = elim (Bool-cases (s.ref (l.block tail) == 1)) [
        | inl last ↦ inr (ground (arith, apart, last))
        | inr more ↦ inl (λ x h. ground (arith, apart, more, h))
      ];
    })
  ])

-- The disk `d` after the first `t` entries of the log on the disk `old` are copied home.
pub record Partway (start size : ℕ) (block : ℕ → ℕ) (old : ℕ → Block) (t : ℕ) (d : ℕ → Block)
    : Type 0 where
  pub out : (x : ℕ) → Outside start size x → d x ≡ installed start block t old x
  pub area : (x : ℕ) → Inside start size x → d x ≡ old x

-- There are buffers for each round: two, or one while the home blocks have theirs.
abbrev pub HasRoom : Log → (n : ℕ) → State → Type 0
HasRoom l n s = (s.used + 1 < nbuf) ⊎ ((s.used < nbuf) × ((i : ℕ) → i < n → 0 < s.ref (l.block i)))

module _ (l : Log) (size n : ℕ) (old : ℕ → Block) (fits : Fits l.start size n l.block) where
  abbrev Part : ℕ → (ℕ → Block) → Type 0
  Part = Partway l.start size l.block old

  -- The buffers of the log blocks are as on the disk.
  abbrev Clean : State → Type 0
  Clean s = (i : ℕ) → i < n → s.contents (l.start + i + 1) ≡ s.disk (l.start + i + 1)

  HasRoom-HasTwo : (tail : ℕ) (s : State) → tail < n → HasRoom l n s → HasTwo (l.block tail) s
  HasRoom-HasTwo tail s lt (inl two) = inl two
  HasRoom-HasTwo tail s lt (inr (one, pinned)) = inr (one, pinned tail lt)

  Copied-HasRoom : (lb home : ℕ) {s t : State} → HasRoom l n s → Copied lb home s t → HasRoom l n t
  Copied-HasRoom lb home (inl two) c = inl (omega (arith, c.used, two))
  Copied-HasRoom lb home {s} {t} (inr (one, pinned)) c = elim c.ref [
    | inl kept ↦ inr (omega (arith, c.used, one), λ i h. kept (l.block i) (pinned i h))
    | inr freed ↦ inl (omega (arith, freed, one))
  ]

  abbrev Cut : (ℕ → Block) → Type 0
  Cut d = (t : ℕ) × (t ≤ n) × Part t d

  Copied-Part :
      (tail : ℕ) {s t : State}
      → tail < n
      → Part tail s.disk
      → Copied (l.start + tail + 1) (l.block tail) s t
      → Part (suc tail) t.disk
  unfolding installed
  Copied-Part tail lt part c = record {
    out = λ x o.
        ground
          (arith, c.disk x, part.out x o, part.area (l.start + tail + 1) (omega (arith, fits.few)));
    area = λ x i. ground (arith, c.disk x, part.area x i, fits.homes tail lt);
  }

  Copied-Clean :
      (tail : ℕ) {s t : State}
      → tail < n
      → Clean s
      → Copied (l.start + tail + 1) (l.block tail) s t
      → Clean t
  Copied-Clean tail lt clean c i h = ground (
    arith,
    c.disk (l.start + i + 1),
    c.contents (l.start + i + 1),
    fits.homes tail lt,
    fits.few,
    clean i h,
  )

  pub install_loop-Safe :
      (recovering : Bool) (rest tail : ℕ) (s : State)
      → tail + rest ≡ n
      → Clean s
      → Part tail s.disk
      → HasRoom l n s
      → Safe
          (λ d. Cut d × (s.power < rest))
          (λ _ t. Part n t.disk × (t.power + rest ≡ s.power) × (t.used ≤ s.used))
          (install_loop recovering l rest tail s)
  unfolding install_loop
  install_loop-Safe recovering zero tail s e clean part room =
      (subst (λ k. Part k s.disk) (omega arith) part, omega arith, omega arith)
  install_loop-Safe recovering (suc rest) tail s e clean part room =
      let lt : tail < n = omega arith in
      Safe.bind (λ d. Cut d × (s.power < suc rest))
        (λ _ t.
          Clean t
          × Part (suc tail) t.disk
          × HasRoom l n t
          × (t.power + 1 ≡ s.power)
          × (t.used ≤ s.used))
        (λ _ t. Part n t.disk × (t.power + suc rest ≡ s.power) × (t.used ≤ s.used))
        (install_one recovering l tail s) (λ _. install_loop recovering l rest (tail + 1))
        (Safe.mono (install_one recovering l tail s)
          (install_one-Safe l tail s (ground (arith, fits.homes tail lt)) (clean tail lt)
            (HasRoom-HasTwo tail s lt room) recovering)
          (λ d (p, out). ((tail, omega arith, rw p part), omega arith))
          (λ _ t c. (
            Copied-Clean tail lt clean c,
            Copied-Part tail lt part c,
            Copied-HasRoom (l.start + tail + 1) (l.block tail) room c,
            c.power,
            c.used,
          )))
        (λ _ t (c, p, more, spent, less).
          Safe.mono (install_loop recovering l rest (tail + 1) t)
            (install_loop-Safe recovering rest (tail + 1) t (omega arith) c (rw (add-one tail) p)
              more)
            (λ d (cut, out). (cut, omega (arith, spent, out)))
            (λ _ u (part, all, used). (part, omega (arith, spent, all), omega (arith, used, less))))
