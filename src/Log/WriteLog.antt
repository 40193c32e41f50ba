-- ===== src/Log/WriteLog.antt =====
-- `write_log`: the cached blocks of a transaction are copied to the log area.
use mathlib.Core.Path.{subst}
use native.Mathlib.Numerals.{add-one}
use fog_os.Prelude.{
  ℕ, zero, suc, ◌+◌, ◌≤◌, ◌<◌, ◌≡◌, ◌≢◌, refl, inl, inr, arith, ◌==◌, if◌then◌else◌,
}
use fog_os.Disk.{Block, State, add_ref, drop_ref, set_data, bwrite, brelse}
use fog_os.Buffers.{nbuf}
use fog_os.Disk.Safe
use fog_os.Disk.Safe.{Safe, after_bread}
use fog_os.Log.{Log, write_one, write_loop}
use fog_os.Log.Logical.{Outside, Fits}
use fog_os.Log.Install.{ℕ-cases}

-- The effect of one round: `lb` is the log block, `home` a block whose buffer is pinned.
record Logged (lb home : ℕ) (s t : State) : Type 0 where
  pub disk : (x : ℕ) → t.disk x ≡ (if x == lb then s.contents home else s.disk x)
  pub contents : (x : ℕ) → x ≢ lb → t.contents x ≡ s.contents x
  pub clean : t.contents lb ≡ s.contents home
  pub ref : (x : ℕ) → t.ref x ≡ s.ref x
  pub power : t.power + 1 ≡ s.power
  pub used : t.used ≤ s.used

module _ (l : Log) (tail : ℕ) (s : State) (apart : l.block tail ≢ l.start + tail + 1)
    (pinned : 0 < s.ref (l.block tail)) (room : s.used < nbuf) where
  write_one-Safe :
      Safe
        (λ d. (d ≡ s.disk) × (s.power ≡ 0))
        (λ _. Logged (l.start + tail + 1) (l.block tail) s)
        (write_one l tail s)
  unfolding write_one set_data bwrite brelse add_ref drop_ref
  write_one-Safe =
      after_bread _ _ (l.start + tail + 1) s _ (λ e. room)
        (after_bread _ _ (l.block tail) (add_ref (l.start + tail + 1) s) _
          (λ e. absurd (ground (arith, e, pinned, apart)))
          (elim (ℕ-cases s.power) [
            | inl e ↦ rw e (refl, refl)
            | inr (k, e) ↦ rw e (record {
              disk = λ x. ground arith;
              contents = λ x ne. ground arith;
              clean = ground arith;
              ref = λ x. ground arith;
              power = omega arith;
              used = ground (arith, apart, pinned);
            })
          ]))

module _ (l : Log) (size n : ℕ) (start : State) (fits : Fits l.start size n l.block)
    (pinned : (i : ℕ) → i < n → 0 < start.ref (l.block i)) (room : start.used < nbuf) where
  -- After `t` rounds from the state `start`.
  pub record Written (t : ℕ) (s : State) : Type 0 where
    pub copies : (i : ℕ) → i < t → s.disk (l.start + i + 1) ≡ start.contents (l.block i)
    pub clean : (i : ℕ) → i < t → s.contents (l.start + i + 1) ≡ s.disk (l.start + i + 1)
    pub head : s.disk l.start ≡ start.disk l.start
    pub out : (x : ℕ) → Outside l.start size x → s.disk x ≡ start.disk x
    pub held : (i : ℕ) → i < n → s.contents (l.block i) ≡ start.contents (l.block i)
    pub ref : (x : ℕ) → s.ref x ≡ start.ref x
    pub power : s.power + t ≡ start.power
    pub used : s.used ≤ start.used

  -- What a loss of power leaves: nothing changed outside of the log blocks.
  pub record Untouched (d : ℕ → Block) : Type 0 where
    pub head : d l.start ≡ start.disk l.start
    pub out : (x : ℕ) → Outside l.start size x → d x ≡ start.disk x
    pub power : start.power < n

  Written-step :
      (tail : ℕ) {s t : State}
      → tail < n
      → Written tail s
      → Logged (l.start + tail + 1) (l.block tail) s t
      → Written (suc tail) t
  Written-step tail lt w c = record {
    copies = λ i h. ground (arith, c.disk (l.start + i + 1), w.copies i, w.held tail lt);
    clean = λ i h.
        ground (arith, c.disk (l.start + i + 1), c.contents (l.start + i + 1), c.clean, w.clean i);
    head = ground (arith, c.disk l.start, w.head);
    out = λ x o. ground (arith, c.disk x, w.out x o, fits.few);
    held = λ i h. ground (arith, c.contents (l.block i), w.held i h, fits.homes i h, fits.few);
    ref = λ x. ground (arith, c.ref x, w.ref x);
    power = omega (arith, c.power, w.power);
    used = omega (arith, c.used, w.used);
  }

  pub write_loop-Safe :
      (rest tail : ℕ) (s : State)
      → tail + rest ≡ n
      → Written tail s
      → Safe Untouched (λ _. Written n) (write_loop l rest tail s)
  unfolding write_loop
  write_loop-Safe zero tail s e w = subst (λ k. Written k s) (omega arith) w
  write_loop-Safe (suc rest) tail s e w =
      let lt : tail < n = omega arith in
      Safe.bind Untouched (λ _. Written (suc tail)) (λ _. Written n) (write_one l tail s)
        (λ _. write_loop l rest (tail + 1))
        (Safe.mono (write_one l tail s)
          (write_one-Safe l tail s (ground (arith, fits.homes tail lt))
            (omega (arith, w.ref (l.block tail), pinned tail lt)) (omega (arith, w.used, room)))
          (λ d (p, out).
            rw p (record { head = w.head; out = w.out; power = omega (arith, w.power) }))
          (λ _ t c. Written-step tail lt w c))
        (λ _ t w'. write_loop-Safe rest (tail + 1) t (omega arith) (rw (add-one tail) w'))
