-- ===== src/Log/Reserve.antt =====
-- How much log space `begin_op` promises, and how much `log_write` lets a call use.
use fog_os.Prelude.{
  ℕ, zero, suc, ◌+◌, ◌*◌, ◌≤◌, ◌<◌, ◌^◌, ◌≡◌, ◌≢◌, ◌∙◌, refl, sym, ap, false, ◌==◌, Bool-cases, inl,
  inr, arith, update, Option, none, some,
}
use fog_os.Disk.{State, panic, Cmd, pure, ◌>>=◌, add_ref}
use fog_os.Log.Write.{Allowed, log_write-new}
use fog_os.Log.{Log, log_size, max_op_blocks, asleep, begun, begin_op, log_write}

-- The last block but one of a log area of LOGSIZE blocks.
log_write-full :
    (l : Log) (b : ℕ) (s : State)
    → l.n ≡ 29
    → l.size ≡ log_size
    → log_write l b s ≡ panic "too big a transaction"
unfolding log_write
log_write-full l b s full size = rw (full, size, log_write) refl

-- `begin_op` admits a call exactly if the space for it and for the calls under way is free.
pub begin_op_lem :
    (l : Log)
    → l.committing ≡ false
    → l.n ≤ log_size
    → l.outstanding < 2 ^ 20
    → (l.n + (l.outstanding + 1) * max_op_blocks ≤ log_size
        → begin_op l ≡ begun (record l { outstanding = l.outstanding + 1 }))
      × (log_size < l.n + (l.outstanding + 1) * max_op_blocks → begin_op l ≡ asleep)
unfolding begin_op
begin_op_lem l idle few small = (λ fits. ground (arith, idle), λ full. ground (arith, idle))

-- `k` calls of `begin_op`; none if one of them has to sleep.
pub begins : (k : ℕ) → Log → Option Log
begins zero l = some l
begins (suc k) l = elim (begin_op l) [ asleep ↦ none | begun m ↦ begins k m ]

-- `log_write` of the blocks `f i`, …, `f (i + rest - 1)`.
pub log_writes : (f : ℕ → ℕ) (rest i : ℕ) → Log → Cmd Log
log_writes f zero i l = pure l
log_writes f (suc rest) i l = log_write l (f i) >>= log_writes f rest (i + 1)

module _ (f : ℕ → ℕ) (distinct : (i j : ℕ) → j < i → i < log_size → f j ≢ f i) where
  -- With `i` of thirty blocks logged.
  log_writes-panic :
      (rest i : ℕ) (l : Log) (s : State)
      → i + rest ≡ log_size
      → i < log_size
      → l.size ≡ log_size
      → l.n ≡ i
      → l.outstanding ≡ 3
      → ((j : ℕ) → j < i → l.block j ≡ f j)
      → log_writes f rest i l s ≡ panic "too big a transaction"
  unfolding log_writes
  log_writes-panic zero i l s all more size logged active blocks = absurd (omega (arith, all, more))
  log_writes-panic (suc rest) i l s all more size logged active blocks =
      elim (Bool-cases (i == 29)) [
        | inl last ↦ rw (log_write-full l (f i) s (ground (arith, last, logged)) size) refl
        | inr early ↦
            let less : i < 29 = ground (arith, early, more) in
            let ok : Allowed l = record {
              room = omega (arith, less, logged);
              area = omega (arith, less, logged, size);
              size = omega (arith, size);
              active = omega (arith, active);
              few = omega (arith, active);
            } in
            let new : (j : ℕ) → j < l.n → l.block j ≢ f i = λ j h e.
              distinct i j (omega (arith, h, logged)) more
                (sym (blocks j (omega (arith, h, logged))) ∙ e) in
            rw (log_write-new l (f i) ok s new) (
              log_writes-panic rest (i + 1)
                (record l { block = update l.block l.n (f i); n = l.n + 1 }) (add_ref (f i) s)
                (omega (arith, all)) (omega (arith, less)) size (omega (arith, logged)) active
                (λ j h. ground (arith, h, logged, blocks j, ap f)))
      ]

-- `begin_op` admits three calls from an idle log whose area has LOGSIZE blocks, which is what mkfs
-- makes; and if together they log thirty different blocks, MAXOPBLOCKS for each call, a `log_write`
-- panics.
pub three_calls_panic :
    (l : Log) (f : ℕ → ℕ) (s : State)
    → l.committing ≡ false
    → l.n ≡ 0
    → l.outstanding ≡ 0
    → l.size ≡ log_size
    → ((i j : ℕ) → j < i → i < log_size → f j ≢ f i)
    → (m : Log) × (begins 3 l ≡ some m)
      × (log_writes f (3 * max_op_blocks) 0 m s ≡ panic "too big a transaction")
unfolding begins begin_op
three_calls_panic l f s idle none_logged none_active size distinct = (
  record l { outstanding = 3 },
  rw (idle, none_logged, none_active) refl,
  log_writes-panic f distinct 30 0 (record l { outstanding = 3 }) s refl (omega arith) size
      none_logged refl (λ j h. absurd (omega (arith, h))),
)
