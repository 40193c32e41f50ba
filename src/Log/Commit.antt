-- ===== src/Log/Commit.antt =====
-- `commit`: a transaction reaches the disk as a whole or not at all.
use fog_os.Prelude.{
  rounds, ℕ, zero, suc, ◌+◌, ◌*◌, ◌<◌, ◌^◌, ◌≡◌, refl, sym, ap, ◌∙◌, ◌⊎◌, inl, inr, Bool, false,
  ◌||◌, arith, ◌==◌, if◌then◌else◌, slt, Bool-cases,
}
use fog_os.Disk.{Block, State, Cmd, pure, ◌>>◌}
use fog_os.Buffers.{nbuf}
use fog_os.Disk.Safe
use fog_os.Disk.Safe.{Safe}
use fog_os.Log.{Log, write_log, write_head, install_trans, commit}
use fog_os.Log.Logical.{
  Outside, installed, header_n, header_block, logical, Fits, Stands, installed_congr,
}
use fog_os.Log.Head.{Headed, write_head-Safe}
use fog_os.Log.Recover.{Stands-empty, Recovered, cleared, replay-Safe}
use fog_os.Log.WriteLog.{Written, Untouched, write_loop-Safe}

-- Block `x` is one of the first `n` entries of a log.
unfoldable pub listed : (n : ℕ) → (ℕ → ℕ) → ℕ → Bool
listed zero block x = false
listed (suc n) block x = block n == x || listed n block x

-- The home blocks after the transaction: those that the log names have the data of their buffers.
unfoldable pub overlay : (n : ℕ) → (ℕ → ℕ) → State → ℕ → Block
overlay n block s x = if listed n block x then s.contents x else s.disk x

-- The log in memory is ready to be committed, and the log on the disk is empty.
pub record Ready (l : Log) (size : ℕ) (s : State) : Type 0 where
  pub small : l.n < 2 ^ 31
  pub fits : Fits l.start size l.n l.block
  pub pinned : (i : ℕ) → i < l.n → 0 < s.ref (l.block i)
  pub empty : s.disk l.start 0 ≡ 0

installed-overlay :
    (start : ℕ) (block : ℕ → ℕ) (n : ℕ) (s : State) (d : ℕ → Block) (x : ℕ)
    → ((i : ℕ) → i < n → d (start + i + 1) ≡ s.contents (block i))
    → d x ≡ s.disk x
    → installed start block n d x ≡ overlay n block s x
unfolding installed overlay listed
installed-overlay start block zero s d x copies here = here
installed-overlay start block (suc n) s d x copies here = ground (
  arith,
  copies n (omega arith),
  installed-overlay start block n s d x (λ i h. copies i (omega arith)) here,
)

module _ (l : Log) (size : ℕ) (s : State) (ready : Ready l size s) (room : s.used < nbuf) where
  abbrev Old : (ℕ → Block) → Type 0
  Old = Stands l.start size s.disk

  abbrev New : (ℕ → Block) → Type 0
  New = Stands l.start size (overlay l.n l.block s)

  -- What may be left of the disk when the power fails: it lasted for fewer than the `2 * n + 2`
  -- writes of `commit`.
  abbrev Either : (ℕ → Block) → Type 0
  Either d = (Old d ⊎ New d) × (s.power < 2 * l.n + 2)

  open ready use {small, fits, pinned, empty}

  Untouched-Old :
      {d : ℕ → Block}
      → d l.start ≡ s.disk l.start
      → ((x : ℕ) → Outside l.start size x → d x ≡ s.disk x)
      → Old d
  Untouched-Old head out =
      Stands-empty (ap (λ (b : Block). b 0) head ∙ empty) (omega (arith, fits.few)) out

  Headed-New :
      {u v : State} → Written l size l.n s fits pinned room l.n u → Headed l u v → New v.disk
  unfolding logical
  Headed-New {u} {v} w h =
      let all : rounds l.n ≡ l.n = ground (arith, small) in
      let count : header_n l.start v.disk ≡ l.n = ap rounds h.count ∙ all in
      record {
        fits = record {
          few = omega (arith, count, fits.few);
          homes = λ i k.
              rw (h.entries i (omega (arith, all, count))) (fits.homes i (omega (arith, count)));
        };
        shows = λ x o.
            ap (λ k. installed l.start (header_block l.start v.disk) k v.disk x) count
            ∙ installed_congr l.start (header_block l.start v.disk) l.block l.n v.disk v.disk x
                (λ i k. h.entries i (omega (arith, all))) (λ i k. refl) refl
            ∙ installed-overlay l.start l.block l.n s v.disk x
                (λ i k. h.disk (l.start + i + 1) (omega arith) ∙ w.copies i k)
                (h.disk x (ground (arith, fits.few)) ∙ w.out x o);
      }

  -- The second half of `commit`, once the header is on the disk.
  abbrev finish : Cmd Log
  finish = install_trans false l >> (write_head (record l { n = 0 }) >> pure (record l { n = 0 }))

  finish-Safe :
      {u v : State}
      → Written l size l.n s fits pinned room l.n u
      → Headed l u v
      → Safe Either (Recovered l.start size (overlay l.n l.block s)) (finish v)
  finish-Safe {u} {v} w h =
      let all : rounds l.n ≡ l.n = ground (arith, small) in
      let done : Safe (λ d. New d × (v.power < rounds l.n + 1))
          (Recovered l.start size (overlay l.n l.block s)) (finish v) =
        replay-Safe l size (overlay l.n l.block s) false v
          (λ i k.
            h.contents (l.start + i + 1) (omega arith)
            ∙ w.clean i (omega (arith, all))
            ∙ sym (h.disk (l.start + i + 1) (omega arith)))
          (Headed-New w h) (sym h.count) (λ i k. sym (h.entries i k))
          (inr (
            omega (arith, h.used, w.used, room),
            λ i k.
                omega
                  (arith, h.ref (l.block i), w.ref (l.block i), pinned i (omega (arith, k, all))),
          )) in
      Safe.mono (finish v) done (λ d (p, out). (inr p, omega (arith, all, h.power, w.power)))
        (λ m t r. r)

  started : Written l size l.n s fits pinned room 0 s
  started = record {
    copies = λ i h. absurd (omega arith);
    clean = λ i h. absurd (omega arith);
    head = refl;
    out = λ x o. refl;
    held = λ i h. refl;
    ref = λ x. refl;
    power = omega arith;
    used = omega arith;
  }

  write_log-Safe :
      Safe
        (Untouched l size l.n s fits pinned room)
        (λ _. Written l size l.n s fits pinned room l.n)
        (write_log l s)
  unfolding write_log
  write_log-Safe =
      write_loop-Safe l size l.n s fits pinned room (rounds l.n) 0 s (ground (arith, small)) started

  -- `commit` with any power left and one of the NBUF buffers free: if the power holds, every home block of the transaction has its
  -- new data, every other block outside of the log keeps its own, and the log is empty; if the
  -- power fails at any write, the disk stands for all of the old contents or for all of the new.
  pub commit-Safe : Safe Either (Recovered l.start size (overlay l.n l.block s)) (commit l s)
  unfolding commit overlay listed
  commit-Safe = elim (Bool-cases (slt 0 l.n)) [
    | inl some_blocks ↦ rw some_blocks (
        Safe.bind Either (λ _. Written l size l.n s fits pinned room l.n)
          (Recovered l.start size (overlay l.n l.block s)) (write_log l s) _
          (Safe.mono (write_log l s) write_log-Safe
            (λ d p. (inl (Untouched-Old p.head p.out), omega (arith, p.power))) (λ _ u w. w))
          (λ _ u w.
            Safe.bind Either (λ _. Headed l u) (Recovered l.start size (overlay l.n l.block s))
              (write_head l u) _
              (Safe.mono (write_head l u) (write_head-Safe l u (omega (arith, w.used, room)))
                (λ d (p, out). (rw p (inl (Untouched-Old w.head w.out)), omega (arith, w.power)))
                (λ _ v h. h))
              (λ _ v h. finish-Safe w h)))
    | inr no_blocks ↦ rw no_blocks (
        let none_left : l.n ≡ 0 = ground (arith, small) in
        cleared (omega (arith, fits.few)) none_left empty
          (λ x o. ap (λ k. overlay k l.block s x) (sym none_left)))
  ]
