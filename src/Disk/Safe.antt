-- ===== src/Disk/Safe.antt =====
-- A postcondition of a run that may lose the power: `P` of the disk it leaves, or `Q` of the value
-- and the state it returns. A run that panics has none.
use fog_os.Prelude.{ℕ, ◌<◌, ◌≡◌, false, ◌&&◌, ◌==◌, leb, arith}
use fog_os.Disk.{Block, State, Run, done, crash, panic, Cmd, and_then, bread, add_ref}
use fog_os.Buffers.{nbuf}

module _ {A : Type 0} where
  abbrev pub Safe : ((ℕ → Block) → Type 0) → (A → State → Type 0) → Run A → Type 0
  Safe P Q (done a s) = Q a s
  Safe P Q (crash d) = P d
  Safe P Q (panic why) = ⊥

module _ {A B : Type 0} (P : (ℕ → Block) → Type 0) (Q : A → State → Type 0)
    (R : B → State → Type 0) where
  pub bind :
      (r : Run A) (k : A → Cmd B)
      → Safe P Q r
      → ((a : A) (s : State) → Q a s → Safe P R (k a s))
      → Safe P R (and_then r k)
  bind (done a s) k q next = next a s q
  bind (crash d) k p next = p
  bind (panic why) k p next = p

module _ {A : Type 0} {P P' : (ℕ → Block) → Type 0} {Q Q' : A → State → Type 0} where
  pub mono :
      (r : Run A)
      → Safe P Q r
      → ((d : ℕ → Block) → P d → P' d)
      → ((a : A) (s : State) → Q a s → Q' a s)
      → Safe P' Q' r
  mono (done a s) q cut out = out a s q
  mono (crash d) p cut out = cut d p
  mono (panic why) p cut out = p

-- A `bread` of block `b` finds a buffer: that of the block, or one without references.
abbrev pub HasBuffer : ℕ → State → Type 0
HasBuffer b s = s.ref b ≡ 0 → s.used < nbuf

module _ {B : Type 0} (P : (ℕ → Block) → Type 0) (R : B → State → Type 0) where
  pub after_bread :
      (b : ℕ) (s : State) (k : Block → Cmd B)
      → HasBuffer b s
      → Safe P R (k (s.contents b) (add_ref b s))
      → Safe P R (and_then (bread b s) k)
  unfolding bread
  after_bread b s k room next =
      let test : (s.ref b == 0 && leb nbuf s.used) ≡ false = ground (arith, room) in
      rw (Safe, test) next
