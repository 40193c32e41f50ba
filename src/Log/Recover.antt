-- ===== src/Log/Recover.antt =====
-- Recovery, at boot and after a crash during recovery.
use mathlib.Core.Path.{subst}
use fog_os.Prelude.{
  rounds, ℕ, ◌+◌, ◌≤◌, ◌<◌, ◌≡◌, refl, sym, ap, ◌∙◌, inl, inr, Bool, true, false, ◌&&◌, ◌==◌, leb,
  arith,
}
use fog_os.Disk.{Block, State, pure, ◌>>◌, bread, brelse, add_ref, drop_ref}
use fog_os.Disk.Safe
use fog_os.Disk.Safe.{Safe}
use fog_os.Log.{Log, read_head, write_head, install_trans, recover_from_log}
use fog_os.Log.Logical.{
  Outside, installed, header_n, header_block, logical, Fits, Stands, installed-installed,
  installed_congr,
}
use fog_os.Buffers.{nbuf}
use fog_os.Log.Install.{Partway, HasRoom, install_loop-Safe}
use fog_os.Log.Head.{read_entries_lem, Headed, write_head-Safe}

module _ {start size : ℕ} {view : ℕ → Block} where
  -- Copying home some entries of a log does not change what the disk stands for.
  pub Stands-Partway :
      {old d : ℕ → Block} (block : ℕ → ℕ) (t : ℕ)
      → Stands start size view old
      → ((i : ℕ) → i < header_n start old → block i ≡ header_block start old i)
      → t ≤ header_n start old
      → Partway start size block old t d
      → Stands start size view d
  unfolding logical
  Stands-Partway {old} {d} block t s same le part =
      let head : d start ≡ old start = part.area start (omega (arith, s.fits.few)) in
      record {
        fits =
            subst (λ (h : Block). Fits start size (rounds (h 0)) (λ i. h (i + 1))) (sym head)
              s.fits;
        shows = λ x o.
            subst (λ (h : Block). installed start (λ i. h (i + 1)) (rounds (h 0)) d x ≡ view x)
              (sym head)
              (installed-installed start (header_block start old) (header_n start old) t old d x le
                  (λ i h. part.area (start + i + 1) (omega (arith, s.fits.few)))
                  (part.out x o
                    ∙ installed_congr start block (header_block start old) t old old x
                        (λ i h. same i (omega arith)) (λ i h. refl) refl)
                ∙ s.shows x o);
      }

  -- A disk with an empty log stands for what it holds.
  pub Stands-empty :
      {d : ℕ → Block}
      → d start 0 ≡ 0
      → 1 ≤ size
      → ((x : ℕ) → Outside start size x → d x ≡ view x)
      → Stands start size view d
  unfolding logical installed
  Stands-empty e pos same = record {
    fits = record { few = ground arith; homes = λ i h. absurd (ground arith) };
    shows = λ x o. rw e (same x o);
  }

-- At boot the cache is empty: a buffer will hold what the disk holds.
abbrev pub Booted : State → Type 0
Booted s = (x : ℕ) → s.contents x ≡ s.disk x

-- What recovery ends with: an empty log, and every home block as the disk stood for it.
pub record Recovered (start size : ℕ) (view : ℕ → Block) (m : Log) (t : State) : Type 0 where
  pub stands : Stands start size view t.disk
  pub empty : m.n ≡ 0
  pub cleared : t.disk start 0 ≡ 0
  pub home : (x : ℕ) → Outside start size x → t.disk x ≡ view x

pub cleared :
    {start size : ℕ} {view : ℕ → Block} {m : Log} {v : State}
    → 1 ≤ size
    → m.n ≡ 0
    → v.disk start 0 ≡ 0
    → ((x : ℕ) → Outside start size x → v.disk x ≡ view x)
    → Recovered start size view m v
cleared pos empty head same = record {
  stands = Stands-empty head pos same;
  empty = empty;
  cleared = head;
  home = same;
}

module _ (m : Log) (size : ℕ) (view : ℕ → Block) where
  -- The log is copied home and cleared, from a header in memory that agrees with the disk.
  pub replay-Safe :
      (recovering : Bool) (t : State)
      → ((i : ℕ) → i < rounds m.n → t.contents (m.start + i + 1) ≡ t.disk (m.start + i + 1))
      → Stands m.start size view t.disk
      → m.n ≡ t.disk m.start 0
      → ((i : ℕ) → i < rounds m.n → m.block i ≡ header_block m.start t.disk i)
      → HasRoom m (rounds m.n) t
      → Safe
          (λ d. Stands m.start size view d × (t.power < rounds m.n + 1))
          (Recovered m.start size view)
          ((install_trans recovering m
              >> (write_head (record m { n = 0 }) >> pure (record m { n = 0 })))
            t)
  unfolding install_trans logical installed
  replay-Safe recovering t clean s count entries room =
      let n : ℕ = rounds m.n in
      let here : n ≡ header_n m.start t.disk = ap rounds count in
      let fits : Fits m.start size n m.block = record {
        few = omega (arith, here, s.fits.few);
        homes = λ i h. rw (entries i h) (s.fits.homes i (omega (arith, here)));
      } in
      let kept : (d : ℕ → Block) (k : ℕ)
          → k ≤ n
          → Partway m.start size m.block t.disk k d
          → Stands m.start size view d =
        λ d k le part.
          Stands-Partway m.block k s (λ i h. entries i (omega (arith, here))) (omega (arith, here))
            part in
      let home : (u : ℕ → Block)
          → Partway m.start size m.block t.disk n u
          → (x : ℕ) → Outside m.start size x
          → u x ≡ view x =
        λ u part x o.
          part.out x o
          ∙ installed_congr m.start m.block (header_block m.start t.disk) n t.disk t.disk x entries
              (λ i h. refl) refl
          ∙ ap (λ k. installed m.start (header_block m.start t.disk) k t.disk x) here
          ∙ s.shows x o in
      Safe.bind (λ d. Stands m.start size view d × (t.power < n + 1))
        (λ _ u.
          Partway m.start size m.block t.disk n u.disk
          × (u.power + n ≡ t.power)
          × (u.used ≤ t.used))
        (Recovered m.start size view) (install_trans recovering m t)
        (λ _. write_head (record m { n = 0 }) >> pure (record m { n = 0 }))
        (Safe.mono (install_trans recovering m t)
          (install_loop-Safe m size n t.disk fits recovering n 0 t (omega arith) clean
            (record { out = λ x o. refl; area = λ x i. refl }) room)
          (λ d ((k, le, part), out). (kept d k le part, omega arith)) (λ _ u part. part))
        (λ _ u (part, used, less).
          Safe.bind (λ d. Stands m.start size view d × (t.power < n + 1))
            (λ _ v. Headed (record m { n = 0 }) u v) (Recovered m.start size view)
            (write_head (record m { n = 0 }) u) (λ _. pure (record m { n = 0 }))
            (Safe.mono (write_head (record m { n = 0 }) u)
              (write_head-Safe (record m { n = 0 }) u
                (elim room [
                  | inl two ↦ omega (arith, two, less)
                  | inr (one, pinned) ↦ omega (arith, one, less)
                ]))
              (λ d (e, out). (rw e (kept u.disk n (omega arith) part), omega arith)) (λ _ v h. h))
            (λ _ v h.
              cleared (omega (arith, s.fits.few)) refl h.count
                (λ x o. h.disk x (ground (arith, s.fits.few)) ∙ home u.disk part x o)))

-- Recovery, at a boot with any power left and two of the NBUF buffers free: if the power holds, every home block gets the contents
-- that the disk stood for, and the log is empty; if not, the disk stands for the same contents.
pub recover_from_log-Safe :
    (l : Log) (size : ℕ) (view : ℕ → Block) (s : State)
    → Booted s
    → Stands l.start size view s.disk
    → s.used + 1 < nbuf
    → Safe
        (λ d. Stands l.start size view d × (s.power < header_n l.start s.disk + 1))
        (Recovered l.start size view)
        (recover_from_log l s)
unfolding recover_from_log read_head bread brelse add_ref drop_ref
recover_from_log-Safe l size view s boot stands room =
    let test : (s.ref l.start == 0 && leb nbuf s.used) ≡ false = ground (arith, room) in
    let same : header_n l.start s.disk ≡ rounds (s.contents l.start 0) =
      ap (λ (b : Block). rounds (b 0)) (sym (boot l.start)) in
    rw same (
      rw (test, Safe)
        (replay-Safe _ size view true _
          (λ i h. ground (arith, boot (l.start + i + 1), boot l.start)) stands
          (ap (λ (b : Block). b 0) (boot l.start))
          (λ i h.
            rw read_entries_lem (ground (arith, ap (λ (b : Block). b (i + 1)) (boot l.start))))
          (inl (ground (arith, room)))))
