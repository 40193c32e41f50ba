-- ===== src/Log/Head.antt =====
-- The header block: what `read_head` and `write_head` transfer.
use fog_os.Prelude.{
  rounds, ℕ, zero, suc, ◌+◌, ◌-◌, ◌≤◌, ◌<◌, ◌≡◌, ◌≢◌, refl, inl, inr, ◌&&◌, arith, ltb, leb,
  if◌then◌else◌, update, eqb_refl,
}
use fog_os.Disk.{Block, State, add_ref, drop_ref, set_data, bwrite, brelse}
use fog_os.Disk.Safe.{Safe, after_bread}
use fog_os.Buffers.{nbuf}
use fog_os.Log.{Log, read_entries, put_entries, write_head}
use fog_os.Log.Install.{ℕ-cases}

pub read_entries_lem :
    (rest i : ℕ) (lh : Block) (block : ℕ → ℕ) (j : ℕ)
    → read_entries rest i lh block j ≡ (if leb i j && ltb j (i + rest) then lh (j + 1) else block j)
unfolding read_entries
read_entries_lem zero i lh block j = ground arith
read_entries_lem (suc rest) i lh block j =
    ground (arith, read_entries_lem rest (i + 1) lh (update block i (lh (i + 1))) j)

pub put_entries_lem :
    (rest i : ℕ) (block : ℕ → ℕ) (hb : Block) (w : ℕ)
    → put_entries rest i block hb w
      ≡ (if leb (i + 1) w && ltb w (i + 1 + rest) then block (w - 1) else hb w)
unfolding put_entries
put_entries_lem zero i block hb w = ground arith
put_entries_lem (suc rest) i block hb w =
    ground (arith, put_entries_lem rest (i + 1) block (update hb (i + 1) (block i)) w)

-- The header on the disk is that of `l`; no other block has changed.
pub record Headed (l : Log) (s t : State) : Type 0 where
  pub count : t.disk l.start 0 ≡ l.n
  pub entries : (i : ℕ) → i < rounds l.n → t.disk l.start (i + 1) ≡ l.block i
  pub disk : (x : ℕ) → x ≢ l.start → t.disk x ≡ s.disk x
  pub contents : (x : ℕ) → x ≢ l.start → t.contents x ≡ s.contents x
  pub power : t.power + 1 ≡ s.power
  pub used : t.used ≤ s.used
  pub ref : (x : ℕ) → t.ref x ≡ s.ref x

pub write_head-Safe :
    (l : Log) (s : State)
    → s.used < nbuf
    → Safe (λ d. (d ≡ s.disk) × (s.power ≡ 0)) (λ _ t. Headed l s t) (write_head l s)
unfolding write_head set_data bwrite brelse add_ref drop_ref
write_head-Safe l s room =
    after_bread _ _ l.start s _ (λ e. room)
      (elim (ℕ-cases s.power) [
        | inl e ↦ rw e (refl, refl)
        | inr (k, e) ↦ rw e (record {
          count = rw (eqb_refl l.start) (rw put_entries_lem (ground arith));
          entries = λ i h. rw (eqb_refl l.start) (rw put_entries_lem (ground arith));
          disk = λ x ne. ground arith;
          contents = λ x ne. ground arith;
          power = omega arith;
          used = ground arith;
          ref = λ x. ground arith;
        })
      ])
