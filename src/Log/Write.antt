-- ===== src/Log/Write.antt =====
-- `log_write`, within the way that its comment says to use it: read a block, change its data, log
-- it, release it. `bzero` of kernel/fs.c is one such use.
use native.Mathlib.Decide.{dec_lt}
use native.Mathlib.Numerals.{add-one}
use fog_os.Prelude.{
  rounds, ℕ, zero, suc, ◌+◌, ◌≤◌, ◌<◌, ◌^◌, ◌≡◌, ◌≢◌, refl, ap, ◌∙◌, inl, inr, Bool, true, false,
  arith, ◌==◌, ◌||◌, if◌then◌else◌, update, slt, add32, sub32, Bool-cases, eqb_refl,
}
use fog_os.Disk.{
  Block, State, done, Cmd, pure, ◌>>=◌, ◌>>◌, bread, add_ref, drop_ref, set_data, brelse, bpin,
}
use fog_os.Disk.Safe
use fog_os.Disk.Safe.{Safe, HasBuffer, after_bread}
use fog_os.Log.{Log, log_size, find_entry, log_write}
use fog_os.Log.Logical.{Outside}
use fog_os.Log.Commit.{listed, overlay, Ready}

-- `bp = bread(…); modify bp->data; log_write(bp); brelse(bp)`
pub modify : Log → ℕ → (Block → Block) → Cmd Log
unfolding bread set_data brelse log_write bpin
modify l b change = do
  data_of ← bread b
  set_data b (change data_of)
  l ← log_write l b
  brelse b
  pure l

-- `memset(bp->data, 0, BSIZE)` in a `modify`.
pub bzero : Log → ℕ → Cmd Log
bzero l b = modify l b (λ _ _. 0)

-- The loop of `log_write` stops at an entry for the block, or at the end.
record Found (rest i : ℕ) (block : ℕ → ℕ) (b r : ℕ) : Type 0 where
  pub low : i ≤ r
  pub high : r ≤ i + rest
  pub entry : r < i + rest → block r ≡ b
  pub first : (j : ℕ) → i ≤ j → j < r → block j ≢ b

find_entry-Found :
    (rest i : ℕ) (block : ℕ → ℕ) (b : ℕ) → Found rest i block b (find_entry rest i block b)
unfolding find_entry
find_entry-Found zero i block b = record {
  low = omega arith;
  high = omega arith;
  entry = λ h. absurd (omega arith);
  first = λ j h k. absurd (omega arith);
}
find_entry-Found (suc rest) i block b = elim (Bool-cases (block i == b)) [
  | inl hit ↦ rw hit (record {
    low = omega arith;
    high = omega arith;
    entry = λ h. ground arith;
    first = λ j h k. absurd (omega arith);
  })
  | inr miss ↦
      let later = find_entry-Found rest (i + 1) block b in
      rw miss (record {
        low = omega (arith, later.low);
        high = omega (arith, later.high);
        entry = λ h. later.entry (omega arith);
        first = λ j h k. ground (arith, later.first j, miss);
      })
]

-- A write is allowed: there is room in the log, and a system call is under way.
pub record Allowed (l : Log) : Type 0 where
  pub room : l.n < log_size
  pub area : l.n + 1 < l.size
  pub size : l.size < 2 ^ 31
  pub active : 0 < l.outstanding
  pub few : l.outstanding < 2 ^ 31

listed_congr :
    (n : ℕ) (f g : ℕ → ℕ) (x : ℕ) → ((i : ℕ) → i < n → f i ≡ g i) → listed n f x ≡ listed n g x
unfolding listed
listed_congr zero f g x same = refl
listed_congr (suc n) f g x same =
    ground (arith, same n (omega arith), listed_congr n f g x (λ i h. same i (omega arith)))

listed_of_entry : (n : ℕ) (block : ℕ → ℕ) (i x : ℕ) → i < n → block i ≡ x → listed n block x ≡ true
unfolding listed
listed_of_entry zero block i x h e = absurd (omega arith)
listed_of_entry (suc n) block i x h e = elim (dec_lt i n) [
  | yes k ↦ ground (arith, listed_of_entry n block i x k e)
  | no k ↦ let last : i ≡ n = omega arith in ground arith
]

module _ (l : Log) (b : ℕ) (ok : Allowed l) where
  entry : ℕ
  entry = find_entry l.n 0 l.block b

  -- `log_write` in the two ways it can go when it is allowed.
  log_write_lem :
      (s : State)
      → log_write l b s ≡ (
          if entry == l.n
          then done (record l { block = update l.block entry b; n = l.n + 1 }) (add_ref b s)
          else done (record l { block = update l.block entry b }) s)
  unfolding log_write bpin entry
  log_write_lem s =
      let all : rounds l.n ≡ l.n = ground (arith, ok.room) in
      let roomy : slt l.n log_size ≡ true = ground (arith, ok.room) in
      let fitting : slt l.n (sub32 l.size 1) ≡ true = ground (arith, ok.room, ok.area, ok.size) in
      let active : slt l.outstanding 1 ≡ false = ground (arith, ok.active, ok.few) in
      let next : add32 l.n 1 ≡ l.n + 1 = omega (arith, ok.room) in
      rw (all, roomy, fitting, active, next, log_write)
        (elim (Bool-cases (entry == l.n)) [ inl e ↦ rw e | inr e ↦ rw e ])

  -- A block that has no entry gets one behind the others.
  pub log_write-new :
      (s : State)
      → ((j : ℕ) → j < l.n → l.block j ≢ b)
      → log_write l b s
        ≡ done (record l { block = update l.block l.n b; n = l.n + 1 }) (add_ref b s)
  unfolding entry
  log_write-new s new =
      let at = find_entry-Found l.n 0 l.block b in
      let last : entry ≡ l.n = elim (dec_lt entry l.n) [
        | yes h ↦ absurd (new entry h (at.entry (omega (arith, h))))
        | no h ↦ omega (arith, at.high, h)
      ] in
      log_write_lem s ∙ rw (last, eqb_refl l.n) refl

  abbrev fresh : Bool
  fresh = entry == l.n

  -- What one `modify` does to a state.
  record Modified (d : Block) (s : State) (m : Log) (t : State) : Type 0 where
    log : m ≡ record l { block = update l.block entry b; n = if fresh then l.n + 1 else l.n }
    disk : (x : ℕ) → t.disk x ≡ s.disk x
    power : t.power ≡ s.power
    others : (x : ℕ) → x ≢ b → (t.contents x ≡ s.contents x) × (t.ref x ≡ s.ref x)
    ref : t.ref b ≡ s.ref b + (if fresh then 1 else 0)
    used : t.used ≤ s.used + 1
    contents : 0 < t.ref b → t.contents b ≡ d

  modify_lem :
      (change : Block → Block) (s : State)
      → HasBuffer b s
      → Safe (λ _. ⊥) (Modified (change (s.contents b)) s) (modify l b change s)
  unfolding modify set_data brelse add_ref drop_ref
  modify_lem change s room = after_bread _ _ b s _ room (
      rw (log_write_lem _) (elim (Bool-cases fresh) [
        | inl e ↦ rw e (record {
          log = rw e;
          disk = λ x. refl;
          power = refl;
          others = λ x ne. (ground arith, ground arith);
          ref = ground arith;
          used = ground arith;
          contents = λ h. ground arith;
        })
        | inr e ↦ rw e (record {
          log = rw e;
          disk = λ x. refl;
          power = refl;
          others = λ x ne. (ground arith, ground arith);
          ref = ground arith;
          used = ground arith;
          contents = λ h. ground arith;
        })
      ]))

  module _ (size : ℕ) {s t : State} {m : Log} {d : Block} (ready : Ready l size s)
      (fits : l.n + 1 < size) (out : Outside l.start size b) (step : Modified d s m t) where
    found : Found l.n 0 l.block b entry
    unfolding entry
    found = find_entry-Found l.n 0 l.block b

    same_entries : (i : ℕ) → i < l.n → update l.block entry b i ≡ l.block i
    same_entries i h = ground (arith, found.entry)

    held : 0 < t.ref b
    held = ground (arith, step.ref, found.entry, found.high, ready.pinned entry)

    listed-after :
        (x : ℕ)
        → listed (if fresh then l.n + 1 else l.n) (update l.block entry b) x
          ≡ (b == x || listed l.n l.block x)
    unfolding listed
    listed-after x =
        let same = listed_congr l.n (update l.block entry b) l.block x same_entries in
        elim (Bool-cases fresh) [
          | inl e ↦ rw (e, add-one l.n) (ground (arith, same))
          | inr e ↦
              let lt : entry < l.n = ground (arith, found.high) in
              rw e (ground (arith, same, listed_of_entry l.n l.block entry x lt, found.entry))
        ]

    Modified-Ready : Ready m size t
    Modified-Ready =
        let n : ℕ = if fresh then l.n + 1 else l.n in
        let block : ℕ → ℕ = update l.block entry b in
        rw step.log (record {
          small = ground (arith, ok.room);
          fits = record {
            few = ground (arith, fits);
            homes = λ i h. ground (arith, out, found.high, ready.fits.homes i, same_entries i);
          };
          pinned = λ i h. ground (arith, held, found.high, ready.pinned i, step.others (l.block i));
          empty = ap (λ (h : Block). h 0) (step.disk l.start) ∙ ready.empty;
        })

    Modified-overlay :
        (x : ℕ) → overlay m.n m.block t x ≡ (if x == b then d else overlay l.n l.block s x)
    unfolding overlay
    Modified-overlay x =
        rw step.log
          (rw (listed-after x) (ground (arith, held, step.contents, step.others x, step.disk x)))

-- A `modify` of block `b` makes the transaction one that gives `b` the data `d`.
pub record Changed (l : Log) (size b : ℕ) (d : Block) (s : State) (m : Log) (t : State)
    : Type 0 where
  pub ready : Ready m size t
  pub view : (x : ℕ) → overlay m.n m.block t x ≡ (if x == b then d else overlay l.n l.block s x)
  pub contents : (x : ℕ) → t.contents x ≡ (if x == b then d else s.contents x)
  pub disk : (x : ℕ) → t.disk x ≡ s.disk x
  pub power : t.power ≡ s.power
  pub log :
      (m.start ≡ l.start)
      × (m.size ≡ l.size)
      × (m.outstanding ≡ l.outstanding)
      × (m.committing ≡ l.committing)
  pub grows : (l.n ≤ m.n) × (m.n ≤ l.n + 1)
  pub used : t.used ≤ s.used + 1

module _ (l : Log) (size b : ℕ) (change : Block → Block) (s : State) where
  -- A logged write that is allowed does not panic, where the block has a buffer or one of the NBUF
  -- buffers is free. Afterwards the transaction gives block `b` its new
  -- data and every other block what it gave it before, and it can still be committed.
  pub modify-Changed :
      Ready l size s
      → Allowed l
      → l.n + 1 < size
      → Outside l.start size b
      → HasBuffer b s
      → Safe (λ _. ⊥) (Changed l size b (change (s.contents b)) s) (modify l b change s)
  modify-Changed ready ok fits out room =
      Safe.mono (modify l b change s) (modify_lem l b ok change s room) (λ d e. e)
        (λ m t step. record {
          ready = Modified-Ready l b ok size ready fits out step;
          view = Modified-overlay l b ok size ready fits out step;
          contents = λ x. ground (arith, held l b ok size ready fits out step, step.others x);
          disk = step.disk;
          power = step.power;
          log = rw step.log (refl, refl, refl, refl);
          grows = rw step.log (ground arith, ground arith);
          used = step.used;
        })
