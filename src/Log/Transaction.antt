-- ===== src/Log/Transaction.antt =====
-- A whole file-system call: `begin_op`, logged writes, `end_op`, and the power may fail at any time.
use mathlib.Core.Path.{subst, subst₂}
use fog_os.Prelude.{
  ℕ, ◌+◌, ◌*◌, ◌≤◌, ◌<◌, ◌^◌, ◌≡◌, refl, ap, sym, fun_ext, ◌∙◌, ◌⊎◌, inl, inr, true, false, arith,
  update, List, [], ◌∷◌, length,
}
use fog_os.Disk.{Block, State, panic, Cmd, pure, ◌>>=◌}
use fog_os.Buffers.{nbuf}
use fog_os.Disk.Safe
use fog_os.Disk.Safe.{Safe}
use fog_os.Log.{Log, max_op_blocks, asleep, begun, begin_op, end_op_enter, end_op, commit}
use fog_os.Log.Logical.{Outside, Stands}
use fog_os.Log.Recover.{Booted, Recovered}
use fog_os.Log.Commit.{listed, overlay, Ready, commit-Safe}
use fog_os.Log.Write.{modify, Allowed, Changed, modify-Changed}

-- The block updates of one file-system call, in order.
abbrev pub Updates : Type 0
Updates = List (ℕ × (Block → Block))

pub modify_all : Updates → Log → Cmd Log
modify_all [] l = pure l
modify_all ((b, change) ∷ us) l = modify l b change >>= modify_all us

-- What the updates make of the contents of the blocks.
pub apply_all : Updates → (ℕ → Block) → ℕ → Block
apply_all [] view = view
apply_all ((b, change) ∷ us) view = apply_all us (update view b (change (view b)))

-- One call, which no other accompanies. While `begin_op` sleeps nothing happens.
pub fs_call : Updates → Log → Cmd Log
unfolding modify_all
fs_call us l = elim (begin_op l) [
  | asleep ↦ λ s. panic "asleep"
  | begun m ↦ modify_all us m >>= end_op
]

abbrev pub AllOutside : (start size : ℕ) → Updates → Type 0
AllOutside start size [] = Unit
AllOutside start size ((b, _) ∷ us) = Outside start size b × AllOutside start size us

-- A transaction under way: `view` is what the blocks hold for the running system.
record Running (l : Log) (view old : ℕ → Block) (left : ℕ) (s : State) : Type 0 where
  pub ready : Ready l l.size s
  pub shows : (x : ℕ) → overlay l.n l.block s x ≡ view x
  pub contents : (x : ℕ) → s.contents x ≡ view x
  pub disk : (x : ℕ) → s.disk x ≡ old x
  pub power : s.power ≡ left
  pub one : l.outstanding ≡ 1
  pub size : (30 ≤ l.size) × (l.size < 2 ^ 31)
  pub idle : l.committing ≡ false

modify_all-Running :
    (us : Updates) (l : Log) {view old : ℕ → Block} {left : ℕ} (s : State)
    → l.n + length us ≤ 10
    → s.used + length us < nbuf
    → AllOutside l.start l.size us
    → Running l view old left s
    → Safe
        (λ _. ⊥)
        (λ m t.
          Running m (apply_all us view) old left t
          × (m.start ≡ l.start)
          × (m.size ≡ l.size)
          × (m.n ≤ l.n + length us)
          × (t.used < nbuf))
        (modify_all us l s)
unfolding modify_all apply_all
modify_all-Running [] l s few room out r = (r, refl, refl, omega arith, omega (arith, room))
modify_all-Running ((b, change) ∷ us) l {view} {old} {left} s few room (o, out) r =
    let ok : Allowed l = record {
      room = omega arith;
      area = omega (arith, r.size);
      size = r.size.1;
      active = omega (arith, r.one);
      few = omega (arith, r.one);
    } in
    let same = ap change (r.contents b) in
    Safe.bind (λ _. ⊥) (Changed l l.size b (change (s.contents b)) s) _ (modify l b change s)
      (modify_all us)
      (modify-Changed l l.size b change s r.ready ok (omega (arith, r.size)) o
        (λ e. omega (arith, room)))
      (λ m t c.
        Safe.mono (modify_all us m t)
          (modify_all-Running us m t (omega (arith, c.grows)) (omega (arith, c.used, room))
            (subst₂ (λ p q. AllOutside p q us) (sym c.log.0) (sym c.log.1) out)
            (record {
              ready = subst (λ k. Ready m k t) (sym c.log.1) c.ready;
              shows = λ x. ground (arith, c.view x, r.shows x, same);
              contents = λ x. ground (arith, c.contents x, r.contents x, same);
              disk = λ x. c.disk x ∙ r.disk x;
              power = c.power ∙ r.power;
              one = c.log.2 ∙ r.one;
              size = omega (arith, c.log.1, r.size);
              idle = c.log.3 ∙ r.idle;
            }))
          (λ d e. e)
          (λ k u (run, start, size, grown, few').
            (run, start ∙ c.log.0, size ∙ c.log.1, omega (arith, c.grows), few')))

-- The log between two calls, with a cache that agrees with the disk, and more than MAXOPBLOCKS of
-- the NBUF buffers free.
pub record Idle (l : Log) (s : State) : Type 0 where
  pub ready : Ready l l.size s
  pub none_logged : l.n ≡ 0
  pub none_active : l.outstanding ≡ 0
  pub idle : l.committing ≡ false
  pub size : (30 ≤ l.size) × (l.size < 2 ^ 31)
  pub cache : Booted s
  pub buffers : s.used + max_op_blocks < nbuf

Either_at :
    {start start' size : ℕ} {v v' w w' : ℕ → Block} (d : ℕ → Block)
    → start ≡ start'
    → v ≡ v'
    → w ≡ w'
    → Stands start size v d ⊎ Stands start size w d
    → Stands start' size v' d ⊎ Stands start' size w' d
Either_at {size} d e p q (inl old) = inl (subst₂ (λ a v. Stands a size v d) e p old)
Either_at {size} d e p q (inr new) = inr (subst₂ (λ a v. Stands a size v d) e q new)

module _ (us : Updates) (l : Log) (s : State) (i : Idle l s) (few : length us ≤ max_op_blocks)
    (out : AllOutside l.start l.size us) where
  abbrev after : ℕ → Block
  after = apply_all us s.disk

  abbrev Ends : (ℕ → Block) → Type 0
  Ends d =
      (Stands l.start l.size s.disk d ⊎ Stands l.start l.size after d)
      × (s.power < 2 * length us + 2)

  abbrev Through : Log → State → Type 0
  Through m t = Recovered l.start l.size after m t × (m.committing ≡ false)

  begin_op-begun : begin_op l ≡ begun (record l { outstanding = 1 })
  unfolding begin_op
  begin_op-begun = rw (i.idle, i.none_logged, i.none_active)

  end_op-Through :
      (m : Log) (t : State)
      → Running m after s.disk s.power t
      → m.start ≡ l.start
      → m.size ≡ l.size
      → m.n ≤ length us
      → t.used < nbuf
      → Safe Ends Through (end_op m t)
  unfolding end_op end_op_enter
  end_op-Through m t r start size n room =
      let m' : Log = record m { outstanding = 0; committing = true } in
      let ready : Ready m' l.size t =
        subst (λ k. Ready m' k t) size
          (record {
            small = r.ready.small;
            fits = r.ready.fits;
            pinned = r.ready.pinned;
            empty = r.ready.empty;
          }) in
      let new : overlay m.n m.block t ≡ after = fun_ext r.shows in
      let old : t.disk ≡ s.disk = fun_ext r.disk in
      rw (r.idle, r.one)
        (Safe.bind Ends (Recovered l.start l.size after) Through (commit m' t)
          (λ k. pure (record k { committing = false }))
          (Safe.mono (commit m' t) (commit-Safe m' l.size t ready room)
            (λ d (e, short). (Either_at d start old new e, omega (arith, r.power)))
            (λ k u done. subst₂ (λ p v. Recovered p l.size v k u) start new done))
          (λ k u done. (
            record {
              stands = done.stands;
              empty = done.empty;
              cleared = done.cleared;
              home = done.home;
            },
            refl,
          )))

  started : Running (record l { outstanding = 1 }) s.disk s.disk s.power s
  unfolding overlay listed
  started = record {
    ready = record {
      small = i.ready.small;
      fits = i.ready.fits;
      pinned = i.ready.pinned;
      empty = i.ready.empty;
    };
    shows = λ x. rw i.none_logged;
    contents = i.cache;
    disk = λ x. refl;
    power = refl;
    one = refl;
    size = i.size;
    idle = i.idle;
  }

  -- A file-system call of at most MAXOPBLOCKS block updates, with more than MAXOPBLOCKS of the NBUF
  -- buffers free, is atomic. If the power holds, every
  -- block outside of the log ends with all of the updates on the disk; if it fails at any write,
  -- the disk stands for the contents before the call or for those after it.
  pub fs_call-Safe : Safe Ends Through (fs_call us l s)
  unfolding fs_call
  fs_call-Safe =
      rw (begin_op-begun, fs_call)
        (Safe.bind Ends
          (λ m t.
            Running m after s.disk s.power t
            × (m.start ≡ l.start)
            × (m.size ≡ l.size)
            × (m.n ≤ length us)
            × (t.used < nbuf))
          Through (modify_all us (record l { outstanding = 1 }) s) end_op
          (Safe.mono (modify_all us (record l { outstanding = 1 }) s)
            (modify_all-Running us (record l { outstanding = 1 }) s (omega (arith, i.none_logged))
              (omega (arith, i.buffers, few)) out started)
            (λ d e. absurd e)
            (λ m t (r, start, size, n, room). (r, start, size, omega (arith, i.none_logged), room)))
          (λ m t (r, start, size, n, room). end_op-Through m t r start size n room))
