-- ===== src/Files/Descriptors.antt =====
-- The count of a file is the number of descriptors that name it and of its other holders, through
-- `sys_dup`.
use mathlib.Core.Path.{subst}
use fog_os.Prelude.{
  ℕ, zero, suc, ◌+◌, ◌≤◌, ◌<◌, ◌^◌, ◌≡◌, ◌≢◌, ◌∙◌, refl, sym, ap, arith, Bool, true, false, not,
  ◌==◌, ltb, update, if◌then◌else◌, inl, inr, eqb_refl, eqb_ne, Bool-cases, Option, none, some,
  Option-cases, Outcome, ok, ◌>>=◌, slt, add32,
}
use fog_os.Files.{filedup}
use fog_os.Files.Io.{fail}
use fog_os.Files.Calls.{Sys, nofile, argfd, fd_loop, fdalloc, sys_dup}

-- Whether a descriptor names the file.
abbrev pub names : (f : ℕ) → Option ℕ → ℕ
names f none = 0
names f (some g) = if g == f then 1 else 0

-- How many of the first `n` descriptors name the file.
unfoldable pub uses : (n f : ℕ) (ofile : ℕ → Option ℕ) → ℕ
uses zero f ofile = 0
uses (suc n) f ofile = names f (ofile n) + uses n f ofile

-- `others` counts the holders of each file that are not descriptors of this process.
pub record Counted (others : ℕ → ℕ) (s : Sys) : Type 0 where
  pub counts : (f : ℕ) → (s.opened.files f).ref ≡ uses nofile f s.ofile + others f
  pub room : (f : ℕ) → (s.opened.files f).ref + 1 < 2 ^ 31

uses-elsewhere :
    (n f fd : ℕ) (ofile : ℕ → Option ℕ) (v : Option ℕ)
    → n ≤ fd
    → uses n f (update ofile fd v) ≡ uses n f ofile
unfolding uses
uses-elsewhere zero f fd ofile v above = refl
uses-elsewhere (suc n) f fd ofile v above =
    let other : (n == fd) ≡ false = ground (arith, above) in
    rw other
      (ap (λ k. names f (ofile n) + k) (uses-elsewhere n f fd ofile v (omega (arith, above))))

-- A free descriptor that is set.
uses-set :
    (n f fd g : ℕ) (ofile : ℕ → Option ℕ)
    → fd < n
    → ofile fd ≡ none
    → uses n f (update ofile fd (some g)) ≡ names f (some g) + uses n f ofile
unfolding uses
uses-set zero f fd g ofile below free = absurd (omega (arith, below))
uses-set (suc n) f fd g ofile below free = elim (Bool-cases (n == fd)) [
  | inl e ↦
      let same : fd ≡ n = ground (arith, e) in
      let was : ofile n ≡ none = subst (λ x. ofile x ≡ none) same free in
      rw (e, was)
        (ap (λ k. names f (some g) + k) (uses-elsewhere n f fd ofile (some g) (omega (arith, same)))
          ∙ omega arith)
  | inr e ↦
      let ih = uses-set n f fd g ofile (ground (arith, below, e)) free in rw e (omega (arith, ih))
]

-- A descriptor that is in use.
uses_pos : (n f fd : ℕ) (ofile : ℕ → Option ℕ) → fd < n → ofile fd ≡ some f → 0 < uses n f ofile
unfolding uses
uses_pos zero f fd ofile below named = absurd (omega (arith, below))
uses_pos (suc n) f fd ofile below named = elim (Bool-cases (n == fd)) [
  | inl e ↦
      let same : n ≡ fd = ground (arith, e) in
      let here : names f (ofile n) ≡ 1 = rw (same, named, eqb_refl f) refl in omega (arith, here)
  | inr e ↦ omega (arith, uses_pos n f fd ofile (ground (arith, below, e)) named)
]

-- What `fdalloc` returns.
data Lowest (f : ℕ) (s : Sys) (from : ℕ) : Option ℕ × Sys → Type 0 where
  all_used : ((i : ℕ) → from ≤ i → i < nofile → s.ofile i ≢ none) → Lowest f s from (none, s)
  lowest :
      (fd : ℕ)
      → fd < nofile
      → s.ofile fd ≡ none
      → ((i : ℕ) → from ≤ i → i < fd → s.ofile i ≢ none)
      → Lowest f s from (some fd, record s { ofile = update s.ofile fd (some f) })

Lowest-later :
    (f : ℕ) (s : Sys) (from : ℕ) {o : Option ℕ × Sys}
    → s.ofile from ≢ none
    → Lowest f s (from + 1) o
    → Lowest f s from o
Lowest-later f s from used (all_used later) = all_used (λ i above below.
    elim (Bool-cases (i == from)) [
      | inl e ↦ (let same : from ≡ i = ground (arith, e) in subst (λ x. s.ofile x ≢ none) same used)
      | inr e ↦ later i (ground (arith, e, above)) below
    ])
Lowest-later f s from used (lowest fd below free later) = lowest fd below free (λ i above under.
    elim (Bool-cases (i == from)) [
      | inl e ↦ (let same : from ≡ i = ground (arith, e) in subst (λ x. s.ofile x ≢ none) same used)
      | inr e ↦ later i (ground (arith, e, above)) under
    ])

-- A descriptor that is used is not free.
is_used : Option ℕ → Bool
is_used none = false
is_used (some g) = true

some_ne : (o : Option ℕ) (g : ℕ) → o ≡ some g → o ≢ none
unfolding is_used
some_ne o g used free = absurd (ground (arith, ap is_used (sym free ∙ used)))

fd_loop-Lowest :
    (left from f : ℕ) (s : Sys) → from + left ≡ nofile → Lowest f s from (fd_loop left from f s)
unfolding fd_loop
fd_loop-Lowest zero from f s all =
    all_used (λ i above below. absurd (omega (arith, all, above, below)))
fd_loop-Lowest (suc left) from f s all = elim (Option-cases (s.ofile from)) [
  | inl free ↦
      rw (free, fd_loop)
        (lowest from (omega (arith, all)) free
          (λ i above below. absurd (omega (arith, above, below))))
  | inr (g, used) ↦
      rw (used, fd_loop)
        (Lowest-later f s from (some_ne (s.ofile from) g used)
          (fd_loop-Lowest left (from + 1) f s (omega (arith, all))))
]

-- What `sys_dup` returns: -1, for a descriptor that is not open or for want of a free one, with
-- nothing changed; or the lowest free descriptor, which names the same file now.
pub data Dup (others : ℕ → ℕ) (fd : ℕ) (s : Sys) : Outcome (ℕ × Sys) → Type 0 where
  not_open : argfd fd s ≡ none → Dup others fd s (ok (fail, s))
  none_free : ((i : ℕ) → i < nofile → s.ofile i ≢ none) → Dup others fd s (ok (fail, s))
  copied :
      (new : ℕ) (s' : Sys)
      → new < nofile
      → s.ofile new ≡ none
      → ((i : ℕ) → i < new → s.ofile i ≢ none)
      → s'.ofile new ≡ argfd fd s
      → ((i : ℕ) → i ≢ new → s'.ofile i ≡ s.ofile i)
      → ((f : ℕ) → (s'.opened.files f).ref ≡ uses nofile f s'.ofile + others f)
      → Dup others fd s (ok (new, s'))

module _ (others : ℕ → ℕ) (fd : ℕ) (s : Sys) (counted : Counted others s) where
  argfd-bound : (f : ℕ) → argfd fd s ≡ some f → (fd < nofile) × (s.ofile fd ≡ some f)
  unfolding argfd
  argfd-bound f found = elim (Bool-cases (ltb fd nofile)) [
    | inl e ↦
        (ground (arith, e), subst (λ b. (if not b then none else s.ofile fd) ≡ some f) e found)
    | inr e ↦
        absurd
          (some_ne none f (subst (λ b. (if not b then none else s.ofile fd) ≡ some f) e found) refl)
  ]

  filedup_lem :
      (f : ℕ)
      → s.ofile fd ≡ some f
      → fd < nofile
      → filedup f s.opened.files
        ≡ ok (
            update s.opened.files f
              (record (s.opened.files f) { ref = (s.opened.files f).ref + 1 }))
  unfolding filedup
  filedup_lem f named below =
      let held : 0 < (s.opened.files f).ref =
        omega (arith, counted.counts f, uses_pos nofile f fd s.ofile below named) in
      let live : slt (s.opened.files f).ref 1 ≡ false = ground (arith, held, counted.room f) in
      let more : add32 (s.opened.files f).ref 1 ≡ (s.opened.files f).ref + 1 =
        omega (arith, counted.room f) in
      rw (live, more) refl

  -- The state with one more descriptor and one more reference.
  module _ (f new : ℕ) (named : s.ofile fd ≡ some f) (below : fd < nofile)
      (new_below : new < nofile) (free : s.ofile new ≡ none) where
    abbrev dupped : Sys
    dupped = record s {
      opened = record s.opened {
        files =
            update s.opened.files f
              (record (s.opened.files f) { ref = (s.opened.files f).ref + 1 });
      };
      ofile = update s.ofile new (some f);
    }

    dupped_counts : (g : ℕ) → (dupped.opened.files g).ref ≡ uses nofile g dupped.ofile + others g
    dupped_counts g =
        let more = uses-set nofile g new f s.ofile new_below free in
        elim (Bool-cases (g == f)) [
          | inl e ↦
              let same : g ≡ f = ground (arith, e) in
              let one : names g (some f) ≡ 1 = rw (same, eqb_refl f) refl in
              rw e
                (omega (arith, more, one, counted.counts g, ap (λ x. (s.opened.files x).ref) same))
          | inr e ↦
              let off : (f == g) ≡ false = ground (arith, e) in
              let zero_ : names g (some f) ≡ 0 = rw off refl in
              rw e (omega (arith, more, zero_, counted.counts g))
        ]

  -- While the count of each file is the number of its holders, `sys_dup` never panics: it gives the
  -- lowest free descriptor for the file of an open one, or -1, and the counts are the numbers of the
  -- holders again.
  pub sys_dup-Dup : Dup others fd s (sys_dup fd s)
  unfolding sys_dup fdalloc
  sys_dup-Dup = elim (Option-cases (argfd fd s)) [
    | inl shut ↦ rw (shut, sys_dup) (not_open shut)
    | inr (f, found) ↦
        let (below, named) = argfd-bound f found in
        rw (found, sys_dup) (go f found below named (fd_loop-Lowest nofile 0 f s refl))
  ]
    where
      go :
          (f : ℕ) {o : Option ℕ × Sys}
          → argfd fd s ≡ some f
          → fd < nofile
          → s.ofile fd ≡ some f
          → Lowest f s 0 o
          → Dup others fd s (elim o.0 [
            | none ↦ ok (fail, o.1)
            | some fd' ↦ filedup f o.1.opened.files >>= λ t.
                ok (fd', record o.1 { opened = record o.1.opened { files = t } })
          ])
      go f found below named (all_used used) = none_free (λ i under. used i (omega arith) under)
      go f found below named (lowest new new_below free before) = rw (filedup_lem f named below) (
          copied new (dupped f new named below new_below free) new_below free
            (λ i under. before i (omega arith) under) (rw (eqb_refl new) (sym found))
            (λ i other. rw (eqb_ne i new other) refl)
            (dupped_counts f new named below new_below free))
