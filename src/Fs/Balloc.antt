-- ===== src/Fs/Balloc.antt =====
-- `balloc` takes the first free block.
use mathlib.Core.Path.{subst}
use fog_os.Prelude.{
  ℕ, zero, suc, ◌+◌, ◌-◌, ◌*◌, ◌/◌, ◌%◌, ◌≤◌, ◌<◌, ◌≡◌, ◌≢◌, refl, ap, ◌∙◌, true, false, ◌||◌, ◌==◌,
  ltb, arith, update, Bool-cases, eqb_refl, inl, inr, add32, Option, none, some,
}
use Prim.Native.Nat.{bit_or}
use fog_os.Fs.{SuperBlock, bpb, bblock, Blocks, mask, bzero, scan, take_block, balloc_loop, balloc}
use fog_os.Fs.Bits.{test_bit}
use fog_os.Fs.Bitmap.{bit_at, in_use, IsSuper, AreBytes, in_use-marked, AreBytes-set}

-- The blocks of the bitmap, and block 0, are in use.
pub record IsBitmap (sb : SuperBlock) (blocks : Blocks) : Type 0 where
  pub bytes : (y : ℕ) → AreBytes (blocks y)
  pub map_inside : (x : ℕ) → x < sb.size → bblock x sb < sb.size
  pub map_used : (x : ℕ) → x < sb.size → in_use sb blocks (bblock x sb) ≡ true
  pub zero_used : in_use sb blocks 0 ≡ true

-- The outcome of `balloc`.
pub data Balloc (sb : SuperBlock) (blocks : Blocks) : ℕ × Blocks → Type 0 where
  out_of_blocks : ((x : ℕ) → x < sb.size → in_use sb blocks x ≡ true) → Balloc sb blocks (0, blocks)
  allocated :
      (b : ℕ) (after : Blocks)
      → b < sb.size
      → b ≢ 0
      → in_use sb blocks b ≡ false
      → ((x : ℕ) → x < b → in_use sb blocks x ≡ true)
      → ((x : ℕ) → x < sb.size → in_use sb after x ≡ (x == b || in_use sb blocks x))
      → ((i : ℕ) → after b i ≡ 0)
      → ((y : ℕ) → y ≢ b → y ≢ bblock b sb → after y ≡ blocks y)
      → IsBitmap sb after
      → Balloc sb blocks (b, after)

module _ (sb : SuperBlock) (super : IsSuper sb) where
  -- What `scan` finds from bit `bi` on.
  data Scan (bytes : ℕ → ℕ) (b bi : ℕ) : Option ℕ → Type 0 where
    nothing_free :
        ((k : ℕ) → bi ≤ k → k < bpb → b + k < sb.size → bit_at bytes k ≡ true)
        → Scan bytes b bi none
    first :
        (j : ℕ)
        → bi ≤ j
        → j < bpb
        → b + j < sb.size
        → bit_at bytes j ≡ false
        → ((k : ℕ) → bi ≤ k → k < j → bit_at bytes k ≡ true)
        → Scan bytes b bi (some j)

  Scan-later :
      (bytes : ℕ → ℕ) (b bi : ℕ) {o : Option ℕ}
      → bit_at bytes bi ≡ true
      → Scan bytes b (bi + 1) o
      → Scan bytes b bi o
  Scan-later bytes b bi used (nothing_free all_used) = nothing_free (λ k from to fits.
      elim (Bool-cases (k == bi)) [
        | inl e ↦ (let e' : bi ≡ k = ground arith in subst (λ k. bit_at bytes k ≡ true) e' used)
        | inr e ↦ all_used k (ground arith) to fits
      ])
  Scan-later bytes b bi used (first j from to fits free_ before) =
      first j (omega arith) to fits free_ (λ k from to. elim (Bool-cases (k == bi)) [
        | inl e ↦ (let e' : bi ≡ k = ground arith in subst (λ k. bit_at bytes k ≡ true) e' used)
        | inr e ↦ before k (ground arith) to
      ])

  scan-Scan :
      (bytes : ℕ → ℕ) (b left bi : ℕ)
      → AreBytes bytes
      → b < sb.size
      → bi + left ≡ bpb
      → Scan bytes b bi (scan sb bytes b left bi)
  unfolding scan
  scan-Scan bytes b zero bi are hb e = nothing_free (λ k from to fits. absurd (omega arith))
  scan-Scan bytes b (suc left) bi are hb e = elim (Bool-cases (ltb (add32 b bi) sb.size)) [
    | inr outside ↦
        rw outside (nothing_free (λ k from to fits. absurd (ground (arith, super.size_fits))))
    | inl inside ↦
        let test = test_bit (bytes (bi / 8)) (bi % 8) (are (bi / 8)) (omega arith) in
        elim (Bool-cases (bit_at bytes bi)) [
          | inr free_ ↦
              rw (inside, test, free_)
                (first bi (omega arith) (omega arith) (ground (arith, super.size_fits)) free_
                  (λ k from to. absurd (omega arith)))
          | inl used ↦
              rw (inside, test, used, scan)
                (Scan-later bytes b bi used (scan-Scan bytes b left (bi + 1) are hb (omega arith)))
        ]
  ]

  in_use-elsewhere :
      (blocks : Blocks) (x y : ℕ) (bytes : ℕ → ℕ)
      → bblock y sb ≢ x
      → in_use sb (update blocks x bytes) y ≡ in_use sb blocks y
  unfolding in_use
  in_use-elsewhere blocks x y bytes other =
      let e : (bblock y sb == x) ≡ false = ground arith in rw e refl

  in_use-bit :
      (blocks : Blocks) (b k : ℕ)
      → b % bpb ≡ 0
      → k < bpb
      → in_use sb blocks (b + k) ≡ bit_at (blocks (bblock b sb)) k
  unfolding in_use
  in_use-bit blocks b k start fits =
      let at : (b + k) / bpb ≡ b / bpb = omega arith in
      let pos : (b + k) % bpb ≡ k = omega arith in rw (at, pos) refl

  -- A free block, marked and zeroed.
  module _ (blocks : Blocks) (map_ : IsBitmap sb blocks) (x : ℕ) (hx : x < sb.size)
      (free_ : in_use sb blocks x ≡ false) where
    abbrev marked_at : (bi : ℕ) → Blocks
    marked_at bi =
        update blocks (bblock x sb) (
          update (blocks (bblock x sb)) (bi / 8) (bit_or (blocks (bblock x sb) (bi / 8)) (mask bi)))

    abbrev taken : Blocks
    taken = bzero x (marked_at (x % bpb))

    unmapped : (y : ℕ) → y < sb.size → bblock y sb ≢ x
    unmapped y hy e = absurd (ground (arith, map_.map_used y hy, free_, ap (in_use sb blocks) e))

    in_use-taken : (y : ℕ) → y < sb.size → in_use sb taken y ≡ (y == x || in_use sb blocks y)
    unfolding bzero
    in_use-taken y hy =
        in_use-elsewhere (marked_at (x % bpb)) x y (λ i. 0) (unmapped y hy)
        ∙ in_use-marked sb super blocks map_.bytes x hx y hy

    bytes-taken : (y : ℕ) → AreBytes (taken y)
    unfolding bzero
    bytes-taken y i = ground (
      arith,
      AreBytes-set (blocks (bblock x sb)) (x % bpb) (map_.bytes (bblock x sb)) i,
      map_.bytes y i,
    )

    taken-IsBitmap : IsBitmap sb taken
    taken-IsBitmap = record {
      bytes = bytes-taken;
      map_inside = map_.map_inside;
      map_used = λ y hy.
          ground (arith, in_use-taken (bblock y sb) (map_.map_inside y hy), map_.map_used y hy);
      zero_used = ground (arith, in_use-taken 0 (omega arith), map_.zero_used);
    }

    taken-Balloc : ((y : ℕ) → y < x → in_use sb blocks y ≡ true) → Balloc sb blocks (x, taken)
    unfolding bzero
    taken-Balloc before =
        allocated x taken hx
          (λ e. absurd (ground (arith, map_.zero_used, free_, ap (in_use sb blocks) e))) free_
          before in_use-taken (λ i. rw (eqb_refl x) refl)
          (λ y other other'.
            (let e : (y == x) ≡ false = ground arith in
              let e' : (y == bblock x sb) ≡ false = ground arith in rw (e, e') refl))
          taken-IsBitmap

  -- A free bit of the bitmap block at `b`, taken.
  take_block-Balloc :
      (blocks : Blocks) (b bi : ℕ)
      → IsBitmap sb blocks
      → b % bpb ≡ 0
      → bi < bpb
      → b + bi < sb.size
      → in_use sb blocks (b + bi) ≡ false
      → ((x : ℕ) → x < b + bi → in_use sb blocks x ≡ true)
      → Balloc sb blocks (take_block sb b bi blocks)
  unfolding take_block
  take_block-Balloc blocks b bi map_ start fits inside free_ before =
      let x : ℕ = b + bi in
      let number : add32 b bi ≡ b + bi = omega (arith, super.size_fits) in
      let pos : x % bpb ≡ bi = omega arith in
      let same : b / bpb ≡ x / bpb = omega arith in
      rw (number, same)
        (subst (λ p. Balloc sb blocks (x, bzero x (marked_at blocks map_ x inside free_ p))) pos
          (taken-Balloc blocks map_ x inside free_ before))

  -- One round, from what the inner loop found and what the rest of the outer loop does.
  round-Balloc :
      (b : ℕ) (blocks : Blocks) (rest : ℕ × Blocks) {o : Option ℕ}
      → IsBitmap sb blocks
      → b % bpb ≡ 0
      → ((x : ℕ) → x < b → x < sb.size → in_use sb blocks x ≡ true)
      → (((x : ℕ) → x < b + bpb → x < sb.size → in_use sb blocks x ≡ true) → Balloc sb blocks rest)
      → Scan (blocks (bblock b sb)) b 0 o
      → Balloc sb blocks (elim o [ none ↦ rest | some bi ↦ take_block sb b bi blocks ])
  round-Balloc b blocks rest map_ start before go (nothing_free all_used) = go (λ x lt hx.
      elim (Bool-cases (ltb x b)) [
        | inl low ↦ before x (ground arith) hx
        | inr high ↦
            let k : ℕ = x - b in
            let e : b + k ≡ x = ground arith in
            subst (λ x. in_use sb blocks x ≡ true) e
              (in_use-bit blocks b k start (ground arith)
                ∙ all_used k (omega arith) (ground arith) (ground arith))
      ])
  round-Balloc b blocks rest map_ start before go (first j from to fits free_ low_used) =
      take_block-Balloc blocks b j map_ start to fits (in_use-bit blocks b j start to ∙ free_)
        (λ x lt. elim (Bool-cases (ltb x b)) [
          | inl low ↦ before x (ground arith) (omega arith)
          | inr high ↦
              let k : ℕ = x - b in
              let e : b + k ≡ x = ground arith in
              subst (λ x. in_use sb blocks x ≡ true) e
                (in_use-bit blocks b k start (ground arith)
                  ∙ low_used k (omega arith) (ground arith))
        ])

  balloc_loop-Balloc :
      (fuel b : ℕ) (blocks : Blocks)
      → IsBitmap sb blocks
      → b % bpb ≡ 0
      → sb.size < b + fuel * bpb
      → ((x : ℕ) → x < b → x < sb.size → in_use sb blocks x ≡ true)
      → Balloc sb blocks (balloc_loop sb fuel b blocks)
  unfolding balloc_loop
  balloc_loop-Balloc zero b blocks map_ start enough before =
      out_of_blocks (λ x hx. before x (omega arith) hx)
  balloc_loop-Balloc (suc fuel) b blocks map_ start enough before =
      elim (Bool-cases (ltb b sb.size)) [
        | inr end ↦ rw end (out_of_blocks (λ x hx. before x (ground arith) hx))
        | inl more ↦
            let next : add32 b bpb ≡ b + bpb = ground (arith, super.size_fits) in
            rw more (
              round-Balloc b blocks _ map_ start before
                (λ low_used.
                  balloc_loop-Balloc fuel (add32 b bpb) blocks map_ (omega arith) (omega arith)
                    (λ x lt hx. low_used x (omega arith) hx))
                (scan-Scan (blocks (bblock b sb)) b bpb 0 (map_.bytes (bblock b sb)) (ground arith)
                  (omega arith)))
      ]

-- `balloc`, in a file system whose bitmap marks itself and block 0 as in use, returns 0 and changes
-- nothing if every block is in use. If not, it returns the first free block, which is not 0: this
-- block, and no other, comes into use, it holds zeros, no other block changes but that of its bit,
-- and the bitmap still marks itself and block 0.
pub balloc-Balloc :
    (sb : SuperBlock) (blocks : Blocks)
    → IsSuper sb
    → IsBitmap sb blocks
    → Balloc sb blocks (balloc sb blocks)
unfolding balloc
balloc-Balloc sb blocks super map_ =
    balloc_loop-Balloc sb super (sb.size / bpb + 1) 0 blocks map_ (omega arith) (omega arith)
      (λ x lt hx. absurd (omega arith))
