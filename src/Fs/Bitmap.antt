-- ===== src/Fs/Bitmap.antt =====
-- The bitmap as a set of blocks in use, and `bfree`.
use Prim.Native.Nat.{bit_and, bit_or}
use fog_os.Prelude.{
  ℕ, ◌+◌, ◌-◌, ◌/◌, ◌%◌, ◌^◌, ◌<◌, ◌≡◌, ◌≢◌, refl, ap, ◌∙◌, Bool, true, false, not, ◌&&◌, ◌||◌,
  ◌==◌, arith, if◌then◌else◌, update, Bool-cases, inl, inr, Outcome, ok, panic,
}
use fog_os.Fs.{SuperBlock, bpb, bblock, Blocks, mask, bfree}
use fog_os.Fs.Bits.{bit, test_bit, set_bit, clear_bit, set_byte, clear_byte}

-- The bit of block `x`, in the bytes of its bitmap block.
abbrev pub bit_at : (bytes : ℕ → ℕ) (bi : ℕ) → Bool
bit_at bytes bi = bit (bytes (bi / 8)) (bi % 8)

unfoldable pub in_use : SuperBlock → Blocks → ℕ → Bool
in_use sb blocks x = bit_at (blocks (bblock x sb)) (x % bpb)

-- The numbers of blocks fit an `int`.
pub record IsSuper (sb : SuperBlock) : Type 0 where
  pub size_fits : sb.size + bpb < 2 ^ 31
  pub map_fits : sb.bmapstart + sb.size < 2 ^ 31

abbrev pub AreBytes : (ℕ → ℕ) → Type 0
AreBytes bytes = (i : ℕ) → bytes i < 256

-- Where the byte is the same, the bit tells the position.
same_byte : (k bi : ℕ) → k / 8 ≡ bi / 8 → (k % 8 == bi % 8) ≡ (k == bi)
same_byte k bi e = ground arith

pub bit_at-set :
    (bytes : ℕ → ℕ) (bi k : ℕ)
    → AreBytes bytes
    → bit_at (update bytes (bi / 8) (bit_or (bytes (bi / 8)) (mask bi))) k
      ≡ (k == bi || bit_at bytes k)
bit_at-set bytes bi k are = elim (Bool-cases (k / 8 == bi / 8)) [
  | inl same ↦
      let e : k / 8 ≡ bi / 8 = ground arith in
      rw
        (
          same,
          set_bit (bytes (bi / 8)) (bi % 8) (are (bi / 8)) (omega arith) (k % 8) (omega arith),
          e,
          same_byte k bi e,
        )
        refl
  | inr other ↦ rw other (ground arith)
]

pub bit_at-clear :
    (bytes : ℕ → ℕ) (bi k : ℕ)
    → AreBytes bytes
    → bit_at (update bytes (bi / 8) (bit_and (bytes (bi / 8)) (255 - mask bi))) k
      ≡ (not (k == bi) && bit_at bytes k)
bit_at-clear bytes bi k are = elim (Bool-cases (k / 8 == bi / 8)) [
  | inl same ↦
      let e : k / 8 ≡ bi / 8 = ground arith in
      rw
        (
          same,
          clear_bit (bytes (bi / 8)) (bi % 8) (are (bi / 8)) (omega arith) (k % 8) (omega arith),
          e,
          same_byte k bi e,
        )
        refl
  | inr other ↦ rw other (ground arith)
]

pub AreBytes-set :
    (bytes : ℕ → ℕ) (bi : ℕ)
    → AreBytes bytes
    → AreBytes (update bytes (bi / 8) (bit_or (bytes (bi / 8)) (mask bi)))
AreBytes-set bytes bi are i =
    ground (arith, set_byte (bytes (bi / 8)) (bi % 8) (are (bi / 8)) (omega arith), are i)

pub AreBytes-clear :
    (bytes : ℕ → ℕ) (bi : ℕ)
    → AreBytes bytes
    → AreBytes (update bytes (bi / 8) (bit_and (bytes (bi / 8)) (255 - mask bi)))
AreBytes-clear bytes bi are i =
    ground (arith, clear_byte (bytes (bi / 8)) (bi % 8) (are (bi / 8)) (omega arith), are i)

-- One bitmap block exchanged.
in_use-update :
    (sb : SuperBlock) (blocks : Blocks) (b x : ℕ) (bytes : ℕ → ℕ)
    → in_use sb (update blocks (bblock b sb) bytes) x
      ≡ (if bblock x sb == bblock b sb then bit_at bytes (x % bpb) else in_use sb blocks x)
unfolding in_use
in_use-update sb blocks b x bytes = elim (Bool-cases (bblock x sb == bblock b sb)) [
  | inl e ↦ rw e refl
  | inr e ↦ rw e refl
]

bblock-eq :
    (sb : SuperBlock)
    → IsSuper sb
    → (x b : ℕ) → x < sb.size
    → b < sb.size
    → (bblock x sb == bblock b sb) ≡ (x / bpb == b / bpb)
bblock-eq sb super x b hx hb = ground (arith, super.size_fits, super.map_fits)

same_block : (x b : ℕ) → x / bpb ≡ b / bpb → (x % bpb == b % bpb) ≡ (x == b)
same_block x b e = ground arith

module _ (sb : SuperBlock) (super : IsSuper sb) (blocks : Blocks)
    (are : (y : ℕ) → AreBytes (blocks y)) (b : ℕ) (hb : b < sb.size) where
  abbrev bytes : ℕ → ℕ
  bytes = blocks (bblock b sb)

  abbrev bi : ℕ
  bi = b % bpb

  abbrev freed : Blocks
  freed =
      update blocks (bblock b sb) (update bytes (bi / 8) (bit_and (bytes (bi / 8)) (255 - mask bi)))

  abbrev marked : Blocks
  marked = update blocks (bblock b sb) (update bytes (bi / 8) (bit_or (bytes (bi / 8)) (mask bi)))

  in_use-freed : (x : ℕ) → x < sb.size → in_use sb freed x ≡ (not (x == b) && in_use sb blocks x)
  unfolding in_use
  in_use-freed x hx = elim (Bool-cases (x / bpb == b / bpb)) [
    | inl same ↦
        let e : x / bpb ≡ b / bpb = ground arith in
        in_use-update sb blocks b x _
        ∙ rw
            (
              bblock-eq sb super x b hx hb,
              same,
              bit_at-clear bytes bi (x % bpb) (are (bblock b sb)),
              same_block x b e,
              e,
            )
            refl
    | inr other ↦
        in_use-update sb blocks b x _ ∙ rw (bblock-eq sb super x b hx hb, other) (ground arith)
  ]

  pub in_use-marked : (x : ℕ) → x < sb.size → in_use sb marked x ≡ (x == b || in_use sb blocks x)
  unfolding in_use
  in_use-marked x hx = elim (Bool-cases (x / bpb == b / bpb)) [
    | inl same ↦
        let e : x / bpb ≡ b / bpb = ground arith in
        in_use-update sb blocks b x _
        ∙ rw
            (
              bblock-eq sb super x b hx hb,
              same,
              bit_at-set bytes bi (x % bpb) (are (bblock b sb)),
              same_block x b e,
              e,
            )
            refl
    | inr other ↦
        in_use-update sb blocks b x _ ∙ rw (bblock-eq sb super x b hx hb, other) (ground arith)
  ]

  pub tested : (bit_and (bytes (bi / 8)) (mask bi) == 0) ≡ not (in_use sb blocks b)
  unfolding in_use
  tested = test_bit (bytes (bi / 8)) (bi % 8) (are (bblock b sb) (bi / 8)) (omega arith)

  -- The outcome of `bfree`.
  pub data Bfree : Outcome Blocks → Type 0 where
    was_free : in_use sb blocks b ≡ false → Bfree (panic "freeing free block")
    frees :
        (after : Blocks)
        → in_use sb blocks b ≡ true
        → ((x : ℕ) → x < sb.size → in_use sb after x ≡ (not (x == b) && in_use sb blocks x))
        → ((y : ℕ) → y ≢ bblock b sb → after y ≡ blocks y)
        → Bfree (ok after)

  -- `bfree` of a block below the size of the file system panics if the block is free; if not, it
  -- takes this block, and no other, out of use, and changes no other block than its bitmap block.
  pub bfree-Bfree : Bfree (bfree sb b blocks)
  unfolding bfree
  bfree-Bfree = elim (Bool-cases (in_use sb blocks b)) [
    | inr free_ ↦ (let test = tested ∙ ap not free_ in rw test (was_free free_))
    | inl used ↦
        let test = tested ∙ ap not used in
        rw test (
          frees freed used in_use-freed
            (λ y other. (let e : (y == bblock b sb) ≡ false = ground arith in rw e refl)))
  ]
