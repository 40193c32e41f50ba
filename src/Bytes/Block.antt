-- ===== src/Bytes/Block.antt =====
-- What `memset` and `memmove` leave at each address.
use fog_os.Prelude.{
  ℕ, zero, suc, ◌+◌, ◌-◌, ◌%◌, ◌≤◌, ◌≡◌, ◌∙◌, Bool, ◌&&◌, ◌==◌, ltb, leb, arith, if◌then◌else◌,
  update, ◌⊎◌, inl, inr, Bool-cases,
}
use fog_os.Bytes.{Memory, memset, move_down, move_up, memmove}

-- Whether `a` is one of the `n` addresses from `at` on.
abbrev pub within : (at n a : ℕ) → Bool
within at n a = leb at a && ltb a (at + n)

-- `memset` writes the low byte of `c` to the block, and nothing else.
pub memset_lem :
    (dst c n : ℕ) (m : Memory) (a : ℕ)
    → memset dst c n m a ≡ (if within dst n a then c % 256 else m a)
unfolding memset
memset_lem dst c zero m a = ground arith
memset_lem dst c (suc n) m a = memset_lem (dst + 1) c n (update m dst (c % 256)) a ∙ ground arith

move_up_lem :
    (d s n : ℕ) (m : Memory) (a : ℕ)
    → (d ≤ s) ⊎ (s + n ≤ d)
    → move_up d s n m a ≡ (if within d n a then m (s + (a - d)) else m a)
unfolding move_up
move_up_lem d s zero m a apart = ground arith
move_up_lem d s (suc n) m a apart =
    let next : (d + 1 ≤ s + 1) ⊎ (s + 1 + n ≤ d + 1) = elim apart [
      | inl le ↦ inl (omega arith)
      | inr le ↦ inr (omega arith)
    ] in
    move_up_lem (d + 1) (s + 1) n (update m d (m s)) a next ∙ elim (Bool-cases (a == d)) [
      | inl e ↦ (let here : s + (a - d) ≡ s = ground arith in rw here (ground arith))
      | inr e ↦ elim (Bool-cases (leb d a)) [
        | inl above ↦
            let there : s + 1 + (a - (d + 1)) ≡ s + (a - d) = ground arith in
            rw there (elim apart [ inl le ↦ ground arith | inr le ↦ ground arith ])
        | inr below ↦ ground arith
      ]
    ]

move_down_lem :
    (d s n : ℕ) (m : Memory) (a : ℕ)
    → s ≤ d
    → move_down (d + n) (s + n) n m a ≡ (if within d n a then m (s + (a - d)) else m a)
unfolding move_down
move_down_lem d s zero m a le = ground arith
move_down_lem d s (suc n) m a le =
    let at : d + suc n - 1 ≡ d + n = omega arith in
    let from : s + suc n - 1 ≡ s + n = omega arith in
    rw (at, from)
      (move_down_lem d s n (update m (d + n) (m (s + n))) a le ∙ elim (Bool-cases (a == d + n)) [
        | inl e ↦ (let here : s + (a - d) ≡ s + n = ground arith in rw here (ground arith))
        | inr e ↦ ground arith
      ])

-- Whether the blocks overlap or not, `memmove` leaves in the destination what the source held
-- before, byte by byte, and every other byte as it was.
pub memmove_lem :
    (dst src n : ℕ) (m : Memory) (a : ℕ)
    → memmove dst src n m a ≡ (if within dst n a then m (src + (a - dst)) else m a)
unfolding memmove
memmove_lem dst src n m a = elim (Bool-cases (n == 0)) [
  | inl none_ ↦ rw none_ (ground arith)
  | inr some_ ↦ elim (Bool-cases (ltb src dst && ltb dst (src + n))) [
    | inl over ↦ rw (some_, over) (move_down_lem dst src n m a (ground arith))
    | inr no_over ↦
        let apart : (dst ≤ src) ⊎ (src + n ≤ dst) = elim (Bool-cases (ltb src dst)) [
          | inl h ↦ inr (ground arith)
          | inr h ↦ inl (ground arith)
        ] in
        rw (some_, no_over) (move_up_lem dst src n m a apart)
  ]
]
