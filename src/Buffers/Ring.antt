-- ===== src/Buffers/Ring.antt =====
-- The doubly linked list of buffers, as the links hold it, and how taking a buffer out and putting
-- it first change it.
use mathlib.Core.Path.{subst}
use fog_os.Prelude.{
  ℕ, ◌≡◌, ◌≢◌, refl, sym, ap, ◌∙◌, true, false, ◌==◌, update, List, [], ◌∷◌, arith, Bool-cases, inl,
  inr, if◌then◌else◌, length, ◌+◌,
}
use fog_os.Kalloc.FreeList.{member, IsDistinct, member_ne}

-- From `a` on, the links lead through `xs` to `z`, and back.
abbrev pub Chain : (next prev : ℕ → ℕ) (a : ℕ) → List ℕ → (z : ℕ) → Type 0
Chain next prev a [] z = (next a ≡ z) × (prev z ≡ a)
Chain next prev a (x ∷ xs) z = (next a ≡ x) × (prev x ≡ a) × Chain next prev x xs z

abbrev pub remove : ℕ → List ℕ → List ℕ
remove b [] = []
remove b (x ∷ xs) = if b == x then xs else x ∷ remove b xs

Chain-congr :
    (next prev next' prev' : ℕ → ℕ) (a : ℕ) (xs : List ℕ) (z : ℕ)
    → ((x : ℕ) → member x (a ∷ xs) ≡ true → next' x ≡ next x)
    → ((x : ℕ) → member x (z ∷ xs) ≡ true → prev' x ≡ prev x)
    → Chain next prev a xs z
    → Chain next' prev' a xs z
Chain-congr next prev next' prev' a [] z fore back (there, here) =
    (fore a (ground arith) ∙ there, back z (ground arith) ∙ here)
Chain-congr next prev next' prev' a (x ∷ xs) z fore back (there, here, c) = (
  fore a (ground arith) ∙ there,
  back x (ground arith) ∙ here,
  Chain-congr next prev next' prev' x xs z (λ y h. fore y (ground (arith, h)))
      (λ y h. back y (ground (arith, h))) c,
)

module _ (next prev : ℕ → ℕ) (b : ℕ) where
  prev-member :
      (a : ℕ) (xs : List ℕ) (z : ℕ)
      → Chain next prev a xs z
      → member b xs ≡ true
      → member (prev b) (a ∷ xs) ≡ true
  prev-member a [] z c in_ = absurd (ground (arith, in_))
  prev-member a (x ∷ xs) z (there, here, c) in_ = elim (Bool-cases (b == x)) [
    | inl e ↦ (let same : b ≡ x = ground arith in ground (arith, ap prev same, here))
    | inr e ↦ (let rest = prev-member x xs z c (ground (arith, in_, e)) in ground (arith, rest))
  ]

  next-first :
      (a : ℕ) (xs : List ℕ) (z : ℕ) → Chain next prev a xs z → member (next a) (z ∷ xs) ≡ true
  next-first a [] z (there, here) = ground (arith, there)
  next-first a (x ∷ xs) z (there, here, c) = ground (arith, there)

  next-member :
      (a : ℕ) (xs : List ℕ) (z : ℕ)
      → Chain next prev a xs z
      → member b xs ≡ true
      → member (next b) (z ∷ xs) ≡ true
  next-member a [] z c in_ = absurd (ground (arith, in_))
  next-member a (x ∷ xs) z (there, here, c) in_ = elim (Bool-cases (b == x)) [
    | inl e ↦
        let same : b ≡ x = ground arith in
        let first = next-first x xs z c in ground (arith, ap next same, first)
    | inr e ↦ (let rest = next-member x xs z c (ground (arith, in_, e)) in ground (arith, rest))
  ]

  -- The links of `b` lead past it.
  abbrev pub past_next : ℕ → ℕ
  past_next = update next (prev b) (next b)

  abbrev pub past_prev : ℕ → ℕ
  past_prev = update prev (next b) (prev b)

  -- Past the first element.
  past-first :
      (a : ℕ) (xs : List ℕ) (z : ℕ)
      → member a xs ≡ false
      → member z xs ≡ false
      → IsDistinct xs
      → Chain next prev a (b ∷ xs) z
      → Chain past_next past_prev a xs z
  past-first a [] z out_a out_z distinct (there, here, (there', here')) =
      (ground (arith, here, there'), ground (arith, here, there'))
  past-first a (y ∷ xs) z out_a out_z (new, distinct) (there, here, (there', here', c)) = (
    ground (arith, here, there'),
    ground (arith, here, there'),
    Chain-congr next prev past_next past_prev y xs z
        (λ x in_. (let e = member_ne x a (y ∷ xs) in_ out_a in ground (arith, here, e)))
        (λ x in_.
          (let e : x ≢ y =
              λ same. absurd (ground (arith, in_, out_z, new, ap (λ q. member q xs) same)) in
            ground (arith, there', e)))
        c,
  )

  pub past-Chain :
      (a : ℕ) (xs : List ℕ) (z : ℕ)
      → member a xs ≡ false
      → member z xs ≡ false
      → IsDistinct xs
      → Chain next prev a xs z
      → member b xs ≡ true
      → Chain past_next past_prev a (remove b xs) z
  past-Chain a [] z out_a out_z distinct c in_ = absurd (ground (arith, in_))
  past-Chain a (x ∷ xs) z out_a out_z (new, distinct) (there, here, c) in_ =
      elim (Bool-cases (b == x)) [
        | inl e ↦
            (let same : x ≡ b = ground arith in
              rw e (
                past-first a xs z (ground (arith, out_a)) (ground (arith, out_z)) distinct (
                  there ∙ same,
                  ap prev (sym same) ∙ here,
                  subst (λ q. Chain next prev q xs z) same c,
                )))
        | inr e ↦
            let in' : member b xs ≡ true = ground (arith, in_, e) in
            let before = member_ne (prev b) a (x ∷ xs) (prev-member x xs z c in') out_a in
            let after_ : member x (z ∷ xs) ≡ false = ground (arith, out_z, new) in
            let behind = member_ne (next b) x (z ∷ xs) (next-member x xs z c in') after_ in
            rw e (
              ground (arith, there, before),
              ground (arith, here, behind),
              past-Chain x xs z new (ground (arith, out_z)) distinct c in',
            )
      ]

  -- `b` between `a` and what follows it.
  abbrev pub first_next : (a : ℕ) → ℕ → ℕ
  first_next a = update (update next b (next a)) a b

  abbrev pub first_prev : (a : ℕ) → ℕ → ℕ
  first_prev a = update (update prev b a) (next a) b

  pub first-Chain :
      (a : ℕ) (xs : List ℕ) (z : ℕ)
      → a ≢ b
      → z ≢ b
      → member a xs ≡ false
      → member z xs ≡ false
      → member b xs ≡ false
      → IsDistinct xs
      → Chain next prev a xs z
      → Chain (first_next a) (first_prev a) a (b ∷ xs) z
  first-Chain a [] z ne_a ne_z out_a out_z out_b distinct (there, here) = (
    ground arith,
    ground (arith, there, ne_z),
    (ground (arith, there, ne_a), ground (arith, there)),
  )
  first-Chain a (y ∷ xs) z ne_a ne_z out_a out_z out_b (new, distinct) (there, here, c) = (
    ground arith,
    ground (arith, there, out_b),
    (
      ground (arith, there, ne_a),
      ground (arith, there),
      Chain-congr next prev (first_next a) (first_prev a) y xs z
          (λ x in_.
            let e = member_ne x a (y ∷ xs) in_ out_a in
            let e' = member_ne x b (y ∷ xs) in_ out_b in ground (arith, e, e'))
          (λ x in_.
            let e : x ≢ y =
              λ same. absurd (ground (arith, in_, out_z, new, ap (λ q. member q xs) same)) in
            let e' : x ≢ b =
              λ same. absurd (ground (arith, in_, out_b, ne_z, ap (λ q. member q xs) same)) in
            ground (arith, there, e, e'))
          c,
    ),
  )

pub member-remove : (q b : ℕ) (xs : List ℕ) → member q xs ≡ false → member q (remove b xs) ≡ false
member-remove q b [] out = refl
member-remove q b (x ∷ xs) out = elim (Bool-cases (b == x)) [
  | inl e ↦ rw e (ground (arith, out))
  | inr e ↦
      (let rest = member-remove q b xs (ground (arith, out)) in rw e (ground (arith, out, rest)))
]

pub remove-IsDistinct : (b : ℕ) (xs : List ℕ) → IsDistinct xs → IsDistinct (remove b xs)
remove-IsDistinct b [] d = d
remove-IsDistinct b (x ∷ xs) (new, d) = elim (Bool-cases (b == x)) [
  | inl e ↦ rw e d
  | inr e ↦ rw e (member-remove x b xs new, remove-IsDistinct b xs d)
]

-- An element that is there once is not left.
pub remove-gone : (b : ℕ) (xs : List ℕ) → IsDistinct xs → member b (remove b xs) ≡ false
remove-gone b [] d = refl
remove-gone b (x ∷ xs) (new, d) = elim (Bool-cases (b == x)) [
  | inl e ↦ (let same : x ≡ b = ground arith in rw e (sym (ap (λ q. member q xs) same) ∙ new))
  | inr e ↦ (let rest = remove-gone b xs d in rw e (ground (arith, e, rest)))
]

pub length-remove :
    (b : ℕ) (xs : List ℕ) → member b xs ≡ true → length (remove b xs) + 1 ≡ length xs
length-remove b [] in_ = absurd (ground (arith, in_))
length-remove b (x ∷ xs) in_ = elim (Bool-cases (b == x)) [
  | inl e ↦ rw e (omega arith)
  | inr e ↦ (let rest = length-remove b xs (ground (arith, in_, e)) in rw e (omega (arith, rest)))
]
