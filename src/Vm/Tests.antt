-- ===== src/Vm/Tests.antt =====
-- Tests and examples for the page tables: one user page, at 4096, whose frame is at 16384.
use mathlib.Core.Path.{subst}
use fog_os.Prelude.{
  ℕ, ◌+◌, ◌*◌, ◌≤◌, ◌<◌, ◌≡◌, ◌∙◌, refl, sym, ap, true, ◌==◌, arith, Bool-cases, inl, inr, ◌⊎◌,
  if◌then◌else◌, leb, List, [], ◌∷◌, ◌++◌,
}
use fog_os.Kalloc.{Kmem, page_size}
use fog_os.Kalloc.FreeList.{member, Free, IsDistinct}
use fog_os.Vm.{mappages, maxva, px, is_valid, pte_to_pa}
use fog_os.Vm.Cells.{byte_of}
use fog_os.Vm.Walk.{find, reads, translate, reads-cases, find-none}
use fog_os.Vm.Tables.{tables, tables-none}
use fog_os.Vm.Map.{Mapped, mappages-Mapped}
use fog_os.Vm.Copy.{copyout, copyin}
use fog_os.Vm.Copy.Bytewise.{put_user, get_user}
use fog_os.Vm.Copy.Frames.{Isolated, Copies}
use fog_os.Vm.Copy.Out.{copyout_lem}
use fog_os.Vm.Copy.In.{copyin_lem}

-- Three tables, at 4096, 8192 and 12288, of one entry each, and some text in the kernel.
abbrev words : ℕ → ℕ
words a =
    if a == 4096
    then 2049
    else if a == 8192
    then 3073
    else if a == 12296
    then 4119
    else if a == 20480
    then 0x2122_2324_2526_2728
    else 0

-- An entry of the table at 4096 or 8192: the first one, or an invalid one.
module _ (i : ℕ) (bound : i < 512) where
  top : (words (4096 + i * 8) ≡ 2049) ⊎ (words (4096 + i * 8) ≡ 0)
  top = elim (Bool-cases (i == 0)) [
    | inl e ↦ inl (ground (arith, e, bound))
    | inr e ↦ inr (ground (arith, e, bound))
  ]

  middle : (words (8192 + i * 8) ≡ 3073) ⊎ (words (8192 + i * 8) ≡ 0)
  middle = elim (Bool-cases (i == 0)) [
    | inl e ↦ inl (ground (arith, e, bound))
    | inr e ↦ inr (ground (arith, e, bound))
  ]

  leaf : (words (12288 + i * 8) ≡ 4119) ⊎ (words (12288 + i * 8) ≡ 0)
  leaf = elim (Bool-cases (i == 1)) [
    | inl e ↦ inl (ground (arith, e, bound))
    | inr e ↦ inr (ground (arith, e, bound))
  ]

px_bound : (level p : ℕ) → px level p < 512
px_bound level p = omega arith

find_two : (p : ℕ) → (find 2 p 4096 words ≡ 0) ⊎ (find 2 p 4096 words ≡ 12288 + px 0 p * 8)
unfolding find
find_two p = elim (top (px 2 p) (px_bound 2 p)) [
  | inr none_ ↦ inl (find-none 1 p 4096 words (ap is_valid none_))
  | inl v ↦ elim (middle (px 1 p) (px_bound 1 p)) [
    | inr none_ ↦ rw v (inl (find-none 0 p 8192 words (ap is_valid none_)))
    | inl v' ↦ rw v (rw v' (inr refl))
  ]
]

frame_of : (p : ℕ) → (translate 4096 p words ≡ 0) ⊎ (translate 4096 p words ≡ 16384)
frame_of p = elim (Bool-cases (leb maxva p)) [
  | inl out ↦ rw out (inl refl)
  | inr below ↦ elim (find_two p) [
    | inl none_ ↦ rw (below, none_) (inl refl)
    | inr at ↦ elim (leaf (px 0 p) (px_bound 0 p)) [
      | inl v ↦ rw (below, at) (rw v (ground (arith)))
      | inr v ↦ rw (below, at) (rw v (ground arith))
    ]
  ]
]

reads_low : (q a : ℕ) → member a (reads 2 q 4096 words) ≡ true → a + 8 ≤ 16384
unfolding reads
reads_low q a m = elim (reads-cases 1 q 4096 words a m) [
  | inl here ↦ ground (arith, here, px_bound 2 q)
  | inr (valid, m') ↦ elim (top (px 2 q) (px_bound 2 q)) [
    | inr none_ ↦ absurd (ground (arith, sym valid ∙ ap is_valid none_))
    | inl v ↦
        let m1 : member a (reads 1 q 8192 words) ≡ true =
          subst (λ w. member a (reads 1 q (pte_to_pa w) words) ≡ true) v m' in
        elim (reads-cases 0 q 8192 words a m1) [
          | inl here ↦ ground (arith, here, px_bound 1 q)
          | inr (valid', m2) ↦ elim (middle (px 1 q) (px_bound 1 q)) [
            | inr none_ ↦ absurd (ground (arith, sym valid' ∙ ap is_valid none_))
            | inl v' ↦
                let m3 : member a (reads 0 q 12288 words) ≡ true =
                  subst (λ w. member a (reads 0 q (pte_to_pa w) words) ≡ true) v' m2 in
                ground (arith, m3, px_bound 0 q)
          ]
        ]
  ]
]

isolated : Isolated 4096 words
isolated = record {
  aligned = refl;
  bounded = λ a. ground arith;
  tables = λ p q a mapped m. elim (frame_of p) [
    | inl none_ ↦ absurd (mapped none_)
    | inr at ↦ inl (omega (arith, at, reads_low q a m))
  ];
}

abbrev memory : Kmem
memory = record { freelist = 0; word = words }

-- Six bytes that reach from the user's page into the next address, which is not mapped.
copyout_lem_example :
    Copies 4096 words
      (put_user (λ va. translate 4096 va words) 6 8188 20480 (byte_of words))
      (copyout 4096 8188 20480 6 memory)
copyout_lem_example = copyout_lem 4096 8188 20480 6 memory isolated (λ p mapped. elim (frame_of p) [
  | inl none_ ↦ absurd (mapped none_)
  | inr at ↦ inr (omega (arith, at))
])

copyin_lem_example :
    Copies 4096 words
      (get_user (λ va. translate 4096 va words) 6 20480 4100 (byte_of words))
      (copyin 4096 20480 4100 6 memory)
copyin_lem_example =
    copyin_lem 4096 20480 4100 6 memory isolated
      (λ p mapped. elim (frame_of p) [
        | inl none_ ↦ absurd (mapped none_)
        | inr at ↦ inr (omega (arith, at))
      ])
      (λ q a m. inl (omega (arith, reads_low q a m)))

-- Two free pages, at 8192 and 12288, and an empty table at 4096.
abbrev fresh : Kmem
fresh = record { freelist = 8192; word = λ a. if a == 8192 then 12288 else 0 }

abbrev two_pages : List ℕ
two_pages = 8192 ∷ 12288 ∷ []

fresh-Free : Free 1 fresh two_pages
fresh-Free = record {
  chain = (refl, (λ e. absurd (omega (arith, e))), (refl, (λ e. absurd (omega (arith, e))), refl));
  distinct = (refl, (refl, tt));
  pages = λ p m. record {
    aligned = ground (arith, m);
    above = ground (arith, m);
    below = ground (arith, m);
  };
}

fresh-tables : tables 2 0 4096 fresh.word ≡ 4096 ∷ []
fresh-tables = tables-none 2 0 4096 fresh.word refl

mappages-Mapped_example :
    Mapped 4096 0 16384 fresh two_pages (mappages 4096 0 page_size 16384 18 fresh)
mappages-Mapped_example =
    mappages-Mapped 1 (omega arith) 4096 0 16384 18 fresh two_pages fresh-Free
      (record {
        distinct =
            subst (λ ts. IsDistinct (ts ++ two_pages)) (sym fresh-tables)
              (refl, (refl, (refl, tt)));
        aligned = λ p m.
            let same : p ≡ 4096 = ground (arith, subst (λ ts. member p ts ≡ true) fresh-tables m) in
            (omega (arith, same), λ e. absurd (omega (arith, e, same)));
      })
      refl (omega arith) refl (omega arith) (omega arith) refl
