-- ===== src/Inodes/Content/Read.antt =====
-- `readi` to the kernel's memory returns the bytes of the file.
use mathlib.Core.Path.{subst}
use fog_os.Prelude.{
  ℕ, zero, suc, ◌+◌, ◌-◌, ◌*◌, ◌/◌, ◌%◌, ◌^◌, ◌≤◌, ◌<◌, ◌≡◌, ◌≢◌, ◌∙◌, refl, sym, ap, fun_ext,
  arith, Bool, true, false, ◌||◌, ◌==◌, ltb, leb, ◌>>=◌, if◌then◌else◌, inl, inr, eqb_ne,
  Bool-cases, ok, add32,
}
use fog_os.Bytes.{Memory}
use fog_os.Bytes.Block.{within}
use fog_os.Bytes.Little.{little}
use fog_os.Fs.{SuperBlock, Blocks}
use fog_os.Inodes.{Dinode, World, ndirect, nindirect, bsize, map_addr, map_indirect, bmap}
use fog_os.Inodes.Content.{min, paste, either_copyout, read_loop, readi}

-- The block of the disk that holds block `bn` of the file, or 0.
abbrev pub addr_of : Dinode → Blocks → ℕ → ℕ
addr_of d blocks bn =
    if ltb bn ndirect then d.addrs bn else little 4 ((bn - ndirect) * 4) (blocks (d.addrs ndirect))

-- Byte `o` of the file.
abbrev pub content : ℕ → World → ℕ → ℕ
content ip w o = w.blocks (addr_of (w.inode ip).disk w.blocks (o / bsize)) (o % bsize)

-- The file is not too long, and has a block wherever it has a byte.
pub record IsWhole (d : Dinode) (blocks : Blocks) : Type 0 where
  pub size_fits : d.size ≤ (ndirect + nindirect) * bsize
  pub mapped : (bn : ℕ) → bn * bsize < d.size → addr_of d blocks bn ≢ 0
  pub indirect : ndirect * bsize < d.size → d.addrs ndirect ≢ 0

module _ (copyout : (bytes : ℕ → ℕ) (dst m : ℕ) → Memory → Bool × Memory) (sb : SuperBlock)
    (ip : ℕ) where
  bmap-mapped :
      (bn : ℕ) (w : World)
      → IsWhole (w.inode ip).disk w.blocks
      → bn * bsize < (w.inode ip).disk.size
      → bmap sb ip bn w ≡ ok (addr_of (w.inode ip).disk w.blocks bn, w)
  unfolding bmap map_addr map_indirect
  bmap-mapped bn w whole inside = elim (Bool-cases (ltb bn ndirect)) [
    | inl e ↦
        let some_ : ((w.inode ip).disk.addrs bn == 0) ≡ false = eqb_ne _ 0 (
          subst
            (λ b.
              (if b
                then (w.inode ip).disk.addrs bn
                else little 4 ((bn - ndirect) * 4) (w.blocks ((w.inode ip).disk.addrs ndirect)))
              ≢ 0)
            e (whole.mapped bn inside)) in
        rw (e, some_) refl
    | inr e ↦
        let near : ltb (bn - ndirect) nindirect ≡ true = ground (arith, whole.size_fits, inside) in
        let there : ((w.inode ip).disk.addrs ndirect == 0) ≡ false =
          eqb_ne _ 0 (whole.indirect (ground (arith, e, inside))) in
        let some_ : (little 4 ((bn - ndirect) * 4) (w.blocks ((w.inode ip).disk.addrs ndirect))
              == 0)
            ≡ false =
          eqb_ne _ 0 (
            subst
              (λ b.
                (if b
                  then (w.inode ip).disk.addrs bn
                  else little 4 ((bn - ndirect) * 4) (w.blocks ((w.inode ip).disk.addrs ndirect)))
                ≢ 0)
              e (whole.mapped bn inside)) in
        rw (e, near) (rw there (rw there (rw some_ refl)))
  ]

  -- Two pastes, one after the other.
  paste-paste :
      (dst m k : ℕ) (bytes : ℕ → ℕ) (mem : Memory)
      → paste (dst + m) k (λ i. bytes (m + i)) (paste dst m bytes mem) ≡ paste dst (m + k) bytes mem
  paste-paste dst m k bytes mem = fun_ext (λ a. elim (Bool-cases (leb (dst + m) a)) [
    | inl e ↦
        (let at : m + (a - (dst + m)) ≡ a - dst = ground (arith, e) in rw at (ground (arith, e)))
    | inr e ↦ ground (arith, e)
  ])

  read_done :
      (fuel dst off n : ℕ) (w : World)
      → read_loop copyout sb fuel ip false dst off n n w ≡ ok (n, w)
  unfolding read_loop
  read_done zero dst off n w = refl
  read_done (suc fuel) dst off n w =
      let done : ltb n n ≡ false = ground arith in rw (done, read_loop) refl

  -- A round of the loop.
  read_round :
      (fuel dst off n tot addr : ℕ) (w : World)
      → let m = min (n - tot) (bsize - off % bsize) in
        tot < n
        → bmap sb ip (off / bsize) w ≡ ok (addr, w)
        → addr ≢ 0
        → read_loop copyout sb (suc fuel) ip false dst off n tot w
          ≡ read_loop copyout sb fuel ip false
              (dst + m)
              (add32 off m)
              n
              (tot + m)
              (record w { mem = paste dst m (λ i. w.blocks addr (off % bsize + i)) w.mem })
  unfolding read_loop either_copyout
  read_round fuel dst off n tot addr w less at mapped =
      let more : ltb tot n ≡ true = ground (arith, less) in
      let test : (addr == 0) ≡ false = eqb_ne addr 0 mapped in
      rw (more, read_loop) (rw at (rw (test, ◌>>=◌) refl))

  paste_none : (dst : ℕ) (bytes : ℕ → ℕ) (mem : Memory) → paste dst 0 bytes mem ≡ mem
  paste_none dst bytes mem = fun_ext (λ a. ground arith)

  -- Bytes of one block of the file.
  content-block :
      (off m : ℕ) (w : World) (dst : ℕ) (mem : Memory)
      → m ≤ bsize - off % bsize
      → paste dst m
          (λ i. w.blocks (addr_of (w.inode ip).disk w.blocks (off / bsize)) (off % bsize + i))
          mem
        ≡ paste dst m (λ i. content ip w (off + i)) mem
  content-block off m w dst mem fits = fun_ext (λ a. elim (Bool-cases (within dst m a)) [
    | inl e ↦
        let k = a - dst in
        let same : (off + k) / bsize ≡ off / bsize = ground (arith, e, fits) in
        let place : (off + k) % bsize ≡ off % bsize + k = ground (arith, e, fits) in
        let byte : ℕ → ℕ → ℕ = λ q r. w.blocks (addr_of (w.inode ip).disk w.blocks q) r in
        rw e (
          ap (λ q. byte q (off % bsize + k)) (sym same) ∙ ap (byte ((off + k) / bsize)) (sym place))
    | inr e ↦ rw e refl
  ])

  read_loop_lem :
      (fuel dst off n tot : ℕ) (w : World)
      → IsWhole (w.inode ip).disk w.blocks
      → tot ≤ n
      → n ≤ tot + fuel
      → off + (n - tot) ≤ (w.inode ip).disk.size
      → read_loop copyout sb fuel ip false dst off n tot w
        ≡ ok (n, record w { mem = paste dst (n - tot) (λ i. content ip w (off + i)) w.mem })
  read_loop_lem zero dst off n tot w whole low enough inside =
      let same : tot ≡ n = omega (arith, low, enough) in
      let none_ : n - n ≡ 0 = omega arith in
      rw (same, none_)
        (rw (paste_none dst (λ i. content ip w (off + i)) w.mem) (read_done zero dst off n w))
  read_loop_lem (suc fuel) dst off n tot w whole low enough inside = elim (Bool-cases (tot == n)) [
    | inl e ↦
        let same : tot ≡ n = ground (arith, e) in
        let none_ : n - n ≡ 0 = omega arith in
        rw (same, none_)
          (rw (paste_none dst (λ i. content ip w (off + i)) w.mem)
            (read_done (suc fuel) dst off n w))
    | inr e ↦
        let m = min (n - tot) (bsize - off % bsize) in
        let less : tot < n = ground (arith, e, low) in
        let some_ : 0 < m = ground (arith, less) in
        let fits : m ≤ bsize - off % bsize = ground arith in
        let part : m ≤ n - tot = ground arith in
        let block : off / bsize * bsize < (w.inode ip).disk.size = omega (arith, inside, less) in
        let next : add32 off m ≡ off + m = omega (arith, inside, part, whole.size_fits) in
        let all : m + (n - (tot + m)) ≡ n - tot = omega (arith, part) in
        let w' = record w { mem = paste dst m (λ i. content ip w (off + i)) w.mem } in
        read_round fuel dst off n tot _ w less (bmap-mapped (off / bsize) w whole block)
          (whole.mapped (off / bsize) block)
        ∙ ap
            (λ mem.
              read_loop copyout sb fuel ip false (dst + m) (add32 off m) n (tot + m)
                (record w { mem = mem }))
            (content-block off m w dst w.mem fits)
        ∙ ap (λ o. read_loop copyout sb fuel ip false (dst + m) o n (tot + m) w') next
        ∙ read_loop_lem fuel (dst + m) (off + m) n (tot + m) w' whole (omega (arith, part, less))
            (omega (arith, enough, some_)) (omega (arith, inside, part))
        ∙ ap (λ mem. ok (n, record w { mem = mem }))
            (ap (λ bytes. paste (dst + m) (n - (tot + m)) bytes w'.mem)
                (fun_ext
                  (λ i. let at : off + m + i ≡ off + (m + i) = omega arith in ap (content ip w) at))
              ∙ paste-paste dst m (n - (tot + m)) (λ i. content ip w (off + i)) w.mem
              ∙ ap (λ l. paste dst l (λ i. content ip w (off + i)) w.mem) all)
  ]

  -- Of a file that has a block for each of its bytes, `readi` to the kernel's memory copies the
  -- bytes from `off` on, `n` of them or as many as there are, and returns how many; it changes
  -- nothing else. From an offset behind the end, or where the offset and the number of bytes add up
  -- to more than a `uint` holds, it returns 0 and changes nothing.
  pub readi_lem :
      (dst off n : ℕ) (w : World)
      → let size = (w.inode ip).disk.size in
        let count = if ltb size (off + n) then size - off else n in
        IsWhole (w.inode ip).disk w.blocks
        → off < 2 ^ 32
        → n < 2 ^ 32
        → readi copyout sb ip false dst off n w ≡ (
            if ltb size off || leb (2 ^ 32) (off + n)
            then ok (0, w)
            else ok (count, record w { mem = paste dst count (λ i. content ip w (off + i)) w.mem }))
  unfolding readi
  readi_lem dst off n w whole off_fits n_fits =
      let size = (w.inode ip).disk.size in
      let count = if ltb size (off + n) then size - off else n in
      elim (Bool-cases (ltb size off)) [
        | inl e ↦ rw e refl
        | inr e ↦ elim (Bool-cases (leb (2 ^ 32) (off + n))) [
          | inl wraps ↦
              let less : ltb (add32 off n) off ≡ true = ground (arith, wraps, off_fits, n_fits) in
              rw (e, less, wraps) refl
          | inr no_wrap ↦
              let sum : add32 off n ≡ off + n = ground (arith, no_wrap) in
              let safe : ltb (off + n) off ≡ false = ground arith in
              let zero_ : count - 0 ≡ count = omega arith in
              let done =
                read_loop_lem count dst off count 0 w whole (omega arith) (omega arith)
                  (ground (arith, e)) in
              let done' =
                subst
                  (λ c.
                    read_loop copyout sb count ip false dst off count 0 w
                    ≡ ok
                        (count, record w { mem = paste dst c (λ i. content ip w (off + i)) w.mem }))
                  zero_ done in
              rw (e, sum, no_wrap) (rw safe done')
        ]
      ]
