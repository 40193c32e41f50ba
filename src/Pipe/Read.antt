-- ===== src/Pipe/Read.antt =====
-- A turn of `piperead`.
use mathlib.Core.Path.{subst}
use mathlib.Core.List.{append_assoc, append-nil}
use fog_os.Prelude.{
  ℕ, zero, suc, ◌+◌, ◌%◌, ◌≤◌, ◌<◌, ◌≡◌, refl, sym, ap, ◌∙◌, Bool, true, false, ◌&&◌, none, some,
  List, [], ◌∷◌, ◌++◌, arith, rounds, ◌⊎◌, inl, inr, Bool-cases, length, ◌==◌,
}
use fog_os.Pipe.{
  Pipe, pipe_size, Channel, ReadTurn, returned, asleep, take_one, read_loop, piperead,
}
use fog_os.Pipe.Ring.{fill, queue, IsPipe, queue-take_one, take_one-IsPipe, empty_iff}

-- From `pi` the bytes `got` have gone to the user and the bytes `lost` to nobody.
pub record Taken (mapped : ℕ → Bool) (i j last : ℕ) (pi after : Pipe) (got lost : List ℕ)
    : Type 0 where
  pub is_pipe : IsPipe after
  pub order : (i ≤ j) × (j ≤ last)
  pub count : i + length got ≡ j
  pub bytes : queue pi ≡ got ++ (lost ++ queue after)
  pub ends :
      ((lost ≡ []) × ((j ≡ last) ⊎ (fill after ≡ 0)))
      ⊎ ((length lost ≡ 1) × (j < last) × (mapped j ≡ false))
  pub same :
      (after.readopen ≡ pi.readopen) × (after.writeopen ≡ pi.writeopen) × (after.nwrite ≡ pi.nwrite)
  pub fewer : fill after ≤ fill pi

-- How the copying loop may end when `out` is delivered before it.
pub Copied : (mapped : ℕ → Bool) (i last : ℕ) → Pipe → List ℕ → ReadTurn → Type 0
Copied mapped i last pi out (returned (some j) after woken delivered) =
    (got : List ℕ) × (lost : List ℕ) × Taken mapped i j last pi after got lost
    × (delivered ≡ out ++ got)
    × (woken ≡ Channel.nwrite ∷ [])
Copied mapped i last pi out _ = ⊥

module _ (mapped : ℕ → Bool) where
  stop_here :
      (i last : ℕ) (pi : Pipe) (out : List ℕ)
      → IsPipe pi
      → i ≤ last
      → (i ≡ last) ⊎ (fill pi ≡ 0)
      → Copied mapped i last pi out (returned (some i) pi (Channel.nwrite ∷ []) out)
  unfolding Copied
  stop_here i last pi out is le why = (
    [],
    [],
    record {
      is_pipe = is;
      order = (omega arith, le);
      count = omega arith;
      bytes = refl;
      ends = inl (refl, why);
      same = (refl, refl, refl);
      fewer = omega arith;
    },
    sym (append-nil out),
    refl,
  )

  Copied-step :
      (i last ch : ℕ) (pi : Pipe) (out : List ℕ) (t : ReadTurn)
      → queue pi ≡ ch ∷ queue (take_one pi)
      → fill (take_one pi) ≤ fill pi
      → Copied mapped (i + 1) last (take_one pi) (out ++ ch ∷ []) t
      → Copied mapped i last pi out t
  unfolding Copied
  Copied-step i last ch pi out (returned (some j) after woken delivered) first less
        (got, lost, k, all, woke) =
      (
        ch ∷ got,
        lost,
        record {
          is_pipe = k.is_pipe;
          order = omega (arith, k.order);
          count = omega (arith, k.count);
          bytes = first ∙ ap (λ q. ch ∷ q) k.bytes;
          ends = k.ends;
          same = k.same;
          fewer = omega (arith, k.fewer);
        },
        all ∙ append_assoc out (ch ∷ []) got,
        woke,
      )
  Copied-step i last ch pi out (returned none after woken delivered) first less h = h
  Copied-step i last ch pi out (asleep on after) first less h = h

  read_loop-Copied :
      (rest i : ℕ) (pi : Pipe) (out : List ℕ)
      → IsPipe pi
      → Copied mapped i (i + rest) pi out (read_loop mapped rest i pi out)
  unfolding read_loop Copied
  read_loop-Copied zero i pi out is =
      stop_here i (i + 0) pi out is (omega arith) (inl (omega arith))
  read_loop-Copied (suc rest) i pi out is = elim (Bool-cases (pi.nread == pi.nwrite)) [
    | inl empty ↦
        rw empty (
          stop_here i (i + suc rest) pi out is (omega arith)
            (inr (ground (arith, empty_iff pi is))))
    | inr more ↦
        let left : 0 < fill pi = ground (arith, empty_iff pi is) in
        let after = take_one-IsPipe pi is left in
        elim (Bool-cases (mapped i)) [
          | inl there ↦
              rw (more, there)
                (subst
                  (λ k. Copied mapped i k pi out (
                    read_loop mapped rest (i + 1) (take_one pi)
                      (out ++ pi.bytes (pi.nread % pipe_size) ∷ [])))
                  (omega arith)
                  (Copied-step i (i + 1 + rest) _ pi out _ (queue-take_one pi is left)
                    (omega (arith, after.1))
                    (read_loop-Copied rest (i + 1) (take_one pi) _ after.0)))
          | inr missing ↦
              rw (more, missing)
                (
                  [],
                  pi.bytes (pi.nread % pipe_size) ∷ [],
                  record {
                    is_pipe = after.0;
                    order = omega arith;
                    count = omega arith;
                    bytes = queue-take_one pi is left;
                    ends = inr (refl, omega arith, missing);
                    same = (refl, refl, refl);
                    fewer = omega (arith, after.1);
                  },
                  sym (append-nil out),
                  refl,
                )
        ]
  ]

-- How a turn of a reader of at most `n` bytes may end.
unfoldable pub Delivered : (killed : Bool) (mapped : ℕ → Bool) (n : ℕ) → Pipe → ReadTurn → Type 0
Delivered killed mapped n pi (returned (some j) after woken delivered) =
    (lost : List ℕ) × Taken mapped 0 j n pi after delivered lost × (woken ≡ Channel.nwrite ∷ [])
Delivered killed mapped n pi (returned none after woken delivered) =
    (after ≡ pi) × (delivered ≡ []) × (fill pi ≡ 0) × (pi.writeopen ≡ true) × (killed ≡ true)
Delivered killed mapped n pi (asleep on after) =
    (after ≡ pi) × (on ≡ Channel.nread) × (fill pi ≡ 0) × (pi.writeopen ≡ true) × (killed ≡ false)

Copied-Delivered :
    (killed : Bool) (mapped : ℕ → Bool) (n : ℕ) (pi : Pipe) (t : ReadTurn)
    → Copied mapped 0 n pi [] t
    → Delivered killed mapped n pi t
unfolding Copied Delivered
Copied-Delivered killed mapped n pi (returned (some j) after woken delivered)
      (got, lost, k, all, woke) =
    (lost, rw all k, woke)
Copied-Delivered killed mapped n pi (returned none after woken delivered) h = absurd h
Copied-Delivered killed mapped n pi (asleep on after) h = absurd h

-- A turn of `piperead` takes bytes from the front of the queue, in order, and delivers all of them
-- but at most one: a byte that `copyout` fails to deliver is lost. It returns a count, after waking
-- the writers, with `n` bytes delivered, or the pipe empty, or after such a failure; it returns -1
-- or sleeps only at an empty pipe whose write end is open, as the process is killed or not, and
-- then changes nothing.
pub piperead-Delivered :
    (killed : Bool) (mapped : ℕ → Bool) (n : ℕ) (pi : Pipe)
    → IsPipe pi
    → Delivered killed mapped (rounds n) pi (piperead mapped killed n pi)
unfolding piperead Delivered
piperead-Delivered killed mapped n pi is =
    elim (Bool-cases (pi.nread == pi.nwrite && pi.writeopen)) [
      | inl wait ↦
          let nothing : fill pi ≡ 0 = ground (arith, empty_iff pi is) in
          let open_ : pi.writeopen ≡ true = ground arith in
          elim (Bool-cases killed) [
            | inl dead ↦ rw (wait, dead) (refl, refl, nothing, open_, refl)
            | inr alive ↦ rw (wait, alive) (refl, refl, nothing, open_, refl)
          ]
      | inr go ↦ rw go (
          Copied-Delivered killed mapped (rounds n) pi (read_loop mapped (rounds n) 0 pi []) (
            subst (λ k. Copied mapped 0 k pi [] (read_loop mapped (rounds n) 0 pi [])) (omega arith)
              (read_loop-Copied mapped (rounds n) 0 pi [] is)))
    ]
