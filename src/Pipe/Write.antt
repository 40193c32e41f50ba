-- ===== src/Pipe/Write.antt =====
-- A turn of `pipewrite`.
use mathlib.Core.Path.{subst}
use fog_os.Prelude.{
  sym, ap, add32, ◌==◌, ℕ, zero, suc, ◌+◌, ◌-◌, ◌≤◌, ◌<◌, ◌≡◌, refl, ◌∙◌, Bool, true, false, not,
  ◌||◌, none, some, [], ◌∷◌, ◌++◌, arith, window, ◌⊎◌, inl, inr, Bool-cases,
}
use mathlib.Core.List.{append_assoc, append-nil}
use fog_os.Pipe.{Pipe, pipe_size, Channel, Turn, returned, asleep, put, write_loop}
use fog_os.Pipe.Ring.{fill, queue, IsPipe, queue-put, put-IsPipe, full_iff}

-- From `pi` the bytes `i`, …, `j - 1` of the user have gone to the end of the queue of `after`.
pub record Appended (src : ℕ → ℕ) (i j : ℕ) (pi after : Pipe) : Type 0 where
  pub is_pipe : IsPipe after
  pub order : i ≤ j
  pub bytes : queue after ≡ queue pi ++ window src i (j - i)
  pub count : fill after ≡ fill pi + (j - i)
  pub read_end : (after.readopen ≡ pi.readopen) × (after.nread ≡ pi.nread)
  pub write_end : after.writeopen ≡ pi.writeopen

-- How a turn of a writer of the bytes up to `last` may end.
unfoldable pub Written :
    (killed mapped : ℕ → Bool) (src : ℕ → ℕ) (i last : ℕ) → Pipe → Turn → Type 0
Written killed mapped src i last pi (returned (some j) after woken) =
    Appended src i j pi after
    × (j ≤ last)
    × (woken ≡ Channel.nread ∷ [])
    × (j < last → mapped j ≡ false)
Written killed mapped src i last pi (returned none after woken) =
    (j : ℕ) × Appended src i j pi after × (j < last) × ((pi.readopen ≡ false) ⊎ (killed j ≡ true))
Written killed mapped src i last pi (asleep on j after woken) =
    Appended src i j pi after
    × (j < last)
    × (on ≡ Channel.nwrite)
    × (woken ≡ Channel.nread ∷ [])
    × (fill after ≡ pipe_size)
    × (pi.readopen ≡ true)
    × (killed j ≡ false)

module _ (src : ℕ → ℕ) where
  Appended-none : (i : ℕ) (pi : Pipe) → IsPipe pi → Appended src i i pi pi
  Appended-none i pi is =
      let nothing : i - i ≡ 0 = omega arith in
      record {
        is_pipe = is;
        order = omega arith;
        bytes = rw nothing (sym (append-nil (queue pi)));
        count = omega arith;
        read_end = (refl, refl);
        write_end = refl;
      }

  Appended-step :
      (i j : ℕ) (pi after : Pipe)
      → IsPipe pi
      → fill pi < pipe_size
      → Appended src (i + 1) j (put (src i) pi) after
      → Appended src i j pi after
  unfolding put
  Appended-step i j pi after is room a =
      let one_more : j - i ≡ suc (j - (i + 1)) = omega (arith, a.order) in
      record {
        is_pipe = a.is_pipe;
        order = omega (arith, a.order);
        bytes = rw one_more (
            a.bytes
            ∙ ap (λ q. q ++ window src (i + 1) (j - (i + 1))) (queue-put pi is (src i) room)
            ∙ append_assoc (queue pi) (src i ∷ []) (window src (i + 1) (j - (i + 1))));
        count = omega (arith, a.count, (put-IsPipe pi is (src i) room).1, a.order);
        read_end = a.read_end;
        write_end = a.write_end;
      }

module _ (killed mapped : ℕ → Bool) (src : ℕ → ℕ) where
  Written-step :
      (i last : ℕ) (pi : Pipe) (t : Turn)
      → IsPipe pi
      → fill pi < pipe_size
      → Written killed mapped src (i + 1) last (put (src i) pi) t
      → Written killed mapped src i last pi t
  unfolding Written put
  Written-step i last pi (returned none after woken) is room (j, a, lt, why) =
      (j, Appended-step src i j pi after is room a, lt, why)
  Written-step i last pi (returned (some j) after woken) is room (a, le, woke, why) =
      (Appended-step src i j pi after is room a, le, woke, why)
  Written-step i last pi (asleep on j after woken) is room (a, lt, chan, woke, full, open_, alive) =
      (Appended-step src i j pi after is room a, lt, chan, woke, full, open_, alive)

  -- A turn of `pipewrite` at byte `i` appends to the queue, in order, the bytes before the one at
  -- which it ends. It returns a count only with all bytes written or at one that `copyin` does not
  -- read, and after waking the readers; it returns -1 only if the read end is closed or the process
  -- killed; it sleeps, after waking the readers, only when the pipe is full and open and the
  -- process alive.
  pub write_loop-Written :
      (rest i : ℕ) (pi : Pipe)
      → IsPipe pi
      → Written killed mapped src i (i + rest) pi (write_loop killed mapped src rest i pi)
  unfolding write_loop Written
  write_loop-Written zero i pi is =
      (Appended-none src i pi is, omega arith, refl, λ h. absurd (omega arith))
  write_loop-Written (suc rest) i pi is = elim (Bool-cases (not pi.readopen || killed i)) [
    | inl stop ↦ rw stop (i, Appended-none src i pi is, omega arith, ground arith)
    | inr go ↦ elim (Bool-cases (pi.nwrite == add32 pi.nread pipe_size)) [
      | inl full ↦
          rw (go, full)
            (
              Appended-none src i pi is,
              omega arith,
              refl,
              refl,
              ground (arith, full_iff pi is, is.bounded),
              ground arith,
              ground arith,
            )
      | inr room ↦ elim (Bool-cases (mapped i)) [
        | inl there ↦
            rw (go, room, there)
              (let space : fill pi < pipe_size = ground (arith, full_iff pi is) in
                subst
                  (λ k.
                    Written killed mapped src i k pi
                      (write_loop killed mapped src rest (i + 1) (put (src i) pi)))
                  (omega arith)
                  (Written-step i (i + 1 + rest) pi _ is space (
                    write_loop-Written rest (i + 1) (put (src i) pi)
                      (put-IsPipe pi is (src i) space).0)))
        | inr missing ↦
            rw (go, room, missing) (Appended-none src i pi is, omega arith, refl, λ h. missing)
      ]
    ]
  ]
