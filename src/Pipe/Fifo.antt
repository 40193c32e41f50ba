-- ===== src/Pipe/Fifo.antt =====
-- Any number of readers and writers of one pipe, a turn at a time in any order.
use mathlib.Core.List.{append_assoc, append-nil}
use fog_os.Prelude.{
  ℕ, ◌-◌, ◌≤◌, ◌≡◌, refl, ap, sym, ◌∙◌, Bool, true, false, none, some, List, [], ◌++◌, arith,
  window, rounds, sub32, ◌+◌,
}
use fog_os.Pipe.{Pipe, pipe_size, Turn, ReadTurn, write_loop, piperead, pipeclose, pipe_init}
use fog_os.Ring.{ring}
use fog_os.Pipe.Ring.{fill, queue, IsPipe}
use fog_os.Pipe.Write.{Appended, Written, write_loop-Written}
use fog_os.Pipe.Read.{Delivered, piperead-Delivered}

-- The pipe, with the bytes that writers have put into it and that readers have got from it.
pub record Traffic : Type 0 where
  pub pipe : Pipe
  pub sent : List ℕ
  pub received : List ℕ

abbrev pub pipe_of : Turn → Pipe
pipe_of (Turn.returned result pi woken) = pi
pipe_of (Turn.asleep on i pi woken) = pi

-- `nwrite` tells how many bytes a turn has written.
abbrev pub accepted : (src : ℕ → ℕ) (i : ℕ) (before after : Pipe) → List ℕ
accepted src i before after = window src i (sub32 after.nwrite before.nwrite)

pub after_read : Traffic → ReadTurn → Traffic
after_read t (ReadTurn.returned result pi woken delivered) = record {
  pipe = pi;
  sent = t.sent;
  received = t.received ++ delivered;
}
after_read t (ReadTurn.asleep on pi) = record t { pipe = pi }

-- The readers' buffers are mapped; the writers' need not be.
pub data Step (t : Traffic) : Traffic → Type 0 where
  write :
      (killed mapped : ℕ → Bool) (src : ℕ → ℕ) (rest i : ℕ)
      → Step t (record t {
        pipe = pipe_of (write_loop killed mapped src rest i t.pipe);
        sent =
            t.sent ++ accepted src i t.pipe (pipe_of (write_loop killed mapped src rest i t.pipe));
      })
  read : (killed : Bool) (n : ℕ) → Step t (after_read t (piperead (λ _. true) killed n t.pipe))
  close : (writable : Bool) → Step t (record t { pipe = (pipeclose writable t.pipe).0 })

pub data Reach (page : ℕ → ℕ) : Traffic → Type 0 where
  fresh : Reach page (record { pipe = pipe_init page; sent = []; received = [] })
  later : {s t : Traffic} → Reach page s → Step s t → Reach page t

pub record InOrder (t : Traffic) : Type 0 where
  pub is_pipe : IsPipe t.pipe
  pub order : t.sent ≡ t.received ++ queue t.pipe

Written-Appended :
    (killed mapped : ℕ → Bool) (src : ℕ → ℕ) (i last : ℕ) (pi : Pipe) (t : Turn)
    → Written killed mapped src i last pi t
    → (j : ℕ) × Appended src i j pi (pipe_of t)
unfolding Written
Written-Appended killed mapped src i last pi (Turn.returned none after woken) (j, a, _, _) = (j, a)
Written-Appended killed mapped src i last pi (Turn.returned (some j) after woken) (a, _, _, _) =
    (j, a)
Written-Appended killed mapped src i last pi (Turn.asleep on j after woken) (a, _, _, _, _, _, _) =
    (j, a)

Appended-accepted :
    {src : ℕ → ℕ} {i j : ℕ} {pi after : Pipe}
    → IsPipe pi
    → Appended src i j pi after
    → queue after ≡ queue pi ++ accepted src i pi after
Appended-accepted {src} {i} {j} {pi} {after} is a =
    let moved : sub32 after.nwrite pi.nwrite ≡ j - i = omega (
      arith, is.read_word, is.write_word, is.bounded, a.count, a.read_end, a.is_pipe.write_word,
      a.is_pipe.bounded,
    ) in
    rw moved a.bytes

InOrder-read :
    (killed : Bool) (n : ℕ) (s : Traffic) (t : ReadTurn)
    → InOrder s
    → Delivered killed (λ _. true) n s.pipe t
    → InOrder (after_read s t)
unfolding after_read Delivered
InOrder-read killed n s (ReadTurn.returned none after woken delivered) o (same, nothing, _, _, _) =
    record {
      is_pipe = rw same o.is_pipe;
      order =
          rw (same, nothing) (o.order ∙ ap (λ r. r ++ queue s.pipe) (sym (append-nil s.received)));
    }
InOrder-read killed n s (ReadTurn.returned (some j) after woken delivered) o (lost, k, _) =
    let whole : lost ≡ [] = ground (arith, k.ends) in
    record {
      is_pipe = k.is_pipe;
      order =
          o.order
          ∙ ap (λ q. s.received ++ q) (k.bytes ∙ ap (λ l. delivered ++ (l ++ queue after)) whole)
          ∙ sym (append_assoc s.received delivered (queue after));
    }
InOrder-read killed n s (ReadTurn.asleep on after) o (same, _, _, _, _) = record {
  is_pipe = rw same o.is_pipe;
  order = rw same o.order;
}

Step-InOrder : {s t : Traffic} → Step s t → InOrder s → InOrder t
unfolding pipeclose queue
Step-InOrder {s} (write killed mapped src rest i) o =
    let (j, a) =
      Written-Appended killed mapped src i (i + rest) s.pipe _
        (write_loop-Written killed mapped src rest i s.pipe o.is_pipe) in
    record {
      is_pipe = a.is_pipe;
      order =
          ap
            (λ q. q ++ accepted src i s.pipe (pipe_of (write_loop killed mapped src rest i s.pipe)))
            o.order
          ∙ append_assoc s.received (queue s.pipe) _
          ∙ ap (λ q. s.received ++ q) (sym (Appended-accepted o.is_pipe a));
    }
Step-InOrder {s} (read killed n) o =
    InOrder-read killed (rounds n) s _ o (piperead-Delivered killed (λ _. true) n s.pipe o.is_pipe)
Step-InOrder {s} (close true) o = record {
  is_pipe = record {
    read_word = o.is_pipe.read_word;
    write_word = o.is_pipe.write_word;
    bounded = o.is_pipe.bounded;
  };
  order = o.order;
}
Step-InOrder {s} (close false) o = record {
  is_pipe = record {
    read_word = o.is_pipe.read_word;
    write_word = o.is_pipe.write_word;
    bounded = o.is_pipe.bounded;
  };
  order = o.order;
}

Reach-InOrder : {page : ℕ → ℕ} {t : Traffic} → Reach page t → InOrder t
unfolding pipe_init queue ring
Reach-InOrder fresh = record {
  is_pipe = record { read_word = omega arith; write_word = omega arith; bounded = omega arith };
  order = refl;
}
Reach-InOrder (later r step) = Step-InOrder step (Reach-InOrder r)

-- No byte is lost, made up or reordered: in every reachable state the bytes that the writers have
-- put into the pipe are those that the readers have got, followed by those in the pipe, and these
-- are at most PIPESIZE. The readers' buffers are mapped.
pub pipe_fifo :
    {page : ℕ → ℕ} {t : Traffic}
    → Reach page t
    → (t.sent ≡ t.received ++ queue t.pipe) × (fill t.pipe ≤ pipe_size)
pipe_fifo r = let o = Reach-InOrder r in (o.order, o.is_pipe.bounded)
