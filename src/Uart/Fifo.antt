-- ===== src/Uart/Fifo.antt =====
-- Any number of writers and transmit interrupts, in any order.
use mathlib.Core.List.{append_assoc}
use fog_os.Prelude.{
  ℕ, ◌<◌, ◌≡◌, refl, ap, sym, ◌∙◌, Bool, ◌==◌, arith, List, [], ◌∷◌, ◌++◌, add64, Bool-cases, inl,
  inr,
}
use fog_os.Ring.{ring}
use fog_os.Console.{Console}
use fog_os.Uart.{Uart, uart_tx_buf_size, uartputc, uartintr, put, Turn, spins, asleep, returned}
use fog_os.Uart.Send.{fill, queue, IsUart, Sent, uartstart-Started, queue-put, put-IsUart, full_iff}

-- The uart, with the characters that `uartputc` has taken and those that have gone out.
pub record Line : Type 0 where
  pub uart : Uart
  pub put_in : List ℕ
  pub gone_out : List ℕ

-- A writer that sleeps or spins changes nothing.
abbrev pub after_put : (c : ℕ) → Line → Turn → Line
after_put c l spins = l
after_put c l asleep = l
after_put c l (returned u sent) = record {
  uart = u;
  put_in = l.put_in ++ c ∷ [];
  gone_out = l.gone_out ++ sent;
}

pub data Step (l : Line) : Line → Type 0 where
  putc :
      (panicked : Bool) (idle : ℕ → Bool) (c : ℕ)
      → Step l (after_put c l (uartputc panicked idle c l.uart))
  intr :
      (received : List ℕ) (idle : ℕ → Bool) (cons : Console)
      → Step l (record l {
        uart = (uartintr received idle cons l.uart).1.0;
        gone_out = l.gone_out ++ (uartintr received idle cons l.uart).1.1;
      })

pub data Reach : Line → Type 0 where
  fresh :
      (buf : ℕ → ℕ)
      → Reach (record { uart = record { buf = buf; w = 0; r = 0 }; put_in = []; gone_out = [] })
  later : {l l' : Line} → Reach l → Step l l' → Reach l'

pub record InOrder (l : Line) : Type 0 where
  pub is_uart : IsUart l.uart
  pub order : l.put_in ≡ l.gone_out ++ queue l.uart

Sent-InOrder :
    (ins outs : List ℕ) (u u' : Uart) (sent : List ℕ)
    → ins ≡ outs ++ queue u
    → Sent u u' sent
    → InOrder (record { uart = u'; put_in = ins; gone_out = outs ++ sent })
Sent-InOrder ins outs u u' sent order s = record {
  is_uart = s.is_uart;
  order = order ∙ ap (λ q. outs ++ q) s.front ∙ sym (append_assoc outs sent (queue u'));
}

putc-InOrder :
    (panicked : Bool) (idle : ℕ → Bool) (c : ℕ) (l : Line)
    → InOrder l
    → InOrder (after_put c l (uartputc panicked idle c l.uart))
unfolding uartputc
putc-InOrder panicked idle c l o = elim (Bool-cases panicked) [
  | inl yes_ ↦ rw yes_ o
  | inr no_ ↦ elim (Bool-cases (l.uart.w == add64 l.uart.r uart_tx_buf_size)) [
    | inl full ↦ rw (no_, full) o
    | inr room ↦
        let space : fill l.uart < uart_tx_buf_size = ground (arith, full_iff l.uart o.is_uart) in
        let started = uartstart-Started idle (put c l.uart) (put-IsUart l.uart o.is_uart c space) in
        let order =
          ap (λ q. q ++ c ∷ []) o.order
          ∙ append_assoc l.gone_out (queue l.uart) (c ∷ [])
          ∙ ap (λ q. l.gone_out ++ q) (sym (queue-put l.uart o.is_uart c space)) in
        rw (no_, room)
          (Sent-InOrder (l.put_in ++ c ∷ []) l.gone_out (put c l.uart) _ _ order started.sends)
  ]
]

Step-InOrder : {l l' : Line} → Step l l' → InOrder l → InOrder l'
unfolding uartintr
Step-InOrder {l} (putc panicked idle c) o = putc-InOrder panicked idle c l o
Step-InOrder {l} (intr received idle cons) o =
    Sent-InOrder l.put_in l.gone_out l.uart _ _ o.order
      (uartstart-Started idle l.uart o.is_uart).sends

-- No character that `uartputc` has taken is lost, doubled or reordered: after any calls of
-- `uartputc` and `uartintr`, in any order, they are those that have gone out, followed by those in
-- the buffer, and the buffer holds at most UART_TX_BUF_SIZE.
pub Reach-InOrder : {l : Line} → Reach l → InOrder l
unfolding queue ring
Reach-InOrder (fresh buf) = record {
  is_uart = record { r_word = omega arith; w_word = omega arith; bounded = omega arith };
  order = refl;
}
Reach-InOrder (later r step) = Step-InOrder step (Reach-InOrder r)
