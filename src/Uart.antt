-- ===== src/Uart.antt =====
-- kernel/uart.c: the transmit buffer is a ring of UART_TX_BUF_SIZE bytes with two counters of type
-- `uint64`. What the status register reads is an argument: `idle i` for the `i`-th test of
-- LSR_TX_IDLE in a call.
pub mod Send
pub mod Fifo
mod Tests
use fog_os.Prelude.{
  ℕ, zero, suc, ◌+◌, ◌%◌, ◌^◌, Bool, true, false, not, ◌==◌, if◌then◌else◌, update, add64, List, [],
  ◌∷◌, ◌++◌,
}
use fog_os.Console.{Console, consoleintr}

abbrev pub uart_tx_buf_size : ℕ
uart_tx_buf_size = 32

-- `uart_tx_buf`, `uart_tx_w` and `uart_tx_r`.
pub record Uart : Type 0 where
  pub buf : ℕ → ℕ
  pub w : ℕ
  pub r : ℕ

-- What `uartstart` leaves, and the bytes that it has written to THR; it wakes the writers at each.
unfoldable pub start_loop : (idle : ℕ → Bool) (fuel i : ℕ) → Uart → (sent : List ℕ) → Uart × List ℕ
start_loop idle zero i u sent = (u, sent)
start_loop idle (suc fuel) i u sent =
    let rest =
      start_loop idle fuel (i + 1) (record u { r = add64 u.r 1 })
        (sent ++ u.buf (u.r % uart_tx_buf_size) ∷ []) in
    if u.w == u.r then (u, sent) else if not (idle i) then (u, sent) else rest

unfoldable pub uartstart : (idle : ℕ → Bool) → Uart → Uart × List ℕ
uartstart idle u = start_loop idle (uart_tx_buf_size + 1) 0 u []

-- `uart_tx_buf[uart_tx_w % UART_TX_BUF_SIZE] = c; uart_tx_w += 1;`, for a byte `c`
unfoldable pub put : ℕ → Uart → Uart
put c u = record u { buf = update u.buf (u.w % uart_tx_buf_size) c; w = add64 u.w 1 }

-- A turn of `uartputc`: it spins for ever if the kernel has panicked, sleeps on `&uart_tx_r` at a
-- full buffer, and otherwise returns, with what it has sent.
pub data Turn : Type 0 where
  spins : Turn
  asleep : Turn
  returned : Uart → (sent : List ℕ) → Turn

unfoldable pub uartputc : (panicked : Bool) (idle : ℕ → Bool) (c : ℕ) → Uart → Turn
uartputc panicked idle c u =
    let (u', sent) = uartstart idle (put c u) in
    if panicked
    then spins
    else if u.w == add64 u.r uart_tx_buf_size
    then asleep
    else returned u' sent

-- The characters that `uartgetc` gives, until there is none, go to the console.
unfoldable pub receive : (received : List ℕ) → Console → Console
receive [] cons = cons
receive (c ∷ cs) cons = receive cs (consoleintr c cons).console

unfoldable pub uartintr :
    (received : List ℕ) (idle : ℕ → Bool) → Console → Uart → Console × (Uart × List ℕ)
uartintr received idle cons u = (receive received cons, uartstart idle u)
