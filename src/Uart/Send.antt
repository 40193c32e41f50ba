-- ===== src/Uart/Send.antt =====
-- The bytes in the transmit buffer, and what `uartstart` takes from their front.
use mathlib.Core.List.{append_assoc}
use fog_os.Prelude.{
  ℕ, zero, suc, ◌+◌, ◌%◌, ◌^◌, ◌≤◌, ◌<◌, ◌≡◌, refl, ap, sym, ◌∙◌, Bool, false, ◌==◌, leb, arith,
  List, [], ◌∷◌, ◌++◌, length, length-append, add64, sub64, Bool-cases, inl, inr, ◌⊎◌,
}
use fog_os.Ring.{ring, Apart, ring_push, ring_congr}
use fog_os.Uart.{Uart, uart_tx_buf_size, start_loop, uartstart, put}

abbrev pub fill : Uart → ℕ
fill u = sub64 u.w u.r

unfoldable pub queue : Uart → List ℕ
queue u = ring uart_tx_buf_size u.buf u.r (fill u)

pub record IsUart (u : Uart) : Type 0 where
  pub r_word : u.r < 2 ^ 64
  pub w_word : u.w < 2 ^ 64
  pub bounded : fill u ≤ uart_tx_buf_size

Apart-uart_tx_buf_size : Apart uart_tx_buf_size
Apart-uart_tx_buf_size r d pos h e = omega arith

-- From `u` to `u'` the bytes `sent` left the front of the buffer.
pub record Sent (u u' : Uart) (sent : List ℕ) : Type 0 where
  pub is_uart : IsUart u'
  pub front : queue u ≡ sent ++ queue u'

-- What `uartstart` leaves: it stops only when the buffer is empty or the uart busy.
pub record Started (idle : ℕ → Bool) (u : Uart) (result : Uart × List ℕ) : Type 0 where
  pub sends : Sent u result.0 result.1
  pub stops : (queue result.0 ≡ []) ⊎ (idle (length result.1) ≡ false)

module _ (u : Uart) (is : IsUart u) where
  pub queue-put : (c : ℕ) → fill u < uart_tx_buf_size → queue (put c u) ≡ queue u ++ c ∷ []
  unfolding queue put
  queue-put c room =
      let at : u.w % 32 ≡ (u.r + fill u) % 32 = omega (arith, is.r_word, is.w_word) in
      let more : sub64 (add64 u.w 1) u.r ≡ suc (fill u) = omega (arith, is.r_word, is.w_word) in
      rw (at, more) (ring_push uart_tx_buf_size Apart-uart_tx_buf_size u.buf u.r (fill u) c room)

  pub put-IsUart : (c : ℕ) → fill u < uart_tx_buf_size → IsUart (put c u)
  unfolding put
  put-IsUart c room = record {
    r_word = is.r_word;
    w_word = omega arith;
    bounded = omega (arith, is.r_word, is.w_word);
  }

  abbrev taken : Uart
  taken = record u { r = add64 u.r 1 }

  taken-IsUart : 0 < fill u → IsUart taken
  taken-IsUart some_ = record {
    r_word = omega arith;
    w_word = is.w_word;
    bounded = omega (arith, is.r_word, is.w_word, is.bounded);
  }

  queue-taken : 0 < fill u → queue u ≡ u.buf (u.r % uart_tx_buf_size) ∷ queue taken
  unfolding queue ring
  queue-taken some_ =
      let less : fill u ≡ suc (fill taken) = omega (arith, is.r_word, is.w_word) in
      let next =
        ring_congr uart_tx_buf_size u.buf (u.r + 1) (add64 u.r 1) (fill taken)
          (λ j. omega (arith, is.r_word)) in
      rw less (ap (λ q. u.buf (u.r % uart_tx_buf_size) ∷ q) next)

  queue-empty : fill u ≡ 0 → queue u ≡ []
  unfolding queue ring
  queue-empty nothing = rw nothing refl

  pub full_iff : (u.w == add64 u.r uart_tx_buf_size) ≡ leb uart_tx_buf_size (fill u)
  full_iff = ground (arith, is.r_word, is.w_word, is.bounded)

start_loop-Started :
    (idle : ℕ → Bool) (fuel i : ℕ) (u0 u : Uart) (sent : List ℕ)
    → Sent u0 u sent
    → length sent ≡ i
    → fill u < fuel
    → Started idle u0 (start_loop idle fuel i u sent)
unfolding start_loop
start_loop-Started idle zero i u0 u sent s n enough = absurd (omega arith)
start_loop-Started idle (suc fuel) i u0 u sent s n enough =
    let is = s.is_uart in
    elim (Bool-cases (u.w == u.r)) [
      | inl empty ↦
          let nothing : fill u ≡ 0 = ground (arith, is.r_word) in
          rw empty (record { sends = s; stops = inl (queue-empty u is nothing) })
      | inr some_ ↦
          let pos : 0 < fill u = ground (arith, is.r_word, is.w_word) in
          elim (Bool-cases (idle i)) [
            | inr busy ↦ rw (some_, busy) (record { sends = s; stops = inr (ap idle n ∙ busy) })
            | inl free_ ↦
                let c : ℕ = u.buf (u.r % uart_tx_buf_size) in
                let next : Sent u0 (taken u is) (sent ++ c ∷ []) = record {
                  is_uart = taken-IsUart u is pos;
                  front =
                      s.front
                      ∙ ap (λ q. sent ++ q) (queue-taken u is pos)
                      ∙ sym (append_assoc sent (c ∷ []) (queue (taken u is)));
                } in
                rw (some_, free_, start_loop)
                  (start_loop-Started idle fuel (i + 1) u0 (taken u is) (sent ++ c ∷ []) next
                    (omega (arith, n, length-append {0} sent (c ∷ [])))
                    (omega (arith, is.r_word, is.w_word)))
          ]
    ]

-- `uartstart` sends bytes from the front of the buffer, in order, and stops only when the buffer is
-- empty or the uart busy at the next byte; the buffer stays well formed.
pub uartstart-Started : (idle : ℕ → Bool) (u : Uart) → IsUart u → Started idle u (uartstart idle u)
unfolding uartstart
uartstart-Started idle u is =
    start_loop-Started idle (uart_tx_buf_size + 1) 0 u u [] (record { is_uart = is; front = refl })
      refl (omega (arith, is.bounded))
