-- ===== src/Uart/Tests.antt =====
-- Tests of the transmit buffer, and the theorems there.
use fog_os.Prelude.{◌≡◌, refl, true, false, [], ◌∷◌, arith, ltb}
use fog_os.Ring.{ring}
use fog_os.Uart.{Uart, start_loop, uartstart, uartputc, put}
use fog_os.Uart.Send.{IsUart, Started, uartstart-Started, queue}
use fog_os.Uart.Fifo.{Line, after_put, putc, fresh, later, InOrder, Reach-InOrder}

-- The counters stand at the last word.
abbrev wrapping : Uart
wrapping = record { buf = λ i. 0; w = 0xffff_ffff_ffff_ffff; r = 0xffff_ffff_ffff_ffff }

wrapping-IsUart : IsUart wrapping
wrapping-IsUart = record { r_word = omega arith; w_word = omega arith; bounded = omega arith }

-- A busy uart keeps two characters in the buffer; one that takes a single byte gets the first.
abbrev two : Uart
two = put 98 (put 97 wrapping)

one_out : (uartstart (λ i. ltb i 1) two).1 ≡ 97 ∷ []
unfolding uartstart start_loop put
one_out = refl

one_left : queue (uartstart (λ i. ltb i 1) two).0 ≡ 98 ∷ []
unfolding uartstart start_loop put queue ring
one_left = refl

uartstart-Started_example : Started (λ i. true) wrapping (uartstart (λ i. true) wrapping)
uartstart-Started_example = uartstart-Started (λ i. true) wrapping wrapping-IsUart

abbrev at_boot : Line
at_boot = record { uart = record { buf = λ i. 0; w = 0; r = 0 }; put_in = []; gone_out = [] }

Reach-InOrder_example : InOrder (after_put 97 at_boot (uartputc false (λ i. false) 97 at_boot.uart))
Reach-InOrder_example =
    Reach-InOrder {l = after_put 97 at_boot (uartputc false (λ i. false) 97 at_boot.uart)}
      (later (fresh (λ i. 0)) (putc false (λ i. false) 97))
