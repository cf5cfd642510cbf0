-- ===== src/Uart/Dma/Tests.antt =====
-- Concrete receptions over DMA.
use zephyr_samples.Base.{
  ℕ, pos, ◌≡◌, refl, ◌-◌, List, [], ◌∷◌, ◌++◌, Log, Env, if◌then◌else◌, ◌==◌, take, drop, length,
  arith,
}
use zephyr_samples.Uart.Dma.{DmaCall, UartRx, rx_rdy, put_bytes, uart_cb, main_round, main_rounds}
use zephyr_samples.Uart.Dma.Filter.{puts, texts, uart_cb-puts}
use zephyr_samples.Uart.Dma.Lines.{Gives, Holds, Printed, line_of, ended, main_rounds-lines}

-- The third byte is a carriage return.
abbrev queued : Log DmaCall → ℕ
queued log = if length log == 2 then 13 else 65

abbrev queue : Env DmaCall
queue = record { result = λ log c. pos 0; bytes = λ log c. queued log ∷ [] }

queue-Gives : Gives queue queued
unfolding Gives
queue-Gives log = refl

abbrev ten : List ℕ
ten = 0 ∷ 0 ∷ 0 ∷ 0 ∷ 0 ∷ 0 ∷ 0 ∷ 0 ∷ 0 ∷ 0 ∷ []

abbrev empty : UartRx
empty = record { buf_index = 0; buffer = ten ++ ten ++ ten ++ ten ++ ten; counter = 0 }

main_rounds-lines_example :
    let (_, s1, log1) = main_rounds 2 queue empty [] in
    let (_, s2, log2) = main_round queue s1 log1 in
    Holds (line_of queued log1) s1
    × Holds (line_of queued log2) s2
    × Printed (ended queued log2) log1 log2
main_rounds-lines_example =
    main_rounds-lines queue queued queue-Gives 2 empty [] (refl, refl, refl, omega arith)

uart_cb-puts_example :
    let (_, s', log') = uart_cb (rx_rdy (65 ∷ 7 ∷ 66 ∷ 13 ∷ []) 1 4) queue empty [] in
    (s' ≡ empty) × (puts log' ≡ [] ++ texts (take (4 - 1) (drop 1 (65 ∷ 7 ∷ 66 ∷ 13 ∷ []))))
uart_cb-puts_example =
    uart_cb-puts queue (65 ∷ 7 ∷ 66 ∷ 13 ∷ []) 1 4 empty [] (omega arith) (omega arith)
      (omega arith)

-- Two bytes at the offset 2: the loop ends before it begins, and none is put.
tail_dropped : puts (uart_cb (rx_rdy (65 ∷ 66 ∷ 67 ∷ 68 ∷ []) 2 2) queue empty []).2 ≡ []
unfolding uart_cb put_bytes
tail_dropped = refl
