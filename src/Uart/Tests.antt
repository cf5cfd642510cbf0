-- ===== src/Uart/Tests.antt =====
-- Concrete runs of the UART samples: a FIFO of 16 bytes that is always ready.
use zephyr_samples.Base.{
  ℤ, pos, ◌≡◌, refl, ◌≤◌, ◌+◌, List, [], ◌∷◌, ◌++◌, Env, if◌then◌else◌, leb, length, arith,
}
use zephyr_samples.Uart.{
  UartCall, UartMsg, message, irq_update, irq_is_pending, irq_tx_ready, fifo_fill, fill_ready,
  fill_bytes,
}
use zephyr_samples.Uart.Fill.{Fills, Serves, transmitted, pending, copies}
use zephyr_samples.Uart.Tx.{interrupts}
use zephyr_samples.Uart.Tx
use zephyr_samples.Uart.Tx.Whole.{main-transmitted}
use zephyr_samples.Uart.Sync.{taking, tokens, enabled, Turn, thread, interrupt}
use zephyr_samples.Uart.Sync
use zephyr_samples.Uart.Sync.Turns.{starts, main-apart}

abbrev fifo_result : UartCall → ℤ
fifo_result irq_update = pos 1
fifo_result irq_is_pending = pos 1
fifo_result irq_tx_ready = pos 1
fifo_result (fifo_fill bytes n) = if leb n 16 then pos n else pos 16
fifo_result c = pos 0

abbrev fifo_env : Env UartCall
fifo_env = record { result = λ log c. fifo_result c; bytes = λ log c. [] }

fifo_env-Fills : Fills fifo_env
unfolding Fills
fifo_env-Fills log bytes n = ground arith

fifo_env-Serves : Serves fifo_env
unfolding Serves
fifo_env-Serves log = (refl, refl, refl, λ bytes n le. ground arith)

abbrev blank : UartMsg
blank = record { tx_buf = []; tx_count = 0; tx_len = 0 }

main-transmitted_example :
    transmitted (Tx.main (44 ∷ 50 ∷ []) fifo_env blank []).2 ≡ message ++ message
main-transmitted_example =
    main-transmitted fifo_env fifo_env-Fills fifo_env-Serves (44 ∷ 50 ∷ []) blank
      (omega arith, (omega arith, tt))

-- A transmission is begun and interrupted once: 16 bytes are out, 28 are not.
abbrev begun : List Turn
begun = thread ∷ thread ∷ interrupt ∷ thread ∷ interrupt ∷ thread ∷ []

begun_sent : length (transmitted (Sync.main fifo_env begun blank).log) ≡ 16
unfolding Sync.main Sync.start Sync.run Sync.step Sync.thread_step Sync.after Sync.may_step
    Sync.uart_cb Sync.handle_irq Sync.finish_sent fill_ready fill_bytes
begun_sent = refl

begun_taking : (Sync.main fifo_env begun blank).point ≡ taking
unfolding Sync.main Sync.start Sync.run Sync.step Sync.thread_step Sync.after Sync.may_step
    Sync.uart_cb Sync.handle_irq Sync.finish_sent fill_ready fill_bytes
begun_taking = refl

main-apart_example :
    let c = Sync.main fifo_env begun blank in
    (transmitted c.log ++ (if enabled c.log then pending c.msg else [])
      ≡ copies (starts c.log) message)
    × (tokens c.log + (if enabled c.log then 1 else 0) ≤ 1)
main-apart_example = main-apart fifo_env fifo_env-Fills begun blank
