-- ===== src/Uart/DmaTx/Tests.antt =====
-- Two messages, and one that is aborted.
use zephyr_samples.Base.{
  ◌+◌, ◌≡◌, refl, ℤ, pos, negsuc, List, [], ◌∷◌, Log, Env, if◌then◌else◌, tokens, arith,
}
use zephyr_samples.Uart.DmaTx.{
  uart_tx_done, uart_tx_aborted, DmaTxCall, uart_tx, uart_cb, start, thread_step, tx_sem, may_step,
  busy, may_report, Turn, thread, driver, step, run, main,
}
use zephyr_samples.Uart.DmaTx.Turns.{refused, aborted, Driver, holding, under_way, main-one_holder}

abbrev answer : DmaTxCall → Log DmaTxCall → ℤ
answer (uart_tx bytes) log = if busy log then negsuc 15 else pos 0
answer c log = pos 0

abbrev dma : Env DmaTxCall
dma = record { result = λ log c. answer c log; bytes = λ log c. [] }

dma-Driver : Driver dma
unfolding Driver
dma-Driver log bytes = ground arith

abbrev two : List Turn
two =
    thread
    ∷ thread
    ∷ driver uart_tx_done
    ∷ thread
    ∷ thread
    ∷ thread
    ∷ driver uart_tx_aborted
    ∷ thread
    ∷ thread
    ∷ []

two_aborted : (aborted (main dma two).log ≡ 1) × (tokens tx_sem (main dma two).log ≡ 0)
unfolding main run step start thread_step uart_cb tx_sem may_step busy may_report
two_aborted = (refl, refl)

main-one_holder_example :
    let c = main dma two in
    (refused c.log ≡ 0)
    × (((tokens tx_sem c.log + under_way (busy c.log)) + holding c.point) + aborted c.log ≡ 1)
main-one_holder_example = main-one_holder dma dma-Driver two
