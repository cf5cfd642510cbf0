-- ===== src/Uart/Tx.antt =====
-- hal_drivers/UART/_03_tx_one_message_interrupts/src/main.c
-- The interrupts that arrive while `main` sleeps are a number for each round of its loop.
pub mod Whole
use zephyr_samples.Base.{
  ℕ, zero, suc, Bool, List, [], ◌∷◌, if◌then◌else◌, ◌==◌, is_zero, pure, ◌>>=◌, ◌>>◌, call, get,
}
use zephyr_samples.Uart.{
  App, irq_callback_user_data_set, irq_update, irq_is_pending, irq_tx_enable, irq_tx_disable,
  k_msleep, load_message, rewind, fill_ready,
}

pub disable_sent : App (Unit {0})
disable_sent = do s ← get; if s.tx_count == 0 then (call irq_tx_disable >> pure tt) else pure tt

pub handle_irq : App (Unit {0})
handle_irq = do
  pending ← call irq_is_pending
  if is_zero pending then pure tt else (fill_ready >> disable_sent)

pub uart_cb : App (Unit {0})
uart_cb = do updated ← call irq_update; if is_zero updated then pure tt else handle_irq

-- Interrupts one after the other.
pub interrupts : ℕ → App (Unit {0})
interrupts zero = pure tt
interrupts (suc n) = uart_cb >> interrupts n

-- One round of the loop of `main`, with the interrupts during its sleep.
pub send_round : ℕ → App (Unit {0})
send_round n = do rewind; _ ← call irq_tx_enable; _ ← call (k_msleep 1000); interrupts n

pub send_rounds : List ℕ → App (Unit {0})
send_rounds [] = pure tt
send_rounds (n ∷ ns) = send_round n >> send_rounds ns

pub main : List ℕ → App (Unit {0})
main ns = do load_message; _ ← call irq_callback_user_data_set; send_rounds ns
