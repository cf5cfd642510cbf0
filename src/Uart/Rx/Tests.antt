-- ===== src/Uart/Rx/Tests.antt =====
-- Concrete receptions: `A`, `A` and a carriage return, one byte at a time; and two bytes at once.
use zephyr_samples.Base.{
  ℕ, ℤ, pos, ◌≡◌, refl, false, true, [], ◌∷◌, Log, Env, if◌then◌else◌, ◌==◌, length,
}
use zephyr_samples.Uart.Rx.{
  RxCall, UartMsg, irq_update, irq_is_pending, irq_rx_ready, fifo_read, uart_cb, interrupts, get_at,
  set_at, write_at, read_fifo, process_byte, process_bytes, receive, handle_ready, handle_irq,
}

abbrev ready_result : ℕ → RxCall → ℤ
ready_result n irq_update = pos 1
ready_result n irq_is_pending = pos 1
ready_result n irq_rx_ready = pos 1
ready_result n (fifo_read m) = pos n
ready_result n c = pos 0

-- The third interrupt finds the carriage return.
abbrev typed : Log RxCall → ℕ
typed log = if length log == 11 then 13 else 65

abbrev typing : Env RxCall
typing = record { result = λ log c. ready_result 1 c; bytes = λ log c. typed log ∷ [] }

abbrev empty : UartMsg
empty = record {
  rx_buf =
      0 ∷ 0 ∷ 0 ∷ 0 ∷ 0 ∷ 0 ∷ 0 ∷ 0 ∷ 0 ∷ 0 ∷ 0 ∷ 0 ∷ 0 ∷ 0 ∷ 0 ∷ 0 ∷ 0 ∷ 0 ∷ 0 ∷ 0 ∷ 0 ∷ 0 ∷ 0 ∷ 0
      ∷ 0 ∷ 0 ∷ 0 ∷ 0 ∷ 0 ∷ 0 ∷ 0 ∷ 0 ∷ 0 ∷ 0 ∷ 0 ∷ 0 ∷ 0 ∷ 0 ∷ 0 ∷ 0 ∷ 0 ∷ 0 ∷ 0 ∷ 0 ∷ 0 ∷ 0 ∷ 0
      ∷ 0 ∷ 0 ∷ 0 ∷ [];
  rx_count = 0;
  rx_len = 50;
  rx_flag = false;
  overrun = false;
}

third_ends : (interrupts 3 typing empty []).1.rx_flag ≡ true
unfolding interrupts uart_cb handle_irq handle_ready receive read_fifo process_bytes process_byte
    get_at set_at write_at
third_ends = refl

-- A carriage return that is the second of two bytes read at once.
abbrev burst : Env RxCall
burst = record { result = λ log c. ready_result 2 c; bytes = λ log c. 65 ∷ 13 ∷ [] }

-- It is passed over: the loop looks one byte too far.
burst_missed : (uart_cb burst empty []).1.rx_flag ≡ false
unfolding uart_cb handle_irq handle_ready receive read_fifo process_bytes process_byte get_at set_at
    write_at
burst_missed = refl
