-- ===== src/Uart/Dma.antt =====
-- hal_drivers/UART/_08_rx_messages_with_dma/src/main.c
-- The reception buffers and the message queue are of the driver and of the kernel: the event brings
-- the buffer, and `k_msgq_get` the byte.
mod Tests
pub mod Filter
pub mod Lines
use zephyr_samples.Base.{
  ℕ, zero, suc, ◌+◌, ◌-◌, ◌%◌, ◌^◌, ℤ, Bool, true, false, ◌&&◌, ◌||◌, List, [], ◌∷◌, if◌then◌else◌,
  ◌==◌, leb, ltb, Io, pure, ◌>>=◌, ◌>>◌, call, call_bytes, get,
}
use zephyr_samples.Uart.Rx.{get_at, set_at}

pub data DmaCall : Type 0 where
  k_msgq_init callback_set rx_enable : DmaCall
  -- the index of the buffer handed out
  rx_buf_rsp : ℕ → DmaCall
  k_msgq_put : ℕ → DmaCall
  k_msgq_get : DmaCall
  -- the message printed, from the buffer's beginning
  printk_message : List ℕ → DmaCall

-- The bytes of an event stand in its buffer from `offset` on.
pub data Event : Type 0 where
  rx_buf_request : Event
  rx_rdy : List ℕ → ℕ → ℕ → Event
  other : Event

-- `buffer` and `counter` are of `main`.
pub record UartRx : Type 0 where
  pub buf_index : ℕ
  pub buffer : List ℕ
  pub counter : ℕ

abbrev pub App : Type 0 → Type 0
App A = Io UartRx DmaCall A

-- `buf_index ^= 1`
abbrev pub switch_buffer : App (Unit {0})
switch_buffer env s log =
    let i = s.buf_index in (tt, record s { buf_index = if i % 2 == 0 then i + 1 else i - 1 }, log)

-- From ' ' to '~', or a carriage return.
pub is_text : ℕ → Bool
is_text b = (leb 32 b && leb b 126) || b == 13

pub put_byte : ℕ → App (Unit {0})
put_byte b = if is_text b then (call (k_msgq_put b) >> pure tt) else pure tt

-- The `for` loop from `i` on, a uint8_t, with rounds as fuel: a length past 255 would never end it.
pub put_bytes : ℕ → ℕ → ℕ → List ℕ → App (Unit {0})
put_bytes zero i len buf = pure tt
put_bytes (suc n) i len buf =
    let rest : App (Unit {0}) = put_bytes n ((i + 1) % 2 ^ 8) len buf in
    if ltb i len then put_byte (get_at i buf) >> rest else pure tt

-- The loop runs from `offset` to `len`; 256 rounds are enough where it ends.
pub uart_cb : Event → App (Unit {0})
uart_cb rx_buf_request = do s ← get; _ ← call (rx_buf_rsp s.buf_index); switch_buffer
uart_cb (rx_rdy buf offset len) = put_bytes 256 (offset % 2 ^ 8) len buf
uart_cb other = pure tt

-- `buffer[counter]`
abbrev pub store_byte : ℕ → App (Unit {0})
store_byte b env s log = (tt, record s { buffer = set_at s.counter b s.buffer }, log)

abbrev pub reset_counter : App (Unit {0})
reset_counter env s log = (tt, record s { counter = 0 }, log)

-- `counter++`, a uint8_t, back to 0 at the end of the buffer.
abbrev pub count_byte : App (Unit {0})
count_byte env s log =
    let n = (s.counter + 1) % 2 ^ 8 in (tt, record s { counter = if leb 50 n then 0 else n }, log)

pub print_line : App (Unit {0})
print_line = do store_byte 0; reset_counter; s ← get; _ ← call (printk_message s.buffer); pure tt

pub process_stored : App (Unit {0})
process_stored = do s ← get; if get_at s.counter s.buffer == 13 then print_line else count_byte

-- One round of the loop of `main`: the byte is the one that the queue writes.
pub main_round : App (Unit {0})
main_round = do p ← call_bytes k_msgq_get; store_byte (get_at 0 p.1); process_stored

pub main_rounds : ℕ → App (Unit {0})
main_rounds zero = pure tt
main_rounds (suc n) = main_round >> main_rounds n

pub main : ℕ → App (Unit {0})
main n = do _ ← call k_msgq_init; _ ← call callback_set; _ ← call rx_enable; main_rounds n
