-- ===== src/Uart.antt =====
-- hal_drivers/UART, the transmission with interrupts: what _03_tx_one_message_interrupts and
-- _04_sync_tx_with_semap share, their calls, `struct uart_msg` and the filling of the FIFO.
pub mod Fill
pub mod Tx
pub mod Sync
pub mod Rx
pub mod Dma
pub mod Buffers
pub mod DmaTx
mod Tests
use zephyr_samples.Base.{
  ℕ, ℤ, pos, negsuc, ◌+◌, ◌-◌, ◌%◌, ◌^◌, Bool, true, false, List, [], ◌∷◌, ◌++◌, if◌then◌else◌,
  ◌==◌, is_zero, to_ℕ, drop, length, codes, Io, Log, pure, ◌>>=◌, ◌>>◌, call, get,
}

pub data UartCall : Type 0 where
  irq_callback_user_data_set : UartCall
  irq_update irq_is_pending irq_tx_ready : UartCall
  irq_tx_enable irq_tx_disable : UartCall
  -- the bytes from the pointer on, and the number of bytes asked for
  fifo_fill : List ℕ → ℕ → UartCall
  k_sem_init : ℕ → ℕ → UartCall
  k_sem_reset k_sem_give k_sem_take : UartCall
  k_msleep : ℕ → UartCall

-- `tx_buf` has 50 bytes; the semaphore of _04 is in the calls.
pub record UartMsg : Type 0 where
  pub tx_buf : List ℕ
  pub tx_count : ℕ
  pub tx_len : ℕ

abbrev pub App : Type 0 → Type 0
App A = Io UartMsg UartCall A

abbrev pub message : List ℕ
message = codes "Hello UART transmition interrupts example!" ++ 13 ∷ 10 ∷ []

-- `(uint8_t)r`
abbrev pub to_u8 : ℤ → ℕ
to_u8 (pos n) = n % 2 ^ 8
to_u8 (negsuc n) = 2 ^ 8 - 1 - n % 2 ^ 8

-- The difference of two uint8_t, as a uint8_t.
abbrev pub sub_u8 : ℕ → ℕ → ℕ
sub_u8 a b = (a + 2 ^ 8 - b) % 2 ^ 8

abbrev pub set_count : ℕ → App (Unit {0})
set_count n env s log = (tt, record s { tx_count = n }, log)

-- `strcpy`, `tx_len` and `tx_count`: what stood behind the text in the buffer is kept.
abbrev pub load_message : App (Unit {0})
load_message env s log = (
  tt,
  record {
    tx_buf = message ++ 0 ∷ drop (length message + 1) s.tx_buf;
    tx_count = length message;
    tx_len = length message;
  },
  log,
)

-- `tx_count = tx_len`
abbrev pub rewind : App (Unit {0})
rewind env s log = (tt, record s { tx_count = s.tx_len }, log)

-- The FIFO takes as many bytes as it can, and they are discounted.
pub fill_bytes : App (Unit {0})
fill_bytes = do
  s ← get
  sended ← call (fifo_fill (drop (sub_u8 s.tx_len s.tx_count) s.tx_buf) s.tx_count)
  set_count (sub_u8 s.tx_count (to_u8 sended))

-- The transmitter has room, or has not.
pub fill_ready : App (Unit {0})
fill_ready = do
  ready ← call irq_tx_ready
  s ← get
  if is_zero ready then pure tt else (if s.tx_count == 0 then pure tt else fill_bytes)
