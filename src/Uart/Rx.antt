-- ===== src/Uart/Rx.antt =====
-- hal_drivers/UART/_05_reception_with_int/src/main.c
mod Tests
pub mod Line
use zephyr_samples.Base.{
  ℕ, zero, suc, ◌+◌, ◌%◌, ◌^◌, ℤ, Bool, true, false, ◌||◌, not, List, [], ◌∷◌, if◌then◌else◌, ◌==◌,
  leb, is_zero, to_ℕ, take, length, Io, pure, ◌>>=◌, ◌>>◌, call, call_bytes, get,
}

pub data RxCall : Type 0 where
  irq_callback_user_data_set irq_rx_enable : RxCall
  irq_update irq_is_pending irq_rx_ready : RxCall
  -- the number of bytes asked for
  fifo_read : ℕ → RxCall
  -- the message printed, from the buffer's beginning
  printk_message : List ℕ → RxCall
  k_msleep : ℕ → RxCall

-- `overrun` says whether an index has left `rx_buf`, whose 50 bytes are the list.
pub record UartMsg : Type 0 where
  pub rx_buf : List ℕ
  pub rx_count : ℕ
  pub rx_len : ℕ
  pub rx_flag : Bool
  pub overrun : Bool

abbrev pub App : Type 0 → Type 0
App A = Io UartMsg RxCall A

-- `xs[i]`; 0 outside the list.
unfoldable pub get_at : ℕ → List ℕ → ℕ
get_at i [] = 0
get_at zero (x ∷ xs) = x
get_at (suc i) (x ∷ xs) = get_at i xs

-- `xs[i] = b`; nothing outside the list.
pub set_at : ℕ → ℕ → List ℕ → List ℕ
set_at i b [] = []
set_at zero b (x ∷ xs) = b ∷ xs
set_at (suc i) b (x ∷ xs) = x ∷ set_at i b xs

-- Bytes written from an index on.
pub write_at : ℕ → List ℕ → List ℕ → List ℕ
write_at i [] xs = xs
write_at i (b ∷ bs) xs = write_at (i + 1) bs (set_at i b xs)

-- An index that leaves the buffer.
abbrev pub check_index : ℕ → App (Unit {0})
check_index i env s log = (tt, record s { overrun = s.overrun || leb (length s.rx_buf) i }, log)

-- `uart_fifo_read` to `&rx_buf[rx_count]`: the bytes that fit into the list are kept in it.
pub read_fifo : App ℤ
read_fifo env s log =
    let (p, s1, log') = call_bytes (fifo_read s.rx_len) env s log in
    let bytes = take (to_ℕ p.0) p.1 in
    let s' = record s1 {
      rx_buf = write_at s1.rx_count bytes s1.rx_buf;
      overrun = s1.overrun || not (leb (s1.rx_count + length bytes) (length s1.rx_buf));
    } in
    (p.0, s', log')

abbrev pub close_line : ℕ → App (Unit {0})
close_line i env s log = (
  tt,
  record s { rx_flag = true; rx_buf = set_at (s.rx_count + i) 0 s.rx_buf; rx_count = 0 },
  log,
)

-- `rx_count++`, a uint8_t, back to 0 at the end of the buffer.
abbrev pub count_byte : App (Unit {0})
count_byte env s log =
    let n = (s.rx_count + 1) % 2 ^ 8 in
    (tt, record s { rx_count = if leb s.rx_len n then 0 else n }, log)

-- The byte at `rx_count + i`, where `rx_count` is the one of the moment.
pub process_byte : ℕ → App (Unit {0})
process_byte i = do
  s ← get
  check_index (s.rx_count + i)
  if get_at (s.rx_count + i) s.rx_buf == 13 then close_line i else count_byte

-- The `for` loop from `i` on.
pub process_bytes : ℕ → ℕ → App (Unit {0})
process_bytes zero i = pure tt
process_bytes (suc n) i = process_byte i >> process_bytes n (i + 1)

pub receive : App (Unit {0})
receive = do rx_bytes ← read_fifo; process_bytes (to_ℕ rx_bytes) 0

pub handle_ready : App (Unit {0})
handle_ready = do ready ← call irq_rx_ready; if is_zero ready then pure tt else receive

pub handle_irq : App (Unit {0})
handle_irq = do pending ← call irq_is_pending; if is_zero pending then pure tt else handle_ready

pub uart_cb : App (Unit {0})
uart_cb = do updated ← call irq_update; if is_zero updated then pure tt else handle_irq

-- Interrupts one after the other.
pub interrupts : ℕ → App (Unit {0})
interrupts zero = pure tt
interrupts (suc n) = uart_cb >> interrupts n

abbrev pub clear_flag : App (Unit {0})
clear_flag env s log = (tt, record s { rx_flag = false }, log)

-- One round of the loop of `main`.
pub print_received : App (Unit {0})
print_received = do
  s ← get
  if s.rx_flag then (clear_flag >> (call (printk_message s.rx_buf) >> pure tt)) else pure tt

pub main_round : ℕ → App (Unit {0})
main_round n = do print_received; _ ← call (k_msleep 50); interrupts n

pub main_rounds : List ℕ → App (Unit {0})
main_rounds [] = pure tt
main_rounds (n ∷ ns) = main_round n >> main_rounds ns

abbrev pub init_message : App (Unit {0})
init_message env s log =
    (tt, record s { rx_len = length s.rx_buf; rx_count = 0; rx_flag = false }, log)

-- The interrupts of each sleep are a number for each round.
pub main : List ℕ → App (Unit {0})
main ns = do
  init_message
  _ ← call irq_callback_user_data_set
  _ ← call irq_rx_enable
  main_rounds ns
