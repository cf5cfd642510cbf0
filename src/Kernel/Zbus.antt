-- ===== src/Kernel/Zbus.antt =====
-- kernel/ZBUS: the calls of the samples to zbus, and what a log says of a channel. A message is its bytes.
pub mod Two
pub mod Observers
use zephyr_samples.Base.{
  ℕ, ◌+◌, ◌*◌, ◌/◌, ◌%◌, ◌^◌, ◌≡◌, Bool, true, false, List, [], ◌∷◌, ◌++◌, Log, Env, if◌then◌else◌,
  ◌==◌, ◌&&◌, not, ℤ, pos, negsuc, is_zero,
}

pub data Channel : Type 0 where
  channel_1 channel_2 : Channel

unfoldable pub same : Channel → Channel → Bool
same channel_1 channel_1 = true
same channel_2 channel_2 = true
same c d = false

pub data ZbusCall : Type 0 where
  zbus_chan_pub : Channel → List ℕ → ZbusCall
  zbus_chan_read zbus_chan_const_msg : Channel → ZbusCall
  -- 0 for the first channel
  zbus_sub_wait : ZbusCall
  zbus_sub_wait_msg : ZbusCall
  k_sleep : ℕ → ZbusCall
  print_msg1 print_async print_msg2 : ℕ → ℕ → ZbusCall
  print_user : ℕ → ℕ → ℕ → ZbusCall
  -- the index of a channel, and the size of its messages
  print_channel : ℕ → ℕ → ZbusCall

-- The bytes of a uint16_t, the lowest first.
abbrev pub u16_bytes : ℕ → List ℕ
u16_bytes n = n % 2 ^ 8 ∷ n / 2 ^ 8 % 2 ^ 8 ∷ []

-- The first bytes of a message.
unfoldable pub byte0 : List ℕ → ℕ
byte0 [] = 0
byte0 (b ∷ bs) = b

unfoldable pub byte1 : List ℕ → ℕ
byte1 [] = 0
byte1 (b ∷ bs) = byte0 bs

-- A uint16_t out of its bytes.
unfoldable pub half0 : List ℕ → ℕ
half0 bs = byte0 bs + 2 ^ 8 * byte1 bs

unfoldable pub half1 : List ℕ → ℕ
half1 (a ∷ b ∷ bs) = half0 bs
half1 bs = 0

-- Whether a message reached its channel: not where the channel was busy, -EBUSY or -EAGAIN. Other errors
-- say that an observer was not notified.
unfoldable pub is_taken : ℤ → Bool
is_taken (pos n) = true
is_taken (negsuc n) = not (n == 15) && not (n == 10)

-- The message in a channel: the last one taken; a channel starts with its initial message, zeros.
unfoldable pub latest : Channel → Log ZbusCall → List ℕ
latest c [] = 0 ∷ 0 ∷ 0 ∷ 0 ∷ []
latest c ((zbus_chan_pub d m, r) ∷ log) = if same d c && is_taken r then m else latest c log
latest c ((e, r) ∷ log) = latest c log
