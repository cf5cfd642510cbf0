-- ===== src/Kernel/Zbus/Observers.antt =====
-- kernel/ZBUS, _01 to _06 and _08 (main.c): one publisher, and the observers of its channel. A listener runs
-- in the publishing thread where the channel takes the message.
pub mod Lines
mod Tests
use zephyr_samples.Base.{
  ℕ, zero, suc, ◌+◌, ◌%◌, ◌^◌, Bool, List, [], ◌∷◌, Log, Env, if◌then◌else◌, Io, pure, ◌>>=◌, ◌>>◌,
  call, call_bytes, get,
}
use zephyr_samples.Kernel.Zbus.{
  Channel, channel_1, channel_2, ZbusCall, zbus_chan_pub, zbus_chan_read, zbus_chan_const_msg,
  zbus_sub_wait_msg, k_sleep, print_msg1, print_async, print_user, print_channel, byte0, byte1,
  is_taken,
}

-- `msg.minor`; `msg.major` is 1.
abbrev pub App : Type 0 → Type 0
App A = Io ℕ ZbusCall A

abbrev pub set_minor : ℕ → App (Unit {0})
set_minor n env s log = (tt, n, log)

-- `msg.minor++`, a uint8_t, and `zbus_chan_pub` with a listener
pub publish : App (Unit {0}) → App (Unit {0})
publish listener = do
  n ← get
  set_minor ((n + 1) % 2 ^ 8)
  r ← call (zbus_chan_pub channel_1 (1 ∷ (n + 1) % 2 ^ 8 ∷ []))
  if is_taken r then listener else pure tt

-- A round of `main`.
pub main_round : App (Unit {0}) → App (Unit {0})
main_round listener = do publish listener; _ ← call (k_sleep 2); pure tt

pub main : ℕ → App (Unit {0}) → App (Unit {0})
main zero listener = pure tt
main (suc n) listener = main_round listener >> main n listener

-- _02
pub listener_callback : App (Unit {0})
listener_callback = do
  p ← call_bytes (zbus_chan_const_msg channel_1)
  _ ← call (print_msg1 (byte0 p.1) (byte1 p.1))
  pure tt

-- _03, and _06: from the work queue, with a copy of the message
pub async_listener_callback : List ℕ → App (Unit {0})
async_listener_callback message = call (print_async (byte0 message) (byte1 message)) >> pure tt

-- _04: a round of `subscriber_task`
pub subscriber_round : App (Unit {0})
subscriber_round = do
  p ← call_bytes (zbus_chan_read channel_1)
  _ ← call (print_msg1 (byte0 p.1) (byte1 p.1))
  pure tt

pub subscriber_task : ℕ → App (Unit {0})
subscriber_task zero = pure tt
subscriber_task (suc n) = subscriber_round >> subscriber_task n

-- _05, and _06: a round of `msg_subscriber_task`
pub msg_subscriber_round : App (Unit {0})
msg_subscriber_round = do
  p ← call_bytes zbus_sub_wait_msg
  _ ← call (print_msg1 (byte0 p.1) (byte1 p.1))
  pure tt

-- _08: `udata.some_value` is 42.
pub user_listener_callback : App (Unit {0})
user_listener_callback = do
  p ← call_bytes (zbus_chan_const_msg channel_1)
  _ ← call (print_user (byte0 p.1) (byte1 p.1) 42)
  pure tt

-- _01: `print_channels_iterator` for each channel by the size of its message; `count` counts them.
pub iterate : ℕ → List ℕ → App (Unit {0})
iterate count [] = pure tt
iterate count (size ∷ sizes) = do _ ← call (print_channel count size); iterate (count + 1) sizes

pub msg_subscriber_task : ℕ → App (Unit {0})
msg_subscriber_task zero = pure tt
msg_subscriber_task (suc n) = msg_subscriber_round >> msg_subscriber_task n

-- `main` of each program: only a listener runs in the publishing thread.
pub channels_main : App (Unit {0})
channels_main = iterate 0 (2 ∷ 6 ∷ 4 ∷ [])

pub listener_main : ℕ → App (Unit {0})
listener_main n = main n listener_callback

pub async_main : ℕ → App (Unit {0})
async_main n = main n (pure tt)

pub subscriber_main : ℕ → App (Unit {0})
subscriber_main n = main n (pure tt)

pub msg_subscriber_main : ℕ → App (Unit {0})
msg_subscriber_main n = main n (pure tt)

pub both_main : ℕ → App (Unit {0})
both_main n = main n (pure tt)

pub user_main : ℕ → App (Unit {0})
user_main n = main n user_listener_callback
