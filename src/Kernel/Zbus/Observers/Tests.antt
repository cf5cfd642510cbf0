-- ===== src/Kernel/Zbus/Observers/Tests.antt =====
-- Two messages, and a listener; the same message read twice.
use zephyr_samples.Base.{ℕ, ◌≡◌, refl, pos, List, [], ◌∷◌, Log, Env}
use zephyr_samples.Kernel.Zbus.{
  channel_1, same, ZbusCall, zbus_chan_pub, zbus_chan_const_msg, zbus_chan_read, latest, is_taken,
  byte0, byte1,
}
use zephyr_samples.Kernel.Zbus.Observers.{
  publish, main_round, main, listener_callback, subscriber_round, subscriber_task,
}
use zephyr_samples.Kernel.Zbus.Observers.Lines.{lines}

abbrev message : ZbusCall → Log ZbusCall → List ℕ
message (zbus_chan_const_msg c) log = latest c log
message (zbus_chan_read c) log = latest c log
message c log = []

abbrev bus_env : Env ZbusCall
bus_env = record { result = λ log c. pos 0; bytes = λ log c. message c log }

listened : lines (main 2 listener_callback bus_env 0 []).2 ≡ (1, 1) ∷ (1, 2) ∷ []
unfolding main main_round publish listener_callback latest same is_taken byte0 byte1
listened = refl

read_twice :
    lines (subscriber_task 2 bus_env 0 ((zbus_chan_pub channel_1 (1 ∷ 5 ∷ []), pos 0) ∷ [])).2
    ≡ (1, 5) ∷ (1, 5) ∷ []
unfolding subscriber_task subscriber_round latest same is_taken byte0 byte1
read_twice = refl
