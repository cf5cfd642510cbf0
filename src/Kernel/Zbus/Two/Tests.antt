-- ===== src/Kernel/Zbus/Two/Tests.antt =====
-- A concrete bus, as its log says.
use zephyr_samples.Base.{ℕ, ℤ, pos, List, [], ◌∷◌, Log, Env}
use zephyr_samples.Kernel.Zbus.{
  Channel, channel_1, channel_2, ZbusCall, zbus_sub_wait, zbus_chan_read, latest,
}
use zephyr_samples.Kernel.Zbus.Two.{first, notified, Turn, publisher, subscriber}

abbrev pointer : Channel → ℤ
pointer channel_1 = pos 0
pointer channel_2 = pos 1

abbrev answer : ZbusCall → Log ZbusCall → ℤ
answer zbus_sub_wait log = pointer (first (notified log))
answer c log = pos 0

abbrev message : ZbusCall → Log ZbusCall → List ℕ
message (zbus_chan_read c) log = latest c log
message c log = []

abbrev bus_env : Env ZbusCall
bus_env = record { result = λ log c. answer c log; bytes = λ log c. message c log }

-- Two rounds of the publisher before the subscriber reads.
abbrev schedule : List Turn
schedule =
    publisher ∷ publisher ∷ publisher ∷ publisher ∷ publisher ∷ subscriber ∷ subscriber ∷ subscriber
    ∷ subscriber ∷ []
