-- ===== src/Kernel/Zbus/Two.antt =====
-- kernel/ZBUS/_07_two_messages_one_observer/src/main.c
-- The publisher and the subscriber by schedule; what the subscriber reads it prints in the same step.
pub mod Current
pub mod Runs
mod Tests
use zephyr_samples.Base.{
  ℕ, ℤ, zero, suc, ◌+◌, ◌%◌, ◌^◌, Bool, true, false, List, [], ◌∷◌, ◌++◌, Log, Env, if◌then◌else◌,
  is_zero, to_ℕ, behind, has_message, leb, length, Io, pure, ◌>>=◌, ◌>>◌, call, call_bytes, get,
}
use zephyr_samples.Kernel.Zbus.{
  Channel, channel_1, channel_2, ZbusCall, zbus_chan_pub, zbus_chan_read, zbus_sub_wait, k_sleep,
  print_msg1, print_msg2, u16_bytes, byte0, byte1, half0, half1,
}

-- A queue of channels: the first, the others, and whether there is one.
unfoldable pub first : List Channel → Channel
first [] = channel_1
first (c ∷ cs) = c

unfoldable pub others : List Channel → List Channel
others [] = []
others (c ∷ cs) = cs

unfoldable pub has_channel : List Channel → Bool
has_channel [] = false
has_channel (c ∷ cs) = true

-- The statement that each thread runs next.
pub data PubPoint : Type 0 where
  publish1 publish2 pub_sleeping : PubPoint

pub data SubPoint : Type 0 where
  waiting : SubPoint
  reading : Channel → SubPoint

-- `msg.minor` and `msg2.current`; `msg.major` is 1 and `msg2.voltage` 220. The bytes of
-- `received_msg` and `received_msg2`.
pub record Threads : Type 0 where
  pub minor : ℕ
  pub current : ℕ
  pub received_msg : List ℕ
  pub received_msg2 : List ℕ

abbrev pub App : Type 0 → Type 0
App A = Io Threads ZbusCall A

abbrev pub set_minor : ℕ → App (Unit {0})
set_minor n env s log = (tt, record s { minor = n }, log)

abbrev pub set_current : ℕ → App (Unit {0})
set_current n env s log = (tt, record s { current = n }, log)

-- The bytes of the two structures.
abbrev pub msg1_bytes : ℕ → ℕ → List ℕ
msg1_bytes major minor = major ∷ minor ∷ []

abbrev pub msg2_bytes : ℕ → ℕ → List ℕ
msg2_bytes voltage current = u16_bytes voltage ++ u16_bytes current

-- `msg.minor++` is a uint8_t, `msg2.current++` a uint16_t.
pub publish_step : PubPoint → App PubPoint
publish_step publish1 = do
  s ← get
  set_minor ((s.minor + 1) % 2 ^ 8)
  _ ← call (zbus_chan_pub channel_1 (msg1_bytes 1 ((s.minor + 1) % 2 ^ 8)))
  pure publish2
publish_step publish2 = do
  s ← get
  set_current ((s.current + 1) % 2 ^ 16)
  _ ← call (zbus_chan_pub channel_2 (msg2_bytes 220 ((s.current + 1) % 2 ^ 16)))
  pure pub_sleeping
publish_step pub_sleeping = do _ ← call (k_sleep 2); pure publish1

-- The channel whose pointer `zbus_sub_wait` gives.
pub to_channel : ℕ → Channel
to_channel zero = channel_1
to_channel (suc n) = channel_2

-- A read that fails leaves the structure as it was.
abbrev pub store : Channel → ℤ × List ℕ → App (Unit {0})
store channel_1 (r, bs) env s log =
    (tt, record s { received_msg = if is_zero r then bs else s.received_msg }, log)
store channel_2 (r, bs) env s log =
    (tt, record s { received_msg2 = if is_zero r then bs else s.received_msg2 }, log)

abbrev pub received : Channel → Threads → List ℕ
received channel_1 s = s.received_msg
received channel_2 s = s.received_msg2

pub show : Channel → List ℕ → App (Unit {0})
show channel_1 bs = call (print_msg1 (byte0 bs) (byte1 bs)) >> pure tt
show channel_2 bs = call (print_msg2 (half0 bs) (half1 bs)) >> pure tt

-- `subscriber_task`; `zbus_sub_wait` returns where a channel was published.
pub subscribe_step : SubPoint → App SubPoint
subscribe_step waiting = do c ← call zbus_sub_wait; pure (reading (to_channel (to_ℕ c)))
subscribe_step (reading c) = do
  p ← call_bytes (zbus_chan_read c)
  store c p
  s ← get
  show c (received c s)
  pure waiting

-- The channels in the queue of the subscriber; one that the full queue refuses is not among them.
unfoldable pub notified : Log ZbusCall → List Channel
notified [] = []
notified ((zbus_chan_pub c m, r) ∷ log) = if is_zero r then notified log ++ c ∷ [] else notified log
notified ((zbus_sub_wait, r) ∷ log) = others (notified log)
notified ((e, r) ∷ log) = notified log

pub data Turn : Type 0 where
  publisher subscriber : Turn

pub record Config : Type 0 where
  pub pub_point : PubPoint
  pub sub_point : SubPoint
  pub threads : Threads
  pub log : Log ZbusCall

pub can_run : SubPoint → Log ZbusCall → Bool
can_run waiting log = has_channel (notified log)
can_run (reading c) log = true

pub run_subscriber : Env ZbusCall → Config → Config
run_subscriber env c =
    let (p, s', log') = subscribe_step c.sub_point env c.threads c.log in
    record c { sub_point = p; threads = s'; log = log' }

pub step : Env ZbusCall → Turn → Config → Config
step env publisher c =
    let (p, s', log') = publish_step c.pub_point env c.threads c.log in
    record c { pub_point = p; threads = s'; log = log' }
step env subscriber c = if can_run c.sub_point c.log then run_subscriber env c else c

pub run : Env ZbusCall → List Turn → Config → Config
run env [] c = c
run env (t ∷ ts) c = run env ts (step env t c)

-- The structures of the subscriber start with any bytes.
pub start : List ℕ → List ℕ → Config
start rx rx2 = record {
  pub_point = publish1;
  sub_point = waiting;
  threads = record { minor = 0; current = 10; received_msg = rx; received_msg2 = rx2 };
  log = [];
}
