-- ===== src/Kernel/MsgQueue/Streaming.antt =====
-- kernel/MQUEUES/_01_single_queue_data, _02_queues_in_runtime, _03_sending_structures and
-- _05_sending_from_an_isr (main.c): a receiver that waits for messages. Each turn is a round of a
-- thread, or an interrupt; the receiver's takes place only where there is a message.
pub mod Order
pub mod Structs
mod Tests
use zephyr_samples.Base.{
  ℕ, zero, suc, ◌+◌, ◌*◌, ◌/◌, ◌%◌, ◌^◌, Bool, List, [], ◌∷◌, Log, Env, if◌then◌else◌, to_ℕ,
  to_word, has_message, Io, pure, ◌>>=◌, ◌>>◌, call, call_bytes, get,
}
use zephyr_samples.Kernel.MsgQueue.{
  MsgCall, k_msgq_init, k_msgq_put, k_msgq_get, k_msleep, irq_enable, nvic_set_pending_irq,
  print_value, print_from, queued,
}

-- `data` of the sender, or of the interrupt.
abbrev pub App : Type 0 → Type 0
App A = Io ℕ MsgCall A

abbrev pub set_count : ℕ → App (Unit {0})
set_count n env s log = (tt, n, log)

-- `data++`, a uint32_t, and `k_msgq_put`: the text of _01, _02 and of the interrupt of _05
pub put_next : App (Unit {0})
put_next = do
  n ← get
  set_count ((n + 1) % 2 ^ 32)
  _ ← call (k_msgq_put ((n + 1) % 2 ^ 32))
  pure tt

pub sender_round : App (Unit {0})
sender_round = do put_next; _ ← call (k_msleep 1000); pure tt

pub receiver_round : App (Unit {0})
receiver_round = do p ← call_bytes k_msgq_get; _ ← call (print_value (to_word p.1)); pure tt

-- `main` of _02
pub create_queue : App (Unit {0})
create_queue = do _ ← call (k_msgq_init 10); pure tt

abbrev pub dummy_isr : ℕ
dummy_isr = 15

pub my_own_isr : App (Unit {0})
my_own_isr = put_next

-- `main` of _05: before its loop, and a round of it
pub connect_isr : App (Unit {0})
connect_isr = do _ ← call (irq_enable dummy_isr); pure tt

pub trigger_round : App (Unit {0})
trigger_round = do _ ← call (nvic_set_pending_irq dummy_isr); _ ← call (k_msleep 1000); pure tt

-- `struct data` of _03, as the number of its bytes: the value and the source, each a uint8_t
abbrev pub pack : ℕ → ℕ → ℕ
pack value source = value % 2 ^ 8 + 2 ^ 8 * (source % 2 ^ 8)

-- A round of `task_sender` of _03, with the parameters of its thread.
pub struct_sender_round : ℕ → ℕ → App (Unit {0})
struct_sender_round value source = do
  _ ← call (k_msgq_put (pack value source))
  _ ← call (k_msleep 500)
  pure tt

pub struct_receiver_round : App (Unit {0})
struct_receiver_round = do
  p ← call_bytes k_msgq_get
  _ ← call (print_from (to_word p.1 % 2 ^ 8) (to_word p.1 / 2 ^ 8 % 2 ^ 8))
  pure tt

-- A round of the thread that waits.
pub where_message : App (Unit {0}) → App (Unit {0})
where_message round env s log = if has_message (queued log) then round env s log else (tt, s, log)

pub data Turn : Type 0 where
  sender receiver interrupt main_thread : Turn

-- The programs _01, _02 and _05, by schedule.
pub step : Turn → App (Unit {0})
step sender = sender_round
step receiver = where_message receiver_round
step interrupt = my_own_isr
step main_thread = trigger_round

pub run : List Turn → App (Unit {0})
run [] = pure tt
run (t ∷ ts) = step t >> run ts

-- The two senders of _03, 101 from 1 and 202 from 2, and its receiver.
pub data StructTurn : Type 0 where
  sender1 sender2 struct_receiver : StructTurn

pub struct_step : StructTurn → App (Unit {0})
struct_step sender1 = struct_sender_round 101 1
struct_step sender2 = struct_sender_round 202 2
struct_step struct_receiver = where_message struct_receiver_round

pub struct_run : List StructTurn → App (Unit {0})
struct_run [] = pure tt
struct_run (t ∷ ts) = struct_step t >> struct_run ts
