-- ===== src/Kernel/MsgQueue/Draining.antt =====
-- kernel/MQUEUES/_04_reading_all_messages/src/main.c
-- The two threads by schedule, statement by statement.
pub mod Order
pub mod Runs
pub mod Tests
use zephyr_samples.Base.{
  ℕ, ◌+◌, ◌%◌, ◌^◌, Bool, List, [], ◌∷◌, Log, Env, if◌then◌else◌, ◌==◌, ltb, to_ℕ, to_word, Io,
  pure, ◌>>=◌, ◌>>◌, call, call_bytes, get,
}
use zephyr_samples.Kernel.MsgQueue.{
  MsgCall, k_msgq_put, k_msgq_get, k_msgq_num_free_get, k_msgq_num_used_get, k_msleep, print_value,
}

-- `data` of the sender and of the receiver.
pub record Threads : Type 0 where
  pub sent : ℕ
  pub received : ℕ

abbrev pub App : Type 0 → Type 0
App A = Io Threads MsgCall A

-- The statement that a thread runs next.
pub data SendPoint : Type 0 where
  checking counting putting send_sleeping : SendPoint

pub data ReceivePoint : Type 0 where
  receive_sleeping testing getting printing : ReceivePoint

-- `data++`, a uint32_t
abbrev pub count : App (Unit {0})
count env s log = (tt, record s { sent = (s.sent + 1) % 2 ^ 32 }, log)

abbrev pub store : ℕ → App (Unit {0})
store m env s log = (tt, record s { received = m }, log)

-- `task_sender`: the statement, and the point after it.
pub send_step : SendPoint → App SendPoint
send_step checking = do
  free ← call k_msgq_num_free_get
  pure (if ltb 0 (to_ℕ free) then counting else send_sleeping)
send_step counting = count >> pure putting
send_step putting = do s ← get; _ ← call (k_msgq_put s.sent); pure checking
send_step send_sleeping = do _ ← call (k_msleep 1000); pure checking

-- `task_receiver`
pub receive_step : ReceivePoint → App ReceivePoint
receive_step receive_sleeping = do _ ← call (k_msleep 1000); pure testing
receive_step testing = do
  used ← call k_msgq_num_used_get
  pure (if to_ℕ used == 0 then receive_sleeping else getting)
receive_step getting = do p ← call_bytes k_msgq_get; store (to_word p.1); pure printing
receive_step printing = do s ← get; _ ← call (print_value s.received); pure testing

pub data Turn : Type 0 where
  sender receiver : Turn

pub record Config : Type 0 where
  pub send_point : SendPoint
  pub receive_point : ReceivePoint
  pub threads : Threads
  pub log : Log MsgCall

pub step : Env MsgCall → Turn → Config → Config
step env sender c =
    let (p, s', log') = send_step c.send_point env c.threads c.log in
    record c { send_point = p; threads = s'; log = log' }
step env receiver c =
    let (p, s', log') = receive_step c.receive_point env c.threads c.log in
    record c { receive_point = p; threads = s'; log = log' }

pub run : Env MsgCall → List Turn → Config → Config
run env [] c = c
run env (t ∷ ts) c = run env ts (step env t c)

-- The sender's `data` starts at 0, the receiver's at any value.
pub start : ℕ → Config
start rx = record {
  send_point = checking;
  receive_point = receive_sleeping;
  threads = record { sent = 0; received = rx };
  log = [];
}
