-- ===== src/Kernel/Pool.antt =====
-- kernel/QUEUES, _02_more_than_one_messgae, _03_appeding_nodes_with_alloc, _05_queue_like_fifo and
-- _06_queue_like_lifo (main.c), which differ in the queue that they use: nodes of a pool of five.
-- The two threads by schedule, statement by statement. A node is its index in `mem_pool`.
pub mod Order
pub mod Runs
mod Tests
use zephyr_samples.Base.{
  ℕ, ◌+◌, ◌*◌, Bool, true, false, List, [], ◌∷◌, Log, Env, if◌then◌else◌, ◌==◌, ltb, is_zero, to_ℕ,
  Io, pure, ◌>>=◌, ◌>>◌, call, get,
}

-- The queue of _02, that of _03 with links from the heap, and those of _05 and _06.
pub data Queue : Type 0 where
  k_queue alloc_queue k_fifo k_lifo : Queue

-- `queue_put k_fifo i` is `k_fifo_put(&my_fifo, &mem_pool[i])`.
pub data PoolCall : Type 0 where
  queue_put : Queue → ℕ → PoolCall
  queue_is_empty queue_get : Queue → PoolCall
  k_msleep print_data : ℕ → PoolCall

-- `i` and `mem_pool` of the sender, `rx_data` of the receiver.
pub record Threads : Type 0 where
  pub i : ℕ
  pub mem_pool : ℕ → ℕ
  pub rx_data : ℕ

abbrev pub App : Type 0 → Type 0
App A = Io Threads PoolCall A

-- The statement that a thread runs next.
pub data SendPoint : Type 0 where
  looping filling putting send_sleeping : SendPoint

pub data ReceivePoint : Type 0 where
  receive_sleeping testing getting printing : ReceivePoint

abbrev pub set_i : ℕ → App (Unit {0})
set_i n env s log = (tt, record s { i = n }, log)

abbrev pub set_rx : ℕ → App (Unit {0})
set_rx p env s log = (tt, record s { rx_data = p }, log)

-- `mem_pool[i].data = i * 10`
abbrev pub fill_node : App (Unit {0})
fill_node env s log =
    (tt, record s { mem_pool = λ p. if p == s.i then s.i * 10 else s.mem_pool p }, log)

-- `task_sender`: the statement, and the point after it.
pub send_step : Queue → SendPoint → App SendPoint
send_step q looping = do s ← get; pure (if ltb s.i 5 then filling else send_sleeping)
send_step q filling = fill_node >> pure putting
send_step q putting = do s ← get; _ ← call (queue_put q s.i); set_i (s.i + 1); pure looping
send_step q send_sleeping = do _ ← call (k_msleep 1000); set_i 0; pure looping

-- `task_receiver`
pub receive_step : Queue → ReceivePoint → App ReceivePoint
receive_step q receive_sleeping = do _ ← call (k_msleep 1000); pure testing
receive_step q testing = do
  empty ← call (queue_is_empty q)
  pure (if is_zero empty then getting else receive_sleeping)
receive_step q getting = do p ← call (queue_get q); set_rx (to_ℕ p); pure printing
receive_step q printing = do s ← get; _ ← call (print_data (s.mem_pool s.rx_data)); pure testing

pub data Turn : Type 0 where
  sender receiver : Turn

pub record Config : Type 0 where
  pub send_point : SendPoint
  pub receive_point : ReceivePoint
  pub threads : Threads
  pub log : Log PoolCall

pub step : Env PoolCall → Queue → Turn → Config → Config
step env q sender c =
    let (p, s', log') = send_step q c.send_point env c.threads c.log in
    record c { send_point = p; threads = s'; log = log' }
step env q receiver c =
    let (p, s', log') = receive_step q c.receive_point env c.threads c.log in
    record c { receive_point = p; threads = s'; log = log' }

-- The turns of a schedule, the latest first, as in the log.
pub run : Env PoolCall → Queue → List Turn → Config → Config
run env q [] c = c
run env q (t ∷ ts) c = step env q t (run env q ts c)

-- The threads at their start, `i` before its loop and the nodes zero.
abbrev pub start : ℕ → Config
start rx = record {
  send_point = looping;
  receive_point = receive_sleeping;
  threads = record { i = 0; mem_pool = λ p. 0; rx_data = rx };
  log = [];
}
