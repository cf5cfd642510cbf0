-- ===== src/Kernel/HeapQueue.antt =====
-- kernel/QUEUES/_04_using_dynamic_memory/src/main.c
-- The two threads by schedule, statement by statement. A node is its address, 0 for NULL.
pub mod Order
pub mod Steps
pub mod Runs
mod Tests
use zephyr_samples.Base.{
  ℕ, ◌+◌, ◌%◌, ◌^◌, Bool, true, false, List, [], ◌∷◌, ◌++◌, Log, Env, if◌then◌else◌, ◌==◌, is_zero,
  to_ℕ, behind, Io, pure, ◌>>=◌, ◌>>◌, call, get,
}

pub data HeapCall : Type 0 where
  k_heap_alloc : HeapCall
  k_heap_free : ℕ → HeapCall
  k_queue_append : ℕ → HeapCall
  k_queue_is_empty k_queue_get : HeapCall
  k_msleep : ℕ → HeapCall
  printk_data : ℕ → HeapCall

-- `ptr_node` and `count` of the sender, `rx_data` of the receiver, and `data` of the nodes.
pub record Threads : Type 0 where
  pub ptr_node : ℕ
  pub count : ℕ
  pub rx_data : ℕ
  pub memory : ℕ → ℕ

abbrev pub App : Type 0 → Type 0
App A = Io Threads HeapCall A

-- The statement that a thread runs next.
pub data SendPoint : Type 0 where
  allocating filling appending send_sleeping : SendPoint

pub data ReceivePoint : Type 0 where
  receive_sleeping testing getting printing freeing : ReceivePoint

abbrev pub set_node : ℕ → App (Unit {0})
set_node p env s log = (tt, record s { ptr_node = p }, log)

abbrev pub set_rx : ℕ → App (Unit {0})
set_rx p env s log = (tt, record s { rx_data = p }, log)

-- `ptr_node->data = count++`, a uint32_t
abbrev pub fill_node : App (Unit {0})
fill_node env s log = (
  tt,
  record s {
    memory = λ q. if q == s.ptr_node then s.count else s.memory q;
    count = (s.count + 1) % 2 ^ 32;
  },
  log,
)

-- `task_sender`: the statement, and the point after it.
pub send_step : SendPoint → App SendPoint
send_step allocating = do
  p ← call k_heap_alloc
  set_node (to_ℕ p)
  pure (if to_ℕ p == 0 then send_sleeping else filling)
send_step filling = fill_node >> pure appending
send_step appending = do s ← get; _ ← call (k_queue_append s.ptr_node); pure allocating
send_step send_sleeping = do _ ← call (k_msleep 1000); pure allocating

-- `task_receiver`
pub receive_step : ReceivePoint → App ReceivePoint
receive_step receive_sleeping = do _ ← call (k_msleep 1000); pure testing
receive_step testing = do
  empty ← call k_queue_is_empty
  pure (if is_zero empty then getting else receive_sleeping)
receive_step getting = do p ← call k_queue_get; set_rx (to_ℕ p); pure printing
receive_step printing = do s ← get; _ ← call (printk_data (s.memory s.rx_data)); pure freeing
receive_step freeing = do s ← get; _ ← call (k_heap_free s.rx_data); pure testing

pub data Turn : Type 0 where
  sender receiver : Turn

pub record Config : Type 0 where
  pub send_point : SendPoint
  pub receive_point : ReceivePoint
  pub threads : Threads
  pub log : Log HeapCall

pub step : Env HeapCall → Turn → Config → Config
step env sender c =
    let (p, s', log') = send_step c.send_point env c.threads c.log in
    record c { send_point = p; threads = s'; log = log' }
step env receiver c =
    let (p, s', log') = receive_step c.receive_point env c.threads c.log in
    record c { receive_point = p; threads = s'; log = log' }

pub run : Env HeapCall → List Turn → Config → Config
run env [] c = c
run env (t ∷ ts) c = run env ts (step env t c)

-- The threads from their starts on, by a schedule: `count` is 0.
pub start : ℕ → ℕ → (ℕ → ℕ) → Config
start node rx mem = record {
  send_point = allocating;
  receive_point = receive_sleeping;
  threads = record { ptr_node = node; count = 0; rx_data = rx; memory = mem };
  log = [];
}
