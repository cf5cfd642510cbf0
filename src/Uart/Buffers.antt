-- ===== src/Uart/Buffers.antt =====
-- hal_drivers/UART/_09_tx_messages_net_buffers/src/main.c
-- The thread of `main` and the callback of the driver share the pool, the FIFO and the semaphore.
-- A schedule says which of the two runs next; the callback runs whole. A buffer is its address,
-- 0 for NULL.
pub mod Spec
pub mod Steps
pub mod Batches
mod Tests
use zephyr_samples.Base.{
  ℕ, suc, ◌+◌, ◌-◌, ℤ, pos, Bool, true, false, ◌||◌, List, [], ◌∷◌, ◌++◌, Log, Env, if◌then◌else◌,
  ◌==◌, to_ℕ, is_zero, codes, Io, pure, ◌>>=◌, ◌>>◌, call, get,
}
use zephyr_samples.Base.{SemOp, sem_init, sem_reset, sem_give, sem_take, no_sem, tokens}

pub data BufCall : Type 0 where
  k_sem_init : ℕ → ℕ → BufCall
  k_sem_reset k_sem_give k_sem_take : BufCall
  callback_set : BufCall
  net_buf_alloc : BufCall
  net_buf_unref : ℕ → BufCall
  k_fifo_put : ℕ → BufCall
  k_fifo_get : BufCall
  uart_tx : List ℕ → BufCall
  k_msleep : ℕ → BufCall

-- MAX_BUFFERS and MAX_BUFF_SIZE
abbrev pub max_buffers : ℕ
max_buffers = 3

abbrev pub max_buff_size : ℕ
max_buff_size = 64

-- The arrays, with their NUL, which `sizeof` counts.
unfoldable pub message1 : List ℕ
message1 = codes "First: Hola DMA uart Tx from DMA sending more" ++ 13 ∷ 10 ∷ 0 ∷ []

unfoldable pub message2 : List ℕ
message2 = codes "Second: Este s otro mensaje muy difernete" ++ 13 ∷ 10 ∷ 0 ∷ []

unfoldable pub message3 : List ℕ
message3 = codes "Third: Aqui hay uno mas para mandar seguido" ++ 13 ∷ 10 ∷ 0 ∷ []

-- `struct serial_tx`. `memory` is what stands in a buffer up to its length; `null_write` says whether
-- one was written or read through NULL.
pub record SerialTx : Type 0 where
  pub tx_buf1 : ℕ
  pub tx_buf2 : ℕ
  pub tx_buf3 : ℕ
  pub ref_buff : ℕ
  pub memory : ℕ → List ℕ
  pub null_write : Bool

abbrev pub App : Type 0 → Type 0
App A = Io SerialTx BufCall A

-- `memcpy` and `net_buf_add` on a buffer that is empty.
abbrev pub fill : ℕ → List ℕ → App (Unit {0})
fill p bytes env s log = (
  tt,
  record s {
    memory = λ q. if q == p then bytes else s.memory q;
    null_write = s.null_write || p == 0;
  },
  log,
)

abbrev pub set_buf1 : ℕ → App (Unit {0})
set_buf1 p env s log = (tt, record s { tx_buf1 = p }, log)

abbrev pub set_buf2 : ℕ → App (Unit {0})
set_buf2 p env s log = (tt, record s { tx_buf2 = p }, log)

abbrev pub set_buf3 : ℕ → App (Unit {0})
set_buf3 p env s log = (tt, record s { tx_buf3 = p }, log)

abbrev pub set_ref : ℕ → App (Unit {0})
set_ref p env s log = (tt, record s { ref_buff = p }, log)

-- `uart_tx` of the buffer referred to.
pub send_ref : App (Unit {0})
send_ref = do s ← get; _ ← call (uart_tx (s.memory s.ref_buff)); pure tt

pub data Event : Type 0 where
  tx_done tx_aborted other : Event

-- What follows the next buffer of the queue.
pub send_next : App (Unit {0})
send_next = do s ← get; if s.ref_buff == 0 then (call k_sem_give >> pure tt) else send_ref

pub uart_cb : Event → App (Unit {0})
uart_cb tx_done = do
  s ← get
  _ ← call (net_buf_unref s.ref_buff)
  next ← call k_fifo_get
  set_ref (to_ℕ next)
  send_next
uart_cb tx_aborted = pure tt
uart_cb other = pure tt

-- `main` before its loop.
pub start : App (Unit {0})
start = do
  _ ← call (k_sem_init 0 1)
  _ ← call k_sem_reset
  _ ← call k_sem_give
  _ ← call callback_set
  pure tt

-- The part of the loop that the thread runs next.
pub data Point : Type 0 where
  taking filling1 filling2 filling3 queueing starting sleeping : Point

pub after : Point → Point
after taking = filling1
after filling1 = filling2
after filling2 = filling3
after filling3 = queueing
after queueing = starting
after starting = sleeping
after sleeping = taking

pub thread_step : Point → App (Unit {0})
thread_step taking = call k_sem_take >> pure tt
thread_step filling1 = do p ← call net_buf_alloc; set_buf1 (to_ℕ p); fill (to_ℕ p) message1
thread_step filling2 = do p ← call net_buf_alloc; set_buf2 (to_ℕ p); fill (to_ℕ p) message2
thread_step filling3 = do p ← call net_buf_alloc; set_buf3 (to_ℕ p); fill (to_ℕ p) message3
thread_step queueing = do
  s ← get
  _ ← call (k_fifo_put s.tx_buf2)
  _ ← call (k_fifo_put s.tx_buf3)
  pure tt
thread_step starting = do s ← get; set_ref s.tx_buf1; send_ref
thread_step sleeping = call (k_msleep 1000) >> pure tt

abbrev pub sem_op : BufCall → SemOp
sem_op (k_sem_init n m) = sem_init n m
sem_op k_sem_reset = sem_reset
sem_op k_sem_give = sem_give
sem_op k_sem_take = sem_take
sem_op c = no_sem

-- A transmission that the driver took is under way: it has not reported its end, which the callback answers
-- with `net_buf_unref`.
abbrev pub busy : Log BufCall → Bool
busy [] = false
busy ((uart_tx bytes, r) ∷ log) = if is_zero r then true else busy log
busy ((net_buf_unref p, r) ∷ log) = false
busy ((c, r) ∷ log) = busy log

-- `k_sem_take` waits until the semaphore counts.
pub may_step : Point → Log BufCall → Bool
may_step taking log = if tokens sem_op log == 0 then false else true
may_step p log = true

-- The end of a transmission is reported once.
pub may_arrive : Event → Log BufCall → Bool
may_arrive tx_done log = busy log
may_arrive e log = true

pub data Turn : Type 0 where
  thread : Turn
  interrupt : Event → Turn

pub record Config : Type 0 where
  pub point : Point
  pub serial : SerialTx
  pub log : Log BufCall

pub step : Env BufCall → Turn → Config → Config
step env thread c =
    let (_, s', log') = thread_step c.point env c.serial c.log in
    if may_step c.point c.log then record { point = after c.point; serial = s'; log = log' } else c
step env (interrupt e) c =
    let (_, s', log') = uart_cb e env c.serial c.log in
    if may_arrive e c.log then record { point = c.point; serial = s'; log = log' } else c

pub run : Env BufCall → List Turn → Config → Config
run env [] c = c
run env (t ∷ ts) c = run env ts (step env t c)

-- The program from its start on, by a schedule.
pub main : Env BufCall → List Turn → SerialTx → Config
main env ts s =
    let (_, s', log') = start env s [] in
    run env ts (record { point = taking; serial = s'; log = log' })
