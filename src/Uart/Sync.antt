-- ===== src/Uart/Sync.antt =====
-- hal_drivers/UART/_04_sync_tx_with_semap/src/main.c
-- The thread of `main` and the interrupt share the message. The interrupt runs whole between two
-- steps of the thread. A schedule says which of the two runs next.
pub mod Turns
use zephyr_samples.Base.{
  ℕ, ◌+◌, ◌-◌, Bool, true, false, List, [], ◌∷◌, Log, Env, if◌then◌else◌, ◌==◌, leb, is_zero, pure,
  ◌>>=◌, ◌>>◌, call, get,
}
use zephyr_samples.Uart.{
  App, UartCall, UartMsg, irq_callback_user_data_set, irq_update, irq_is_pending, irq_tx_enable,
  irq_tx_disable, k_sem_init, k_sem_reset, k_sem_give, k_sem_take, k_msleep, load_message, rewind,
  fill_ready,
}

-- `tx_done` is given where the message is sent.
unfoldable pub finish_sent : App (Unit {0})
finish_sent = do
  s ← get
  if s.tx_count == 0 then (call irq_tx_disable >> call k_sem_give >> pure tt) else pure tt

unfoldable pub handle_irq : App (Unit {0})
handle_irq = do
  pending ← call irq_is_pending
  if is_zero pending then pure tt else (fill_ready >> finish_sent)

unfoldable pub uart_cb : App (Unit {0})
uart_cb = do updated ← call irq_update; if is_zero updated then pure tt else handle_irq

-- `main` before its loop.
unfoldable pub start : App (Unit {0})
start = do
  load_message
  _ ← call (k_sem_init 0 1)
  _ ← call k_sem_reset
  _ ← call k_sem_give
  _ ← call irq_callback_user_data_set
  pure tt

-- The statement of the loop that the thread runs next.
pub data Point : Type 0 where
  taking rewinding enabling sleeping : Point

unfoldable pub after : Point → Point
after taking = rewinding
after rewinding = enabling
after enabling = sleeping
after sleeping = taking

unfoldable pub thread_step : Point → App (Unit {0})
thread_step taking = call k_sem_take >> pure tt
thread_step rewinding = rewind
thread_step enabling = call irq_tx_enable >> pure tt
thread_step sleeping = call (k_msleep 1000) >> pure tt

-- The semaphore and the interrupt after the calls of a log, as Zephyr documents them: a semaphore
-- counts up to its limit.
abbrev pub limit : Log UartCall → ℕ
limit [] = 0
limit ((k_sem_init n m, r) ∷ log) = m
limit ((c, r) ∷ log) = limit log

abbrev pub tokens : Log UartCall → ℕ
tokens [] = 0
tokens ((k_sem_init n m, r) ∷ log) = n
tokens ((k_sem_reset, r) ∷ log) = 0
tokens ((k_sem_give, r) ∷ log) = if leb (limit log) (tokens log) then tokens log else tokens log + 1
tokens ((k_sem_take, r) ∷ log) = tokens log - 1
tokens ((c, r) ∷ log) = tokens log

abbrev pub enabled : Log UartCall → Bool
enabled [] = false
enabled ((irq_tx_enable, r) ∷ log) = true
enabled ((irq_tx_disable, r) ∷ log) = false
enabled ((c, r) ∷ log) = enabled log

-- `k_sem_take` waits until the semaphore counts.
unfoldable pub may_step : Point → Log UartCall → Bool
may_step taking log = if tokens log == 0 then false else true
may_step rewinding log = true
may_step enabling log = true
may_step sleeping log = true

pub data Turn : Type 0 where
  thread interrupt : Turn

pub record Config : Type 0 where
  pub point : Point
  pub msg : UartMsg
  pub log : Log UartCall

-- A thread that waits keeps its point; an interrupt that is disabled does not arrive.
unfoldable pub step : Env UartCall → Turn → Config → Config
step env thread c =
    let (_, s', log') = thread_step c.point env c.msg c.log in
    if may_step c.point c.log then record { point = after c.point; msg = s'; log = log' } else c
step env interrupt c =
    let (_, s', log') = uart_cb env c.msg c.log in
    if enabled c.log then record { point = c.point; msg = s'; log = log' } else c

unfoldable pub run : Env UartCall → List Turn → Config → Config
run env [] c = c
run env (t ∷ ts) c = run env ts (step env t c)

-- The program from its start on, by a schedule.
unfoldable pub main : Env UartCall → List Turn → UartMsg → Config
main env ts s =
    let (_, s', log') = start env s [] in
    run env ts (record { point = taking; msg = s'; log = log' })
