-- ===== src/Uart/DmaTx.antt =====
-- hal_drivers/UART/_07_tx_messages_with_dma/src/main.c
-- The thread of `main` and the callback of the driver by schedule; a callback runs whole.
pub mod Turns
mod Tests
use zephyr_samples.Base.{
  ℕ, ◌+◌, Bool, true, false, List, [], ◌∷◌, ◌++◌, Log, Env, if◌then◌else◌, is_zero, codes, Io, pure,
  ℤ, pos, not, ◌==◌, ◌>>=◌, ◌>>◌, call,
}
use zephyr_samples.Base.{SemOp, sem_init, sem_reset, sem_give, sem_take, no_sem, tokens}

pub data UartEvent : Type 0 where
  uart_tx_done uart_tx_aborted other_event : UartEvent

pub data DmaTxCall : Type 0 where
  k_sem_init : ℕ → ℕ → DmaTxCall
  k_sem_reset k_sem_give k_sem_take : DmaTxCall
  uart_callback_set : DmaTxCall
  uart_tx : List ℕ → DmaTxCall
  k_msleep : ℕ → DmaTxCall
  -- an event that the driver has reported
  reported : UartEvent → DmaTxCall

-- The program keeps nothing but the semaphore.
abbrev pub App : Type 0 → Type 0
App A = Io (Unit {0}) DmaTxCall A

-- `tx_buf`, which ends with its NUL: `sizeof` counts it.
unfoldable pub tx_buf : List ℕ
tx_buf = codes "Hola DMA uart Tx from DMA sending more bytes" ++ 13 ∷ 10 ∷ 0 ∷ []

unfoldable pub uart_cb : UartEvent → App (Unit {0})
uart_cb uart_tx_done = call k_sem_give >> pure tt
uart_cb uart_tx_aborted = pure tt
uart_cb other_event = pure tt

-- `main` before its loop.
unfoldable pub start : App (Unit {0})
start = do
  _ ← call (k_sem_init 0 1)
  _ ← call k_sem_reset
  _ ← call k_sem_give
  _ ← call uart_callback_set
  pure tt

-- The statement of the loop that the thread runs next.
pub data Point : Type 0 where
  taking sending sleeping : Point

unfoldable pub thread_step : Point → App Point
thread_step taking = do _ ← call k_sem_take; pure sending
thread_step sending = do _ ← call (uart_tx tx_buf); pure sleeping
thread_step sleeping = do _ ← call (k_msleep 1000); pure taking

-- What the calls do to `tx_sem`.
unfoldable pub tx_sem : DmaTxCall → SemOp
tx_sem (k_sem_init n m) = sem_init n m
tx_sem k_sem_reset = sem_reset
tx_sem k_sem_give = sem_give
tx_sem k_sem_take = sem_take
tx_sem c = no_sem

-- `k_sem_take` waits until the semaphore counts.
unfoldable pub may_step : Point → Log DmaTxCall → Bool
may_step taking log = not (tokens tx_sem log == 0)
may_step p log = true

-- Whether the driver is sending.
unfoldable pub busy : Log DmaTxCall → Bool
busy [] = false
busy ((uart_tx bytes, r) ∷ log) = if is_zero r then true else busy log
busy ((reported uart_tx_done, r) ∷ log) = false
busy ((reported uart_tx_aborted, r) ∷ log) = false
busy ((c, r) ∷ log) = busy log

-- The end of a transmission is reported where there is one.
unfoldable pub may_report : UartEvent → Log DmaTxCall → Bool
may_report other_event log = true
may_report e log = busy log

pub data Turn : Type 0 where
  thread : Turn
  driver : UartEvent → Turn

pub record Config : Type 0 where
  pub point : Point
  pub log : Log DmaTxCall

unfoldable pub step : Env DmaTxCall → Turn → Config → Config
step env thread c =
    let (p, u, log') = thread_step c.point env tt c.log in
    if may_step c.point c.log then record { point = p; log = log' } else c
step env (driver e) c =
    let (u, v, log') = uart_cb e env tt ((reported e, pos 0) ∷ c.log) in
    if may_report e c.log then record { point = c.point; log = log' } else c

unfoldable pub run : Env DmaTxCall → List Turn → Config → Config
run env [] c = c
run env (t ∷ ts) c = run env ts (step env t c)

-- The program from its start on, by a schedule.
unfoldable pub main : Env DmaTxCall → List Turn → Config
main env ts = run env ts (record { point = taking; log = (start env tt []).2 })
