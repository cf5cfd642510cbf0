-- ===== src/Uart/DmaTx/Turns.antt =====
-- The thread and the driver of _07_tx_messages_with_dma take turns: one token, held by one of them.
use zephyr_samples.Base.{
  ℕ, suc, pos, ◌+◌, ◌≡◌, refl, Bool, true, false, not, List, [], ◌∷◌, Log, Env, if◌then◌else◌,
  is_zero, arith,
}
use zephyr_samples.Base.{tokens, limit}
use zephyr_samples.Uart.DmaTx.{
  UartEvent, uart_tx_done, uart_tx_aborted, other_event, DmaTxCall, uart_tx, reported, tx_buf,
  uart_cb, start, Point, taking, sending, sleeping, thread_step, tx_sem, may_step, busy, may_report,
  Turn, thread, driver, Config, step, run, main,
}

-- The transmissions that the driver has refused, and those that it has reported as aborted.
abbrev pub refused : Log DmaTxCall → ℕ
refused [] = 0
refused ((uart_tx bytes, r) ∷ log) = if is_zero r then refused log else suc (refused log)
refused ((c, r) ∷ log) = refused log

abbrev pub aborted : Log DmaTxCall → ℕ
aborted [] = 0
aborted ((reported uart_tx_aborted, r) ∷ log) = suc (aborted log)
aborted ((c, r) ∷ log) = aborted log

-- The driver refuses a transmission where another is under way, and no other.
unfoldable pub Driver : Env DmaTxCall → Type 0
Driver env =
    (log : Log DmaTxCall) (bytes : List ℕ)
    → is_zero (env.result log (uart_tx bytes)) ≡ not (busy log)

abbrev pub holding : Point → ℕ
holding sending = 1
holding p = 0

abbrev pub under_way : Bool → ℕ
under_way true = 1
under_way false = 0

abbrev pub Inv : Point → Log DmaTxCall → Type 0
Inv p log =
    (refused log ≡ 0)
    × (((tokens tx_sem log + under_way (busy log)) + holding p) + aborted log ≡ 1)
    × (limit tx_sem log ≡ 1)

-- Whether the thread may step, the driver may report, and what it returned, as a Boolean.
stays :
    (b : Bool) (c d : Config)
    → Inv c.point c.log
    → (b ≡ true → Inv d.point d.log)
    → let k = if b then d else c in Inv k.point k.log
stays true c d h k = k refl
stays false c d h k = h

accepted :
    (free now : Bool) (tokens aborted : ℕ)
    → free ≡ not now
    → ((tokens + under_way now) + 1) + aborted ≡ 1
    → free ≡ true
accepted free true t a e h = ground (arith, h)
accepted free false t a e h = e

was_under_way :
    (now : Bool) (tokens held aborted : ℕ)
    → now ≡ true
    → ((tokens + under_way now) + held) + aborted ≡ 1
    → ((tokens + 1) + held) + aborted ≡ 1
was_under_way true t k a e h = h
was_under_way false t k a e h = ground (arith, e)

module _ (env : Env DmaTxCall) (drv : Driver env) where
  thread-Inv :
      (p : Point) (log : Log DmaTxCall)
      → Inv p log
      → may_step p log ≡ true
      → let (q, u, log') = thread_step p env tt log in Inv q log'
  unfolding thread_step may_step tx_sem busy Driver
  thread-Inv taking log (none, one, lim) m = (none, ground (arith, one, m), lim)
  thread-Inv sending log (none, one, lim) m =
      let ok : is_zero (env.result log (uart_tx tx_buf)) ≡ true =
        accepted (is_zero (env.result log (uart_tx tx_buf))) (busy log) (tokens tx_sem log)
          (aborted log) (drv log tx_buf) one in
      rw ok (none, ground (arith, one), lim)
  thread-Inv sleeping log (none, one, lim) m = (none, one, lim)

  driver-Inv :
      (e : UartEvent) (p : Point) (log : Log DmaTxCall)
      → Inv p log
      → may_report e log ≡ true
      → let (u, v, log') = uart_cb e env tt ((reported e, pos 0) ∷ log) in Inv p log'
  unfolding uart_cb may_report tx_sem busy
  driver-Inv uart_tx_done p log (none, one, lim) m =
      let sent : ((tokens tx_sem log + 1) + holding p) + aborted log ≡ 1 =
        was_under_way (busy log) (tokens tx_sem log) (holding p) (aborted log) m one in
      (none, ground (arith, sent, lim), lim)
  driver-Inv uart_tx_aborted p log (none, one, lim) m =
      let sent : ((tokens tx_sem log + 1) + holding p) + aborted log ≡ 1 =
        was_under_way (busy log) (tokens tx_sem log) (holding p) (aborted log) m one in
      (none, ground (arith, sent), lim)
  driver-Inv other_event p log h m = h

  step-Inv : (t : Turn) (c : Config) → Inv c.point c.log → let d = step env t c in Inv d.point d.log
  unfolding step
  step-Inv thread c h =
      let (p, u, log') = thread_step c.point env tt c.log in
      stays (may_step c.point c.log) c (record { point = p; log = log' }) h
        (λ m. thread-Inv c.point c.log h m)
  step-Inv (driver e) c h =
      let (u, v, log') = uart_cb e env tt ((reported e, pos 0) ∷ c.log) in
      stays (may_report e c.log) c (record { point = c.point; log = log' }) h
        (λ m. driver-Inv e c.point c.log h m)

  run-Inv :
      (ts : List Turn) (c : Config) → Inv c.point c.log → let d = run env ts c in Inv d.point d.log
  unfolding run
  run-Inv [] c h = h
  run-Inv (t ∷ ts) c h = run-Inv ts (step env t c) (step-Inv t c h)

  -- By every schedule, with a driver that refuses a transmission only where another is under way: it
  -- refuses none. Of the semaphore's token, the transmission under way, the thread between its take and
  -- its call, and an aborted transmission, there is exactly one: an abort gives no token
  -- back, and leaves none of the others.
  pub main-one_holder :
      (schedule : List Turn)
      → let c = main env schedule in
        (refused c.log ≡ 0)
        × (((tokens tx_sem c.log + under_way (busy c.log)) + holding c.point) + aborted c.log ≡ 1)
  unfolding main start tx_sem busy
  main-one_holder schedule =
      let c : Config = record { point = taking; log = (start env tt []).2 } in
      let (none, one, lim) = run-Inv schedule c (refl, refl, refl) in (none, one)
