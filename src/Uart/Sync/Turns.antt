-- ===== src/Uart/Sync/Turns.antt =====
-- The thread and the interrupt of _04_sync_tx_with_semap take turns: an invariant of each step.
use zephyr_samples.Base.{
  ℕ, suc, ◌+◌, ◌≤◌, ◌≡◌, refl, ◌⊎◌, inl, inr, true, false, List, [], ◌∷◌, ◌++◌, Log, Env,
  if◌then◌else◌, arith,
}
use mathlib.Core.List.{append-nil}
use zephyr_samples.Uart.{
  UartCall, UartMsg, message, irq_update, irq_is_pending, irq_tx_enable, fill_ready, fill_bytes,
}
use zephyr_samples.Uart.Fill.{
  Counts, Same, Fills, transmitted, pending, text, copies, fill_ready-pending,
}
use zephyr_samples.Uart.Sync.{
  finish_sent, handle_irq, uart_cb, start, Point, taking, rewinding, enabling, sleeping, after,
  thread_step, limit, tokens, enabled, may_step, Turn, thread, interrupt, Config, step, run, main,
}

-- The transmissions begun.
abbrev pub starts : Log UartCall → ℕ
starts [] = 0
starts ((irq_tx_enable, r) ∷ log) = suc (starts log)
starts ((c, r) ∷ log) = starts log

-- The message is in the buffer, and the semaphore counts to 1.
abbrev pub Loaded : UartMsg → Log UartCall → Type 0
Loaded s log = Counts s × (1 ≤ s.tx_len) × (text s ≡ message) × (limit log ≡ 1)

-- The transmitter is free: whole messages are on the wire.
abbrev pub Free : ℕ → UartMsg → Log UartCall → Type 0
Free n s log =
    Loaded s log
    × (enabled log ≡ false)
    × (tokens log ≡ n)
    × (transmitted log ≡ copies (starts log) message)

-- A transmission is under way.
abbrev pub Busy : UartMsg → Log UartCall → Type 0
Busy s log =
    Loaded s log
    × (enabled log ≡ true)
    × (tokens log ≡ 0)
    × (1 ≤ s.tx_count)
    × (transmitted log ++ pending s ≡ copies (starts log) message)

abbrev pub Inv : Point → UartMsg → Log UartCall → Type 0
Inv taking s log = Free 1 s log ⊎ Busy s log
Inv rewinding s log = Free 0 s log
Inv enabling s log = Free 0 s log × (s.tx_count ≡ s.tx_len)
Inv sleeping s log = Free 1 s log ⊎ Busy s log

text-Same : (s s' : UartMsg) → Same s s' → text s' ≡ text s
text-Same s s' (eb, el) = rw (eb, el)

pending-full : (s : UartMsg) → s.tx_count ≡ s.tx_len → pending s ≡ text s
pending-full s full = rw full

Free-apart :
    (n : ℕ) (s : UartMsg) (log : Log UartCall)
    → n ≤ 1
    → Free n s log
    → (transmitted log ++ (if enabled log then pending s else []) ≡ copies (starts log) message)
      × (tokens log + (if enabled log then 1 else 0) ≤ 1)
Free-apart n s log le (h, e0, e1, e2) =
    (rw e0 (rw (append-nil (transmitted log)) e2), rw e0 (omega (arith, e1)))

Busy-apart :
    (s : UartMsg) (log : Log UartCall)
    → Busy s log
    → (transmitted log ++ (if enabled log then pending s else []) ≡ copies (starts log) message)
      × (tokens log + (if enabled log then 1 else 0) ≤ 1)
Busy-apart s log (h, e0, e1, one, e2) = (rw e0 e2, rw e0 (omega (arith, e1)))

-- What the invariant says of the wire, at each point.
Inv-apart :
    (p : Point) (s : UartMsg) (log : Log UartCall)
    → Inv p s log
    → (transmitted log ++ (if enabled log then pending s else []) ≡ copies (starts log) message)
      × (tokens log + (if enabled log then 1 else 0) ≤ 1)
Inv-apart taking s log (inl f) = Free-apart 1 s log (omega arith) f
Inv-apart taking s log (inr b) = Busy-apart s log b
Inv-apart rewinding s log f = Free-apart 0 s log (omega arith) f
Inv-apart enabling s log (f, full) = Free-apart 0 s log (omega arith) f
Inv-apart sleeping s log (inl f) = Free-apart 1 s log (omega arith) f
Inv-apart sleeping s log (inr b) = Busy-apart s log b

Inv-waits :
    (p : Point) (s : UartMsg) (log : Log UartCall)
    → p ≡ taking
    → Inv p s log
    → (tokens log ≡ 1) ⊎ ((enabled log ≡ true) × (1 ≤ s.tx_count))
Inv-waits taking s log e (inl (h, e0, e1, e2)) = inl e1
Inv-waits taking s log e (inr (h, e0, e1, one, e2)) = inr (e0, one)
Inv-waits rewinding s log e h = ground (arith, e)
Inv-waits enabling s log e h = ground (arith, e)
Inv-waits sleeping s log e h = ground (arith, e)

module _ (env : Env UartCall) (fills : Fills env) where
  fill_ready-quiet :
      (s : UartMsg) (log : Log UartCall)
      → let (_, s', log') = fill_ready env s log in
        (limit log' ≡ limit log)
        × (tokens log' ≡ tokens log)
        × (enabled log' ≡ enabled log)
        × (starts log' ≡ starts log)
  unfolding fill_ready fill_bytes
  fill_ready-quiet s log = ground arith

  fill_ready-Busy :
      (s : UartMsg) (log : Log UartCall)
      → Loaded s log
      → enabled log ≡ true
      → tokens log ≡ 0
      → transmitted log ++ pending s ≡ copies (starts log) message
      → let (_, s', log') = fill_ready env s log in
        Loaded s' log'
        × (enabled log' ≡ true)
        × (tokens log' ≡ 0)
        × (transmitted log' ++ pending s' ≡ copies (starts log') message)
  fill_ready-Busy s log (h, one, et, el) e0 e1 e2 =
      let (_, s', log') = fill_ready env s log in
      let (same, h', e) = fill_ready-pending env fills s log h in
      ground (arith, same, h', e, text-Same s s' same, fill_ready-quiet s log)

  uart_cb-Busy :
      (s : UartMsg) (log : Log UartCall)
      → Busy s log
      → let (_, s', log') = uart_cb env s log in Free 1 s' log' ⊎ Busy s' log'
  unfolding uart_cb handle_irq finish_sent
  uart_cb-Busy s log (h, e0, e1, one, e2) =
      let log1 = (irq_update, env.result log irq_update) ∷ log in
      let log2 = (irq_is_pending, env.result log1 irq_is_pending) ∷ log1 in
      let (_, s', log') = fill_ready env s log2 in
      ground (arith, fill_ready-Busy s log2 h e0 e1 e2, append-nil (transmitted log'))

  thread-Inv :
      (p : Point) (s : UartMsg) (log : Log UartCall)
      → Inv p s log
      → let c = step env thread (record { point = p; msg = s; log = log }) in
        Inv c.point c.msg c.log
  unfolding step thread_step may_step after
  thread-Inv taking s log (inl (h, e0, e1, e2)) = rw e1 (h, e0, omega (arith, e1), e2)
  thread-Inv taking s log (inr (h, e0, e1, one, e2)) = rw e1 (inr (h, e0, e1, one, e2))
  thread-Inv rewinding s log (((le, lt), one, et, el), e0, e1, e2) =
      ((((omega arith, lt), one, et, el), e0, e1, e2), refl)
  thread-Inv enabling s log (((counts, one, et, el), e0, e1, e2), full) =
      let e = pending-full s full in
      inr ((counts, one, et, el), refl, e1, omega (arith, full), rw (e, et, e2))
  thread-Inv sleeping s log (inl h) = inl h
  thread-Inv sleeping s log (inr h) = inr h

  interrupt-Inv :
      (p : Point) (s : UartMsg) (log : Log UartCall)
      → Inv p s log
      → let c = step env interrupt (record { point = p; msg = s; log = log }) in
        Inv c.point c.msg c.log
  unfolding step
  interrupt-Inv taking s log (inl f) = rw (f.1) (inl f)
  interrupt-Inv taking s log (inr f) = rw (f.1) (uart_cb-Busy s log f)
  interrupt-Inv rewinding s log f = rw (f.1) f
  interrupt-Inv enabling s log (f, full) = rw (f.1) (f, full)
  interrupt-Inv sleeping s log (inl f) = rw (f.1) (inl f)
  interrupt-Inv sleeping s log (inr f) = rw (f.1) (uart_cb-Busy s log f)

  run-Inv :
      (ts : List Turn) (c : Config)
      → Inv c.point c.msg c.log
      → let c' = run env ts c in Inv c'.point c'.msg c'.log
  unfolding run
  run-Inv [] c h = h
  run-Inv (thread ∷ ts) c h = run-Inv ts (step env thread c) (thread-Inv c.point c.msg c.log h)
  run-Inv (interrupt ∷ ts) c h =
      run-Inv ts (step env interrupt c) (interrupt-Inv c.point c.msg c.log h)

  main-Inv : (ts : List Turn) (s : UartMsg) → let c = main env ts s in Inv c.point c.msg c.log
  unfolding main start
  main-Inv ts s =
      let (_, s', log') = start env s [] in
      let counts : Counts s' = (omega arith, omega arith) in
      run-Inv ts (record { point = taking; msg = s'; log = log' })
        (inl ((counts, omega arith, refl, refl), refl, refl, refl))

  -- Where the FIFO takes no more than it is offered, every interleaving of the thread and the
  -- interrupt keeps the transmissions apart: what is on the wire, with what is still to be sent
  -- while the interrupt is enabled, is one whole copy of the message for each transmission begun.
  -- The semaphore counts only while none is under way.
  pub main-apart :
      (ts : List Turn) (s : UartMsg)
      → let c = main env ts s in
        (transmitted c.log ++ (if enabled c.log then pending c.msg else [])
          ≡ copies (starts c.log) message)
        × (tokens c.log + (if enabled c.log then 1 else 0) ≤ 1)
  main-apart ts s = let c = main env ts s in Inv-apart c.point c.msg c.log (main-Inv ts s)

  -- Where the FIFO takes no more than it is offered and the thread is about to take the semaphore,
  -- either the semaphore counts, or a transmission is under way with bytes to send and its interrupt
  -- enabled: the thread does not wait for a semaphore that nobody is to give.
  main-waits :
      (ts : List Turn) (s : UartMsg)
      → (main env ts s).point ≡ taking
      → let c = main env ts s in
        (tokens c.log ≡ 1) ⊎ ((enabled c.log ≡ true) × (1 ≤ c.msg.tx_count))
  main-waits ts s e = let c = main env ts s in Inv-waits c.point c.msg c.log e (main-Inv ts s)
