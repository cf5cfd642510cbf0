-- ===== src/Uart/Buffers/Steps.antt =====
-- The steps of the thread and of the callback of _09_tx_messages_net_buffers.
use zephyr_samples.Base.{
  ℕ, ◌≤◌, ◌≡◌, refl, ◌∙◌, ◌⊎◌, inl, inr, Bool, true, false, ◌||◌, List, [], ◌∷◌, ◌++◌, ap, Log, Env,
  to_ℕ, is_zero, if◌then◌else◌, ◌==◌, arith, Bool-cases,
}
use mathlib.Core.List.{append_assoc}
use zephyr_samples.Uart.Fill.{copies}
use zephyr_samples.Kernel.HeapQueue.Order.{remove}
use zephyr_samples.Uart.Buffers.{
  BufCall, SerialTx, uart_tx, net_buf_alloc, net_buf_unref, k_fifo_get, message1, message2,
  message3, busy, Event, tx_done, tx_aborted, other, send_ref, send_next, uart_cb, start, Point,
  taking, filling1, filling2, filling3, queueing, starting, sleeping, after, thread_step, may_step,
  may_arrive, Turn, thread, interrupt, Config, step, run, main,
}
use zephyr_samples.Uart.Buffers.Spec.{
  queued, in_use, held, begun, Kernel, batch, Quiet, Filled, Sending, Between, free, first, second,
  third, Inv,
}

-- A filled buffer stays filled when another one, `q`, is given out and filled.
Filled-kept :
    (p q : ℕ) (bytes bytes' : List ℕ) (s : SerialTx) (log : Log BufCall)
    → Filled p bytes s log
    → held q log ≡ false
    → (1 ≤ p)
      × ((if q == p then true else held p log) ≡ true)
      × ((if p == q then bytes' else s.memory p) ≡ bytes)
unfolding Filled
Filled-kept p q bytes bytes' s log (le, h, e) h' = ground (arith, h, h', e)

Filled-new :
    (q : ℕ) (bytes old : List ℕ) (h : Bool)
    → 1 ≤ q
    → (1 ≤ q) × ((if q == q then true else h) ≡ true) × ((if q == q then bytes else old) ≡ bytes)
Filled-new q bytes old h le = ground arith

not_null : (b : Bool) (q : ℕ) → b ≡ false → 1 ≤ q → (b || q == 0) ≡ false
not_null b q e le = ground arith

alloc-in_use :
    (p : ℕ) (bs us : List ℕ)
    → 1 ≤ p
    → us ≡ bs
    → (if p == 0 then us else us ++ p ∷ []) ≡ bs ++ p ∷ []
alloc-in_use p bs us le e = rw (not_null false p refl le) (ap (λ l. l ++ p ∷ []) e)

remove-head : (r : ℕ) (ps us : List ℕ) → us ≡ r ∷ ps → remove r us ≡ ps
unfolding remove
remove-head r ps us e = rw e (ground arith)

Between-Inv :
    (c : Config)
    → (c.point ≡ taking) ⊎ (c.point ≡ sleeping)
    → Between c.serial c.log
    → Inv c.point c.serial c.log
unfolding Inv
Between-Inv c (inl e) h = rw e h
Between-Inv c (inr e) h = rw e h

module _ (env : Env BufCall) (kernel : Kernel env) where
  thread-Inv :
      (p : Point) (s : SerialTx) (log : Log BufCall)
      → Inv p s log
      → let c = step env thread (record { point = p; serial = s; log = log }) in
        Inv c.point c.serial c.log
  unfolding step thread_step may_step after Inv Quiet Sending Filled send_ref Kernel
  thread-Inv taking s log (free (nw, el, eb, et, ei, ew) eq) =
      rw et (begun log, refl, (nw, el, eb, omega (arith, et), ei, ew), eq)
  thread-Inv taking s log (first p q hp hq ep eq h) = rw (h.3) (first p q hp hq ep eq h)
  thread-Inv taking s log (second q hq eq h) = rw (h.3) (second q hq eq h)
  thread-Inv taking s log (third h) = rw (h.3) (third h)
  thread-Inv filling1 s log (k, ek, (nw, el, eb, et, ei, ew), eq) =
      let (pool, fifo, tx) = kernel log in
      let (hp, hh) = pool (rw ei (omega arith)) in
      let p = to_ℕ (env.result log net_buf_alloc) in
      (
        k,
        ek,
        (not_null s.null_write p nw hp, el, eb, et, alloc-in_use p [] (in_use log) hp ei, ew),
        eq,
        Filled-new p message1 (s.memory p) (held p log) hp,
      )
  thread-Inv filling2 s log (k, ek, (nw, el, eb, et, ei, ew), eq, b1) =
      let (pool, fifo, tx) = kernel log in
      let (hp, hh) = pool (rw ei (omega arith)) in
      let p = to_ℕ (env.result log net_buf_alloc) in
      (
        k,
        ek,
        (
          not_null s.null_write p nw hp,
          el,
          eb,
          et,
          alloc-in_use p (s.tx_buf1 ∷ []) (in_use log) hp ei,
          ew,
        ),
        eq,
        Filled-kept s.tx_buf1 p message1 message2 s log b1 hh,
        Filled-new p message2 (s.memory p) (held p log) hp,
      )
  thread-Inv filling3 s log (k, ek, (nw, el, eb, et, ei, ew), eq, b1, b2) =
      let (pool, fifo, tx) = kernel log in
      let (hp, hh) = pool (rw ei (omega arith)) in
      let p = to_ℕ (env.result log net_buf_alloc) in
      (
        k,
        ek,
        (
          not_null s.null_write p nw hp,
          el,
          eb,
          et,
          alloc-in_use p (s.tx_buf1 ∷ s.tx_buf2 ∷ []) (in_use log) hp ei,
          ew,
        ),
        eq,
        Filled-kept s.tx_buf1 p message1 message3 s log b1 hh,
        Filled-kept s.tx_buf2 p message2 message3 s log b2 hh,
        Filled-new p message3 (s.memory p) (held p log) hp,
      )
  thread-Inv queueing s log (k, ek, q, eq, b1, b2, b3) = (k, ek, q, rw eq refl, b1, b2, b3)
  thread-Inv starting s log
        (k, ek, (nw, el, eb, et, ei, ew), eq, (h1, _, e1), (h2, _, e2), (h3, _, e3)) =
      let ok = (kernel log).2 (s.memory s.tx_buf1) eb in
      first s.tx_buf2 s.tx_buf3 h2 h3 e2 e3
        (nw, el, rw ok refl, et, ei, eq, (k, ek, rw (ok, ew, e1)))
  thread-Inv sleeping s log (free q eq) = free q eq
  thread-Inv sleeping s log (first p q hp hq ep eq h) = first p q hp hq ep eq h
  thread-Inv sleeping s log (second q hq eq h) = second q hq eq h
  thread-Inv sleeping s log (third h) = third h

  next_buffer :
      (log : Log BufCall) (p : ℕ) (ps : List ℕ)
      → queued log ≡ p ∷ ps
      → to_ℕ (env.result log k_fifo_get) ≡ p
  unfolding Kernel
  next_buffer log p ps e = (kernel log).1 ∙ rw e refl

  takes :
      (log : Log BufCall) (bytes : List ℕ)
      → busy log ≡ false
      → is_zero (env.result log (uart_tx bytes)) ≡ true
  unfolding Kernel
  takes log bytes quiet = (kernel log).2 bytes quiet

  no_buffer : (log : Log BufCall) → queued log ≡ [] → to_ℕ (env.result log k_fifo_get) ≡ 0
  unfolding Kernel
  no_buffer log e = (kernel log).1 ∙ rw e refl

  -- The end of a transmission starts the next one, or frees the semaphore after the third.
  tx_done-Between :
      (at : Point) (s : SerialTx) (log : Log BufCall)
      → Between s log
      → let c = step env (interrupt tx_done) (record { point = at; serial = s; log = log }) in
        Between c.serial c.log
  unfolding step may_arrive uart_cb send_next send_ref Quiet Sending
  tx_done-Between at s log (free q eq) = rw (q.2) (free q eq)
  tx_done-Between at s log (first p q hp hq ep eq (nw, el, eb, et, ei, es, (k, ek, ew))) =
      let log1 = (net_buf_unref s.ref_buff, env.result log (net_buf_unref s.ref_buff)) ∷ log in
      let e = next_buffer log1 p (q ∷ []) es in
      let log2 = (k_fifo_get, env.result log1 k_fifo_get) ∷ log1 in
      let nz = not_null false p refl hp in
      let ok = takes log2 (s.memory p) refl in
      rw (eb, e, nz)
        (second q hq eq (
          nw,
          el,
          rw ok refl,
          et,
          remove-head s.ref_buff (p ∷ q ∷ []) (in_use log) ei,
          rw es refl,
          (k, ek, rw (ok, ew, ep, append_assoc (copies k batch)) refl),
        ))
  tx_done-Between at s log (second q hq eq (nw, el, eb, et, ei, es, (k, ek, ew))) =
      let log1 = (net_buf_unref s.ref_buff, env.result log (net_buf_unref s.ref_buff)) ∷ log in
      let e = next_buffer log1 q [] es in
      let log2 = (k_fifo_get, env.result log1 k_fifo_get) ∷ log1 in
      let nz = not_null false q refl hq in
      let ok = takes log2 (s.memory q) refl in
      rw (eb, e, nz)
        (third (
          nw,
          el,
          rw ok refl,
          et,
          remove-head s.ref_buff (q ∷ []) (in_use log) ei,
          rw es refl,
          (k, ek, rw (ok, ew, eq, append_assoc (copies k batch), append_assoc message1) refl),
        ))
  tx_done-Between at s log (third (nw, el, eb, et, ei, es, (k, ek, ew))) =
      let log1 = (net_buf_unref s.ref_buff, env.result log (net_buf_unref s.ref_buff)) ∷ log in
      let e = no_buffer log1 es in
      rw (eb, e)
        (free
          (
            nw,
            el,
            refl,
            rw (el, et) refl,
            remove-head s.ref_buff [] (in_use log) ei,
            rw (ek, ew) refl,
          )
          (rw es refl))

  interrupt-point : (c : Config) → (step env (interrupt tx_done) c).point ≡ c.point
  unfolding step may_arrive
  interrupt-point c = elim (Bool-cases (busy c.log)) [ inl e ↦ rw e refl | inr e ↦ rw e refl ]

  interrupt-Inv :
      (e : Event) (p : Point) (s : SerialTx) (log : Log BufCall)
      → Inv p s log
      → let c = step env (interrupt e) (record { point = p; serial = s; log = log }) in
        Inv c.point c.serial c.log
  unfolding step may_arrive uart_cb Inv Quiet
  interrupt-Inv tx_aborted p s log h = h
  interrupt-Inv other p s log h = h
  interrupt-Inv tx_done taking s log h =
      let c : Config = record { point = taking; serial = s; log = log } in
      Between-Inv (step env (interrupt tx_done) c) (inl (interrupt-point c))
        (tx_done-Between taking s log h)
  interrupt-Inv tx_done sleeping s log h =
      let c : Config = record { point = sleeping; serial = s; log = log } in
      Between-Inv (step env (interrupt tx_done) c) (inr (interrupt-point c))
        (tx_done-Between sleeping s log h)
  interrupt-Inv tx_done filling1 s log (k, ek, q, h) = rw (q.2) (k, ek, q, h)
  interrupt-Inv tx_done filling2 s log (k, ek, q, h, b) = rw (q.2) (k, ek, q, h, b)
  interrupt-Inv tx_done filling3 s log (k, ek, q, h, b1, b2) = rw (q.2) (k, ek, q, h, b1, b2)
  interrupt-Inv tx_done queueing s log (k, ek, q, h, b1, b2, b3) =
      rw (q.2) (k, ek, q, h, b1, b2, b3)
  interrupt-Inv tx_done starting s log (k, ek, q, h, b1, b2, b3) =
      rw (q.2) (k, ek, q, h, b1, b2, b3)

  run-Inv :
      (ts : List Turn) (c : Config)
      → Inv c.point c.serial c.log
      → let c' = run env ts c in Inv c'.point c'.serial c'.log
  unfolding run
  run-Inv [] c h = h
  run-Inv (thread ∷ ts) c h = run-Inv ts (step env thread c) (thread-Inv c.point c.serial c.log h)
  run-Inv (interrupt e ∷ ts) c h =
      run-Inv ts (step env (interrupt e) c) (interrupt-Inv e c.point c.serial c.log h)

  pub main-Inv :
      (ts : List Turn) (s : SerialTx)
      → s.null_write ≡ false
      → let c = main env ts s in Inv c.point c.serial c.log
  unfolding main start Inv Quiet
  main-Inv ts s nw =
      let (_, s', log') = start env s [] in
      run-Inv ts (record { point = taking; serial = s'; log = log' })
        (free (nw, refl, refl, refl, refl, refl) refl)
