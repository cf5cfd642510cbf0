-- ===== src/Uart/Tx/Whole.antt =====
-- The transmission with interrupts of _03_tx_one_message_interrupts: what goes over the wire.
use zephyr_samples.Base.{
  ℕ, zero, suc, ◌-◌, ◌≤◌, ◌≡◌, sym, List, [], ◌∷◌, ◌++◌, Log, Env, length, arith,
}
use mathlib.Core.List.{append_assoc, append-nil}
use zephyr_samples.Uart.{
  UartCall, UartMsg, message, irq_update, irq_is_pending, irq_tx_enable, k_msleep,
  irq_callback_user_data_set, load_message, fill_ready,
}
use zephyr_samples.Uart.Fill.{
  Counts, Serves, fill_ready-count, Same, Fills, transmitted, pending, copies, copies_comm, text,
  fill_ready-pending,
}
use zephyr_samples.Uart.Tx.{
  disable_sent, handle_irq, uart_cb, interrupts, send_round, send_rounds, main,
}

-- Each round has as many interrupts as the message has bytes, at the least.
abbrev pub Enough : ℕ → List ℕ → Type 0
Enough k [] = Unit {0}
Enough k (n ∷ ns) = (k ≤ n) × Enough k ns

text-Same : (s s' : UartMsg) → s'.tx_buf ≡ s.tx_buf → s'.tx_len ≡ s.tx_len → text s' ≡ text s
text-Same s s' eb el = rw (eb, el)

module _ (env : Env UartCall) (fills : Fills env) where
  uart_cb-pending :
      (s : UartMsg) (log : Log UartCall)
      → Counts s
      → let (_, s', log') = uart_cb env s log in
        Same s s' × Counts s' × (transmitted log' ++ pending s' ≡ transmitted log ++ pending s)
  unfolding uart_cb handle_irq disable_sent
  uart_cb-pending s log h =
      let log1 = (irq_update, env.result log irq_update) ∷ log in
      let log2 = (irq_is_pending, env.result log1 irq_is_pending) ∷ log1 in
      let (_, s', log') = fill_ready env s log2 in
      ground (arith, fill_ready-pending env fills s log2 h)

  -- Where the FIFO takes no more than it is offered and the counters start inside a byte, any number
  -- of interrupts keeps the message and the bounds of its counters, and what went over the wire followed by what is still to be sent
  -- stays the same text.
  pub interrupts-pending :
      (n : ℕ) (s : UartMsg) (log : Log UartCall)
      → Counts s
      → let (_, s', log') = interrupts n env s log in
        Same s s' × Counts s' × (transmitted log' ++ pending s' ≡ transmitted log ++ pending s)
  unfolding interrupts
  interrupts-pending zero s log h = ground (arith, h)
  interrupts-pending (suc n) s log h =
      let (_, s', log') = uart_cb env s log in
      let (e, h', e') = uart_cb-pending s log h in
      ground (arith, e, e', interrupts-pending n s' log' h')

  uart_cb-count :
      Serves env
      → (s : UartMsg) (log : Log UartCall) → Counts s
      → (uart_cb env s log).1.tx_count ≤ s.tx_count - 1
  unfolding uart_cb handle_irq disable_sent Serves
  uart_cb-count serves s log h =
      let log1 = (irq_update, env.result log irq_update) ∷ log in
      let log2 = (irq_is_pending, env.result log1 irq_is_pending) ∷ log1 in
      let (_, s', log') = fill_ready env s log2 in
      let (updated, _, _, _) = serves log in
      let (_, is_pending, _, _) = serves log1 in
      ground (arith, updated, is_pending, fill_ready-count env fills serves s log2 h)

  interrupts-count :
      Serves env
      → (n : ℕ) (s : UartMsg) (log : Log UartCall) → Counts s
      → (interrupts n env s log).1.tx_count ≤ s.tx_count - n
  unfolding interrupts
  interrupts-count serves zero s log h = ground arith
  interrupts-count serves (suc n) s log h =
      let (_, s', log') = uart_cb env s log in
      let (_, h', _) = uart_cb-pending s log h in
      let le = uart_cb-count serves s log h in
      let le' = interrupts-count serves n s' log' h' in omega (arith, le, le')

  -- Where the transmitter is ready at each interrupt, takes at least one byte and no more than it is
  -- offered, as many interrupts as bytes are to be sent send them all, in their order.
  pub interrupts-transmitted :
      Serves env
      → (n : ℕ) (s : UartMsg) (log : Log UartCall) → Counts s
      → s.tx_count ≤ n
      → let (_, s', log') = interrupts n env s log in
        (s'.tx_count ≡ 0) × (transmitted log' ≡ transmitted log ++ pending s)
  interrupts-transmitted serves n s log h le =
      let (_, s', log') = interrupts n env s log in
      let le' = interrupts-count serves n s log h in
      let (_, _, e) = interrupts-pending n s log h in
      ground (arith, le', e, append-nil (transmitted log'))

  send_round-transmitted :
      Serves env
      → (n : ℕ) (s : UartMsg) (log : Log UartCall) → Counts s
      → s.tx_len ≤ n
      → let (_, s', log') = send_round n env s log in
        Same s s' × Counts s' × (transmitted log' ≡ transmitted log ++ text s)
  unfolding send_round
  send_round-transmitted serves n s log (le, lt) enough =
      let s1 = record s { tx_count = s.tx_len } in
      let log1 = (irq_tx_enable, env.result log irq_tx_enable) ∷ log in
      let log2 = (k_msleep 1000, env.result log1 (k_msleep 1000)) ∷ log1 in
      let (same, h, _) = interrupts-pending n s1 log2 (omega arith, lt) in
      let (_, e) = interrupts-transmitted serves n s1 log2 (omega arith, lt) enough in (same, h, e)

  send_rounds-transmitted :
      Serves env
      → (ns : List ℕ) (s : UartMsg) (log : Log UartCall) → Counts s
      → Enough s.tx_len ns
      → let (_, s', log') = send_rounds ns env s log in
        transmitted log' ≡ transmitted log ++ copies (length ns) (text s)
  unfolding send_rounds
  send_rounds-transmitted serves [] s log h enough = sym (append-nil (transmitted log))
  send_rounds-transmitted serves (n ∷ ns) s log h (le, enough) =
      let (_, s', log') = send_round n env s log in
      let ((eb, el), h', e) = send_round-transmitted serves n s log h le in
      let ih = send_rounds-transmitted serves ns s' log' h' (rw el enough) in
      let same_text = text-Same s s' eb el in
      ground (
        arith,
        ih,
        e,
        same_text,
        append_assoc (transmitted log) (text s) (copies (length ns) (text s)),
        copies_comm (length ns) (text s),
      )

  -- Where the FIFO is ready at each interrupt and takes at least one byte, and no more than it is
  -- offered, and where the sleep of each round has an interrupt for each byte
  -- of the message, the program puts on the wire the message once for each round, and nothing else,
  -- whatever stood in the buffer at the start.
  pub main-transmitted :
      Serves env
      → (ns : List ℕ) (s : UartMsg) → Enough (length message) ns
      → transmitted (main ns env s []).2 ≡ copies (length ns) message
  unfolding main
  main-transmitted serves ns s enough =
      let s1 = (load_message env s []).1 in
      let counts : Counts s1 = (omega arith, omega arith) in
      let log1 = (irq_callback_user_data_set, env.result [] irq_callback_user_data_set) ∷ [] in
      send_rounds-transmitted serves ns s1 log1 counts enough
