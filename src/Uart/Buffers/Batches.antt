-- ===== src/Uart/Buffers/Batches.antt =====
-- The batches of _09_tx_messages_net_buffers.
use zephyr_samples.Base.{
  ℕ, suc, ◌≤◌, ◌≡◌, refl, ◌∙◌, ◌⊎◌, inl, inr, length, false, List, [], ◌∷◌, ◌++◌, Log, Env, arith,
  tokens,
}
use mathlib.Core.List.{append_assoc, append-nil}
use zephyr_samples.Uart.Fill.{copies}
use zephyr_samples.Uart.Buffers.{
  BufCall, SerialTx, message1, message3, sem_op, Point, taking, filling1, filling2, filling3,
  queueing, starting, sleeping, Turn, Config, main,
}
use zephyr_samples.Uart.Buffers.Spec.{
  transmitted, queued, in_use, begun, Kernel, batch, Quiet, Sending, Between, free, first, second,
  third, Inv,
}
use zephyr_samples.Uart.Buffers.Steps.{main-Inv}

-- The messages of the buffers in a list.
abbrev pub contents : SerialTx → List ℕ → List ℕ
contents s [] = []
contents s (p ∷ ps) = s.memory p ++ contents s ps

-- What is to be sent of the batches begun: what the FIFO holds, or the batch that is prepared.
abbrev pub unsent_at : Point → SerialTx → Log BufCall → List ℕ
unsent_at taking s log = contents s (queued log)
unsent_at sleeping s log = contents s (queued log)
unsent_at p s log = batch

abbrev pub unsent : Config → List ℕ
unsent c = unsent_at c.point c.serial c.log

Between-batches :
    (s : SerialTx) (log : Log BufCall)
    → Between s log
    → (transmitted log ++ contents s (queued log) ≡ copies (begun log) batch)
      × (length (in_use log) ≤ 3)
      × ((tokens sem_op log ≡ 0) ⊎ (in_use log ≡ []))
      × (s.null_write ≡ false)
unfolding Quiet Sending
Between-batches s log (free (nw, el, eb, et, ei, ew) eq) =
    (rw eq (append-nil (transmitted log)) ∙ ew, rw ei (omega arith), inr ei, nw)
Between-batches s log (first p q hp hq ep eq (nw, el, eb, et, ei, es, (k, ek, ew))) = (
  rw (es, ew, ek, ep, eq, append-nil message3, append_assoc (copies k batch)) refl,
  rw ei (omega arith),
  inl et,
  nw,
)
Between-batches s log (second q hq eq (nw, el, eb, et, ei, es, (k, ek, ew))) = (
  rw (es, ew, ek, eq, append-nil message3, append_assoc (copies k batch), append_assoc message1)
      refl,
  rw ei (omega arith),
  inl et,
  nw,
)
Between-batches s log (third (nw, el, eb, et, ei, es, (k, ek, ew))) =
    (rw (es, ew, ek, append-nil (copies k batch ++ batch)) refl, rw ei (omega arith), inl et, nw)

Quiet-batches :
    (bs : List ℕ) (k : ℕ) (s : SerialTx) (log : Log BufCall)
    → begun log ≡ suc k
    → length bs ≤ 3
    → Quiet 0 bs k s log
    → (transmitted log ++ batch ≡ copies (begun log) batch)
      × (length (in_use log) ≤ 3)
      × ((tokens sem_op log ≡ 0) ⊎ (in_use log ≡ []))
      × (s.null_write ≡ false)
unfolding Quiet
Quiet-batches bs k s log ek le (nw, el, eb, et, ei, ew) = (rw (ek, ew) refl, rw ei le, inl et, nw)

Inv-batches :
    (p : Point) (s : SerialTx) (log : Log BufCall)
    → Inv p s log
    → (transmitted log ++ unsent_at p s log ≡ copies (begun log) batch)
      × (length (in_use log) ≤ 3)
      × ((tokens sem_op log ≡ 0) ⊎ (in_use log ≡ []))
      × (s.null_write ≡ false)
unfolding Inv
Inv-batches taking s log h = Between-batches s log h
Inv-batches sleeping s log h = Between-batches s log h
Inv-batches filling1 s log (k, ek, q, h) = Quiet-batches [] k s log ek (omega arith) q
Inv-batches filling2 s log (k, ek, q, h, b) =
    Quiet-batches (s.tx_buf1 ∷ []) k s log ek (omega arith) q
Inv-batches filling3 s log (k, ek, q, h, b1, b2) =
    Quiet-batches (s.tx_buf1 ∷ s.tx_buf2 ∷ []) k s log ek (omega arith) q
Inv-batches queueing s log (k, ek, q, h, b1, b2, b3) =
    Quiet-batches (s.tx_buf1 ∷ s.tx_buf2 ∷ s.tx_buf3 ∷ []) k s log ek (omega arith) q
Inv-batches starting s log (k, ek, q, h, b1, b2, b3) =
    Quiet-batches (s.tx_buf1 ∷ s.tx_buf2 ∷ s.tx_buf3 ∷ []) k s log ek (omega arith) q

module _ (env : Env BufCall) (kernel : Kernel env) where
  -- Where the pool, the FIFO and the driver do as documented, every interleaving of the thread and the callback
  -- keeps the order of the messages: what is on the wire, followed by what the FIFO still holds
  -- between two batches, is one whole batch of the three messages for each batch begun. At most
  -- three buffers are given out, each one given out is back in the pool, by its address, when the
  -- semaphore counts, and none is NULL.
  pub main-batches :
      (ts : List Turn) (s : SerialTx)
      → s.null_write ≡ false
      → let c = main env ts s in
        (transmitted c.log ++ unsent c ≡ copies (begun c.log) batch)
        × (length (in_use c.log) ≤ 3)
        × ((tokens sem_op c.log ≡ 0) ⊎ (in_use c.log ≡ []))
        × (c.serial.null_write ≡ false)
  main-batches ts s nw =
      let c = main env ts s in Inv-batches c.point c.serial c.log (main-Inv env kernel ts s nw)
