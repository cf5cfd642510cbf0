-- ===== src/Uart/Buffers/Spec.antt =====
-- What a log of _09_tx_messages_net_buffers says of the wire, the pool and the FIFO, and the
-- invariant of the program.
use zephyr_samples.Base.{
  ℕ, suc, ◌≤◌, ◌<◌, ◌≡◌, Bool, true, false, List, [], ◌∷◌, ◌++◌, Log, Env, to_ℕ, is_zero, length,
  if◌then◌else◌, ◌==◌, limit, tokens,
}
use zephyr_samples.Uart.Fill.{copies}
use zephyr_samples.Kernel.HeapQueue.Order.{remove}
use zephyr_samples.Uart.Buffers.{
  BufCall, SerialTx, net_buf_alloc, net_buf_unref, k_fifo_put, k_fifo_get, k_sem_take, uart_tx,
  message1, message2, message3, sem_op, busy, Point, taking, filling1, filling2, filling3, queueing,
  starting, sleeping,
}

-- The bytes that the driver took, in order.
abbrev pub transmitted : Log BufCall → List ℕ
transmitted [] = []
transmitted ((uart_tx bytes, r) ∷ log) =
    if is_zero r then transmitted log ++ bytes else transmitted log
transmitted ((c, r) ∷ log) = transmitted log

-- The buffers in the FIFO, the next one first.
abbrev pub queued : Log BufCall → List ℕ
queued [] = []
queued ((k_fifo_put p, r) ∷ log) = queued log ++ p ∷ []
queued ((k_fifo_get, r) ∷ log) = elim (queued log) [ [] ↦ [] | p ∷ ps ↦ ps ]
queued ((c, r) ∷ log) = queued log

-- The buffers of the pool that are given out, the oldest first; each goes back by its address.
abbrev pub in_use : Log BufCall → List ℕ
in_use [] = []
in_use ((net_buf_alloc, r) ∷ log) = if to_ℕ r == 0 then in_use log else in_use log ++ to_ℕ r ∷ []
in_use ((net_buf_unref p, r) ∷ log) = remove p (in_use log)
in_use ((c, r) ∷ log) = in_use log

abbrev pub held : ℕ → Log BufCall → Bool
held p [] = false
held p ((net_buf_alloc, r) ∷ log) = if to_ℕ r == p then true else held p log
held p ((net_buf_unref q, r) ∷ log) = if q == p then false else held p log
held p ((c, r) ∷ log) = held p log

-- The batches begun.
abbrev pub begun : Log BufCall → ℕ
begun [] = 0
begun ((k_sem_take, r) ∷ log) = suc (begun log)
begun ((c, r) ∷ log) = begun log

-- The pool gives a buffer that is not given out, while it has one; the FIFO gives the buffer that
-- was put first, and NULL where it is empty; and the driver takes a message where it is sending none.
unfoldable pub Kernel : Env BufCall → Type 0
Kernel env =
    (log : Log BufCall)
    → (length (in_use log) < 3
        → let p = to_ℕ (env.result log net_buf_alloc) in (1 ≤ p) × (held p log ≡ false))
      × (to_ℕ (env.result log k_fifo_get) ≡ elim (queued log) [ [] ↦ 0 | p ∷ ps ↦ p ])
      × ((bytes : List ℕ) → busy log ≡ false → is_zero (env.result log (uart_tx bytes)) ≡ true)

abbrev pub batch : List ℕ
batch = message1 ++ (message2 ++ message3)

-- Nothing is sent: `k` batches are on the wire, and the buffers `bs` are given out.
unfoldable pub Quiet : ℕ → List ℕ → ℕ → SerialTx → Log BufCall → Type 0
Quiet t bs k s log =
    (s.null_write ≡ false)
    × (limit sem_op log ≡ 1)
    × (busy log ≡ false)
    × (tokens sem_op log ≡ t)
    × (in_use log ≡ bs)
    × (transmitted log ≡ copies k batch)

-- A buffer that is given out with its message.
unfoldable pub Filled : ℕ → List ℕ → SerialTx → Log BufCall → Type 0
Filled p bytes s log = (1 ≤ p) × (held p log ≡ true) × (s.memory p ≡ bytes)

-- A message is on its way from the buffer referred to, and the buffers of `ps` follow.
unfoldable pub Sending : List ℕ → List ℕ → SerialTx → Log BufCall → Type 0
Sending ps sent s log =
    (s.null_write ≡ false)
    × (limit sem_op log ≡ 1)
    × (busy log ≡ true)
    × (tokens sem_op log ≡ 0)
    × (in_use log ≡ s.ref_buff ∷ ps)
    × (queued log ≡ ps)
    × ((k : ℕ) × (begun log ≡ suc k) × (transmitted log ≡ copies k batch ++ sent))

-- Between two batches: free, or with the first, second or third message on its way.
pub data Between (s : SerialTx) (log : Log BufCall) : Type 0 where
  free : Quiet 1 [] (begun log) s log → queued log ≡ [] → Between s log
  first :
      (p q : ℕ)
      → 1 ≤ p
      → 1 ≤ q
      → s.memory p ≡ message2
      → s.memory q ≡ message3
      → Sending (p ∷ q ∷ []) message1 s log
      → Between s log
  second :
      (q : ℕ)
      → 1 ≤ q
      → s.memory q ≡ message3
      → Sending (q ∷ []) (message1 ++ message2) s log
      → Between s log
  third : Sending [] batch s log → Between s log

unfoldable pub Inv : Point → SerialTx → Log BufCall → Type 0
Inv taking s log = Between s log
Inv sleeping s log = Between s log
Inv filling1 s log = (k : ℕ) × (begun log ≡ suc k) × Quiet 0 [] k s log × (queued log ≡ [])
Inv filling2 s log =
    (k : ℕ) × (begun log ≡ suc k)
    × Quiet 0 (s.tx_buf1 ∷ []) k s log
    × (queued log ≡ [])
    × Filled s.tx_buf1 message1 s log
Inv filling3 s log =
    (k : ℕ) × (begun log ≡ suc k)
    × Quiet 0 (s.tx_buf1 ∷ s.tx_buf2 ∷ []) k s log
    × (queued log ≡ [])
    × Filled s.tx_buf1 message1 s log
    × Filled s.tx_buf2 message2 s log
Inv queueing s log =
    (k : ℕ) × (begun log ≡ suc k)
    × Quiet 0 (s.tx_buf1 ∷ s.tx_buf2 ∷ s.tx_buf3 ∷ []) k s log
    × (queued log ≡ [])
    × Filled s.tx_buf1 message1 s log
    × Filled s.tx_buf2 message2 s log
    × Filled s.tx_buf3 message3 s log
Inv starting s log =
    (k : ℕ) × (begun log ≡ suc k)
    × Quiet 0 (s.tx_buf1 ∷ s.tx_buf2 ∷ s.tx_buf3 ∷ []) k s log
    × (queued log ≡ s.tx_buf2 ∷ s.tx_buf3 ∷ [])
    × Filled s.tx_buf1 message1 s log
    × Filled s.tx_buf2 message2 s log
    × Filled s.tx_buf3 message3 s log
