-- ===== src/Uart/Buffers/Tests.antt =====
-- A concrete kernel: each buffer has an address of its own, and the FIFO is as its log says.
use zephyr_samples.Base.{
  ℕ, ◌+◌, ◌≤◌, ◌≡◌, ◌⊎◌, refl, ℤ, pos, false, true, List, [], ◌∷◌, ◌++◌, Log, Env, arith, length,
  tokens, leb, to_ℕ,
}
use zephyr_samples.Uart.Fill.{copies}
use zephyr_samples.Uart.Buffers.{
  BufCall, SerialTx, net_buf_alloc, k_fifo_get, message1, message2, message3, sem_op, tx_done, Turn,
  thread, interrupt, main, max_buff_size,
}
use zephyr_samples.Uart.Buffers.Spec.{Kernel, batch, transmitted, queued, in_use, held, begun}
use zephyr_samples.Uart.Buffers.Batches.{unsent, main-batches}

-- The address of a buffer: above all numbers that calls have returned.
abbrev fresh : Log BufCall → ℕ
fresh [] = 1
fresh ((c, r) ∷ log) = fresh log + to_ℕ r

abbrev answer : BufCall → Log BufCall → ℤ
answer net_buf_alloc log = pos (fresh log)
answer k_fifo_get log = elim (queued log) [ [] ↦ pos 0 | p ∷ ps ↦ pos p ]
answer c log = pos 0

abbrev kernel_env : Env BufCall
kernel_env = record { result = λ log c. answer c log; bytes = λ log c. [] }

fresh-positive : (log : Log BufCall) → 1 ≤ fresh log
fresh-positive [] = omega arith
fresh-positive ((c, r) ∷ log) = let h = fresh-positive log in omega arith

held-fresh : (p : ℕ) (log : Log BufCall) → fresh log ≤ p → held p log ≡ false
held-fresh p [] le = refl
held-fresh p ((c, r) ∷ log) le =
    let h = held-fresh p log (omega (arith, le)) in ground (arith, h, le, fresh-positive log)

head_answer :
    (ps : List ℕ) → to_ℕ (elim ps [ [] ↦ pos 0 | q ∷ qs ↦ pos q ]) ≡ elim ps [ [] ↦ 0 | q ∷ qs ↦ q ]
head_answer [] = refl
head_answer (q ∷ qs) = refl

kernel_env-Kernel : Kernel kernel_env
unfolding Kernel
kernel_env-Kernel log = (
  λ room. (fresh-positive log, held-fresh (fresh log) log (omega arith)),
  head_answer (queued log),
  (λ bytes free. refl),
)

abbrev blank : SerialTx
blank = record {
  tx_buf1 = 0;
  tx_buf2 = 0;
  tx_buf3 = 0;
  ref_buff = 0;
  memory = λ p. [];
  null_write = false;
}

-- A batch begun, and its first message reported as sent.
abbrev schedule : List Turn
schedule =
    thread ∷ thread ∷ thread ∷ interrupt tx_done ∷ thread ∷ thread ∷ thread ∷ interrupt tx_done ∷ []

main-batches_example :
    let c = main kernel_env schedule blank in
    (transmitted c.log ++ unsent c ≡ copies (begun c.log) batch)
    × (length (in_use c.log) ≤ 3)
    × ((tokens sem_op c.log ≡ 0) ⊎ (in_use c.log ≡ []))
    × (c.serial.null_write ≡ false)
main-batches_example = main-batches kernel_env kernel_env-Kernel schedule blank refl

-- Each message fits into a buffer.
messages_fit :
    (leb (length message1) max_buff_size ≡ true)
    × (leb (length message2) max_buff_size ≡ true)
    × (leb (length message3) max_buff_size ≡ true)
unfolding message1 message2 message3
messages_fit = (refl, refl, refl)
