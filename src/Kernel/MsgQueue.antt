-- ===== src/Kernel/MsgQueue.antt =====
-- kernel/MQUEUES: the calls of the samples around `k_msgq`, and what a log says of the queue. A message
-- is the number that its bytes stand for; a `k_msgq_put` that fails leaves the queue as it is.
pub mod Draining
pub mod Streaming
use zephyr_samples.Base.{
  ℕ, ◌-◌, ◌<◌, ◌≡◌, ◌↔◌, true, List, [], ◌∷◌, ◌++◌, Log, Env, if◌then◌else◌, is_zero, to_ℕ, to_word,
  behind, length,
}

pub data MsgCall : Type 0 where
  -- the number of messages that the queue has room for
  k_msgq_init : ℕ → MsgCall
  k_msgq_put : ℕ → MsgCall
  k_msgq_get k_msgq_num_free_get k_msgq_num_used_get : MsgCall
  k_msleep : ℕ → MsgCall
  irq_enable nvic_set_pending_irq : ℕ → MsgCall
  print_value : ℕ → MsgCall
  -- value and source
  print_from : ℕ → ℕ → MsgCall

-- The messages in the queue, the oldest first.
unfoldable pub queued : Log MsgCall → List ℕ
queued [] = []
queued ((k_msgq_put m, r) ∷ log) = if is_zero r then queued log ++ m ∷ [] else queued log
queued ((k_msgq_get, r) ∷ log) = behind (queued log)
queued ((c, r) ∷ log) = queued log

-- A message queue with room for `cap` messages, first in, first out.
unfoldable pub Fifo : ℕ → Env MsgCall → Type 0
Fifo cap env =
    (log : Log MsgCall)
    → ((m : ℕ) → (is_zero (env.result log (k_msgq_put m)) ≡ true) ↔ (length (queued log) < cap))
      × (to_ℕ (env.result log k_msgq_num_free_get) ≡ cap - length (queued log))
      × (to_ℕ (env.result log k_msgq_num_used_get) ≡ length (queued log))
      × ((m : ℕ) (ms : List ℕ) → queued log ≡ m ∷ ms → to_word (env.bytes log k_msgq_get) ≡ m)
