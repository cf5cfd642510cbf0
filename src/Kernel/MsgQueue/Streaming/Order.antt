-- ===== src/Kernel/MsgQueue/Streaming/Order.antt =====
-- The messages of _01, _02, _03 and _05, over a log: those offered, taken and shown.
use mathlib.Core.List.{append_assoc}
use zephyr_samples.Base.{
  ℕ, suc, ◌+◌, ◌%◌, ◌^◌, ◌≡◌, refl, ◌∙◌, ap, true, List, [], ◌∷◌, ◌++◌, Log, Env, if◌then◌else◌,
  is_zero, to_word, behind, has_message, arith, Bool-cases, inl, inr, length,
}
use zephyr_samples.Kernel.MsgQueue.{
  MsgCall, k_msgq_put, k_msgq_get, print_value, print_from, queued, Fifo,
}
use zephyr_samples.Kernel.MsgQueue.Draining.Order.{counted, first-behind}
use zephyr_samples.Kernel.MsgQueue.Draining.Runs.{counted-length}
use zephyr_samples.Kernel.MsgQueue.Streaming.{
  pack, put_next, sender_round, receiver_round, my_own_isr, trigger_round, where_message, Turn,
  sender, receiver, interrupt, main_thread, step, run,
}

abbrev pub offered : Log MsgCall → List ℕ
offered [] = []
offered ((k_msgq_put m, r) ∷ log) = offered log ++ m ∷ []
offered ((c, r) ∷ log) = offered log

abbrev pub accepted : Log MsgCall → List ℕ
accepted [] = []
accepted ((k_msgq_put m, r) ∷ log) = if is_zero r then accepted log ++ m ∷ [] else accepted log
accepted ((c, r) ∷ log) = accepted log

-- The messages shown: a value, or a value with its source.
abbrev pub shown : Log MsgCall → List ℕ
shown [] = []
shown ((print_value m, r) ∷ log) = shown log ++ m ∷ []
shown ((print_from v s, r) ∷ log) = shown log ++ pack v s ∷ []
shown ((c, r) ∷ log) = shown log

-- Whatever is taken is shown or waits.
abbrev pub Kept : Log MsgCall → Type 0
Kept log = shown log ++ queued log ≡ accepted log

abbrev pub Counted : ℕ → Log MsgCall → Type 0
Counted s log = (n : ℕ) × (offered log ≡ counted n) × (s ≡ n % 2 ^ 32)

module _ (cap : ℕ) (env : Env MsgCall) (fifo : Fifo cap env) where
  pub put-Kept :
      (m : ℕ) (log : Log MsgCall)
      → Kept log
      → Kept ((k_msgq_put m, env.result log (k_msgq_put m)) ∷ log)
  unfolding queued
  put-Kept m log h = elim (Bool-cases (is_zero (env.result log (k_msgq_put m)))) [
    | inl e ↦ rw e (rw (← append_assoc (shown log) (queued log) (m ∷ []), h) refl)
    | inr e ↦ rw e h
  ]

  put_next-Counted :
      (s : ℕ) (log : Log MsgCall)
      → Kept log × Counted s log
      → let (_, s', log') = put_next env s log in Kept log' × Counted s' log'
  unfolding put_next
  put_next-Counted s log (h, (n, eo, es)) = (
    put-Kept ((s + 1) % 2 ^ 32) log h,
    (suc n, rw (eo, es) (ap (λ v. counted n ++ v ∷ []) (omega arith)), omega (arith, es)),
  )

  receiver_round-Kept :
      (s : ℕ) (log : Log MsgCall)
      → has_message (queued log) ≡ true
      → Kept log
      → Kept (receiver_round env s log).2
  unfolding receiver_round queued Fifo
  receiver_round-Kept s log msg h =
      let w : ℕ = to_word (env.bytes log k_msgq_get) in
      let next : w ∷ behind (queued log) ≡ queued log =
        first-behind w (queued log) msg (fifo log).3 in
      append_assoc (shown log) (w ∷ []) (behind (queued log)) ∙ rw next h

  step-Kept :
      (t : Turn) (s : ℕ) (log : Log MsgCall)
      → Kept log × Counted s log
      → let (_, s', log') = step t env s log in Kept log' × Counted s' log'
  unfolding step sender_round my_own_isr trigger_round where_message receiver_round queued
  step-Kept sender s log h = put_next-Counted s log h
  step-Kept interrupt s log h = put_next-Counted s log h
  step-Kept main_thread s log h = h
  step-Kept receiver s log (h, k) = elim (Bool-cases (has_message (queued log))) [
    | inl e ↦ rw e (receiver_round-Kept s log e h, k)
    | inr e ↦ rw e (h, k)
  ]

  run-Kept :
      (ts : List Turn) (s : ℕ) (log : Log MsgCall)
      → Kept log × Counted s log
      → let (_, s', log') = run ts env s log in Kept log' × Counted s' log'
  unfolding run
  run-Kept [] s log h = h
  run-Kept (t ∷ ts) s log h =
      let (u, s', log') = step t env s log in run-Kept ts s' log' (step-Kept t s log h)

  -- Under every interleaving of senders, interrupts and the receiver, and also where the queue is full
  -- and refuses messages: the values shown and those that wait are the values that the queue has
  -- taken, in their order, and the values offered to it are 1, 2, 3 and so on, as uint32_t.
  pub run-shown :
      (ts : List Turn)
      → let (_, _, log) = run ts env 0 [] in
        (shown log ++ queued log ≡ accepted log) × (offered log ≡ counted (length (offered log)))
  unfolding queued
  run-shown ts =
      let (h, (n, eo, es)) = run-Kept ts 0 [] (refl, (0, refl, refl)) in
      (h, counted-length n (offered (run ts env 0 []).2) eo)
