-- ===== src/Smf/Queue/Parity.antt =====
-- The state machine of _06_event_machine_with_mqueue against the messages that it has received.
use zephyr_samples.Base.{
  to_word, behind, has_message, ℕ, zero, suc, ◌+◌, ◌-◌, ◌%◌, ◌≡◌, refl, ◌∙◌, List, [], ◌∷◌, ◌++◌,
  Log, Env, if◌then◌else◌, ◌==◌, is_zero, arith, Bool-cases, inl, inr, ◌⊎◌,
}
use mathlib.Core.List.{append_assoc}
use zephyr_samples.Smf.{MyStates, state1, state2, other_state, Smf}
use zephyr_samples.Smf.Queue.{
  QueueCall, k_msgq_put, k_msgq_get, StateMachine, queued, state1_run, state2_run, state_table,
  main_round, expiry_callback, start, Turn, thread, timer, step, run, main,
}

-- The messages that the callback has offered, and those that the queue has taken.
abbrev pub offered : Log QueueCall → List ℕ
offered [] = []
offered ((k_msgq_put m, r) ∷ log) = offered log ++ m ∷ []
offered ((c, r) ∷ log) = offered log

abbrev pub accepted : Log QueueCall → List ℕ
accepted [] = []
accepted ((k_msgq_put m, r) ∷ log) = if is_zero r then accepted log ++ m ∷ [] else accepted log
accepted ((c, r) ∷ log) = accepted log

-- The messages that the thread has received.
abbrev pub received : Env QueueCall → Log QueueCall → List ℕ
received env [] = []
received env ((k_msgq_get, r) ∷ log) = received env log ++ to_word (env.bytes log k_msgq_get) ∷ []
received env ((c, r) ∷ log) = received env log

-- 0, 1, 0, 1 and so on.
abbrev pub alternating : ℕ → List ℕ
alternating zero = []
alternating (suc n) = alternating n ++ (n % 2) ∷ []

-- The state after messages: each 1 switches it.
abbrev pub switched : MyStates → List ℕ → MyStates
switched m [] = m
switched m (w ∷ ws) = switched (if w == 1 then other_state m else m) ws

-- `k_msgq_get` writes the oldest message.
unfoldable pub Fifo : Env QueueCall → Type 0
Fifo env =
    (log : Log QueueCall) (m : ℕ) (ms : List ℕ)
    → queued log ≡ m ∷ ms
    → to_word (env.bytes log k_msgq_get) ≡ m

switched-append :
    (m : MyStates) (ws : List ℕ) (w : ℕ)
    → switched m (ws ++ w ∷ []) ≡ (if w == 1 then other_state (switched m ws) else switched m ws)
switched-append m [] w = refl
switched-append m (v ∷ ws) w = switched-append (if v == 1 then other_state m else m) ws w

queue_cases : (ms : List ℕ) → (ms ≡ []) ⊎ ((m : ℕ) × (ms' : List ℕ) × (ms ≡ m ∷ ms'))
queue_cases [] = inl refl
queue_cases (m ∷ ms) = inr (m, ms, refl)

toggle : (d n : ℕ) → d ≡ n % 2 → (if d % 2 == 0 then d + 1 else d - 1) ≡ suc n % 2
toggle d n e = ground arith

module _ {Ctx : Type 0} (smf : Smf Ctx) (env : Env QueueCall) (fifo : Fifo env) where
  -- What each step keeps.
  abbrev Tracks : StateMachine Ctx → Log QueueCall → Type 0
  Tracks s log =
      (received env log ++ queued log ≡ accepted log)
      × ((n : ℕ) × (offered log ≡ alternating n) × (s.dummy_msg ≡ n % 2))
      × (smf.current s.ctx ≡ switched state1 (received env log))

  state_table-current :
      (m : MyStates) (s : StateMachine Ctx)
      → smf.current s.ctx ≡ m
      → let s' = state_table smf m s in
        (smf.current s'.ctx ≡ (if s.word == 1 then other_state m else m))
        × (s'.dummy_msg ≡ s.dummy_msg)
  unfolding state_table state1_run state2_run other_state
  state_table-current state1 s h = elim (Bool-cases (s.word == 1)) [
    | inl e ↦ rw e (smf.current-set_state state2 s.ctx, refl)
    | inr e ↦ rw e (h, refl)
  ]
  state_table-current state2 s h = elim (Bool-cases (s.word == 1)) [
    | inl e ↦ rw e (smf.current-set_state state1 s.ctx, refl)
    | inr e ↦ rw e (h, refl)
  ]

  main_round-current :
      (s : StateMachine Ctx) (log : Log QueueCall)
      → let (_, s', log') = main_round smf env s log in
        let w = to_word (env.bytes log k_msgq_get) in
        (smf.current s'.ctx
          ≡ (if w == 1 then other_state (smf.current s.ctx) else smf.current s.ctx))
        × (s'.dummy_msg ≡ s.dummy_msg)
        × (log' ≡ (k_msgq_get, env.result log k_msgq_get) ∷ log)
  unfolding main_round
  main_round-current s log =
      let s1 = record s { word = to_word (env.bytes log k_msgq_get) } in
      let (e, e') = state_table-current (smf.current s.ctx) s1 refl in
      rw (smf.run_state_lem (λ o. o.ctx) (state_table smf) s1) (e, e', refl)

  step-Tracks :
      (t : Turn) (s : StateMachine Ctx) (log : Log QueueCall)
      → Tracks s log
      → let (_, s', log') = step smf t env s log in Tracks s' log'
  unfolding step has_message expiry_callback queued behind Fifo
  step-Tracks thread s log (ea, (n, eo, ed), ec) =
      let (e1, e2, e3) = main_round-current s log in
      elim (queue_cases (queued log)) [
        | inl e ↦ rw e (ea, (n, eo, ed), ec)
        | inr (m, ms, e) ↦
            let got = fifo log m ms e in
            rw (e, e3, e)
              (
                rw (got, append_assoc (received env log), ← e) ea,
                (n, eo, e2 ∙ ed),
                rw (e1, ec, switched-append state1 (received env log)) refl,
              )
      ]
  step-Tracks timer s log (ea, (n, eo, ed), ec) =
      let r = env.result log (k_msgq_put s.dummy_msg) in
      let ed' = toggle s.dummy_msg n ed in
      elim (Bool-cases (is_zero r)) [
        | inl e ↦
            rw e
              (rw (← append_assoc (received env log), ea) refl, (suc n, rw (eo, ed) refl, ed'), ec)
        | inr e ↦ rw e (ea, (suc n, rw (eo, ed) refl, ed'), ec)
      ]

  run-Tracks :
      (ts : List Turn) (s : StateMachine Ctx) (log : Log QueueCall)
      → Tracks s log
      → let (_, s', log') = run smf ts env s log in Tracks s' log'
  unfolding run
  run-Tracks [] s log h = h
  run-Tracks (t ∷ ts) s log h =
      let (_, s', log') = step smf t env s log in run-Tracks ts s' log' (step-Tracks t s log h)

  -- Where `k_msgq_get` writes the oldest message, under every interleaving of the timer and the
  -- thread, and also where the queue is full and refuses messages: the messages received and those
  -- waiting are those that the queue has taken, in their order; the timer offers 0 and 1 in turn; and
  -- the machine is in the state that the messages received lead to, each 1 switching it.
  pub main-switched :
      (ts : List Turn) (s : StateMachine Ctx)
      → let (_, s', log) = main smf ts env s [] in
        (received env log ++ queued log ≡ accepted log)
        × ((n : ℕ) × (offered log ≡ alternating n) × (s'.dummy_msg ≡ n % 2))
        × (smf.current s'.ctx ≡ switched state1 (received env log))
  unfolding main start queued
  main-switched ts s =
      let (_, s', log') = start smf env s [] in
      run-Tracks ts s' log' (refl, (0, refl, refl), smf.current-set_initial state1 s.ctx)
