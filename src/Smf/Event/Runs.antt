-- ===== src/Smf/Event/Runs.antt =====
-- The runs of the machine of _05_simple_event_machine against the expiries of its timer.
use mathlib.Core.Path.{subst}
use zephyr_samples.Base.{
  ℕ, zero, suc, ◌+◌, ◌≤◌, ◌≡◌, refl, ◌∙◌, ap, Bool, true, false, List, [], ◌∷◌, Log, Env, arith,
  Bool-cases, inl, inr,
}
use zephyr_samples.Smf.{MyStates, state1, state2, other_state, Smf}
use zephyr_samples.Smf.Event.{
  EventCall, k_event_set, k_event_wait_return, pending, Point, resetting, waiting, Machine, Turn,
  thread, timer, state1_run, state2_run, state_table, run_state, simple_rounds, simple_main,
  expiry_callback, wait_reset, wait_return, thread_step, step, run, start, main,
}

-- The expiries of the timer, and the waits that have ended.
abbrev pub expiries : Log EventCall → ℕ
expiries [] = 0
expiries ((k_event_set, r) ∷ log) = suc (expiries log)
expiries ((c, r) ∷ log) = expiries log

abbrev pub waits : Log EventCall → ℕ
waits [] = 0
waits ((k_event_wait_return, r) ∷ log) = suc (waits log)
waits ((c, r) ∷ log) = waits log

-- The state after a number of runs.
unfoldable pub after : ℕ → MyStates
after zero = state1
after (suc n) = other_state (after n)

-- An expiry that a wait has still to end on.
abbrev due : Point → Bool → ℕ
due waiting true = 1
due p set = 0

due-le : (p : Point) (set : Bool) → due p set ≤ 1
due-le waiting true = omega arith
due-le waiting false = omega arith
due-le resetting set = omega arith

module _ {Ctx : Type 0} (smf : Smf Ctx) where
  state_table-current : (m : MyStates) (c : Ctx) → smf.current (state_table smf m c) ≡ other_state m
  unfolding state_table state1_run state2_run other_state
  state_table-current state1 c = smf.current-set_state state2 c
  state_table-current state2 c = smf.current-set_state state1 c

  run_state-current : (c : Ctx) → smf.current (run_state smf c) ≡ other_state (smf.current c)
  unfolding run_state
  run_state-current c =
      ap smf.current (smf.run_state_lem (λ o. o) (state_table smf) c)
      ∙ state_table-current (smf.current c) c

  simple_rounds-after :
      (n : ℕ) (c : Ctx) → smf.current c ≡ state1 → smf.current (simple_rounds smf n c) ≡ after n
  unfolding simple_rounds after
  simple_rounds-after zero c h = h
  simple_rounds-after (suc n) c h =
      run_state-current (simple_rounds smf n c) ∙ ap other_state (simple_rounds-after n c h)

  -- The machine of _01 switches its state in each round.
  pub simple_main-after : (n : ℕ) (c : Ctx) → smf.current (simple_main smf n c) ≡ after n
  unfolding simple_main
  simple_main-after n c =
      simple_rounds-after n (smf.set_initial state1 c) (smf.current-set_initial state1 c)

  module _ (env : Env EventCall) where
    abbrev Inv : Machine Ctx → Log EventCall → Type 0
    Inv s log =
        (smf.current s.ctx ≡ after (waits log))
        × (waits log + due s.point (pending log) ≤ expiries log)

    thread_step-Inv :
        (p : Point) (s : Machine Ctx) (log : Log EventCall)
        → s.point ≡ p
        → smf.current s.ctx ≡ after (waits log)
        → waits log + due p (pending log) ≤ expiries log
        → let (_, s', log') = thread_step smf p env s log in Inv s' log'
    unfolding thread_step wait_reset wait_return pending after
    thread_step-Inv resetting s log e h le = (h, omega (arith, le))
    thread_step-Inv waiting s log e h le = elim (Bool-cases (pending log)) [
      | inl set ↦
          let le' = subst (λ b. waits log + due waiting b ≤ expiries log) set le in
          rw set (run_state-current s.ctx ∙ ap other_state h, omega (arith, le'))
      | inr clear ↦ rw (clear, e, clear) (h, omega (arith, le))
    ]

    step-Inv :
        (t : Turn) (s : Machine Ctx) (log : Log EventCall)
        → Inv s log
        → let (_, s', log') = step smf t env s log in Inv s' log'
    unfolding step expiry_callback pending
    step-Inv thread s log (h, le) = thread_step-Inv s.point s log refl h le
    step-Inv timer s log (h, le) = (h, omega (arith, le, due-le s.point true))

    run-Inv :
        (ts : List Turn) (s : Machine Ctx) (log : Log EventCall)
        → Inv s log
        → let (_, s', log') = run smf ts env s log in Inv s' log'
    unfolding run
    run-Inv [] s log h = h
    run-Inv (t ∷ ts) s log h =
        let (u, s', log') = step smf t env s log in run-Inv ts s' log' (step-Inv t s log h)

    -- Under every interleaving of the timer and the thread: the machine has switched its state once
    -- for each wait that has ended, and no more often than the timer has expired.
    pub main-waits_switched :
        (ts : List Turn) (s : Machine Ctx)
        → let (_, s', log) = main smf ts env s [] in
          (smf.current s'.ctx ≡ after (waits log)) × (waits log ≤ expiries log)
    unfolding main start pending after
    main-waits_switched ts s =
        let (u, s', log') = start smf env s [] in
        let (h, le) = run-Inv ts s' log' (smf.current-set_initial state1 s.ctx, omega arith) in
        (h, omega (arith, le))
