-- ===== src/Smf/DataPass.antt =====
-- middleware/SMF/_03_machine_with_data_pass/src/main.c
use zephyr_samples.Base.{
  ℕ, zero, suc, ◌+◌, ◌%◌, ◌≡◌, refl, ◌∙◌, ◌⊎◌, inl, inr, if◌then◌else◌, ◌==◌, arith,
}
use zephyr_samples.Smf.{MyStates, state1, state2, Smf}

-- `struct state_machine`
pub record StateMachine (Ctx : Type 0) : Type 0 where
  pub ctx : Ctx
  pub event : ℕ

module _ {Ctx : Type 0} (smf : Smf Ctx) where
  abbrev pub transition : ℕ → MyStates → StateMachine Ctx → StateMachine Ctx
  transition event m obj = record { ctx = smf.set_state m obj.ctx; event = event }

  pub state1_run : StateMachine Ctx → StateMachine Ctx
  state1_run obj = if obj.event == 0 then transition 1 state2 obj else obj

  pub state2_run : StateMachine Ctx → StateMachine Ctx
  state2_run obj = if obj.event == 1 then transition 0 state1 obj else obj

  pub state_table : MyStates → StateMachine Ctx → StateMachine Ctx
  state_table state1 = state1_run
  state_table state2 = state2_run

  -- The loop of `main`, for a number of rounds.
  pub main_rounds : ℕ → StateMachine Ctx → StateMachine Ctx
  main_rounds zero sm = sm
  main_rounds (suc n) sm = main_rounds n (smf.run_state (λ o. o.ctx) state_table sm)

  -- `main`, from a context that is not initialised.
  pub main : ℕ → Ctx → StateMachine Ctx
  main n c = main_rounds n (record { ctx = smf.set_initial state1 c; event = 0 })

mod_two : (k : ℕ) → ((k % 2 ≡ 0) × (suc k % 2 ≡ 1)) ⊎ ((k % 2 ≡ 1) × (suc k % 2 ≡ 0))
mod_two k = ground arith

abbrev pub by_parity : ℕ → MyStates
by_parity k = if k % 2 == 0 then state1 else state2

module _ {Ctx : Type 0} (smf : Smf Ctx) where
  -- After `k` rounds.
  abbrev Passed : ℕ → StateMachine Ctx → Type 0
  Passed k sm = (smf.current sm.ctx ≡ by_parity k) × (sm.event ≡ k % 2)

  round-Passed :
      (k : ℕ) (sm : StateMachine Ctx)
      → Passed k sm
      → Passed (suc k) (smf.run_state (λ o. o.ctx) (state_table smf) sm)
  unfolding state_table state1_run state2_run
  round-Passed k sm (ec, ee) = elim (mod_two k) [
    | inl (e, e') ↦
        rw (smf.run_state_lem (λ o. o.ctx) (state_table smf) sm, ec, e, ee ∙ e, e')
          (smf.current-set_state state2 sm.ctx, refl)
    | inr (e, e') ↦
        rw (smf.run_state_lem (λ o. o.ctx) (state_table smf) sm, ec, e, ee ∙ e, e')
          (smf.current-set_state state1 sm.ctx, refl)
  ]

  rounds-Passed :
      (n k j : ℕ) (sm : StateMachine Ctx)
      → n + k ≡ j
      → Passed k sm
      → Passed j (main_rounds smf n sm)
  unfolding main_rounds
  rounds-Passed zero k j sm e h = let e' : k ≡ j = omega arith in rw (← e') h
  rounds-Passed (suc n) k j sm e h =
      let sm' = smf.run_state (λ o. o.ctx) (state_table smf) sm in
      rounds-Passed n (suc k) j sm' (omega arith) (round-Passed k sm h)

  -- With a library that does as documented, each round finds the event that its state waits for: the
  -- machine is never stuck, and after n rounds it is in its first state where n is even, and in its
  -- second where n is odd, with the event n % 2.
  pub main-alternates :
      (n : ℕ) (c : Ctx)
      → let sm = main smf n c in (smf.current sm.ctx ≡ by_parity n) × (sm.event ≡ n % 2)
  unfolding main
  main-alternates n c =
      let sm : StateMachine Ctx = record { ctx = smf.set_initial state1 c; event = 0 } in
      rounds-Passed n 0 n sm (omega arith) (smf.current-set_initial state1 c, refl)
