-- ===== src/Smf/Actions/Trace.antt =====
-- The lines of _02_machine_with_entry_and_exit.
use mathlib.Core.List.{append_assoc}
use zephyr_samples.Base.{ℕ, zero, suc, ◌≡◌, refl, ◌∙◌, List, [], ◌∷◌, ◌++◌}
use zephyr_samples.Smf.{MyStates, state1, state2, other_state}
use zephyr_samples.Smf.Actions.{
  Obj, Hsm, Line, machine_cycle, state_entry, state_run, state_exit, same, state_table, say,
  state1_run, state2_run, runs, main_round, main_rounds, main,
}

-- The state after a number of rounds.
unfoldable pub after : ℕ → MyStates
after zero = state1
after (suc n) = other_state (after n)

-- The lines of a round in a state, and of the first rounds.
abbrev pub round_lines : MyStates → List Line
round_lines m = machine_cycle ∷ state_run m ∷ state_exit m ∷ state_entry (other_state m) ∷ []

unfoldable pub lines : ℕ → List Line
lines zero = state_entry state1 ∷ []
lines (suc n) = lines n ++ round_lines (after n)

pub append-two :
    {A : Type 0} (xs : List A) (a b : A) (ys : List A)
    → ((xs ++ a ∷ []) ++ b ∷ []) ++ ys ≡ xs ++ (a ∷ b ∷ ys)
append-two xs a b ys = append_assoc (xs ++ a ∷ []) (b ∷ []) ys ∙ append_assoc xs (a ∷ []) (b ∷ ys)

module _ {Ctx : Type 0} (smf : Hsm MyStates Line Ctx same) where
  main_round-lines :
      (m : MyStates) (o : Obj Ctx Line)
      → smf.current o.ctx ≡ m
      → let o' = main_round smf o in
        (smf.current o'.ctx ≡ other_state m) × (o'.out ≡ o.out ++ round_lines m)
  unfolding main_round runs state1_run state2_run other_state same
  main_round-lines state1 o h =
      let o1 = say (state_run state1) (say machine_cycle o) in
      rw (smf.run_state_lem (runs smf) (say machine_cycle o), h)
        (
          smf.current-set_state state_table state2 o1,
          smf.out-set_state state_table state1 state2 o1 h refl
              ∙ append-two o.out machine_cycle (state_run state1)
                  (state_exit state1 ∷ state_entry state2 ∷ []),
        )
  main_round-lines state2 o h =
      let o1 = say (state_run state2) (say machine_cycle o) in
      rw (smf.run_state_lem (runs smf) (say machine_cycle o), h)
        (
          smf.current-set_state state_table state1 o1,
          smf.out-set_state state_table state2 state1 o1 h refl
              ∙ append-two o.out machine_cycle (state_run state2)
                  (state_exit state2 ∷ state_entry state1 ∷ []),
        )

  main_rounds-lines :
      (n : ℕ) (o : Obj Ctx Line)
      → smf.current o.ctx ≡ state1
      → o.out ≡ lines 0
      → let o' = main_rounds smf n o in (smf.current o'.ctx ≡ after n) × (o'.out ≡ lines n)
  unfolding main_rounds after lines
  main_rounds-lines zero o h e = (h, e)
  main_rounds-lines (suc n) o h e =
      let (h', e') = main_rounds-lines n o h e in
      let (h2, e2) = main_round-lines (after n) (main_rounds smf n o) h' in (h2, rw e2 (rw e' refl))

  -- With a library that does as documented: the machine enters its first state, and each round then
  -- runs the current state, leaves it and enters the other one, in this order and nothing else, so
  -- that a state runs only between its entry and its exit.
  pub main-lines :
      (n : ℕ) (c : Ctx)
      → let o = main smf n (record { ctx = c; out = [] }) in
        (smf.current o.ctx ≡ after n) × (o.out ≡ lines n)
  unfolding main lines
  main-lines n c =
      let o : Obj Ctx Line = record { ctx = c; out = [] } in
      main_rounds-lines n (smf.set_initial state_table state1 o)
        (smf.current-set_initial state_table state1 o) (smf.out-set_initial state_table state1 o)
