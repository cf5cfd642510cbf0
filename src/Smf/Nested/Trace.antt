-- ===== src/Smf/Nested/Trace.antt =====
-- The lines of _04_hierarchical_state_machine.
use zephyr_samples.Base.{ℕ, zero, suc, ◌≡◌, refl, ◌∙◌, List, [], ◌∷◌, ◌++◌}
use mathlib.Core.List.{append_assoc}
use zephyr_samples.Smf.Actions.{Obj, Hsm, say}
use zephyr_samples.Smf.Actions.Trace.{append-two}
use zephyr_samples.Smf.Nested.{
  States, parent, state1, state2, state3, Line, machine_cycle, slept, entering_parent,
  exiting_parent, running, same, path, entry, exit, state_table, state1_run, state2_run, state3_run,
  runs, run_machine, main_round, main_rounds, main,
}

-- The state after the first rounds: the three in turn.
unfoldable pub next_state : States → States
next_state state1 = state2
next_state state2 = state3
next_state m = state1

unfoldable pub after : ℕ → States
after zero = state1
after (suc n) = next_state (after n)

-- What a round prints of the parent: it is left with the second state, and entered with the first.
unfoldable pub parent_lines : States → List Line
parent_lines state2 = exiting_parent ∷ []
parent_lines state3 = entering_parent ∷ []
parent_lines m = []

abbrev pub machine_lines : States → List Line
machine_lines m = machine_cycle ∷ running m ∷ parent_lines m

abbrev pub round_lines : States → List Line
round_lines m = machine_lines m ++ slept ∷ []

unfoldable pub lines : ℕ → List Line
lines zero = entering_parent ∷ []
lines (suc n) = lines n ++ round_lines (after n)

-- The states that the machine is in between its rounds.
abbrev IsLeaf : States → Type 0
IsLeaf parent = ⊥
IsLeaf m = Unit {0}

module _ {Ctx : Type 0} (smf : Hsm States Line Ctx same) where
  run_machine-lines :
      (m : States) (o : Obj Ctx Line)
      → IsLeaf m
      → smf.current o.ctx ≡ m
      → let o' = run_machine smf o in
        (smf.current o'.ctx ≡ next_state m) × (o'.out ≡ o.out ++ machine_lines m)
  unfolding run_machine runs state1_run state2_run state3_run next_state parent_lines same path
      entry exit
  run_machine-lines parent o leaf h = absurd leaf
  run_machine-lines state1 o leaf h =
      let o1 = say (running state1) (say machine_cycle o) in
      rw (smf.run_state_lem (runs smf) (say machine_cycle o), h)
        (
          smf.current-set_state state_table state2 o1,
          smf.out-set_state state_table state1 state2 o1 h refl
              ∙ append-two o.out machine_cycle (running state1) [],
        )
  run_machine-lines state2 o leaf h =
      let o1 = say (running state2) (say machine_cycle o) in
      rw (smf.run_state_lem (runs smf) (say machine_cycle o), h)
        (
          smf.current-set_state state_table state3 o1,
          smf.out-set_state state_table state2 state3 o1 h refl
              ∙ append-two o.out machine_cycle (running state2) (exiting_parent ∷ []),
        )
  run_machine-lines state3 o leaf h =
      let o1 = say (running state3) (say machine_cycle o) in
      rw (smf.run_state_lem (runs smf) (say machine_cycle o), h)
        (
          smf.current-set_state state_table state1 o1,
          smf.out-set_state state_table state3 state1 o1 h refl
              ∙ append-two o.out machine_cycle (running state3) (entering_parent ∷ []),
        )

  main_round-lines :
      (m : States) (o : Obj Ctx Line)
      → IsLeaf m
      → smf.current o.ctx ≡ m
      → let o' = main_round smf o in
        (smf.current o'.ctx ≡ next_state m) × (o'.out ≡ o.out ++ round_lines m)
  unfolding main_round
  main_round-lines m o leaf h =
      let (h', e) = run_machine-lines m o leaf h in
      (h', rw e (append_assoc o.out (machine_lines m) (slept ∷ [])))

  next_state-IsLeaf : (m : States) → IsLeaf (next_state m)
  unfolding next_state
  next_state-IsLeaf parent = tt
  next_state-IsLeaf state1 = tt
  next_state-IsLeaf state2 = tt
  next_state-IsLeaf state3 = tt

  after-IsLeaf : (n : ℕ) → IsLeaf (after n)
  unfolding after
  after-IsLeaf zero = tt
  after-IsLeaf (suc n) = next_state-IsLeaf (after n)

  main_rounds-lines :
      (n : ℕ) (o : Obj Ctx Line)
      → smf.current o.ctx ≡ state1
      → o.out ≡ lines 0
      → let o' = main_rounds smf n o in (smf.current o'.ctx ≡ after n) × (o'.out ≡ lines n)
  unfolding main_rounds after lines
  main_rounds-lines zero o h e = (h, e)
  main_rounds-lines (suc n) o h e =
      let (h', e') = main_rounds-lines n o h e in
      let (h2, e2) = main_round-lines (after n) (main_rounds smf n o) (after-IsLeaf n) h' in
      (h2, rw e2 (rw e' refl))

  -- With a library that does as documented: the machine goes through its three states in turn, and the
  -- parent of the first two is entered before the first runs, kept between the first and the second,
  -- and left after the second, so that it is not entered while the third runs.
  pub main-nested_lines :
      (n : ℕ) (c : Ctx)
      → let o = main smf n (record { ctx = c; out = [] }) in
        (smf.current o.ctx ≡ after n) × (o.out ≡ lines n)
  unfolding main lines path entry same
  main-nested_lines n c =
      let o : Obj Ctx Line = record { ctx = c; out = [] } in
      main_rounds-lines n (smf.set_initial state_table state1 o)
        (smf.current-set_initial state_table state1 o) (smf.out-set_initial state_table state1 o)
