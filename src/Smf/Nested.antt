-- ===== src/Smf/Nested.antt =====
-- middleware/SMF/_04_hierarchical_state_machine/src/main.c
pub mod Trace
use zephyr_samples.Base.{ℕ, zero, suc, Bool, true, false, List, [], ◌∷◌}
use zephyr_samples.Smf.Actions.{Obj, Table, Hsm, say}

-- `enum MyStates`
pub data States : Type 0 where
  parent state1 state2 state3 : States

pub data Line : Type 0 where
  machine_cycle entering_parent exiting_parent : Line
  -- `k_msleep(1000)`, not a line of text
  slept : Line
  running : States → Line

unfoldable pub same : States → States → Bool
same parent parent = true
same state1 state1 = true
same state2 state2 = true
same state3 state3 = true
same m k = false

unfoldable pub path : States → List States
path parent = parent ∷ []
path state1 = state1 ∷ parent ∷ []
path state2 = state2 ∷ parent ∷ []
path state3 = state3 ∷ []

-- `parent_entry` and `parent_exit`; the other states have none.
unfoldable pub entry : States → List Line
entry parent = entering_parent ∷ []
entry m = []

unfoldable pub exit : States → List Line
exit parent = exiting_parent ∷ []
exit m = []

-- `state_table` without its run actions
abbrev pub state_table : Table States Line
state_table = record { path = path; entry = entry; exit = exit }

module _ {Ctx : Type 0} (smf : Hsm States Line Ctx same) where
  pub state1_run : Obj Ctx Line → Obj Ctx Line
  state1_run o = smf.set_state state_table state2 (say (running state1) o)

  pub state2_run : Obj Ctx Line → Obj Ctx Line
  state2_run o = smf.set_state state_table state3 (say (running state2) o)

  pub state3_run : Obj Ctx Line → Obj Ctx Line
  state3_run o = smf.set_state state_table state1 (say (running state3) o)

  -- The parent has no run action.
  pub runs : States → Obj Ctx Line → Obj Ctx Line
  runs parent o = o
  runs state1 o = state1_run o
  runs state2 o = state2_run o
  runs state3 o = state3_run o

  pub run_machine : Obj Ctx Line → Obj Ctx Line
  run_machine o = smf.run_state runs (say machine_cycle o)

  pub main_round : Obj Ctx Line → Obj Ctx Line
  main_round o = say slept (run_machine o)

  -- The rounds of the loop of `main`.
  pub main_rounds : ℕ → Obj Ctx Line → Obj Ctx Line
  main_rounds zero o = o
  main_rounds (suc n) o = main_round (main_rounds n o)

  pub main : ℕ → Obj Ctx Line → Obj Ctx Line
  main n o = main_rounds n (smf.set_initial state_table state1 o)
