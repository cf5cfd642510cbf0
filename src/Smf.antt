-- ===== src/Smf.antt =====
-- middleware/SMF: what the samples use of the state machine framework of Zephyr, which is not in the
-- repository. A state table without entry and exit actions and without parents is its run functions.
pub mod DataPass
pub mod Queue
pub mod Actions
pub mod Nested
pub mod Event
pub mod Tests
use zephyr_samples.Base.{◌≡◌}

-- `enum MyStates`
pub data MyStates : Type 0 where
  state1 state2 : MyStates

-- The other state.
pub other_state : MyStates → MyStates
other_state state1 = state2
other_state state2 = state1

-- A context, the state that it is in, and what the library does to it. `run_state` calls the run
-- function of the state that the object's context is in, on the object.
pub record Smf (Ctx : Type 0) : Type 1 where
  pub current : Ctx → MyStates
  pub set_initial : MyStates → Ctx → Ctx
  pub set_state : MyStates → Ctx → Ctx
  pub run_state : {O : Type 0} → (O → Ctx) → (MyStates → O → O) → O → O
  pub current-set_initial : (m : MyStates) (c : Ctx) → current (set_initial m c) ≡ m
  pub current-set_state : (m : MyStates) (c : Ctx) → current (set_state m c) ≡ m
  pub run_state_lem :
      {O : Type 0} (ctx : O → Ctx) (run : MyStates → O → O) (o : O)
      → run_state ctx run o ≡ run (current (ctx o)) o
