-- ===== src/Smf/Actions.antt =====
-- middleware/SMF: the framework for tables with entry and exit actions and with parents, as an
-- interface; and middleware/SMF/_02_machine_with_entry_and_exit/src/main.c.
pub mod Trace
mod Tests
use zephyr_samples.Base.{
  ℕ, zero, suc, ◌≡◌, Bool, true, false, not, List, [], ◌∷◌, ◌++◌, if◌then◌else◌,
}
use zephyr_samples.Smf.{MyStates, state1, state2}

-- An object with its context, and the lines printed, in order.
pub record Obj (Ctx Line : Type 0) : Type 0 where
  pub ctx : Ctx
  pub out : List Line

-- `path` is a state with its parents, from the inside out; the actions by what they print.
pub record Table (S Line : Type 0) : Type 0 where
  pub path : S → List S
  pub entry : S → List Line
  pub exit : S → List Line

module _ {S : Type 0} (eq : S → S → Bool) where
  abbrev pub within : S → List S → Bool
  within m [] = false
  within m (k ∷ ks) = if eq m k then true else within m ks

module _ {S Line : Type 0} (eq : S → S → Bool) where
  -- The exits from a state, from the inside out, to what it has in common with the other.
  abbrev pub exits : Table S Line → List S → List S → List Line
  exits t [] other = []
  exits t (m ∷ ms) other = (if within eq m other then [] else t.exit m) ++ exits t ms other

  -- The entries into a state, from the outside in, below what it has in common with the other.
  abbrev pub entries : Table S Line → List S → List S → List Line
  entries t [] other = []
  entries t (m ∷ ms) other = entries t ms other ++ (if within eq m other then [] else t.entry m)

-- What the library does: a transition to another state leaves the state and its parents up to the
-- common one, and enters the new one from there; `run_state` calls the run action of the current state,
-- which handles the event.
pub record Hsm (S Line Ctx : Type 0) (eq : S → S → Bool) : Type 1 where
  pub current : Ctx → S
  pub set_initial : Table S Line → S → Obj Ctx Line → Obj Ctx Line
  pub set_state : Table S Line → S → Obj Ctx Line → Obj Ctx Line
  pub run_state : (S → Obj Ctx Line → Obj Ctx Line) → Obj Ctx Line → Obj Ctx Line
  pub current-set_initial :
      (t : Table S Line) (m : S) (o : Obj Ctx Line) → current (set_initial t m o).ctx ≡ m
  pub out-set_initial :
      (t : Table S Line) (m : S) (o : Obj Ctx Line)
      → (set_initial t m o).out ≡ o.out ++ entries eq t (t.path m) []
  pub current-set_state :
      (t : Table S Line) (m : S) (o : Obj Ctx Line) → current (set_state t m o).ctx ≡ m
  pub out-set_state :
      (t : Table S Line) (m k : S) (o : Obj Ctx Line)
      → current o.ctx ≡ m
      → eq m k ≡ false
      → (set_state t k o).out
        ≡ o.out ++ (exits eq t (t.path m) (t.path k) ++ entries eq t (t.path k) (t.path m))
  pub run_state_lem :
      (run : S → Obj Ctx Line → Obj Ctx Line) (o : Obj Ctx Line)
      → run_state run o ≡ run (current o.ctx) o

abbrev pub say : {Ctx Line : Type 0} → Line → Obj Ctx Line → Obj Ctx Line
say l o = record o { out = o.out ++ l ∷ [] }

-- The lines of _02; the states by their numbers.
pub data Line : Type 0 where
  machine_cycle : Line
  state_entry state_run state_exit : MyStates → Line

unfoldable pub same : MyStates → MyStates → Bool
same state1 state1 = true
same state2 state2 = true
same m k = false

-- `state_table` without its run actions
abbrev pub state_table : Table MyStates Line
state_table = record {
  path = λ m. m ∷ [];
  entry = λ m. state_entry m ∷ [];
  exit = λ m. state_exit m ∷ [];
}

module _ {Ctx : Type 0} (smf : Hsm MyStates Line Ctx same) where
  pub state1_run : Obj Ctx Line → Obj Ctx Line
  state1_run o = smf.set_state state_table state2 (say (state_run state1) o)

  pub state2_run : Obj Ctx Line → Obj Ctx Line
  state2_run o = smf.set_state state_table state1 (say (state_run state2) o)

  pub runs : MyStates → Obj Ctx Line → Obj Ctx Line
  runs state1 = state1_run
  runs state2 = state2_run

  pub main_round : Obj Ctx Line → Obj Ctx Line
  main_round o = smf.run_state runs (say machine_cycle o)

  -- The rounds of the loop of `main`.
  pub main_rounds : ℕ → Obj Ctx Line → Obj Ctx Line
  main_rounds zero o = o
  main_rounds (suc n) o = main_round (main_rounds n o)

  pub main : ℕ → Obj Ctx Line → Obj Ctx Line
  main n o = main_rounds n (smf.set_initial state_table state1 o)
