-- ===== src/Smf/Tests.antt =====
-- A concrete library: the context is its state.
use zephyr_samples.Base.{to_word, ℕ, ◌%◌, ◌≡◌, refl, pos, List, [], ◌∷◌, ◌++◌, Env, arith}
use zephyr_samples.Smf.{MyStates, state1, state2, Smf}
use zephyr_samples.Smf.Queue
use zephyr_samples.Smf.Queue.{QueueCall, StateMachine, queued, Turn, thread, timer}
use zephyr_samples.Smf.Queue.Parity.{
  Fifo, received, accepted, offered, alternating, switched, main-switched,
}

abbrev pub plain : Smf MyStates
plain = record {
  current = λ c. c;
  set_initial = λ m c. m;
  set_state = λ m c. m;
  run_state = λ ctx run o. run (ctx o) o;
  current-set_initial = λ m c. refl;
  current-set_state = λ m c. refl;
  run_state_lem = λ ctx run o. refl;
}

abbrev oldest : List ℕ → List ℕ
oldest [] = []
oldest (m ∷ ms) = m ∷ []

abbrev in_order : Env QueueCall
in_order = record { result = λ log c. pos 0; bytes = λ log c. oldest (queued log) }

in_order-Fifo : Fifo in_order
unfolding Fifo to_word
in_order-Fifo log m ms e = rw e (omega arith)

abbrev machine : StateMachine MyStates
machine = record { ctx = state2; word = 7; dummy_msg = 9 }

abbrev turns : List Turn
turns = timer ∷ timer ∷ thread ∷ thread ∷ thread ∷ timer ∷ []

main-switched_example :
    let (_, s', log) = Queue.main plain turns in_order machine [] in
    (received in_order log ++ queued log ≡ accepted log)
    × ((n : ℕ) × (offered log ≡ alternating n) × (s'.dummy_msg ≡ n % 2))
    × (plain.current s'.ctx ≡ switched state1 (received in_order log))
main-switched_example = main-switched plain in_order in_order-Fifo turns machine
