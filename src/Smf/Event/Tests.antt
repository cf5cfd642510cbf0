-- ===== src/Smf/Event/Tests.antt =====
-- Two expiries while the thread waits, and one while it does not.
use zephyr_samples.Base.{◌≡◌, ◌≤◌, pos, List, [], ◌∷◌, Env}
use zephyr_samples.Smf.{state2}
use zephyr_samples.Smf.Tests.{plain}
use zephyr_samples.Smf.Event.{EventCall, waiting, Turn, thread, timer, main}
use zephyr_samples.Smf.Event.Runs.{after, waits, expiries, main-waits_switched}

abbrev zeros : Env EventCall
zeros = record { result = λ log c. pos 0; bytes = λ log c. [] }

abbrev turns : List Turn
turns = thread ∷ timer ∷ thread ∷ timer ∷ thread ∷ thread ∷ timer ∷ thread ∷ []

main-waits_switched_example :
    let (_, s', log) = main plain turns zeros (record { ctx = state2; point = waiting }) [] in
    (s'.ctx ≡ after (waits log)) × (waits log ≤ expiries log)
main-waits_switched_example =
    main-waits_switched plain zeros turns (record { ctx = state2; point = waiting })
