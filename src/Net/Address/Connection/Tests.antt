-- ===== src/Net/Address/Connection/Tests.antt =====
-- A cable that is plugged in after two rounds.
use zephyr_samples.Base.{◌≡◌, refl, pos, true, false, [], ◌∷◌, Env, length, if◌then◌else◌, ltb}
use zephyr_samples.Net.Address.{IfaceCall}
use zephyr_samples.Net.Address.Connection.{differ, show_link, report_change, poll_round, poll_link}
use zephyr_samples.Net.Address.Connection.Changes.{polled, reported}

plugged_env : Env IfaceCall
plugged_env = record {
  result = λ log c. if ltb (length log) 4 then pos 0 else pos 1;
  bytes = λ log c. [];
}

-- The rounds report one change.
rounds_report :
    (polled (poll_link 4 plugged_env false []).2 ≡ false ∷ false ∷ true ∷ true ∷ [])
    × (reported (poll_link 4 plugged_env false []).2 ≡ true ∷ [])
unfolding plugged_env poll_link poll_round report_change show_link differ
rounds_report = (refl, refl)
