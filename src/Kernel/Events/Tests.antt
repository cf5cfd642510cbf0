-- ===== src/Kernel/Events/Tests.antt =====
-- A consumer that receives both events, and one that receives the second only.
use zephyr_samples.Base.{ℕ, ◌≡◌, refl, pos, List, [], ◌∷◌, Log, Env}
use zephyr_samples.Kernel.Events.{EventCall, print_event, has_bit, report}
use zephyr_samples.Kernel.Events.Posting
use zephyr_samples.Kernel.Events.Two

-- The bits reported, the latest first.
abbrev reported : Log EventCall → List ℕ
reported [] = []
reported ((print_event b, r) ∷ log) = b ∷ reported log
reported ((c, r) ∷ log) = reported log

abbrev returning : ℕ → Env EventCall
returning event = record { result = λ log c. pos event; bytes = λ log c. [] }

both : reported (Posting.consumer_round (returning 9) tt []).2 ≡ 3 ∷ 0 ∷ []
unfolding Posting.consumer_round Posting.process_event has_bit report
both = refl

second : reported (Two.consumer_round (returning 4) tt []).2 ≡ 2 ∷ []
unfolding Two.consumer_round has_bit report
second = refl
