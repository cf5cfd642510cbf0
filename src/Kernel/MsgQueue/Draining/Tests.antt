-- ===== src/Kernel/MsgQueue/Draining/Tests.antt =====
-- A concrete queue with room for ten messages, as its log says.
use zephyr_samples.Base.{
  ℕ, ◌-◌, ◌≤◌, ◌≡◌, refl, ℤ, pos, negsuc, List, [], ◌∷◌, ◌++◌, Log, Env, if◌then◌else◌, ltb,
  to_word, length, arith,
}
use zephyr_samples.Kernel.MsgQueue.{
  MsgCall, k_msgq_put, k_msgq_num_free_get, k_msgq_num_used_get, queued, Fifo,
}
use zephyr_samples.Kernel.MsgQueue.Draining.{
  Turn, sender, receiver, send_step, receive_step, step, run, start,
}
use zephyr_samples.Kernel.MsgQueue.Draining.Order.{printed, refused, counted, in_hand}
use zephyr_samples.Kernel.MsgQueue.Draining.Runs.{run-counted}

abbrev pub answer : MsgCall → Log MsgCall → ℤ
answer (k_msgq_put m) log = if ltb (length (queued log)) 10 then pos 0 else negsuc 34
answer k_msgq_num_free_get log = pos (10 - length (queued log))
answer k_msgq_num_used_get log = pos (length (queued log))
answer c log = pos 0

abbrev pub oldest : List ℕ → List ℕ
oldest [] = []
oldest (m ∷ ms) = m ∷ []

abbrev pub ten : Env MsgCall
ten = record { result = λ log c. answer c log; bytes = λ log c. oldest (queued log) }

pub ten-Fifo : Fifo 10 ten
unfolding Fifo to_word
ten-Fifo log = (
  (λ m. ((λ e. ground (arith, e)), (λ e. ground (arith, e)))),
  refl,
  refl,
  (λ m ms e. rw e (omega arith)),
)

-- Two messages put, and the first received.
abbrev schedule : List Turn
schedule =
    sender ∷ sender ∷ sender ∷ sender ∷ sender ∷ sender ∷ receiver ∷ receiver ∷ receiver ∷ receiver
    ∷ []

printed_first : printed (run ten schedule (start 7)).log ≡ 1 ∷ []
unfolding run step send_step receive_step start queued to_word
printed_first = refl

run-counted_example :
    let c = run ten schedule (start 7) in
    let ms = (printed c.log ++ in_hand c.receive_point c.threads.received) ++ queued c.log in
    (ms ≡ counted (length ms)) × (refused c.log ≡ 0) × (length (queued c.log) ≤ 10)
run-counted_example = run-counted ten ten-Fifo schedule 7
