-- ===== src/Kernel/Pool/Tests.antt =====
-- Five nodes put, then taken, by a queue and by a stack; and a node that is put twice.
use zephyr_samples.Base.{
  ℕ, zero, suc, ◌≡◌, refl, ℤ, pos, List, [], ◌∷◌, ◌++◌, Log, Env, if◌then◌else◌, length,
  has_message, behind, arith,
}
use zephyr_samples.Kernel.HeapQueue.Order.{elem, front}
use zephyr_samples.Kernel.Pool.{
  Queue, k_fifo, k_lifo, PoolCall, queue_is_empty, queue_get, send_step, receive_step, Turn, sender,
  receiver, step, run, start,
}
use zephyr_samples.Kernel.Pool.Order.{
  enter, accepts, queued, free, Intact, Kernel, printed, taken, tens, in_hand, Ordered,
}
use zephyr_samples.Kernel.Pool.Runs.{run-in_turn}

abbrev answer : PoolCall → Log PoolCall → ℤ
answer (queue_is_empty q) log = if has_message (queued log) then pos 0 else pos 1
answer (queue_get q) log = pos (front (queued log))
answer c log = pos 0

abbrev intact_env : Env PoolCall
intact_env = record { result = λ log c. answer c log; bytes = λ log c. [] }

intact_env-Kernel : (q : Queue) → Kernel intact_env q
unfolding Kernel
intact_env-Kernel q log k = (ground arith, refl)

times : ℕ → List Turn → List Turn
times zero ts = []
times (suc n) ts = ts ++ times n ts

-- 16 statements fill the queue and go to sleep, 16 empty it; the latest first.
abbrev round : List Turn
round = times 17 (receiver ∷ []) ++ times 16 (sender ∷ [])

round-fifo : printed (run intact_env k_fifo round (start 9)).log ≡ 0 ∷ 10 ∷ 20 ∷ 30 ∷ 40 ∷ []
unfolding run step send_step receive_step queued accepts enter times has_message front behind
round-fifo = refl

round-lifo : printed (run intact_env k_lifo round (start 9)).log ≡ 40 ∷ 30 ∷ 20 ∷ 10 ∷ 0 ∷ []
unfolding run step send_step receive_step queued accepts enter times has_message front behind
round-lifo = refl

run-in_turn_example :
    let c = run intact_env k_fifo round (start 9) in
    (printed c.log ++ tens (in_hand c.receive_point c.threads.rx_data) ≡ tens (taken c.log))
    × Ordered k_fifo (taken c.log) (queued c.log) (length (taken c.log ++ queued c.log))
unfolding run step send_step receive_step queued accepts enter times free elem Intact has_message
    front behind
run-in_turn_example =
    run-in_turn intact_env k_fifo (intact_env-Kernel k_fifo) round 9
      (refl, refl, (refl, refl, (refl, refl, (refl, refl, (refl, refl, tt)))))
