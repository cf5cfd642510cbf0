-- ===== src/Kernel/MsgQueue/Draining/Runs.antt =====
-- All schedules of the two threads of _04_reading_all_messages.
use zephyr_samples.Base.{
  ℕ, zero, suc, ◌+◌, ◌%◌, ◌^◌, ◌≤◌, ◌≡◌, refl, List, [], ◌∷◌, ◌++◌, Env, length, length-append,
  arith,
}
use zephyr_samples.Kernel.MsgQueue.{MsgCall, queued, Fifo}
use zephyr_samples.Kernel.MsgQueue.Draining.{Turn, sender, receiver, Config, step, run, start}
use zephyr_samples.Kernel.MsgQueue.Draining.Order.{
  printed, refused, counted, in_hand, pending, Inv, send-Inv, receive-Inv,
}

length-counted : (n : ℕ) → length (counted n) ≡ n
length-counted zero = refl
length-counted (suc n) =
    omega (arith, length-counted n, length-append (counted n) ((n + 1) % 2 ^ 32 ∷ []))

pub counted-length : (n : ℕ) (ms : List ℕ) → ms ≡ counted n → ms ≡ counted (length ms)
counted-length n ms h = rw (h, length-counted n) refl

abbrev Holds : Config → ℕ → Type 0
Holds c n = Inv c.send_point c.receive_point c.threads c.log n

module _ (env : Env MsgCall) (fifo : Fifo 10 env) where
  step-Inv : (t : Turn) (c : Config) (n : ℕ) → Holds c n → (n' : ℕ) × Holds (step env t c) n'
  unfolding step
  step-Inv sender c n h = send-Inv env fifo c.send_point c.receive_point c.threads c.log n h
  step-Inv receiver c n h =
      (n, receive-Inv env fifo c.send_point c.receive_point c.threads c.log n h)

  run-Inv : (ts : List Turn) (c : Config) (n : ℕ) → Holds c n → (n' : ℕ) × Holds (run env ts c) n'
  unfolding run
  run-Inv [] c n h = (n, h)
  run-Inv (t ∷ ts) c n h = let (n', h') = step-Inv t c n h in run-Inv ts (step env t c) n' h'

  start-Inv : (rx : ℕ) → Holds (start rx) 0
  unfolding start queued in_hand pending
  start-Inv rx = (refl, refl, refl, omega arith, tt, tt)

  -- By every schedule of the two threads, with a queue that holds ten messages, first in, first out:
  -- what the receiver has printed, has in hand and finds in the queue are 1, 2, 3 and so on, as
  -- uint32_t, none missing; the queue is never given more than it holds, so that it refuses none.
  pub run-counted :
      (schedule : List Turn) (rx : ℕ)
      → let c = run env schedule (start rx) in
        let ms = (printed c.log ++ in_hand c.receive_point c.threads.received) ++ queued c.log in
        (ms ≡ counted (length ms)) × (refused c.log ≡ 0) × (length (queued c.log) ≤ 10)
  run-counted schedule rx =
      let c : Config = run env schedule (start rx) in
      let (n, (order, sent, none, few, room, msg)) = run-Inv schedule (start rx) 0 (start-Inv rx) in
      (
        counted-length n
            ((printed c.log ++ in_hand c.receive_point c.threads.received) ++ queued c.log) order,
        none,
        few,
      )
