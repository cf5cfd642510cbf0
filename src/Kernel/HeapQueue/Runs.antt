-- ===== src/Kernel/HeapQueue/Runs.antt =====
-- kernel/QUEUES/_04_using_dynamic_memory: all schedules of the two threads.
use zephyr_samples.Base.{
  ℕ, zero, suc, ◌%◌, ◌^◌, ◌≡◌, refl, List, [], ◌∷◌, ◌++◌, Env, length, length-append, arith,
}
use zephyr_samples.Kernel.HeapQueue.{HeapCall, Turn, sender, receiver, Config, step, run, start}
use zephyr_samples.Kernel.HeapQueue.Order.{
  queued, live, printed, up_to, Kernel, received, allocated, filled, values, Inv,
}
use zephyr_samples.Kernel.HeapQueue.Steps.{send-Inv, receive-Inv}

length-up_to : (n : ℕ) → length (up_to n) ≡ n
length-up_to zero = refl
length-up_to (suc n) = omega (arith, length-up_to n, length-append (up_to n) (n % 2 ^ 32 ∷ []))

up_to-length : (n : ℕ) (ps : List ℕ) → ps ≡ up_to n → ps ≡ up_to (length ps)
up_to-length n ps h = rw (h, length-up_to n) refl

abbrev Holds : Config → ℕ → Type 0
Holds c a = Inv c.send_point c.receive_point c.threads c.log a

module _ (env : Env HeapCall) (kernel : Kernel env) where
  step-Inv : (t : Turn) (c : Config) (a : ℕ) → Holds c a → (a' : ℕ) × Holds (step env t c) a'
  unfolding step
  step-Inv sender c a h = (a, send-Inv env kernel c.send_point c.receive_point c.threads c.log a h)
  step-Inv receiver c a h = receive-Inv env kernel c.send_point c.receive_point c.threads c.log a h

  run-Inv : (ts : List Turn) (c : Config) (a : ℕ) → Holds c a → (a' : ℕ) × Holds (run env ts c) a'
  unfolding run
  run-Inv [] c a h = (a, h)
  run-Inv (t ∷ ts) c a h = let (a', h') = step-Inv t c a h in run-Inv ts (step env t c) a' h'

  start-Inv : (node rx : ℕ) (mem : ℕ → ℕ) → Holds (start node rx mem) 0
  unfolding start live queued printed received allocated filled values
  start-Inv node rx mem = ((refl, tt, refl, refl, tt), tt)

  -- By every schedule of the two threads, with a heap that gives NULL or a free block and a queue
  -- that is first in, first out: the receiver prints 0, 1, 2, … in order, as uint32_t, none lost and
  -- none twice, and the blocks in use are those that the receiver, the queue and the sender hold, so
  -- that no block leaks.
  pub run-in_order :
      (schedule : List Turn) (node rx : ℕ) (mem : ℕ → ℕ)
      → let c = run env schedule (start node rx mem) in
        (printed c.log ≡ up_to (length (printed c.log)))
        × (live c.log
            ≡ (received c.receive_point c.threads.rx_data ++ queued c.log)
              ++ allocated c.send_point c.threads.ptr_node)
  run-in_order schedule node rx mem =
      let c : Config = run env schedule (start node rx mem) in
      let (a, ((blocks, numbers, count, out, new), msg)) =
        run-Inv schedule (start node rx mem) 0 (start-Inv node rx mem) in
      (up_to-length (values c.receive_point a) (printed c.log) out, blocks)
