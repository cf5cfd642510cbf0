-- ===== src/Kernel/HeapQueue/Tests.antt =====
-- A concrete kernel: each block has an address of its own, and the queue is as its log says.
use zephyr_samples.Base.{
  ℕ, ◌+◌, ◌≤◌, ◌≡◌, refl, ℤ, pos, Bool, true, false, List, [], ◌∷◌, ◌++◌, Log, Env, arith, to_ℕ,
  is_zero, has_message, ◌==◌, length,
}
use zephyr_samples.Kernel.HeapQueue.{
  HeapCall, k_heap_alloc, k_heap_free, k_queue_append, k_queue_is_empty, k_queue_get, k_msleep,
  printk_data, Turn, sender, receiver, step, send_step, receive_step, run, start,
}
use zephyr_samples.Kernel.HeapQueue.Order.{
  Kernel, queued, live, elem, remove, front, printed, up_to, received, allocated,
}
use zephyr_samples.Kernel.HeapQueue.Runs.{run-in_order}

-- The address of a block: above all numbers that calls have returned.
abbrev fresh : Log HeapCall → ℕ
fresh [] = 1
fresh ((c, r) ∷ log) = fresh log + to_ℕ r

abbrev empty_flag : Bool → ℤ
empty_flag true = pos 0
empty_flag false = pos 1

abbrev answer : HeapCall → Log HeapCall → ℤ
answer k_heap_alloc log = pos (fresh log)
answer k_queue_is_empty log = empty_flag (has_message (queued log))
answer k_queue_get log = pos (front (queued log))
answer c log = pos 0

abbrev kernel_env : Env HeapCall
kernel_env = record { result = λ log c. answer c log; bytes = λ log c. [] }

elem-append :
    (p q : ℕ) (ps : List ℕ) → elem p ps ≡ false → (q == p) ≡ false → elem p (ps ++ q ∷ []) ≡ false
unfolding elem
elem-append p q [] h e = ground (arith, h, e)
elem-append p q (r ∷ rs) h e = let rest = elem-append p q rs in ground (arith, h, e, rest)

elem-remove : (p q : ℕ) (ps : List ℕ) → elem p ps ≡ false → elem p (remove q ps) ≡ false
unfolding elem remove
elem-remove p q [] h = h
elem-remove p q (r ∷ rs) h = let rest = elem-remove p q rs in ground (arith, h, rest)

fresh-positive : (log : Log HeapCall) → 1 ≤ fresh log
fresh-positive [] = omega arith
fresh-positive ((c, r) ∷ log) = let h = fresh-positive log in omega arith

elem-fresh : (p : ℕ) (log : Log HeapCall) → fresh log ≤ p → elem p (live log) ≡ false
unfolding live elem
elem-fresh p [] le = refl
elem-fresh p ((k_heap_alloc, r) ∷ log) le =
    let rest : elem p (live log) ≡ false = elem-fresh p log (omega (arith, le)) in
    let more = elem-append p (to_ℕ r) (live log) rest in
    ground (arith, le, rest, more, fresh-positive log)
elem-fresh p ((k_heap_free q, r) ∷ log) le =
    elem-remove p q (live log) (elem-fresh p log (omega (arith, le)))
elem-fresh p ((k_queue_append q, r) ∷ log) le = elem-fresh p log (omega (arith, le))
elem-fresh p ((k_queue_is_empty, r) ∷ log) le = elem-fresh p log (omega (arith, le))
elem-fresh p ((k_queue_get, r) ∷ log) le = elem-fresh p log (omega (arith, le))
elem-fresh p ((k_msleep t, r) ∷ log) le = elem-fresh p log (omega (arith, le))
elem-fresh p ((printk_data v, r) ∷ log) le = elem-fresh p log (omega (arith, le))

empty_flag-is_zero : (b : Bool) → is_zero (empty_flag b) ≡ b
empty_flag-is_zero true = refl
empty_flag-is_zero false = refl

kernel_env-Kernel : Kernel kernel_env
unfolding Kernel
kernel_env-Kernel log =
    (elem-fresh (fresh log) log (omega arith), empty_flag-is_zero (has_message (queued log)), refl)

-- Two nodes sent, the first received.
abbrev schedule : List Turn
schedule =
    sender ∷ sender ∷ sender ∷ sender ∷ sender ∷ sender ∷ receiver ∷ receiver ∷ receiver ∷ receiver
    ∷ receiver ∷ []

printed_first : printed (run kernel_env schedule (start 0 0 (λ q. 0))).log ≡ 0 ∷ []
unfolding run step send_step receive_step start printed has_message queued front
printed_first = refl

run-in_order_example :
    let c = run kernel_env schedule (start 0 0 (λ q. 0)) in
    (printed c.log ≡ up_to (length (printed c.log)))
    × (live c.log
        ≡ (received c.receive_point c.threads.rx_data ++ queued c.log)
          ++ allocated c.send_point c.threads.ptr_node)
run-in_order_example = run-in_order kernel_env kernel_env-Kernel schedule 0 0 (λ q. 0)
