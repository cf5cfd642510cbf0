-- ===== src/Kernel/Pool/Runs.antt =====
-- All schedules of the two threads that share a pool of nodes.
use zephyr_samples.Base.{
  ℕ, zero, suc, ◌%◌, ◌≡◌, refl, sym, ◌∙◌, Bool, true, false, List, [], ◌∷◌, ◌++◌, Log, Env,
  if◌then◌else◌, ltb, is_zero, to_ℕ, has_message, arith, length, length-append,
}
use mathlib.Core.List.{append-nil}
use zephyr_samples.Kernel.HeapQueue.Order.{front}
use zephyr_samples.Kernel.Pool.{
  Queue, k_queue, alloc_queue, k_fifo, k_lifo, PoolCall, queue_is_empty, queue_get, Threads,
  SendPoint, looping, filling, putting, send_sleeping, ReceivePoint, receive_sleeping, testing,
  getting, printing, send_step, receive_step, Turn, sender, receiver, Config, step, run, start,
}
use zephyr_samples.Kernel.Pool.Order.{
  queued, Intact, Kernel, printed, taken, in_turn, tens, in_hand, Ordered, Inv, Filled-write,
  Filled-enter, Filled-behind, Filled-front, Message-enter, Ordered-enter, Ordered-behind,
  tens-append,
}

-- What the sender's test of `i`, and the queue, returned.
after_loop :
    (b : Bool) (q : Queue) (rp : ReceivePoint) (s : Threads) (log : Log PoolCall) (n : ℕ)
    → b ≡ ltb s.i 5
    → Inv q looping rp s log n
    → Inv q (if b then filling else send_sleeping) rp s log n
after_loop true q rp s log n e (lines, order, full, rx, msg, (few, i), ready) =
    (lines, order, full, rx, msg, ground (arith, e, i), tt)
after_loop false q rp s log n e (lines, order, full, rx, msg, (few, i), ready) =
    (lines, order, full, rx, msg, ground (arith, e, few, i), tt)

after_test :
    (b : Bool) (q : Queue) (sp : SendPoint) (s : Threads) (log : Log PoolCall) (n : ℕ)
    → b ≡ has_message (queued log)
    → Inv q sp testing s log n
    → Inv q sp (if b then getting else receive_sleeping) s log n
after_test true q sp s log n e (lines, order, full, rx, msg, i, ready) =
    (lines, order, full, rx, sym e, i, ready)
after_test false q sp s log n e (lines, order, full, rx, msg, i, ready) =
    (lines, order, full, rx, tt, i, ready)

length-in_turn : (n : ℕ) → length (in_turn n) ≡ n
length-in_turn zero = refl
length-in_turn (suc n) = omega (arith, length-in_turn n, length-append (in_turn n) (n % 5 ∷ []))

in_turn-length : (ps : List ℕ) (n : ℕ) → ps ≡ in_turn n → ps ≡ in_turn (length ps)
in_turn-length ps n h = rw (h, length-in_turn n) refl

Ordered-length :
    (q : Queue) (ps qs : List ℕ) (n : ℕ) → Ordered q ps qs n → Ordered q ps qs (length (ps ++ qs))
Ordered-length k_lifo ps qs n h = tt
Ordered-length k_queue ps qs n h = in_turn-length (ps ++ qs) n h
Ordered-length alloc_queue ps qs n h = in_turn-length (ps ++ qs) n h
Ordered-length k_fifo ps qs n h = in_turn-length (ps ++ qs) n h

Ordered-none : (q : Queue) → Ordered q [] [] 0
Ordered-none k_lifo = tt
Ordered-none k_queue = refl
Ordered-none alloc_queue = refl
Ordered-none k_fifo = refl

abbrev Holds : Queue → Config → ℕ → Type 0
Holds q c n = Inv q c.send_point c.receive_point c.threads c.log n

module _ (env : Env PoolCall) (q : Queue) where
  send-Inv :
      (sp : SendPoint) (rp : ReceivePoint) (s : Threads) (log : Log PoolCall) (n : ℕ)
      → Intact (send_step q sp env s log).2
      → Inv q sp rp s log n
      → let (p, s', log') = send_step q sp env s log in (n' : ℕ) × Inv q p rp s' log' n'
  unfolding send_step queued Intact
  send-Inv looping rp s log n k h = (n, after_loop (ltb s.i 5) q rp s log n refl h)
  send-Inv filling rp s log n k (lines, order, full, rx, msg, i, ready) = (
    n,
    (
      lines,
      order,
      Filled-write s.mem_pool s.i (queued log) full,
      Filled-write s.mem_pool s.i (in_hand rp s.rx_data) rx,
      msg,
      i,
      ground arith,
    ),
  )
  send-Inv putting rp s log n (out, ok, k) (lines, order, full, rx, msg, i, ready) = rw ok (
    suc n,
    (
      lines,
      Ordered-enter q (taken log) (queued log) s.i n order i,
      Filled-enter q s.mem_pool s.i (queued log) full ready,
      rx,
      Message-enter rp q s.i (queued log),
      (omega (arith, i), omega (arith, i)),
      tt,
    ),
  )
  send-Inv send_sleeping rp s log n k (lines, order, full, rx, msg, i, ready) =
      (n, (lines, order, full, rx, msg, (omega arith, omega (arith, i)), tt))

  module _ (kernel : Kernel env q) where
    receive-Inv :
        (rp : ReceivePoint) (sp : SendPoint) (s : Threads) (log : Log PoolCall) (n : ℕ)
        → Intact log
        → Inv q sp rp s log n
        → let (p, s', log') = receive_step q rp env s log in Inv q sp p s' log' n
    unfolding receive_step queued Kernel
    receive-Inv receive_sleeping sp s log n k h = h
    receive-Inv testing sp s log n k h =
        after_test (is_zero (env.result log (queue_is_empty q))) q sp s log n (kernel log k).0 h
    receive-Inv getting sp s log n k (lines, order, full, rx, msg, i, ready) =
        let got : to_ℕ (env.result log (queue_get q)) ≡ front (queued log) = (kernel log k).1 in
        let lines' : printed log ≡ tens (taken log) = sym (append-nil (printed log)) ∙ lines in
        rw got (
          rw lines' (sym (tens-append (taken log) (front (queued log)))),
          Ordered-behind q (taken log) (queued log) n msg order,
          Filled-behind s.mem_pool (queued log) full,
          Filled-front s.mem_pool (queued log) msg full,
          tt,
          i,
          ready,
        )
    receive-Inv printing sp s log n k (lines, order, full, (rx, _), msg, i, ready) = (
      append-nil (printed log ++ s.mem_pool s.rx_data ∷ []) ∙ rw rx lines,
      order,
      full,
      tt,
      tt,
      i,
      ready,
    )

  -- The links were intact before the turn.
  send-before :
      (sp : SendPoint) (s : Threads) (log : Log PoolCall)
      → Intact (send_step q sp env s log).2
      → Intact log
  unfolding send_step Intact
  send-before looping s log k = k
  send-before filling s log k = k
  send-before putting s log (f, a, k) = k
  send-before send_sleeping s log k = k

  receive-before :
      (rp : ReceivePoint) (s : Threads) (log : Log PoolCall)
      → Intact (receive_step q rp env s log).2
      → Intact log
  unfolding receive_step Intact
  receive-before receive_sleeping s log k = k
  receive-before testing s log k = k
  receive-before getting s log k = k
  receive-before printing s log k = k

  step-before : (t : Turn) (c : Config) → Intact (step env q t c).log → Intact c.log
  unfolding step
  step-before sender c k = send-before c.send_point c.threads c.log k
  step-before receiver c k = receive-before c.receive_point c.threads c.log k

  start-Holds : (rx : ℕ) → Holds q (start rx) 0
  unfolding queued
  start-Holds rx = (refl, Ordered-none q, tt, tt, tt, (omega arith, refl), tt)

  module _ (kernel : Kernel env q) where
    step-Holds :
        (t : Turn) (c : Config) (n : ℕ)
        → Intact (step env q t c).log
        → Holds q c n
        → (n' : ℕ) × Holds q (step env q t c) n'
    unfolding step
    step-Holds sender c n k h = send-Inv c.send_point c.receive_point c.threads c.log n k h
    step-Holds receiver c n k h = (
      n,
      receive-Inv kernel c.receive_point c.send_point c.threads c.log n
          (receive-before c.receive_point c.threads c.log k) h,
    )

    run-Holds :
        (ts : List Turn) (rx : ℕ)
        → Intact (run env q ts (start rx)).log
        → (n : ℕ) × Holds q (run env q ts (start rx)) n
    unfolding run
    run-Holds [] rx k = (0, start-Holds rx)
    run-Holds (t ∷ ts) rx k =
        let before : Intact (run env q ts (start rx)).log =
          step-before t (run env q ts (start rx)) k in
        let (n, h) = run-Holds ts rx before in step-Holds t (run env q ts (start rx)) n k h

    -- By every schedule that puts no node while its own link is in the queue, and where there is memory
    -- for each link that _03 allocates: the lines printed, with the
    -- one in hand, are ten times the nodes taken, in their order, so that a node which is filled again
    -- never shows another number. But for the stack of _06, the nodes taken, with those in the queue,
    -- are 0 to 4 over and over.
    pub run-in_turn :
        (schedule : List Turn) (rx : ℕ)
        → Intact (run env q schedule (start rx)).log
        → let c = run env q schedule (start rx) in
          (printed c.log ++ tens (in_hand c.receive_point c.threads.rx_data) ≡ tens (taken c.log))
          × Ordered q (taken c.log) (queued c.log) (length (taken c.log ++ queued c.log))
    run-in_turn schedule rx k =
        let c : Config = run env q schedule (start rx) in
        let (n, (lines, order, full, rx_full, msg, i, ready)) = run-Holds schedule rx k in
        (lines, Ordered-length q (taken c.log) (queued c.log) n order)
