-- ===== src/Kernel/HeapQueue/Steps.antt =====
-- kernel/QUEUES/_04_using_dynamic_memory: one statement of a thread against the invariant.
use mathlib.Core.List.{append_assoc, append-nil}
use zephyr_samples.Base.{
  ℕ, suc, ◌+◌, ◌%◌, ◌^◌, ◌≡◌, refl, sym, ◌∙◌, Bool, true, false, List, [], ◌∷◌, ◌++◌, Log, Env,
  if◌then◌else◌, ◌==◌, is_zero, to_ℕ, behind, has_message, length, length-append, arith,
}
use zephyr_samples.Kernel.HeapQueue.{
  HeapCall, k_heap_alloc, k_queue_is_empty, k_queue_get, Threads, SendPoint, allocating, filling,
  appending, send_sleeping, ReceivePoint, receive_sleeping, testing, getting, printing, freeing,
  send_step, receive_step,
}
use zephyr_samples.Kernel.HeapQueue.Order.{
  elem, remove, queued, live, printed, front, Kernel, received, allocated, filled, Numbered,
  NewNode, Message, values, Held, Inv,
}

front-behind : (ps : List ℕ) → has_message ps ≡ true → front ps ∷ behind ps ≡ ps
unfolding has_message front behind
front-behind [] h = ground (arith, h)
front-behind (p ∷ ps) h = refl

remove-head : (p : ℕ) (ps : List ℕ) → remove p (p ∷ ps) ≡ ps
unfolding remove
remove-head p ps = ground arith

elem-tail : (p q : ℕ) (ps : List ℕ) → elem p (q ∷ ps) ≡ false → elem p ps ≡ false
unfolding elem
elem-tail p q ps h = ground (arith, h)

elem-head : (p q : ℕ) (ps : List ℕ) → elem p (q ∷ ps) ≡ false → (q == p) ≡ false
unfolding elem
elem-head p q ps h = ground (arith, h)

-- A value put into a new last node, and the others as they were.
Numbered-append :
    (mem : ℕ → ℕ) (p v a : ℕ) (ps : List ℕ)
    → elem p ps ≡ false
    → Numbered mem a ps
    → v ≡ (a + length ps) % 2 ^ 32
    → Numbered (λ q. if q == p then v else mem q) a (ps ++ p ∷ [])
Numbered-append mem p v a [] new h e = (ground (arith, e), tt)
Numbered-append mem p v a (q ∷ qs) new (h, hs) e =
    let other : (q == p) ≡ false = elem-head p q qs new in
    (
      rw (other, h) refl,
      Numbered-append mem p v (suc a) qs (elem-tail p q qs new) hs (omega (arith, e)),
    )

Message-append :
    (rp : ReceivePoint) (p : ℕ) (ps : List ℕ) → Message rp ps → Message rp (ps ++ p ∷ [])
unfolding has_message
Message-append getting p [] h = refl
Message-append getting p (q ∷ qs) h = refl
Message-append receive_sleeping p ps h = tt
Message-append testing p ps h = tt
Message-append printing p ps h = tt
Message-append freeing p ps h = tt

-- What `k_heap_alloc` returned, as the point after it sees it.
allocated-new :
    (b : Bool) (r : ℕ) (ps blocks : List ℕ)
    → blocks ≡ ps
    → (if b then blocks else blocks ++ r ∷ [])
      ≡ ps ++ allocated (if b then send_sleeping else filling) r
unfolding allocated
allocated-new true r ps blocks h = h ∙ sym (append-nil ps)
allocated-new false r ps blocks h = rw h refl

filled-none : (b : Bool) (r : ℕ) → filled (if b then send_sleeping else filling) r ≡ []
unfolding filled
filled-none true r = refl
filled-none false r = refl

NewNode-new :
    (b : Bool) (r : ℕ) (ps : List ℕ)
    → elem r ps ≡ false
    → NewNode (if b then send_sleeping else filling) r ps
NewNode-new true r ps h = tt
NewNode-new false r ps h = h

NewNode-tail : (sp : SendPoint) (p q : ℕ) (ps : List ℕ) → NewNode sp p (q ∷ ps) → NewNode sp p ps
NewNode-tail filling p q ps h = elem-tail p q ps h
NewNode-tail allocating p q ps h = tt
NewNode-tail appending p q ps h = tt
NewNode-tail send_sleeping p q ps h = tt

-- What `k_queue_is_empty` returned, as the point after it sees it.
after_test :
    (b : Bool) (sp : SendPoint) (s : Threads) (log : Log HeapCall) (a : ℕ)
    → b ≡ has_message (queued log)
    → Inv sp testing s log a
    → Inv sp (if b then getting else receive_sleeping) s log a
unfolding received values
after_test true sp s log a e ((blocks, numbers, count, out, new), msg) =
    ((blocks, numbers, count, out, new), sym e)
after_test false sp s log a e ((blocks, numbers, count, out, new), msg) =
    ((blocks, numbers, count, out, new), tt)

Held-same :
    (ps qs : List ℕ) (sp : SendPoint) (s : Threads) (log : Log HeapCall) (a : ℕ)
    → qs ≡ ps
    → Held ps sp getting s log a
    → Held qs sp getting s log a
Held-same ps qs sp s log a e h = rw e h

module _ (env : Env HeapCall) (kernel : Kernel env) where
  pub send-Inv :
      (sp : SendPoint) (rp : ReceivePoint) (s : Threads) (log : Log HeapCall) (a : ℕ)
      → Inv sp rp s log a
      → let (p, s', log') = send_step sp env s log in Inv p rp s' log' a
  unfolding send_step live queued printed allocated filled Kernel
  send-Inv send_sleeping rp s log a h = h
  send-Inv allocating rp s log a ((blocks, numbers, count, out, new), msg) =
      let r : ℕ = to_ℕ (env.result log k_heap_alloc) in
      let ps : List ℕ = received rp s.rx_data ++ queued log in
      let free : live log ≡ ps = blocks ∙ append-nil ps in
      (
        (
          allocated-new (r == 0) r ps (live log) free,
          rw (filled-none (r == 0) r) numbers,
          rw (filled-none (r == 0) r) count,
          out,
          NewNode-new (r == 0) r ps (rw (← free) (kernel log).0),
        ),
        msg,
      )
  send-Inv filling rp s log a ((blocks, numbers, count, out, new), msg) =
      let ps : List ℕ = received rp s.rx_data ++ queued log in
      let held : Numbered s.memory a ps = rw (← append-nil ps) numbers in
      let next : s.count ≡ (a + length ps) % 2 ^ 32 = rw (← append-nil ps) count in
      (
        (
          blocks,
          Numbered-append s.memory s.ptr_node s.count a ps new held next,
          omega (arith, next, length-append ps (s.ptr_node ∷ [])),
          out,
          tt,
        ),
        msg,
      )
  send-Inv appending rp s log a ((blocks, numbers, count, out, new), msg) =
      let qs : List ℕ = queued log ++ s.ptr_node ∷ [] in
      let e : (received rp s.rx_data ++ queued log) ++ s.ptr_node ∷ []
          ≡ (received rp s.rx_data ++ qs) ++ [] =
        append_assoc (received rp s.rx_data) (queued log) (s.ptr_node ∷ [])
        ∙ sym (append-nil (received rp s.rx_data ++ qs)) in
      (
        (blocks ∙ e, rw (← e) numbers, rw (← e) count, out, tt),
        Message-append rp s.ptr_node (queued log) msg,
      )

  pub receive-Inv :
      (sp : SendPoint) (rp : ReceivePoint) (s : Threads) (log : Log HeapCall) (a : ℕ)
      → Inv sp rp s log a
      → let (p, s', log') = receive_step rp env s log in (a' : ℕ) × Inv sp p s' log' a'
  unfolding receive_step live queued printed received values Kernel
  receive-Inv sp receive_sleeping s log a h = (a, h)
  receive-Inv sp testing s log a h =
      (a, after_test (is_zero (env.result log k_queue_is_empty)) sp s log a (kernel log).1 h)
  receive-Inv sp getting s log a (h, msg) =
      let e : to_ℕ (env.result log k_queue_get) ∷ behind (queued log) ≡ queued log =
        rw ((kernel log).2) (front-behind (queued log) msg) in
      (
        a,
        (
          Held-same (queued log) (to_ℕ (env.result log k_queue_get) ∷ behind (queued log)) sp s log
              a e h,
          tt,
        ),
      )
  receive-Inv sp printing s log a ((blocks, (value, numbers), count, out, new), msg) =
      (a, ((blocks, (value, numbers), count, rw (out, value) refl, new), tt))
  receive-Inv sp freeing s log a ((blocks, (value, numbers), count, out, new), msg) = (
    suc a,
    (
      (
        rw (blocks) (remove-head s.rx_data (queued log ++ allocated sp s.ptr_node)),
        numbers,
        omega (arith, count),
        out,
        NewNode-tail sp s.ptr_node s.rx_data (queued log) new,
      ),
      tt,
    ),
  )
