-- ===== src/Kernel/Pool/Order.antt =====
-- The nodes in the queue of a pool, over a log, and the invariant of its two threads.
use mathlib.Core.List.{append_assoc}
use zephyr_samples.Base.{
  ℕ, zero, suc, ℤ, ◌*◌, ◌%◌, ◌≤◌, ◌≡◌, refl, sym, ◌∙◌, ap, Bool, true, not, List, [], ◌∷◌, ◌++◌,
  Log, Env, if◌then◌else◌, ◌==◌, is_zero, to_ℕ, behind, has_message, map, arith,
}
use zephyr_samples.Kernel.HeapQueue.Order.{elem, front}
use zephyr_samples.Kernel.Pool.{
  Queue, k_queue, alloc_queue, k_fifo, k_lifo, PoolCall, queue_put, queue_is_empty, queue_get,
  print_data, Threads, SendPoint, looping, putting, send_sleeping, ReceivePoint, receive_sleeping,
  testing, getting, printing,
}

unfoldable pub enter : Queue → ℕ → List ℕ → List ℕ
enter k_lifo p ps = p ∷ ps
enter q p ps = ps ++ p ∷ []

-- Whether a node was taken: one with a link from the heap only where there was memory, and 0 returned.
unfoldable pub accepts : Queue → ℤ → Bool
accepts alloc_queue r = is_zero r
accepts q r = true

-- The nodes in the queue, the next one first.
unfoldable pub queued : Log PoolCall → List ℕ
queued [] = []
queued ((queue_put q p, r) ∷ log) = if accepts q r then enter q p (queued log) else queued log
queued ((queue_get q, r) ∷ log) = behind (queued log)
queued ((c, r) ∷ log) = queued log

-- Whether a node can enter: a node that holds its own link must not be in the queue.
unfoldable pub free : Queue → ℕ → List ℕ → Bool
free alloc_queue p ps = true
free q p ps = not (elem p ps)

-- Each node was out of the queue when it was put, and was taken.
unfoldable pub Intact : Log PoolCall → Type 0
Intact [] = Unit {0}
Intact ((queue_put q p, r) ∷ log) =
    (free q p (queued log) ≡ true) × (accepts q r ≡ true) × Intact log
Intact ((c, r) ∷ log) = Intact log

-- What the kernel returns for a queue whose links are intact.
unfoldable pub Kernel : Env PoolCall → Queue → Type 0
Kernel env q =
    (log : Log PoolCall)
    → Intact log
    → (is_zero (env.result log (queue_is_empty q)) ≡ has_message (queued log))
      × (to_ℕ (env.result log (queue_get q)) ≡ front (queued log))

-- The values printed, and the nodes taken, in order.
abbrev pub printed : Log PoolCall → List ℕ
printed [] = []
printed ((print_data v, r) ∷ log) = printed log ++ v ∷ []
printed ((c, r) ∷ log) = printed log

abbrev pub taken : Log PoolCall → List ℕ
taken [] = []
taken ((queue_get q, r) ∷ log) = taken log ++ to_ℕ r ∷ []
taken ((c, r) ∷ log) = taken log

-- 0, 1, 2, 3, 4, 0, 1 and so on.
abbrev pub in_turn : ℕ → List ℕ
in_turn zero = []
in_turn (suc n) = in_turn n ++ n % 5 ∷ []

abbrev pub tens : List ℕ → List ℕ
tens ps = map (λ p. p * 10) ps

-- The node that the receiver has still to print.
abbrev pub in_hand : ReceivePoint → ℕ → List ℕ
in_hand printing p = p ∷ []
in_hand rp p = []

abbrev pub Message : ReceivePoint → List ℕ → Type 0
Message getting ps = has_message ps ≡ true
Message rp ps = Unit {0}

abbrev pub Filled : (ℕ → ℕ) → List ℕ → Type 0
Filled mem [] = Unit {0}
Filled mem (p ∷ ps) = (mem p ≡ p * 10) × Filled mem ps

-- The sender has put `n` nodes.
abbrev pub Index : SendPoint → ℕ → ℕ → Type 0
Index looping i n = (i ≤ 5) × (n % 5 ≡ i % 5)
Index send_sleeping i n = n % 5 ≡ 0
Index sp i n = n % 5 ≡ i

abbrev pub Ready : SendPoint → (ℕ → ℕ) → ℕ → Type 0
Ready putting mem i = mem i ≡ i * 10
Ready sp mem i = Unit {0}

abbrev pub Ordered : Queue → List ℕ → List ℕ → ℕ → Type 0
Ordered k_lifo ps qs n = Unit {0}
Ordered q ps qs n = ps ++ qs ≡ in_turn n

abbrev pub Inv : Queue → SendPoint → ReceivePoint → Threads → Log PoolCall → ℕ → Type 0
Inv q sp rp s log n =
    (printed log ++ tens (in_hand rp s.rx_data) ≡ tens (taken log))
    × Ordered q (taken log) (queued log) n
    × Filled s.mem_pool (queued log)
    × Filled s.mem_pool (in_hand rp s.rx_data)
    × Message rp (queued log)
    × Index sp s.i n
    × Ready sp s.mem_pool s.i

pub Filled-write :
    (mem : ℕ → ℕ) (i : ℕ) (ps : List ℕ)
    → Filled mem ps
    → Filled (λ p. if p == i then i * 10 else mem p) ps
Filled-write mem i [] h = tt
Filled-write mem i (p ∷ ps) (h, k) = (ground (arith, h), Filled-write mem i ps k)

Filled-append :
    (mem : ℕ → ℕ) (p : ℕ) (ps : List ℕ) → Filled mem ps → mem p ≡ p * 10 → Filled mem (ps ++ p ∷ [])
Filled-append mem p [] h e = (e, tt)
Filled-append mem p (k ∷ ks) (a, h) e = (a, Filled-append mem p ks h e)

pub Filled-enter :
    (q : Queue) (mem : ℕ → ℕ) (p : ℕ) (ps : List ℕ)
    → Filled mem ps
    → mem p ≡ p * 10
    → Filled mem (enter q p ps)
unfolding enter
Filled-enter k_lifo mem p ps h e = (e, h)
Filled-enter k_queue mem p ps h e = Filled-append mem p ps h e
Filled-enter alloc_queue mem p ps h e = Filled-append mem p ps h e
Filled-enter k_fifo mem p ps h e = Filled-append mem p ps h e

pub Filled-behind : (mem : ℕ → ℕ) (ps : List ℕ) → Filled mem ps → Filled mem (behind ps)
unfolding behind
Filled-behind mem [] h = tt
Filled-behind mem (p ∷ ps) (e, h) = h

pub Filled-front :
    (mem : ℕ → ℕ) (ps : List ℕ) → has_message ps ≡ true → Filled mem ps → Filled mem (front ps ∷ [])
unfolding has_message front
Filled-front mem [] m h = ground (arith, m)
Filled-front mem (p ∷ ps) m (e, h) = (e, tt)

front-behind : (ps : List ℕ) → has_message ps ≡ true → front ps ∷ behind ps ≡ ps
unfolding has_message front behind
front-behind [] m = ground (arith, m)
front-behind (p ∷ ps) m = refl

has_message-append : (ps : List ℕ) (p : ℕ) → has_message (ps ++ p ∷ []) ≡ true
unfolding has_message
has_message-append [] p = refl
has_message-append (k ∷ ks) p = refl

has_message-enter : (q : Queue) (p : ℕ) (ps : List ℕ) → has_message (enter q p ps) ≡ true
unfolding has_message enter
has_message-enter k_lifo p ps = refl
has_message-enter k_queue p ps = has_message-append ps p
has_message-enter alloc_queue p ps = has_message-append ps p
has_message-enter k_fifo p ps = has_message-append ps p

pub Message-enter :
    (rp : ReceivePoint) (q : Queue) (p : ℕ) (ps : List ℕ) → Message rp (enter q p ps)
Message-enter getting q p ps = has_message-enter q p ps
Message-enter receive_sleeping q p ps = tt
Message-enter testing q p ps = tt
Message-enter printing q p ps = tt

put_last :
    (ps qs : List ℕ) (p n : ℕ)
    → ps ++ qs ≡ in_turn n
    → n % 5 ≡ p
    → ps ++ (qs ++ p ∷ []) ≡ in_turn (suc n)
put_last ps qs p n h e = sym (append_assoc ps qs (p ∷ [])) ∙ rw (h, e) refl

pub Ordered-enter :
    (q : Queue) (ps qs : List ℕ) (p n : ℕ)
    → Ordered q ps qs n
    → n % 5 ≡ p
    → Ordered q ps (enter q p qs) (suc n)
unfolding enter
Ordered-enter k_lifo ps qs p n h e = tt
Ordered-enter k_queue ps qs p n h e = put_last ps qs p n h e
Ordered-enter alloc_queue ps qs p n h e = put_last ps qs p n h e
Ordered-enter k_fifo ps qs p n h e = put_last ps qs p n h e

take_first :
    (ps qs : List ℕ) (n : ℕ)
    → has_message qs ≡ true
    → ps ++ qs ≡ in_turn n
    → (ps ++ front qs ∷ []) ++ behind qs ≡ in_turn n
take_first ps qs n m h =
    append_assoc ps (front qs ∷ []) (behind qs) ∙ ap (λ l. ps ++ l) (front-behind qs m) ∙ h

pub Ordered-behind :
    (q : Queue) (ps qs : List ℕ) (n : ℕ)
    → has_message qs ≡ true
    → Ordered q ps qs n
    → Ordered q (ps ++ front qs ∷ []) (behind qs) n
Ordered-behind k_lifo ps qs n m h = tt
Ordered-behind k_queue ps qs n m h = take_first ps qs n m h
Ordered-behind alloc_queue ps qs n m h = take_first ps qs n m h
Ordered-behind k_fifo ps qs n m h = take_first ps qs n m h

pub tens-append : (ps : List ℕ) (p : ℕ) → tens (ps ++ p ∷ []) ≡ tens ps ++ (p * 10) ∷ []
tens-append [] p = refl
tens-append (k ∷ ks) p = ap (λ l. (k * 10) ∷ l) (tens-append ks p)
