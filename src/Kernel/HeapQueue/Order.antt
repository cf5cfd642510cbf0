-- ===== src/Kernel/HeapQueue/Order.antt =====
-- What a log of _04_using_dynamic_memory says of the heap and the queue, and the invariant of the two
-- threads.
use zephyr_samples.Base.{
  ℕ, zero, suc, ◌+◌, ◌%◌, ◌^◌, ◌≡◌, Bool, true, false, List, [], ◌∷◌, ◌++◌, Log, Env, if◌then◌else◌,
  ◌==◌, is_zero, to_ℕ, behind, has_message, length, ◌||◌,
}
use zephyr_samples.Kernel.HeapQueue.{
  HeapCall, k_heap_alloc, k_heap_free, k_queue_append, k_queue_is_empty, k_queue_get, printk_data,
  Threads, SendPoint, filling, appending, ReceivePoint, getting, printing, freeing,
}

unfoldable pub elem : ℕ → List ℕ → Bool
elem p [] = false
elem p (q ∷ qs) = q == p || elem p qs

unfoldable pub remove : ℕ → List ℕ → List ℕ
remove p [] = []
remove p (q ∷ qs) = if q == p then qs else q ∷ remove p qs

-- The nodes in the queue, the next one first.
unfoldable pub queued : Log HeapCall → List ℕ
queued [] = []
queued ((k_queue_append p, r) ∷ log) = queued log ++ p ∷ []
queued ((k_queue_get, r) ∷ log) = behind (queued log)
queued ((c, r) ∷ log) = queued log

-- The blocks that are allocated, the oldest first.
unfoldable pub live : Log HeapCall → List ℕ
live [] = []
live ((k_heap_alloc, r) ∷ log) = if to_ℕ r == 0 then live log else live log ++ to_ℕ r ∷ []
live ((k_heap_free p, r) ∷ log) = remove p (live log)
live ((c, r) ∷ log) = live log

-- The values printed, in order.
unfoldable pub printed : Log HeapCall → List ℕ
printed [] = []
printed ((printk_data v, r) ∷ log) = printed log ++ v ∷ []
printed ((c, r) ∷ log) = printed log

-- The first numbers, as uint32_t.
abbrev pub up_to : ℕ → List ℕ
up_to zero = []
up_to (suc n) = up_to n ++ n % 2 ^ 32 ∷ []

-- The first of a queue, NULL where there is none.
unfoldable pub front : List ℕ → ℕ
front [] = 0
front (p ∷ ps) = p

-- The heap gives NULL or a block that is not allocated; the queue is first in, first out.
unfoldable pub Kernel : Env HeapCall → Type 0
Kernel env =
    (log : Log HeapCall)
    → (elem (to_ℕ (env.result log k_heap_alloc)) (live log) ≡ false)
      × (is_zero (env.result log k_queue_is_empty) ≡ has_message (queued log))
      × (to_ℕ (env.result log k_queue_get) ≡ front (queued log))

-- The nodes in the hands of the threads: that of `rx_data`, and that of `ptr_node`.
unfoldable pub received : ReceivePoint → ℕ → List ℕ
received printing p = p ∷ []
received freeing p = p ∷ []
received rp p = []

unfoldable pub allocated : SendPoint → ℕ → List ℕ
allocated filling p = p ∷ []
allocated appending p = p ∷ []
allocated sp p = []

-- The sender's where it has a value.
unfoldable pub filled : SendPoint → ℕ → List ℕ
filled appending p = p ∷ []
filled sp p = []

-- The nodes hold the numbers from `a` on.
abbrev pub Numbered : (ℕ → ℕ) → ℕ → List ℕ → Type 0
Numbered mem a [] = Unit {0}
Numbered mem a (p ∷ ps) = (mem p ≡ a % 2 ^ 32) × Numbered mem (suc a) ps

abbrev pub NewNode : SendPoint → ℕ → List ℕ → Type 0
NewNode filling p ps = elem p ps ≡ false
NewNode sp p ps = Unit {0}

abbrev pub Message : ReceivePoint → List ℕ → Type 0
Message getting ps = has_message ps ≡ true
Message rp ps = Unit {0}

-- How many values are printed when `a` nodes have been freed.
unfoldable pub values : ReceivePoint → ℕ → ℕ
values freeing a = suc a
values rp a = a

-- The nodes `ps` are those that the receiver and the queue hold, the oldest first.
abbrev pub Held : List ℕ → SendPoint → ReceivePoint → Threads → Log HeapCall → ℕ → Type 0
Held ps sp rp s log a =
    (live log ≡ ps ++ allocated sp s.ptr_node)
    × Numbered s.memory a (ps ++ filled sp s.ptr_node)
    × (s.count ≡ (a + length (ps ++ filled sp s.ptr_node)) % 2 ^ 32)
    × (printed log ≡ up_to (values rp a))
    × NewNode sp s.ptr_node ps

abbrev pub Inv : SendPoint → ReceivePoint → Threads → Log HeapCall → ℕ → Type 0
Inv sp rp s log a =
    Held (received rp s.rx_data ++ queued log) sp rp s log a × Message rp (queued log)
