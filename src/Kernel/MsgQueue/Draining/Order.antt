-- ===== src/Kernel/MsgQueue/Draining/Order.antt =====
-- The messages of _04_reading_all_messages, over a log, and the invariant of its two threads.
use mathlib.Core.List.{append_assoc, append-nil}
use zephyr_samples.Base.{
  ℕ, zero, suc, ◌+◌, ◌-◌, ◌%◌, ◌^◌, ◌<◌, ◌≤◌, ◌≡◌, refl, sym, ◌∙◌, ap, Bool, true, false, List, [],
  ◌∷◌, ◌++◌, Log, Env, if◌then◌else◌, ◌==◌, ltb, is_zero, to_ℕ, to_word, behind, has_message,
  length-behind, length, length-append, arith,
}
use zephyr_samples.Kernel.MsgQueue.{
  MsgCall, k_msgq_put, k_msgq_get, k_msgq_num_free_get, k_msgq_num_used_get, print_value, queued,
  Fifo,
}
use zephyr_samples.Kernel.MsgQueue.Draining.{
  Threads, SendPoint, checking, counting, putting, send_sleeping, ReceivePoint, receive_sleeping,
  testing, getting, printing, send_step, receive_step,
}

-- The values printed, in order.
abbrev pub printed : Log MsgCall → List ℕ
printed [] = []
printed ((print_value m, r) ∷ log) = printed log ++ m ∷ []
printed ((c, r) ∷ log) = printed log

-- The messages that the full queue has refused.
abbrev pub refused : Log MsgCall → ℕ
refused [] = 0
refused ((k_msgq_put m, r) ∷ log) = if is_zero r then refused log else suc (refused log)
refused ((c, r) ∷ log) = refused log

-- 1, 2, 3 and so on, as uint32_t.
abbrev pub counted : ℕ → List ℕ
counted zero = []
counted (suc n) = counted n ++ ((n + 1) % 2 ^ 32) ∷ []

-- The message that the receiver has still to print.
unfoldable pub in_hand : ReceivePoint → ℕ → List ℕ
in_hand printing m = m ∷ []
in_hand rp m = []

-- The numbers counted and not yet put.
unfoldable pub pending : SendPoint → ℕ
pending putting = 1
pending sp = 0

abbrev pub Room : SendPoint → ℕ → Type 0
Room counting used = used < 10
Room putting used = used < 10
Room sp used = Unit {0}

abbrev pub Message : ReceivePoint → List ℕ → Type 0
Message getting ms = has_message ms ≡ true
Message rp ms = Unit {0}

-- `n` messages have been put.
abbrev pub Inv : SendPoint → ReceivePoint → Threads → Log MsgCall → ℕ → Type 0
Inv sp rp s log n =
    ((printed log ++ in_hand rp s.received) ++ queued log ≡ counted n)
    × (s.sent ≡ (n + pending sp) % 2 ^ 32)
    × (refused log ≡ 0)
    × (length (queued log) ≤ 10)
    × Room sp (length (queued log))
    × Message rp (queued log)

Message-append :
    (rp : ReceivePoint) (ms : List ℕ) (m : ℕ) → Message rp ms → Message rp (ms ++ m ∷ [])
unfolding has_message
Message-append getting [] m h = refl
Message-append getting (k ∷ ks) m h = refl
Message-append receive_sleeping ms m h = tt
Message-append testing ms m h = tt
Message-append printing ms m h = tt

Room-behind : (sp : SendPoint) (ms : List ℕ) → Room sp (length ms) → Room sp (length (behind ms))
unfolding behind
Room-behind counting ms h = ground (arith, length-behind ms)
Room-behind putting ms h = ground (arith, length-behind ms)
Room-behind checking ms h = tt
Room-behind send_sleeping ms h = tt

-- What the queue returned for its room and for its messages, as the points after it see it.
after_check :
    (b : Bool) (rp : ReceivePoint) (s : Threads) (log : Log MsgCall) (n : ℕ)
    → b ≡ ltb 0 (10 - length (queued log))
    → Inv checking rp s log n
    → Inv (if b then counting else send_sleeping) rp s log n
unfolding pending
after_check true rp s log n e (order, sent, none, few, room, msg) =
    (order, sent, none, few, ground (arith, e), msg)
after_check false rp s log n e (order, sent, none, few, room, msg) =
    (order, sent, none, few, tt, msg)

has_message-length : (ms : List ℕ) → false ≡ (length ms == 0) → has_message ms ≡ true
unfolding has_message
has_message-length [] e = ground (arith, e)
has_message-length (m ∷ ms) e = refl

after_test :
    (b : Bool) (sp : SendPoint) (s : Threads) (log : Log MsgCall) (n : ℕ)
    → b ≡ (length (queued log) == 0)
    → Inv sp testing s log n
    → Inv sp (if b then receive_sleeping else getting) s log n
unfolding in_hand
after_test true sp s log n e (order, sent, none, few, room, msg) =
    (order, sent, none, few, room, tt)
after_test false sp s log n e (order, sent, none, few, room, msg) =
    (order, sent, none, few, room, has_message-length (queued log) e)

pub first-behind :
    (w : ℕ) (ms : List ℕ)
    → has_message ms ≡ true
    → ((m : ℕ) (rest : List ℕ) → ms ≡ m ∷ rest → w ≡ m)
    → w ∷ behind ms ≡ ms
unfolding has_message behind
first-behind w [] h k = ground (arith, h)
first-behind w (m ∷ ms) h k = rw (k m ms refl) refl

module _ (env : Env MsgCall) (fifo : Fifo 10 env) where
  pub send-Inv :
      (sp : SendPoint) (rp : ReceivePoint) (s : Threads) (log : Log MsgCall) (n : ℕ)
      → Inv sp rp s log n
      → let (p, s', log') = send_step sp env s log in (n' : ℕ) × Inv p rp s' log' n'
  unfolding send_step queued pending Fifo
  send-Inv send_sleeping rp s log n h = (n, h)
  send-Inv checking rp s log n h = (
    n,
    after_check (ltb 0 (to_ℕ (env.result log k_msgq_num_free_get))) rp s log n
        (rw ((fifo log).1) refl) h,
  )
  send-Inv counting rp s log n (order, sent, none, few, room, msg) =
      (n, (order, omega (arith, sent), none, few, room, msg))
  send-Inv putting rp s log n (order, sent, none, few, room, msg) =
      let taken : is_zero (env.result log (k_msgq_put s.sent)) ≡ true =
        ((fifo log).0 s.sent).1 room in
      let ms : List ℕ = queued log ++ s.sent ∷ [] in
      (
        suc n,
        rw taken (
          sym (append_assoc (printed log ++ in_hand rp s.received) (queued log) (s.sent ∷ []))
              ∙ rw (order, sent) refl,
          omega (arith, sent),
          none,
          omega (arith, length-append (queued log) (s.sent ∷ []), room),
          tt,
          Message-append rp (queued log) s.sent msg,
        ),
      )

  pub receive-Inv :
      (sp : SendPoint) (rp : ReceivePoint) (s : Threads) (log : Log MsgCall) (n : ℕ)
      → Inv sp rp s log n
      → let (p, s', log') = receive_step rp env s log in Inv sp p s' log' n
  unfolding receive_step queued in_hand Fifo
  receive-Inv sp receive_sleeping s log n h = h
  receive-Inv sp testing s log n h =
      after_test (to_ℕ (env.result log k_msgq_num_used_get) == 0) sp s log n
        (rw ((fifo log).2) refl) h
  receive-Inv sp getting s log n (order, sent, none, few, room, msg) =
      let w : ℕ = to_word (env.bytes log k_msgq_get) in
      let next : w ∷ behind (queued log) ≡ queued log =
        first-behind w (queued log) msg (fifo log).3 in
      (
        append_assoc (printed log) (w ∷ []) (behind (queued log))
            ∙ rw next (sym (ap (λ xs. xs ++ queued log) (append-nil (printed log))) ∙ order),
        sent,
        none,
        omega (arith, length-behind (queued log), few),
        Room-behind sp (queued log) room,
        tt,
      )
  receive-Inv sp printing s log n (order, sent, none, few, room, msg) =
      (rw (append-nil (printed log ++ s.received ∷ [])) order, sent, none, few, room, tt)
