-- ===== src/Kernel/MsgQueue/Streaming/Structs.antt =====
-- The structures of _03_sending_structures.
use mathlib.Core.List.{append_assoc}
use mathlib.Core.Path.{subst}
use zephyr_samples.Base.{
  ℕ, ◌/◌, ◌%◌, ◌^◌, ◌≡◌, refl, sym, ◌∙◌, true, List, [], ◌∷◌, ◌++◌, Log, Env, is_zero, to_word,
  behind, has_message, arith, Bool-cases, inl, inr, ◌⊎◌,
}
use zephyr_samples.Kernel.MsgQueue.{MsgCall, k_msgq_put, k_msgq_get, print_from, queued, Fifo}
use zephyr_samples.Kernel.MsgQueue.Draining.Order.{first-behind}
use zephyr_samples.Kernel.MsgQueue.Streaming.{
  pack, struct_sender_round, struct_receiver_round, where_message, StructTurn, sender1, sender2,
  struct_receiver, struct_step, struct_run,
}
use zephyr_samples.Kernel.MsgQueue.Streaming.Order.{accepted, shown, Kept, put-Kept}

-- Each message is that of one of the two senders.
abbrev pub FromSenders : List ℕ → Type 0
FromSenders [] = Unit {0}
FromSenders (m ∷ ms) = ((m ≡ pack 101 1) ⊎ (m ≡ pack 202 2)) × FromSenders ms

-- Each line shows 101 from source 1, or 202 from source 2.
abbrev pub LinesFromSenders : Log MsgCall → Type 0
LinesFromSenders [] = Unit {0}
LinesFromSenders ((print_from v s, r) ∷ log) =
    (((v ≡ 101) × (s ≡ 1)) ⊎ ((v ≡ 202) × (s ≡ 2))) × LinesFromSenders log
LinesFromSenders ((c, r) ∷ log) = LinesFromSenders log

FromSenders-append :
    (ms : List ℕ) (m : ℕ)
    → FromSenders ms
    → (m ≡ pack 101 1) ⊎ (m ≡ pack 202 2)
    → FromSenders (ms ++ m ∷ [])
FromSenders-append [] m h e = (e, tt)
FromSenders-append (k ∷ ks) m (e, h) e' = (e, FromSenders-append ks m h e')

FromSenders-behind : (ms : List ℕ) → FromSenders ms → FromSenders (behind ms)
unfolding behind
FromSenders-behind [] h = tt
FromSenders-behind (m ∷ ms) (e, h) = h

from-head :
    (w : ℕ) (rest ms : List ℕ)
    → w ∷ rest ≡ ms
    → FromSenders ms
    → (w ≡ pack 101 1) ⊎ (w ≡ pack 202 2)
from-head w rest ms e h = (subst (λ xs. FromSenders xs) (sym e) h).0

-- A message of a sender is made up of its value and its source.
repack : (w : ℕ) → (w ≡ pack 101 1) ⊎ (w ≡ pack 202 2) → pack (w % 2 ^ 8) (w / 2 ^ 8 % 2 ^ 8) ≡ w
repack w from = ground (arith, from)

unpack :
    (w : ℕ)
    → (w ≡ pack 101 1) ⊎ (w ≡ pack 202 2)
    → ((w % 2 ^ 8 ≡ 101) × (w / 2 ^ 8 % 2 ^ 8 ≡ 1)) ⊎ ((w % 2 ^ 8 ≡ 202) × (w / 2 ^ 8 % 2 ^ 8 ≡ 2))
unpack w (inl e) = inl (omega (arith, e), omega (arith, e))
unpack w (inr e) = inr (omega (arith, e), omega (arith, e))

abbrev Holds : Log MsgCall → Type 0
Holds log = Kept log × FromSenders (queued log) × LinesFromSenders log

module _ (cap : ℕ) (env : Env MsgCall) (fifo : Fifo cap env) where
  sender-Holds :
      (v s : ℕ) (n : ℕ) (log : Log MsgCall)
      → (pack v s ≡ pack 101 1) ⊎ (pack v s ≡ pack 202 2)
      → Holds log
      → Holds (struct_sender_round v s env n log).2
  unfolding struct_sender_round queued
  sender-Holds v s n log from (h, q, sh) =
      let m : ℕ = pack v s in
      (
        put-Kept cap env fifo m log h,
        elim (Bool-cases (is_zero (env.result log (k_msgq_put m)))) [
          | inl e ↦ rw e (FromSenders-append (queued log) m q from)
          | inr e ↦ rw e q
        ],
        sh,
      )

  receiver-Holds :
      (n : ℕ) (log : Log MsgCall)
      → has_message (queued log) ≡ true
      → Holds log
      → Holds (struct_receiver_round env n log).2
  unfolding struct_receiver_round queued Fifo
  receiver-Holds n log msg (h, q, sh) =
      let w : ℕ = to_word (env.bytes log k_msgq_get) in
      let next : w ∷ behind (queued log) ≡ queued log =
        first-behind w (queued log) msg (fifo log).3 in
      let from = from-head w (behind (queued log)) (queued log) next q in
      let whole = repack w from in
      (
        rw whole (append_assoc (shown log) (w ∷ []) (behind (queued log)) ∙ rw next h),
        FromSenders-behind (queued log) q,
        (unpack w from, sh),
      )

  step-Holds :
      (t : StructTurn) (n : ℕ) (log : Log MsgCall) → Holds log → Holds (struct_step t env n log).2
  unfolding struct_step where_message
  step-Holds sender1 n log h = sender-Holds 101 1 n log (inl refl) h
  step-Holds sender2 n log h = sender-Holds 202 2 n log (inr refl) h
  step-Holds struct_receiver n log h = elim (Bool-cases (has_message (queued log))) [
    | inl e ↦ rw e (receiver-Holds n log e h)
    | inr e ↦ rw e h
  ]

  run-Holds :
      (ts : List StructTurn) (n : ℕ) (log : Log MsgCall)
      → Holds log
      → Holds (struct_run ts env n log).2
  unfolding struct_run
  run-Holds [] n log h = h
  run-Holds (t ∷ ts) n log h =
      let (u, n', log') = struct_step t env n log in run-Holds ts n' log' (step-Holds t n log h)

  -- Under every interleaving of the two senders and the receiver, and also where the queue is full: the
  -- structures shown and those that wait are those that the queue has taken, in their order, and each
  -- line shows 101 from source 1 or 202 from source 2.
  pub struct_run-shown :
      (ts : List StructTurn) (n : ℕ)
      → let (_, _, log) = struct_run ts env n [] in
        (shown log ++ queued log ≡ accepted log) × LinesFromSenders log
  unfolding queued
  struct_run-shown ts n = let (h, q, sh) = run-Holds ts n [] (refl, tt, tt) in (h, sh)
