-- ===== src/Base/Semaphore.antt =====
-- The counting semaphore of the kernel as Zephyr documents it, over the calls of a log: a semaphore
-- counts up to its limit. `op` says what a call does to the semaphore.
use mathlib.Core.List.{[], ◌∷◌}
use Prim.Native.Nat.{ℕ, ◌+◌, ◌-◌}
use zephyr_samples.Base.Tests.{leb, if◌then◌else◌}
use zephyr_samples.Base.Calls.{Log}

pub data SemOp : Type 0 where
  sem_init : ℕ → ℕ → SemOp
  sem_reset sem_give sem_take no_sem : SemOp

abbrev pub limit : {C : Type 0} → (C → SemOp) → Log C → ℕ
limit op [] = 0
limit op ((c, r) ∷ log) = elim (op c) [ sem_init n m ↦ m | _ ↦ limit op log ]

abbrev pub tokens : {C : Type 0} → (C → SemOp) → Log C → ℕ
tokens op [] = 0
tokens op ((c, r) ∷ log) = elim (op c) [
  | sem_init n m ↦ n
  | sem_reset ↦ 0
  | sem_give ↦ if leb (limit op log) (tokens op log) then tokens op log else tokens op log + 1
  | sem_take ↦ tokens op log - 1
  | no_sem ↦ tokens op log
]
