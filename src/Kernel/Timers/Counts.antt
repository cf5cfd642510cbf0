-- ===== src/Kernel/Timers/Counts.antt =====
-- The counts that a callback has printed, and timers that are not due.
use zephyr_samples.Base.{
  ℕ, zero, suc, ◌+◌, ◌≡◌, ap, ◌≤◌, Option, none, some, List, [], ◌∷◌, ◌++◌, arith,
}
use zephyr_samples.Kernel.Timers.{Entry, print_count, Allows}

-- The counts printed, in order.
abbrev pub printed : List Entry → List ℕ
printed [] = []
printed (print_count n ∷ log) = printed log ++ n ∷ []
printed (e ∷ log) = printed log

-- 0, 1, 2 and so on.
abbrev pub up_to : ℕ → List ℕ
up_to zero = []
up_to (suc n) = up_to n ++ n ∷ []

pub up_to-next : (n : ℕ) → up_to (n + 1) ≡ up_to n ++ n ∷ []
up_to-next n = let e : n + 1 ≡ suc n = omega arith in ap up_to e

pub not-due : {A : Type 0} (o : Option ℕ) → o ≡ none → o ≡ some 0 → A
not-due none e due = absurd (ground (arith, due))
not-due (some r) e due = absurd (ground (arith, e))

pub some-eq : (o : Option ℕ) (r d : ℕ) → o ≡ some r → o ≡ some d → r ≡ d
some-eq none r d e e' = absurd (ground (arith, e))
some-eq (some k) r d e e' = ground (arith, e, e')

-- What a timer that runs allows.
pub allowed : (o : Option ℕ) (r d : ℕ) → o ≡ some r → Allows d o → d ≤ r
unfolding Allows
allowed none r d e h = absurd (ground (arith, e))
allowed (some k) r d e h = ground (arith, e, h)
