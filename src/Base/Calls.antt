-- ===== src/Base/Calls.antt =====
-- Code that calls the operating system: a state passed on, and a log of the calls made.
-- A call's result is a parameter: any function of the calls made before and of the call itself.
use mathlib.Core.List.{List, ◌∷◌}
use Prim.Native.Nat.{ℕ}
use zephyr_samples.Base.Int.{ℤ}

-- The calls made, the latest first, each with its result.
abbrev pub Log : Type 0 → Type 0
Log C = List (C × ℤ)

-- What is not part of the program: the integer that each call returns, and the bytes that it
-- writes through a pointer.
pub record Env (C : Type 0) : Type 0 where
  pub result : Log C → C → ℤ
  pub bytes : Log C → C → List ℕ

abbrev pub Io : Type 0 → Type 0 → Type 0 → Type 0
Io S C A = Env C → S → Log C → A × S × Log C

abbrev pub pure : {S C A : Type 0} → A → Io S C A
pure a env s log = (a, s, log)

infixl 5 ◌>>=◌ ◌>>◌
abbrev pub ◌>>=◌ : {S C A B : Type 0} → Io S C A → (A → Io S C B) → Io S C B
◌>>=◌ m f env s log = let (a, s', log') = m env s log in f a env s' log'

abbrev pub ◌>>◌ : {S C A B : Type 0} → Io S C A → Io S C B → Io S C B
m >> k = m >>= λ _. k

-- A call that returns an `int`.
abbrev pub call : {S C : Type 0} → C → Io S C ℤ
call c env s log = let r = env.result log c in (r, s, (c, r) ∷ log)

-- A call that also fills a buffer.
abbrev pub call_bytes : {S C : Type 0} → C → Io S C (ℤ × List ℕ)
call_bytes c env s log = let r = env.result log c in ((r, env.bytes log c), s, (c, r) ∷ log)

abbrev pub get : {S C : Type 0} → Io S C S
get env s log = (s, s, log)

abbrev pub put : {S C : Type 0} → S → Io S C (Unit {0})
put s' env s log = (tt, s', log)
