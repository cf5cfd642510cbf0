-- ===== src/Kernel/Random.antt =====
-- utils/_01_SRNG/src/main.c
-- Each demonstration hands what it prints to a call. The loops of the source have constant bounds;
-- the loop of `main` takes its rounds as fuel.
use zephyr_samples.Base.{
  ℕ, zero, suc, ◌+◌, ◌%◌, ◌^◌, ◌≤◌, ◌<◌, ◌≡◌, ℤ, Bool, List, [], ◌∷◌, Log, Env, ◌==◌, to_ℕ, Io,
  pure, ◌>>=◌, ◌>>◌, call, call_bytes, arith,
}
use zephyr_samples.Kernel.Binary.{Printed, print_bits, print_bits-read, read, newline}

pub data RandCall : Type 0 where
  sys_rand8_get sys_rand16_get sys_rand32_get sys_rand64_get : RandCall
  sys_rand_get : ℕ → RandCall
  -- the bits that are set, counted by the compiler's builtin
  popcount : ℕ → RandCall
  k_msleep : ℕ → RandCall
  print_numbers : ℕ → ℕ → ℕ → ℕ → RandCall
  print_buffer : List ℕ → RandCall
  -- the index from 1 on and the value
  print_random print_roll : ℕ → ℕ → RandCall
  -- the number and its bits
  print_pattern : ℕ → Printed → RandCall
  print_set_bits : ℤ → RandCall

-- The program has no variable that lives from one call to the next.
abbrev pub App : Type 0 → Type 0
App A = Io (Unit {0}) RandCall A

abbrev pub sleep_time_ms : ℕ
sleep_time_ms = 2000

abbrev pub buffer_size : ℕ
buffer_size = 16

pub demo_basic_random : App (Unit {0})
demo_basic_random = do
  rand8 ← call sys_rand8_get
  rand16 ← call sys_rand16_get
  rand32 ← call sys_rand32_get
  rand64 ← call sys_rand64_get
  _ ← call (
      print_numbers (to_ℕ rand8 % 2 ^ 8) (to_ℕ rand16 % 2 ^ 16) (to_ℕ rand32 % 2 ^ 32)
        (to_ℕ rand64 % 2 ^ 64))
  pure tt

pub demo_random_buffer : App (Unit {0})
demo_random_buffer = do
  p ← call_bytes (sys_rand_get buffer_size)
  _ ← call (print_buffer p.1)
  pure tt

-- The rounds of the `for` loop from `i` on.
pub random_values : ℕ → ℕ → App (Unit {0})
random_values zero i = pure tt
random_values (suc n) i = do
  r ← call sys_rand32_get
  _ ← call (print_random (i + 1) (to_ℕ r % 2 ^ 32 % 100 + 1))
  random_values n (i + 1)

pub demo_random_range : App (Unit {0})
demo_random_range = random_values 5 0

pub rolls : ℕ → ℕ → App (Unit {0})
rolls zero i = pure tt
rolls (suc n) i = do
  r ← call sys_rand8_get
  _ ← call (print_roll (i + 1) (to_ℕ r % 2 ^ 8 % 6 + 1))
  rolls n (i + 1)

pub demo_random_dice_simulation : App (Unit {0})
demo_random_dice_simulation = rolls 10 0

-- `i % 8 == 0`
pub every_eight : ℕ → Bool
every_eight i = i % 8 == 0

pub pattern_line : ℕ → Printed
pattern_line num = newline ∷ print_bits every_eight 32 num []

pub demo_random_patterns : App (Unit {0})
demo_random_patterns = do
  r ← call sys_rand32_get
  set_bits ← call (popcount (to_ℕ r % 2 ^ 32))
  _ ← call (print_pattern (to_ℕ r % 2 ^ 32) (pattern_line (to_ℕ r % 2 ^ 32)))
  _ ← call (print_set_bits set_bits)
  pure tt

pub main_round : App (Unit {0})
main_round = do
  demo_basic_random
  _ ← call (k_msleep sleep_time_ms)
  demo_random_buffer
  _ ← call (k_msleep sleep_time_ms)
  demo_random_range
  _ ← call (k_msleep sleep_time_ms)
  demo_random_dice_simulation
  _ ← call (k_msleep sleep_time_ms)
  demo_random_patterns
  _ ← call (k_msleep sleep_time_ms)
  pure tt

pub main : ℕ → App (Unit {0})
main zero = pure tt
main (suc n) = main_round >> main n

-- What is printed is in its range, and a line of bits shows its number.
abbrev pub Fair : Log RandCall → Type 0
Fair [] = Unit {0}
Fair ((print_random i v, r) ∷ log) = (1 ≤ v) × (v ≤ 100) × Fair log
Fair ((print_roll i v, r) ∷ log) = (1 ≤ v) × (v ≤ 6) × Fair log
Fair ((print_pattern num line, r) ∷ log) = (num < 2 ^ 32) × (read line ≡ num) × Fair log
Fair ((c, r) ∷ log) = Fair log

module _ (env : Env RandCall) where
  random_values-Fair :
      (n i : ℕ) (s : Unit {0}) (log : Log RandCall)
      → Fair log
      → Fair (random_values n i env s log).2
  unfolding random_values
  random_values-Fair zero i s log h = h
  random_values-Fair (suc n) i s log h =
      random_values-Fair n (i + 1) s _ (omega arith, omega arith, h)

  rolls-Fair :
      (n i : ℕ) (s : Unit {0}) (log : Log RandCall) → Fair log → Fair (rolls n i env s log).2
  unfolding rolls
  rolls-Fair zero i s log h = h
  rolls-Fair (suc n) i s log h = rolls-Fair n (i + 1) s _ (omega arith, omega arith, h)

  demo_random_patterns-Fair :
      (s : Unit {0}) (log : Log RandCall) → Fair log → Fair (demo_random_patterns env s log).2
  unfolding demo_random_patterns pattern_line
  demo_random_patterns-Fair s log h =
      let num = to_ℕ (env.result log sys_rand32_get) % 2 ^ 32 in
      (omega arith, (print_bits-read every_eight 32 num [] (omega arith)).0, h)

  main_round-Fair : (s : Unit {0}) (log : Log RandCall) → Fair log → Fair (main_round env s log).2
  unfolding main_round demo_basic_random demo_random_buffer demo_random_range
      demo_random_dice_simulation
  main_round-Fair s log h =
      demo_random_patterns-Fair s _ (rolls-Fair 10 0 s _ (random_values-Fair 5 0 s _ h))

  -- Whatever the generator returns, over any number of rounds each number in a range is from 1 to 100
  -- and each roll of the die from 1 to 6, and each line of bits read back is its 32-bit number.
  pub main-Fair : (n : ℕ) (s : Unit {0}) (log : Log RandCall) → Fair log → Fair (main n env s log).2
  unfolding main
  main-Fair zero s log h = h
  main-Fair (suc n) s log h = main-Fair n s _ (main_round-Fair s log h)
