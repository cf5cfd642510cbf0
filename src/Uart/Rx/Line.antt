-- ===== src/Uart/Rx/Line.antt =====
-- The reception against a line assembler: where each interrupt reads one byte.
use zephyr_samples.Base.{
  ℕ, zero, suc, ◌+◌, ◌<◌, ◌≡◌, refl, pos, true, false, List, [], ◌∷◌, ◌++◌, Option, none, some, Log,
  Env, if◌then◌else◌, ◌==◌, leb, is_zero, take, length, arith,
}
use zephyr_samples.Uart.Rx.{
  RxCall, UartMsg, irq_update, irq_is_pending, irq_rx_ready, fifo_read, get_at, set_at,
}

-- A byte that arrives: the line under way after it, and the line that it ends.
abbrev pub feed : ℕ → List ℕ → List ℕ × Option (List ℕ)
feed b line =
    if b == 13
    then ([], some line)
    else (if leb 50 (length line + 1) then ([], none) else (line ++ b ∷ [], none))

-- The line under way after the bytes of a log, and the line that its last byte ended: `byte` is
-- what a read finds after the calls made before it.
abbrev pub line_of : (Log RxCall → ℕ) → Log RxCall → List ℕ
line_of byte [] = []
line_of byte ((fifo_read n, r) ∷ log) = (feed (byte log) (line_of byte log)).0
line_of byte ((c, r) ∷ log) = line_of byte log

abbrev pub ended : (Log RxCall → ℕ) → Log RxCall → Option (List ℕ)
ended byte [] = none
ended byte ((fifo_read n, r) ∷ log) = (feed (byte log) (line_of byte log)).1
ended byte ((c, r) ∷ log) = none

-- The buffer holds the line under way.
abbrev pub Holds : List ℕ → UartMsg → Type 0
Holds line s =
    (s.rx_count ≡ length line)
    × (take (length line) s.rx_buf ≡ line)
    × (length s.rx_buf ≡ 50)
    × (s.rx_len ≡ 50)
    × (length line < 50)
    × (s.overrun ≡ false)

-- A line that is ended stands in the buffer with a NUL behind it, and the flag is set.
abbrev pub Delivered : Option (List ℕ) → UartMsg → UartMsg → Type 0
Delivered none s s' = s'.rx_flag ≡ s.rx_flag
Delivered (some line) s s' =
    (s'.rx_flag ≡ true) × (take (suc (length line)) s'.rx_buf ≡ line ++ 0 ∷ [])

-- Each interrupt is one of reception, and its read returns one byte.
unfoldable pub OneByte : Env RxCall → (Log RxCall → ℕ) → Type 0
OneByte env byte =
    (log : Log RxCall)
    → (is_zero (env.result log irq_update) ≡ false)
      × (is_zero (env.result log irq_is_pending) ≡ false)
      × (is_zero (env.result log irq_rx_ready) ≡ false)
      × (env.result log (fifo_read 50) ≡ pos 1)
      × (env.bytes log (fifo_read 50) ≡ byte log ∷ [])

pub get_at-set_at : (i b : ℕ) (xs : List ℕ) → i < length xs → get_at i (set_at i b xs) ≡ b
unfolding get_at set_at
get_at-set_at i b [] lt = absurd (omega (arith, lt))
get_at-set_at zero b (x ∷ xs) lt = refl
get_at-set_at (suc i) b (x ∷ xs) lt = get_at-set_at i b xs (omega (arith, lt))

pub length-set_at : (i b : ℕ) (xs : List ℕ) → length (set_at i b xs) ≡ length xs
unfolding set_at
length-set_at i b [] = refl
length-set_at zero b (x ∷ xs) = refl
length-set_at (suc i) b (x ∷ xs) = rw (length-set_at i b xs)

pub take-set_at :
    (i b : ℕ) (xs : List ℕ) → i < length xs → take (suc i) (set_at i b xs) ≡ take i xs ++ b ∷ []
unfolding set_at
take-set_at i b [] lt = absurd (omega (arith, lt))
take-set_at zero b (x ∷ xs) lt = refl
take-set_at (suc i) b (x ∷ xs) lt = rw (take-set_at i b xs (omega (arith, lt)))

pub take-set_at-below : (i b : ℕ) (xs : List ℕ) → take i (set_at i b xs) ≡ take i xs
unfolding set_at
take-set_at-below zero b xs = refl
take-set_at-below (suc i) b [] = refl
take-set_at-below (suc i) b (x ∷ xs) = rw (take-set_at-below i b xs)

-- The buffer with a byte behind the line.
Fed : ℕ → List ℕ → UartMsg → Type 0
Fed b line s =
    (s.rx_count ≡ length line)
    × (get_at (length line) s.rx_buf ≡ b)
    × (take (length line) s.rx_buf ≡ line)
    × (take (suc (length line)) s.rx_buf ≡ line ++ b ∷ [])
    × (length s.rx_buf ≡ 50)
    × (s.rx_len ≡ 50)
    × (length line < 50)
    × (s.overrun ≡ false)
