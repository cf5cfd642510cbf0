-- ===== src/Kernel/Binary.antt =====
-- kernel/EVENTS/_03_posting_two_events/src/main.c: `print_binary`, which the other samples of events
-- repeat.
use zephyr_samples.Base.{
  ℕ, zero, suc, ◌+◌, ◌*◌, ◌/◌, ◌%◌, ◌^◌, ◌<◌, ◌≡◌, ◌∙◌, Bool, ◌&&◌, not, List, [], ◌∷◌,
  if◌then◌else◌, ◌==◌, arith, Bool-cases, inl, inr,
}
use native.Mathlib.Nat.{div-div-eq-div-mul, div-one, pow-suc}

-- What is printed: a digit by "%d", a space, the end of a line.
pub data Piece : Type 0 where
  digit : ℕ → Piece
  space newline : Piece

-- The pieces printed, the latest first.
abbrev pub Printed : Type 0
Printed = List Piece

-- The bits below `i`, the highest first; a space behind the bits that `sep` names.
pub print_bits : (ℕ → Bool) → ℕ → ℕ → Printed → Printed
print_bits sep zero num out = out
print_bits sep (suc i) num out =
    let out' = digit (num / 2 ^ i % 2) ∷ out in
    print_bits sep i num (if sep i then space ∷ out' else out')

-- `i % 4 == 0 && i != 0`
pub every_four : ℕ → Bool
every_four i = i % 4 == 0 && not (i == 0)

pub print_binary : ℕ → Printed → Printed
print_binary num out = newline ∷ print_bits every_four 32 num out

-- A reader of the line: the number that its digits stand for.
abbrev pub read : Printed → ℕ
read [] = 0
read (digit d ∷ out) = 2 * read out + d
read (space ∷ out) = read out
read (newline ∷ out) = read out

-- The digits, counted.
abbrev pub digits : Printed → ℕ
digits [] = 0
digits (digit d ∷ out) = digits out + 1
digits (space ∷ out) = digits out
digits (newline ∷ out) = digits out

halve : (i num : ℕ) → 2 * (num / 2 ^ suc i) + num / 2 ^ i % 2 ≡ num / 2 ^ i
halve i num = let e = div-div-eq-div-mul num (2 ^ i) 2 in rw (pow-suc 2 i, ← e) (omega arith)

pub print_bits-read :
    (sep : ℕ → Bool) (i num : ℕ) (out : Printed)
    → read out ≡ num / 2 ^ i
    → (read (print_bits sep i num out) ≡ num) × (digits (print_bits sep i num out) ≡ digits out + i)
unfolding print_bits
print_bits-read sep zero num out e = (e ∙ div-one num, omega arith)
print_bits-read sep (suc i) num out e =
    let out' = digit (num / 2 ^ i % 2) ∷ out in
    let e' : read out' ≡ num / 2 ^ i = rw e (halve i num) in
    elim (Bool-cases (sep i)) [
      | inl es ↦
          let (r, d) = print_bits-read sep i num (space ∷ out') e' in rw es (r, omega (arith, d))
      | inr es ↦ let (r, d) = print_bits-read sep i num out' e' in rw es (r, omega (arith, d))
    ]

-- The number that `print_binary` prints is read back from the line, which has 32 digits.
pub print_binary-read :
    (num : ℕ)
    → num < 2 ^ 32
    → (read (print_binary num []) ≡ num) × (digits (print_binary num []) ≡ 32)
unfolding print_binary
print_binary-read num lt = print_bits-read every_four 32 num [] (omega arith)
