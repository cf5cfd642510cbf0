-- ===== src/Uart/Fill.antt =====
-- What a log says of the wire, and what one filling of the FIFO puts on it.
use zephyr_samples.Base.{
  ℕ, zero, suc, ◌+◌, ◌-◌, ◌≤◌, ◌<◌, ◌≡◌, refl, ◌⊎◌, inl, inr, ℤ, false, List, [], ◌∷◌, ◌++◌, Log,
  Env, is_neg, is_zero, to_ℕ, take, drop, arith,
}
use mathlib.Core.List.{append_assoc, append-nil}
use native.Mathlib.Nat.{suc-add}
use zephyr_samples.Uart.{
  UartCall, UartMsg, fifo_fill, irq_update, irq_is_pending, irq_tx_ready, fill_bytes, fill_ready,
  to_u8, sub_u8,
}

-- The bytes that the FIFO took, in their order.
abbrev pub transmitted : Log UartCall → List ℕ
transmitted [] = []
transmitted ((fifo_fill bytes n, r) ∷ log) = transmitted log ++ take (to_ℕ r) bytes
transmitted ((c, r) ∷ log) = transmitted log

-- The part of the message that is still to be sent.
abbrev pub pending : UartMsg → List ℕ
pending s = take s.tx_count (drop (s.tx_len - s.tx_count) s.tx_buf)

-- Texts one after the other.
abbrev pub copies : ℕ → List ℕ → List ℕ
copies zero text = []
copies (suc n) text = copies n text ++ text

-- The message that a buffer holds, from its beginning.
abbrev pub text : UartMsg → List ℕ
text s = pending (record s { tx_count = s.tx_len })

-- The counters are inside a byte.
abbrev pub Counts : UartMsg → Type 0
Counts s = (s.tx_count ≤ s.tx_len) × (s.tx_len < 256)

-- The message is the same one.
abbrev pub Same : UartMsg → UartMsg → Type 0
Same s s' = (s'.tx_buf ≡ s.tx_buf) × (s'.tx_len ≡ s.tx_len)

-- The FIFO takes a number of bytes between 0 and the number that it is offered.
unfoldable pub Fills : Env UartCall → Type 0
Fills env =
    (log : Log UartCall) (bytes : List ℕ) (n : ℕ)
    → let r = env.result log (fifo_fill bytes n) in (is_neg r ≡ false) × (to_ℕ r ≤ n)

pub copies_comm : (n : ℕ) (xs : List ℕ) → xs ++ copies n xs ≡ copies n xs ++ xs
copies_comm zero xs = append-nil xs
copies_comm (suc n) xs = ground (arith, append_assoc xs (copies n xs) xs, copies_comm n xs)

take-nil : (n : ℕ) → take {A = ℕ} n [] ≡ []
take-nil zero = refl
take-nil (suc n) = refl

drop-nil : (n : ℕ) → drop {A = ℕ} n [] ≡ []
drop-nil zero = refl
drop-nil (suc n) = refl

take-plus : (k j : ℕ) (xs : List ℕ) → take (k + j) xs ≡ take k xs ++ take j (drop k xs)
take-plus zero j xs = ground arith
take-plus (suc k) j [] = rw (take-nil (suc k + j), take-nil j)
take-plus (suc k) j (x ∷ xs) = rw (suc-add k j, take-plus k j xs)

drop-plus : (i k : ℕ) (xs : List ℕ) → drop k (drop i xs) ≡ drop (i + k) xs
drop-plus zero k xs = ground arith
drop-plus (suc i) k [] = rw (drop-nil (suc i + k), drop-nil k)
drop-plus (suc i) k (x ∷ xs) = rw (suc-add i k, drop-plus i k xs)

-- The first `k` of `count` pending bytes, and the bytes pending after them.
pub take-split :
    (k count len : ℕ) (xs : List ℕ)
    → k ≤ count
    → count ≤ len
    → take k (drop (len - count) xs) ++ take (count - k) (drop (len - (count - k)) xs)
      ≡ take count (drop (len - count) xs)
take-split k count len xs le le' =
    ground (arith, take-plus k (count - k) (drop (len - count) xs), drop-plus (len - count) k xs)

sub_u8-sub : (a b : ℕ) → b ≤ a → a < 256 → sub_u8 a b ≡ a - b
sub_u8-sub a b le lt = omega arith

to_u8-id : (r : ℤ) (n : ℕ) → is_neg r ≡ false → to_ℕ r ≤ n → n < 256 → to_u8 r ≡ to_ℕ r
to_u8-id r n h le lt = ground arith

-- The transmitter is ready at each interrupt, and takes a byte at least of those it is offered.
unfoldable pub Serves : Env UartCall → Type 0
Serves env =
    (log : Log UartCall)
    → (is_zero (env.result log irq_update) ≡ false)
      × (is_zero (env.result log irq_is_pending) ≡ false)
      × (is_zero (env.result log irq_tx_ready) ≡ false)
      × ((bytes : List ℕ) (n : ℕ) → 1 ≤ n → 1 ≤ to_ℕ (env.result log (fifo_fill bytes n)))

-- A call that took `r` bytes from the pending ones on.
taken-pending :
    (s : UartMsg) (bytes : List ℕ) (r : ℤ)
    → Counts s
    → bytes ≡ drop (s.tx_len - s.tx_count) s.tx_buf
    → is_neg r ≡ false
    → to_ℕ r ≤ s.tx_count
    → let count = sub_u8 s.tx_count (to_u8 r) in
      (count ≡ s.tx_count - to_ℕ r)
      × (take (to_ℕ r) bytes ++ take count (drop (s.tx_len - count) s.tx_buf) ≡ pending s)
taken-pending s bytes r (le, lt) eq ok fits =
    let e2 = to_u8-id r s.tx_count ok fits (omega arith) in
    let e3 = sub_u8-sub s.tx_count (to_ℕ r) fits (omega arith) in
    let e = take-split (to_ℕ r) s.tx_count s.tx_len s.tx_buf fits le in
    (rw (e2, e3), rw (e2, e3, eq, e))

zero-or-one : (n : ℕ) → (n ≡ 0) ⊎ (1 ≤ n)
zero-or-one n = ground arith

module _ (env : Env UartCall) (fills : Fills env) where
  pub fill_bytes-pending :
      (s : UartMsg) (log : Log UartCall)
      → Counts s
      → let (_, s', log') = fill_bytes env s log in
        Same s s' × Counts s' × (transmitted log' ++ pending s' ≡ transmitted log ++ pending s)
  unfolding fill_bytes Fills
  fill_bytes-pending s log (le, lt) =
      let bytes = drop (sub_u8 s.tx_len s.tx_count) s.tx_buf in
      let r = env.result log (fifo_fill bytes s.tx_count) in
      let (ok, fits) = fills log bytes s.tx_count in
      let e1 = sub_u8-sub s.tx_len s.tx_count le lt in
      let (e, e') = taken-pending s bytes r (le, lt) (rw e1) ok fits in
      ((refl, refl), (omega (arith, e), lt), rw (append_assoc (transmitted log), e'))

  -- A filling that finds the transmitter ready is `fill_bytes`, and otherwise keeps all.
  pub fill_ready-pending :
      (s : UartMsg) (log : Log UartCall)
      → Counts s
      → let (_, s', log') = fill_ready env s log in
        Same s s' × Counts s' × (transmitted log' ++ pending s' ≡ transmitted log ++ pending s)
  unfolding fill_ready
  fill_ready-pending s log h =
      let log' = (irq_tx_ready, env.result log irq_tx_ready) ∷ log in
      ground (arith, fill_bytes-pending s log' h)

  pub fill_bytes-count :
      Serves env
      → (s : UartMsg) (log : Log UartCall) → Counts s
      → 1 ≤ s.tx_count
      → (fill_bytes env s log).1.tx_count ≤ s.tx_count - 1
  unfolding fill_bytes Fills Serves
  fill_bytes-count serves s log (le, lt) one =
      let bytes = drop (sub_u8 s.tx_len s.tx_count) s.tx_buf in
      let r = env.result log (fifo_fill bytes s.tx_count) in
      let (ok, fits) = fills log bytes s.tx_count in
      let (_, _, _, takes) = serves log in
      let some_taken = takes bytes s.tx_count one in
      let e1 = sub_u8-sub s.tx_len s.tx_count le lt in
      let (e, _) = taken-pending s bytes r (le, lt) (rw e1) ok fits in omega (arith, e)

  pub fill_ready-count :
      Serves env
      → (s : UartMsg) (log : Log UartCall) → Counts s
      → (fill_ready env s log).1.tx_count ≤ s.tx_count - 1
  unfolding fill_ready Serves
  fill_ready-count serves s log h =
      let log' = (irq_tx_ready, env.result log irq_tx_ready) ∷ log in
      let (_, _, ready, _) = serves log in
      elim (zero-or-one s.tx_count) [
        | inl z ↦ ground (arith, ready, z)
        | inr one ↦ ground (arith, ready, one, fill_bytes-count serves s log' h one)
      ]
