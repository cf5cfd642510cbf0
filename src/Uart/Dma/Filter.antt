-- ===== src/Uart/Dma/Filter.antt =====
-- The interrupt of the reception: which bytes it hands to the queue.
use zephyr_samples.Base.{
  ℕ, zero, suc, ◌+◌, ◌-◌, ◌%◌, ◌^◌, ◌≤◌, ◌<◌, ◌≡◌, Bool, true, ◌==◌, ltb, ◌&&◌, refl, ◌∙◌, List, [],
  ◌∷◌, ◌++◌, Log, Env, if◌then◌else◌, take, drop, length, arith,
}
use mathlib.Core.List.{append_assoc, append-nil}
use native.Mathlib.Nat.{suc-add}
use mathlib.Core.Path.{subst}
use zephyr_samples.Uart.Rx.{get_at}
use zephyr_samples.Uart.Dma.{
  DmaCall, UartRx, k_msgq_put, rx_rdy, is_text, put_byte, put_bytes, uart_cb,
}

-- The bytes handed to the queue, in order.
abbrev pub puts : Log DmaCall → List ℕ
puts [] = []
puts ((k_msgq_put b, r) ∷ log) = puts log ++ b ∷ []
puts ((c, r) ∷ log) = puts log

-- A carriage return, or a printable character of ASCII.
abbrev pub printable : ℕ → Bool
printable b = if b == 13 then true else ltb 31 b && ltb b 127

is_text-printable : (b : ℕ) → is_text b ≡ printable b
unfolding is_text
is_text-printable b = ground arith

-- The bytes of a list that are text.
abbrev pub texts : List ℕ → List ℕ
texts [] = []
texts (b ∷ bs) = let rest = texts bs in if printable b then b ∷ rest else rest

-- A part of the buffer starts with the byte at its index.
pub take-drop-suc :
    (n i : ℕ) (xs : List ℕ)
    → i + suc n ≤ length xs
    → take (suc n) (drop i xs) ≡ get_at i xs ∷ take n (drop (i + 1) xs)
unfolding get_at
take-drop-suc n i [] le = absurd (omega (arith, le))
take-drop-suc n zero (x ∷ xs) le = refl
take-drop-suc n (suc i) (x ∷ xs) le =
    ground (arith, suc-add i 1, take-drop-suc n i xs (omega (arith, le)))

texts-cons : (b : ℕ) (bs : List ℕ) → texts (b ∷ bs) ≡ texts (b ∷ []) ++ texts bs
texts-cons b bs = ground arith

module _ (env : Env DmaCall) where
  put_byte-puts :
      (b : ℕ) (s : UartRx) (log : Log DmaCall)
      → let (_, s', log') = put_byte b env s log in
        (s' ≡ s) × (puts log' ≡ puts log ++ texts (b ∷ []))
  unfolding put_byte
  put_byte-puts b s log = ground (arith, append-nil (puts log), is_text-printable b)

  put_bytes-puts :
      (rounds n i : ℕ) (buf : List ℕ) (s : UartRx) (log : Log DmaCall)
      → i + n ≤ length buf
      → i + n < 256
      → n < rounds
      → let (_, s', log') = put_bytes rounds i (i + n) buf env s log in
        (s' ≡ s) × (puts log' ≡ puts log ++ texts (take n (drop i buf)))
  unfolding put_bytes
  put_bytes-puts zero n i buf s log le byte lt = absurd (omega (arith, lt))
  put_bytes-puts (suc rounds) zero i buf s log le byte lt = ground (arith, append-nil (puts log))
  put_bytes-puts (suc rounds) (suc n) i buf s log le byte lt =
      let (_, s', log') = put_byte (get_at i buf) env s log in
      let b = get_at i buf in
      let rest = take n (drop (i + 1) buf) in
      let (es, ep) = put_byte-puts b s log in
      let (es', ep') =
        put_bytes-puts rounds n (i + 1) buf s' log' (omega arith) (omega arith) (omega arith) in
      let e = take-drop-suc n i buf le in
      let here : ltb i (i + suc n) ≡ true = ground arith in
      let index : (i + 1) % 2 ^ 8 ≡ i + 1 = omega (arith, byte) in
      let end : i + suc n ≡ (i + 1) + n = omega arith in
      rw (here, index, end)
        (es' ∙ es, rw (ep', ep, e, texts-cons b rest, append_assoc (puts log) (texts (b ∷ []))))

  -- An event that brings bytes, whose part from the offset to the length, at most 255, is in the
  -- buffer, puts
  -- exactly the text of that part into the queue, in order, and keeps the state.
  pub uart_cb-puts :
      (buf : List ℕ) (offset len : ℕ) (s : UartRx) (log : Log DmaCall)
      → offset ≤ len
      → len ≤ length buf
      → len < 256
      → let (_, s', log') = uart_cb (rx_rdy buf offset len) env s log in
        (s' ≡ s) × (puts log' ≡ puts log ++ texts (take (len - offset) (drop offset buf)))
  unfolding uart_cb
  uart_cb-puts buf offset len s log le le' byte =
      let start : offset % 2 ^ 8 ≡ offset = omega (arith, le, byte) in
      let end : offset + (len - offset) ≡ len = omega (arith, le) in
      let past : List ℕ = puts log ++ texts (take (len - offset) (drop offset buf)) in
      rw start (
        subst
          (λ l.
            let (_, s', log') = put_bytes 256 offset l buf env s log in
            (s' ≡ s) × (puts log' ≡ past))
          end
          (put_bytes-puts 256 (len - offset) offset buf s log (omega arith) (omega arith)
            (omega arith)))
