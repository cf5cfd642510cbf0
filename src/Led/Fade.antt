-- ===== src/Led/Fade.antt =====
-- The fading against its reference: a triangular wave.
use zephyr_samples.Base.{
  ℕ, zero, suc, ◌+◌, ◌-◌, ◌*◌, ◌%◌, ◌≤◌, ◌≡◌, refl, ◌∙◌, ap, not, ◌⊎◌, inl, inr, pos, negsuc, Bool,
  true, false, List, [], ◌∷◌, Log, Env, if◌then◌else◌, leb, is_zero, arith, Bool-cases,
}
use native.Mathlib.Nat.{add-zero, zero-add}
use zephyr_samples.Led.{
  LedCall, device_is_ready, led_set_brightness, State, update, fade_loop, main,
}

-- The brightness at a step: up from 0 to 100 in 50 steps, and down again.
abbrev pub level : ℕ → ℕ
level i = if leb (i % 100) 50 then 2 * (i % 100) else 200 - 2 * (i % 100)

-- The levels of the first steps, the latest first.
abbrev pub wave : ℕ → List ℕ
wave zero = []
wave (suc n) = level n ∷ wave n

-- The brightness set by each call, the latest first.
abbrev pub levels : Log LedCall → List ℕ
levels [] = []
levels ((led_set_brightness led b, r) ∷ log) = b ∷ levels log
levels ((c, r) ∷ log) = levels log

-- Whether the last call was refused: the device was not ready, or did not take the brightness.
abbrev pub refused : Log LedCall → Bool
refused [] = false
refused ((device_is_ready, r) ∷ log) = is_zero r
refused ((led_set_brightness led b, r) ∷ log) = not (is_zero r)
refused ((c, r) ∷ log) = false

-- The program has ended, by a refused call, or has made all its rounds.
abbrev pub Ended : Bool → Log LedCall → ℕ → ℕ → Type 0
Ended left log m n =
    ((left ≡ true) × (refused log ≡ true)) ⊎ ((left ≡ false) × (refused log ≡ false) × (m ≡ n))

-- The state before step `i`.
AtStep : ℕ → State → Type 0
AtStep i s =
    (s.brightness ≡ level i) × (s.direction ≡ (if leb 50 (i % 100) then negsuc 1 else pos 2))

plus-suc : (i m : ℕ) → i + suc m ≡ suc i + m
plus-suc i m = omega arith

plus-one : (i : ℕ) → i + 1 ≡ suc i
plus-one i = omega arith

next_end : (b : Bool) (log : Log LedCall) (m n : ℕ) → Ended b log m n → Ended b log (suc m) (suc n)
next_end b log m n (inl h) = inl h
next_end b log m n (inr (l, r, e)) = inr (l, r, ap suc e)

module _ (env : Env LedCall) where
  update-AtStep :
      (i : ℕ) (s : State) (log : Log LedCall)
      → AtStep i s
      → let (_, s', log') = update env s log in
        AtStep (suc i) s' × (levels log' ≡ levels log) × (refused log' ≡ false)
  unfolding update AtStep
  update-AtStep i s log (eb, ed) = ground arith

  -- What the loop sets from step `i` on.
  fade_loop-wave :
      (n i : ℕ) (s : State) (log : Log LedCall)
      → AtStep i s
      → levels log ≡ wave i
      → refused log ≡ false
      → let (left, s', log') = fade_loop n env s log in
        (m : ℕ) × (m ≤ n) × (levels log' ≡ wave (i + m)) × Ended left log' m n
  unfolding fade_loop AtStep
  fade_loop-wave zero i s log h e go = (0, omega arith, rw (add-zero i) e, inr (refl, go, refl))
  fade_loop-wave (suc n) i s log h e go =
      let r = env.result log (led_set_brightness 0 s.brightness) in
      let log1 = (led_set_brightness 0 s.brightness, r) ∷ log in
      let (_, s', log') = update env s log1 in
      let (h', e', go') = update-AtStep i s log1 h in
      let now : levels log1 ≡ wave (suc i) = rw (h.0, e) refl in
      elim (Bool-cases (is_zero r)) [
        | inl ez ↦
            let (left', s2, log2) = fade_loop n env s' log' in
            let (m, le, ew, er) = fade_loop-wave n (suc i) s' log' h' (e' ∙ now) go' in
            rw ez (suc m, omega arith, rw (plus-suc i m) ew, next_end left' log2 m n er)
        | inr ez ↦ rw ez (1, omega arith, rw (plus-one i) now, inl (refl, rw ez refl))
      ]

  -- However the calls return, the brightness set by the program is the triangular wave from 0 to 100
  -- per cent in steps of 2, step by step. Either it has ended, and its last call found the device not
  -- ready or a brightness not taken, or it has made all its rounds, and its last call was no such one.
  pub main-wave :
      (n : ℕ) (s : State)
      → let (left, s', log') = main n env s [] in
        (m : ℕ) × (m ≤ n) × (levels log' ≡ wave m) × Ended left log' m n
  unfolding main AtStep
  main-wave n s =
      let r = env.result [] device_is_ready in
      let s0 : State = record { brightness = 0; direction = pos 2 } in
      elim (Bool-cases (is_zero r)) [
        | inl ez ↦ rw ez (0, omega arith, refl, inl (refl, ez))
        | inr ez ↦
            let (m, le, ew, er) =
              fade_loop-wave n 0 s0 ((device_is_ready, r) ∷ []) (refl, refl) refl ez in
            rw ez (m, le, rw (← zero-add m) ew, er)
      ]
