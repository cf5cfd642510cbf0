-- ===== src/Kernel/Timers/Reload/Rate.antt =====
-- How often the timer of _01_reload_mode has expired after a time.
use zephyr_samples.Base.{
  ℕ, zero, suc, ◌%◌, ◌^◌, ◌++◌, ◌+◌, ◌*◌, ◌-◌, ◌≤◌, ◌≡◌, refl, ◌⊎◌, inl, inr, none, some, List, [],
  ◌∷◌, arith,
}
use zephyr_samples.Kernel.Timers.{
  timer_id1, timer_id2, same, Entry, elapsed, expired, period, again, later, remaining, World, Step,
  pass, expire, Reach, here, next,
}
use zephyr_samples.Kernel.Timers.Counts.{printed, not-due, some-eq, allowed}
use zephyr_samples.Kernel.Timers.Reload.{main, expiry_callback, callbacks}

-- The time that has passed.
abbrev pub time : List Entry → ℕ
time [] = 0
time (elapsed d ∷ log) = time log + d
time (e ∷ log) = time log

-- How often the timer has expired.
abbrev pub expiries : List Entry → ℕ
expiries [] = 0
expiries (expired t ∷ log) = suc (expiries log)
expiries (e ∷ log) = expiries log

-- 0, 1, 2 and so on, by 32 bits.
abbrev pub wrapped : ℕ → List ℕ
wrapped zero = []
wrapped (suc n) = wrapped n ++ n % 2 ^ 32 ∷ []

abbrev Inv : World → ℕ → Type 0
Inv w r =
    (printed w.log ≡ wrapped (expiries w.log))
    × (w.count ≡ expiries w.log % 2 ^ 32)
    × (period timer_id1 w.log ≡ 500)
    × (remaining timer_id1 w.log ≡ some r)
    × (remaining timer_id2 w.log ≡ none)
    × (time w.log + r ≡ 2000 + 500 * expiries w.log)
    × ((expiries w.log ≡ 0) ⊎ (r ≤ 500))

Step-Inv : {u v : World} → Step callbacks u v → (r : ℕ) → Inv u r → (r' : ℕ) × Inv v r'
unfolding remaining period later callbacks expiry_callback again same
Step-Inv (pass d w d1 d2) r (p, c, per, e1, e2, sum, le) =
    let few : d ≤ r = allowed (remaining timer_id1 w.log) r d e1 d1 in
    (r - d, (p, c, per, rw e1 refl, rw e2 refl, omega (arith, sum, few), ground (arith, le)))
Step-Inv (expire timer_id1 w due) r (p, c, per, e1, e2, sum, le) =
    let zero1 : r ≡ 0 = some-eq (remaining timer_id1 w.log) r 0 e1 due in
    (
      500,
      (
        rw (p, c) refl,
        omega (arith, c),
        per,
        rw per refl,
        e2,
        omega (arith, sum, zero1),
        inr (omega arith),
      ),
    )
Step-Inv (expire timer_id2 w due) r (p, c, per, e1, e2, sum, le) =
    not-due (remaining timer_id2 w.log) e2 due

Reach-Inv : {w : World} → Reach callbacks main w → (r : ℕ) × Inv w r
unfolding main remaining period same
Reach-Inv here = (2000, (refl, refl, refl, refl, refl, refl, inl refl))
Reach-Inv (next s st) = let (r, h) = Reach-Inv s in Step-Inv st r h

-- In every state that can be reached: there is one line for each expiry, and the lines show 0, 1, 2 and so
-- on, as an `int` of 32 bits that wraps around; and of the expiries, at 2000 ms and every 500 ms from
-- then on, none is early, and none but one that is due is missing.
pub Reach-on_time :
    {w : World}
    → Reach callbacks main w
    → let n = expiries w.log in
      (printed w.log ≡ wrapped n)
      × (time w.log ≤ 2000 + 500 * n)
      × ((n ≡ 0) ⊎ (1500 + 500 * n ≤ time w.log))
Reach-on_time {w} s =
    let (r, (p, c, per, e1, e2, sum, le)) = Reach-Inv s in
    (p, omega (arith, sum), ground (arith, sum, le))
