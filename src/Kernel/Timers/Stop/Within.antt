-- ===== src/Kernel/Timers/Stop/Within.antt =====
-- How often the first timer of _06_stop_timer_callback expires before the second stops it.
use zephyr_samples.Base.{
  ℕ, suc, ◌+◌, ◌*◌, ◌-◌, ◌≤◌, ◌≡◌, refl, ◌⊎◌, inl, inr, Bool, true, none, some, List, [], ◌∷◌,
  if◌then◌else◌, arith,
}
use zephyr_samples.Kernel.Timers.{
  timer_id1, timer_id2, same, Entry, print_stopped, period, again, later, remaining, running, World,
  Step, pass, expire, Reach, here, next,
}
use zephyr_samples.Kernel.Timers.Counts.{printed, up_to, up_to-next, not-due, some-eq, allowed}
use zephyr_samples.Kernel.Timers.Stop.{
  main, timer1_callback, stop_callback, stop_timer1, timer2_callback, callbacks,
}

-- How often the stop function was called.
abbrev pub stops : List Entry → ℕ
stops [] = 0
stops (print_stopped ∷ log) = suc (stops log)
stops (e ∷ log) = stops log

-- While both run, the count and the times left add up.
abbrev Running : World → ℕ → ℕ → Type 0
Running w r1 r2 =
    (remaining timer_id1 w.log ≡ some r1)
    × (remaining timer_id2 w.log ≡ some r2)
    × (r1 ≤ 500)
    × (500 * w.count + 500 + r2 ≡ 3000 + r1)
    × (stops w.log ≡ 0)

abbrev Ended : World → Type 0
Ended w =
    (remaining timer_id1 w.log ≡ none)
    × (remaining timer_id2 w.log ≡ none)
    × (5 ≤ w.count)
    × (w.count ≤ 6)
    × (stops w.log ≡ 1)

data Shape (w : World) : Type 0 where
  both : (r1 r2 : ℕ) → Running w r1 r2 → Shape w
  ended : Ended w → Shape w

abbrev Inv : World → Type 0
Inv w =
    (printed w.log ≡ up_to w.count)
    × (period timer_id1 w.log ≡ 500)
    × (period timer_id2 w.log ≡ 0)
    × Shape w

Step-Inv : {u v : World} → Step callbacks u v → Inv u → Inv v
unfolding remaining period later callbacks timer1_callback timer2_callback stop_timer1 stop_callback
    again same running
Step-Inv (pass d w d1 d2) (p, per1, per2, both r1 r2 (e1, e2, le, sum, none_yet)) =
    let le1 = allowed (remaining timer_id1 w.log) r1 d e1 d1 in
    let le2 = allowed (remaining timer_id2 w.log) r2 d e2 d2 in
    (
      p,
      per1,
      per2,
      both (r1 - d) (r2 - d)
          (rw e1 refl, rw e2 refl, omega (arith, le), omega (arith, sum, le1, le2), none_yet),
    )
Step-Inv (pass d w d1 d2) (p, per1, per2, ended (e1, e2, lo, hi, once)) =
    (p, per1, per2, ended (rw e1 refl, rw e2 refl, lo, hi, once))
Step-Inv (expire timer_id1 w due) (p, per1, per2, both r1 r2 (e1, e2, le, sum, none_yet)) =
    let zero1 = some-eq (remaining timer_id1 w.log) r1 0 e1 due in
    (
      rw (p, up_to-next w.count) refl,
      per1,
      per2,
      both 500 r2 (rw per1 refl, e2, omega arith, omega (arith, sum, zero1), none_yet),
    )
Step-Inv (expire timer_id2 w due) (p, per1, per2, both r1 r2 (e1, e2, le, sum, none_yet)) =
    let zero2 = some-eq (remaining timer_id2 w.log) r2 0 e2 due in
    rw e1 (
      p,
      per1,
      per2,
      ended (
        refl,
        rw per2 refl,
        omega (arith, sum, zero2),
        omega (arith, sum, zero2, le),
        omega (arith, none_yet),
      ),
    )
Step-Inv (expire timer_id1 w due) (p, per1, per2, ended (e1, e2, lo, hi, once)) =
    not-due (remaining timer_id1 w.log) e1 due
Step-Inv (expire timer_id2 w due) (p, per1, per2, ended (e1, e2, lo, hi, once)) =
    not-due (remaining timer_id2 w.log) e2 due

main-Inv : Inv main
unfolding main remaining period same
main-Inv = (refl, refl, refl, both 500 3000 (refl, refl, omega arith, omega arith, refl))

Reach-Inv : {w : World} → Reach callbacks main w → Inv w
Reach-Inv here = main-Inv
Reach-Inv (next r st) = Step-Inv st (Reach-Inv r)

abbrev pub Bounded : World → Type 0
Bounded w =
    let on : Bool = running (remaining timer_id1 w.log) in
    (w.count ≤ 6)
    × ((5 ≤ w.count) ⊎ (on ≡ true))
    × (running (remaining timer_id2 w.log) ≡ on)
    × (stops w.log ≡ (if on then 0 else 1))

Shape-Bounded : (w : World) → Shape w → Bounded w
unfolding running
Shape-Bounded w (both r1 r2 (e1, e2, le, sum, none_yet)) =
    rw (e1, e2) (omega (arith, sum, le), inr refl, refl, none_yet)
Shape-Bounded w (ended (e1, e2, lo, hi, once)) = rw (e1, e2) (hi, inl lo, refl, once)

-- In every state that can be reached: the first timer has printed the counts from 0 on, six at most, and at
-- least five where it was stopped; both timers run, and the stop function was not called, or neither
-- runs, and it was called once.
pub Reach-within :
    {w : World} → Reach callbacks main w → (printed w.log ≡ up_to w.count) × Bounded w
Reach-within {w} r = let (p, per1, per2, shape) = Reach-Inv r in (p, Shape-Bounded w shape)
