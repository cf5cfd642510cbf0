-- ===== src/Kernel/Timers/OneShot/Five.antt =====
-- How often the timer of _02_one_timer_one_shot expires.
use zephyr_samples.Base.{
  ℕ, ◌+◌, ◌-◌, ◌<◌, ◌≤◌, ◌≡◌, refl, not, none, some, [], ◌∷◌, ◌++◌, leb, arith, Bool-cases, inl,
  inr,
}
use zephyr_samples.Kernel.Timers.{
  timer_id1, timer_id2, same, expired, period, again, later, remaining, running, World, note, Step,
  pass, expire, Reach, here, next,
}
use zephyr_samples.Kernel.Timers.Counts.{printed, up_to, up_to-next, not-due}
use zephyr_samples.Kernel.Timers.OneShot.{main, restart, expiry_callback}

-- The timer runs until the fifth expiry, and not after it.
pub data Shape (w : World) : Type 0 where
  runs : (r : ℕ) → w.count < 5 → r ≤ 2000 → remaining timer_id1 w.log ≡ some r → Shape w
  ended : w.count ≡ 5 → remaining timer_id1 w.log ≡ none → Shape w

abbrev Inv : World → Type 0
Inv w =
    (printed w.log ≡ up_to w.count)
    × (remaining timer_id2 w.log ≡ none)
    × (period timer_id1 w.log ≡ 0)
    × Shape w

-- An expiry while the timer runs.
expiry-Inv :
    (w : World) → w.count < 5 → Inv w → Inv (expiry_callback timer_id1 (note (expired timer_id1) w))
unfolding remaining period expiry_callback restart again same
expiry-Inv w lt (p, two, per, shape) =
    let counts : printed w.log ++ w.count ∷ [] ≡ up_to (w.count + 1) =
      rw (p, up_to-next w.count) refl in
    elim (Bool-cases (leb 5 (w.count + 1))) [
      | inl e ↦ rw e (counts, two, per, ended (ground (arith, lt, e)) (rw per refl))
      | inr e ↦ rw e (counts, two, refl, runs 1000 (ground (arith, e)) (omega arith) refl)
    ]

Step-Inv : {u v : World} → Step expiry_callback u v → Inv u → Inv v
unfolding remaining period later
Step-Inv (pass d w d1 d2) (p, two, per, runs r lt le e) =
    (p, rw two refl, per, runs (r - d) lt (omega (arith, le)) (rw e refl))
Step-Inv (pass d w d1 d2) (p, two, per, ended n e) = (p, rw two refl, per, ended n (rw e refl))
Step-Inv (expire timer_id2 w due) (p, two, per, shape) = not-due (remaining timer_id2 w.log) two due
Step-Inv (expire timer_id1 w due) (p, two, per, runs r lt le e) =
    expiry-Inv w lt (p, two, per, runs r lt le e)
Step-Inv (expire timer_id1 w due) (p, two, per, ended n e) =
    not-due (remaining timer_id1 w.log) e due

main-Inv : Inv main
unfolding main remaining period same
main-Inv = (refl, refl, refl, runs 2000 (omega arith) (omega arith) refl)

Reach-Inv : {w : World} → Reach expiry_callback main w → Inv w
Reach-Inv here = main-Inv
Reach-Inv (next r st) = Step-Inv st (Reach-Inv r)

Shape-count :
    (w : World)
    → Shape w
    → (w.count ≤ 5) × (leb 5 w.count ≡ not (running (remaining timer_id1 w.log)))
unfolding running
Shape-count w (runs r lt le e) = (omega (arith, lt), rw e (ground (arith, lt)))
Shape-count w (ended n e) = (omega (arith, n), rw (e, n) refl)

-- In every state that can be reached: the counts printed are those from 0 on, at most five, and the timer
-- runs until the fifth expiry and not after it.
pub Reach-five :
    {w : World}
    → Reach expiry_callback main w
    → (printed w.log ≡ up_to w.count)
      × (w.count ≤ 5)
      × (leb 5 w.count ≡ not (running (remaining timer_id1 w.log)))
Reach-five {w} r =
    let (p, two, per, shape) = Reach-Inv r in
    let (few, ends) = Shape-count w shape in (p, few, ends)
