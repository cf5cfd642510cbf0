-- ===== src/Kernel/Timers/OneShot/Tests.antt =====
-- Two expiries, each at its time.
use zephyr_samples.Base.{◌≤◌, ◌≡◌, refl, not, [], ◌∷◌, leb, arith}
use zephyr_samples.Kernel.Timers.{
  timer_id1, same, elapsed, expired, period, again, later, remaining, running, Allows, World, note,
  pass, expire, Reach, here, next,
}
use zephyr_samples.Kernel.Timers.OneShot.{main, restart, expiry_callback}
use zephyr_samples.Kernel.Timers.OneShot.Five.{Reach-five}
use zephyr_samples.Kernel.Timers.Counts.{printed, up_to}

abbrev due_once : World
due_once = note (elapsed 2000) main

abbrev once : World
once = expiry_callback timer_id1 (note (expired timer_id1) due_once)

abbrev due_twice : World
due_twice = note (elapsed 1000) once

abbrev twice : World
twice = expiry_callback timer_id1 (note (expired timer_id1) due_twice)

twice-Reach : Reach expiry_callback main twice
unfolding main restart expiry_callback remaining period later again same Allows
twice-Reach =
    next
      (next (next (next here (pass 2000 main (omega arith) tt)) (expire timer_id1 due_once refl))
        (pass 1000 once (omega arith) tt))
      (expire timer_id1 due_twice refl)

printed_twice : printed twice.log ≡ 0 ∷ 1 ∷ []
unfolding main restart expiry_callback
printed_twice = refl

Reach-five_example :
    (printed twice.log ≡ up_to twice.count)
    × (twice.count ≤ 5)
    × (leb 5 twice.count ≡ not (running (remaining timer_id1 twice.log)))
Reach-five_example = Reach-five twice-Reach
