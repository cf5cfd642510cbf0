-- ===== src/Kernel/Timers/Reload/Tests.antt =====
-- Two expiries, each at its time.
use zephyr_samples.Base.{◌+◌, ◌*◌, ◌≤◌, ◌≡◌, ◌⊎◌, refl, arith}
use zephyr_samples.Kernel.Timers.{
  timer_id1, same, elapsed, expired, period, again, later, remaining, Allows, World, note, pass,
  expire, Reach, here, next,
}
use zephyr_samples.Kernel.Timers.Counts.{printed}
use zephyr_samples.Kernel.Timers.Reload.{main, expiry_callback, callbacks}
use zephyr_samples.Kernel.Timers.Reload.Rate.{time, expiries, wrapped, Reach-on_time}

abbrev due_once : World
due_once = note (elapsed 2000) main

abbrev once : World
once = callbacks timer_id1 (note (expired timer_id1) due_once)

abbrev due_twice : World
due_twice = note (elapsed 500) once

abbrev twice : World
twice = callbacks timer_id1 (note (expired timer_id1) due_twice)

twice-Reach : Reach callbacks main twice
unfolding main callbacks expiry_callback remaining period later again same Allows
twice-Reach =
    next
      (next (next (next here (pass 2000 main (omega arith) tt)) (expire timer_id1 due_once refl))
        (pass 500 once (omega arith) tt))
      (expire timer_id1 due_twice refl)

Reach-on_time_example :
    let n = expiries twice.log in
    (printed twice.log ≡ wrapped n)
    × (time twice.log ≤ 2000 + 500 * n)
    × ((n ≡ 0) ⊎ (1500 + 500 * n ≤ time twice.log))
Reach-on_time_example = Reach-on_time twice-Reach
