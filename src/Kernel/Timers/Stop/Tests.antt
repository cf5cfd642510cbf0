-- ===== src/Kernel/Timers/Stop/Tests.antt =====
-- One expiry of the first timer.
use zephyr_samples.Base.{◌≡◌, refl, arith}
use zephyr_samples.Kernel.Timers.{
  timer_id1, same, elapsed, expired, period, again, later, remaining, Allows, World, note, pass,
  expire, Reach, here, next,
}
use zephyr_samples.Kernel.Timers.Counts.{printed, up_to}
use zephyr_samples.Kernel.Timers.Stop.{main, timer1_callback, callbacks}
use zephyr_samples.Kernel.Timers.Stop.Within.{Bounded, Reach-within}

abbrev due : World
due = note (elapsed 500) main

abbrev once : World
once = callbacks timer_id1 (note (expired timer_id1) due)

once-Reach : Reach callbacks main once
unfolding main callbacks timer1_callback remaining period later again same Allows
once-Reach =
    next (next here (pass 500 main (omega arith) (omega arith))) (expire timer_id1 due refl)

Reach-within_example : (printed once.log ≡ up_to once.count) × Bounded once
Reach-within_example = Reach-within once-Reach
