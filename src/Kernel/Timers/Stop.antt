-- ===== src/Kernel/Timers/Stop.antt =====
-- kernel/TIMERS/_06_stop_timer_callback/src/main.c
pub mod Within
mod Tests
use zephyr_samples.Base.{ℕ, Bool, [], ◌∷◌, if◌then◌else◌}
use zephyr_samples.Kernel.Timers.{
  Timer, timer_id1, timer_id2, k_timer_start, k_timer_stop, print_stopping, print_stopped,
  remaining, running, World, note, show_count,
}

-- `main`; `count` is 0.
pub main : World
main = record {
  count = 0;
  log = k_timer_start timer_id2 3000 0 ∷ k_timer_start timer_id1 500 500 ∷ [];
}

pub timer1_callback : World → World
timer1_callback w = show_count w

pub stop_callback : World → World
stop_callback w = note print_stopped w

-- `k_timer_stop(&timer_id1)`, which calls the stop function of a timer that runs
pub stop_timer1 : World → World
stop_timer1 w =
    if running (remaining timer_id1 w.log)
    then stop_callback (note (k_timer_stop timer_id1) w)
    else note (k_timer_stop timer_id1) w

pub timer2_callback : World → World
timer2_callback w = stop_timer1 (note print_stopping w)

-- `K_TIMER_DEFINE`: the function that each timer calls
pub callbacks : Timer → World → World
callbacks timer_id1 = timer1_callback
callbacks timer_id2 = timer2_callback
