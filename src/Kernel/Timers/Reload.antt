-- ===== src/Kernel/Timers/Reload.antt =====
-- kernel/TIMERS/_01_reload_mode/src/main.c; its timer is `timer_id1`.
pub mod Rate
mod Tests
use zephyr_samples.Base.{ℕ, ◌+◌, ◌%◌, ◌^◌, [], ◌∷◌}
use zephyr_samples.Kernel.Timers.{
  Timer, timer_id1, timer_id2, k_timer_start, World, note, print_count,
}

-- `main`; `count` is 0.
pub main : World
main = record { count = 0; log = k_timer_start timer_id1 2000 500 ∷ [] }

-- `printk("…", count++)`: `count` is an `int`, here as its 32 bits, of which the overflow is a
-- wrap-around.
pub expiry_callback : World → World
expiry_callback w =
    let w' = note (print_count w.count) w in record w' { count = (w.count + 1) % 2 ^ 32 }

-- `K_TIMER_DEFINE`: the function that the timer calls; the second timer is not there.
pub callbacks : Timer → World → World
callbacks timer_id1 = expiry_callback
callbacks timer_id2 = λ w. w
