-- ===== src/Kernel/Timers/OneShot.antt =====
-- kernel/TIMERS/_02_one_timer_one_shot/src/main.c; its timer is `timer_id1`.
pub mod Five
mod Tests
use zephyr_samples.Base.{ℕ, ◌+◌, Bool, [], ◌∷◌, if◌then◌else◌, leb}
use zephyr_samples.Kernel.Timers.{
  Timer, timer_id1, k_timer_start, print_ended, World, note, show_count,
}

-- `main`; `count` is 0.
pub main : World
main = record { count = 0; log = k_timer_start timer_id1 2000 0 ∷ [] }

pub restart : World → World
restart w = if leb 5 w.count then note print_ended w else note (k_timer_start timer_id1 1000 0) w

pub expiry_callback : Timer → World → World
expiry_callback t w = restart (show_count w)
