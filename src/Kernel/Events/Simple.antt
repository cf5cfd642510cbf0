-- ===== src/Kernel/Events/Simple.antt =====
-- kernel/EVENTS/_01_simple_event/src/main.c
use zephyr_samples.Base.{ℕ, ◌%◌, ◌^◌, true, [], to_ℕ, pure, ◌>>=◌, ◌>>◌, call}
use zephyr_samples.Kernel.Binary.{print_binary}
use zephyr_samples.Kernel.Events.{
  App, k_event_set, k_event_wait, k_msleep, print_event, print_line, bit, rounds,
}

pub main_round : App (Unit {0})
main_round = call (k_event_set (bit 0)) >> call (k_msleep 1000) >> pure tt

pub main : ℕ → App (Unit {0})
main n = rounds n main_round

pub consumer_round : App (Unit {0})
consumer_round = do
  event ← call (k_event_wait (bit 0) true)
  _ ← call (print_event 0)
  _ ← call (print_line (print_binary (to_ℕ event % 2 ^ 32) []))
  pure tt

pub consumer_thread : ℕ → App (Unit {0})
consumer_thread n = rounds n consumer_round
