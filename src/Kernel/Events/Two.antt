-- ===== src/Kernel/Events/Two.antt =====
-- kernel/EVENTS/_02_setting_two_events/src/main.c
use zephyr_samples.Base.{ℕ, ◌+◌, ◌%◌, ◌^◌, true, [], to_ℕ, pure, ◌>>=◌, ◌>>◌, call}
use zephyr_samples.Kernel.Binary.{print_binary}
use zephyr_samples.Kernel.Events.{
  App, k_event_set, k_event_wait, k_msleep, print_line, bit, report, rounds,
}

pub main_round : App (Unit {0})
main_round = call (k_event_set (bit 0 + bit 2)) >> call (k_msleep 1000) >> pure tt

pub main : ℕ → App (Unit {0})
main n = rounds n main_round

unfoldable pub consumer_round : App (Unit {0})
consumer_round = do
  event ← call (k_event_wait (bit 0 + bit 2) true)
  report 0 (to_ℕ event % 2 ^ 32)
  report 2 (to_ℕ event % 2 ^ 32)
  _ ← call (print_line (print_binary (to_ℕ event % 2 ^ 32) []))
  pure tt

pub consumer_thread : ℕ → App (Unit {0})
consumer_thread n = rounds n consumer_round
