-- ===== src/Kernel/Events/Posting.antt =====
-- kernel/EVENTS/_03_posting_two_events/src/main.c
use zephyr_samples.Base.{ℕ, ◌+◌, ◌%◌, ◌^◌, false, [], to_ℕ, pure, ◌>>=◌, ◌>>◌, call}
use zephyr_samples.Kernel.Binary.{print_binary}
use zephyr_samples.Kernel.Events.{
  App, k_event_post, k_event_clear, k_event_wait_safe, k_msleep, print_line, bit, report, rounds,
}

pub main_round : App (Unit {0})
main_round =
    call (k_event_post (bit 0)) >> call (k_event_post (bit 3)) >> call (k_msleep 1000) >> pure tt

pub main : ℕ → App (Unit {0})
main n = rounds n main_round

-- What follows the wait.
unfoldable pub process_event : ℕ → App (Unit {0})
process_event event = do
  _ ← call (print_line (print_binary event []))
  report 0 event
  report 3 event
  _ ← call (k_event_clear event)
  pure tt

unfoldable pub consumer_round : App (Unit {0})
consumer_round = do
  event ← call (k_event_wait_safe (bit 0 + bit 3) false)
  process_event (to_ℕ event % 2 ^ 32)

pub consumer_thread : ℕ → App (Unit {0})
consumer_thread n = rounds n consumer_round
