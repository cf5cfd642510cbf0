-- ===== src/Kernel/Events/All.antt =====
-- kernel/EVENTS/_04_wait_for_all_events/src/main.c
use zephyr_samples.Base.{ℕ, ◌+◌, ◌%◌, ◌^◌, false, to_ℕ, pure, ◌>>=◌, ◌>>◌, call}
use zephyr_samples.Kernel.Events.{App, k_event_post, k_event_wait_all, k_msleep, bit, rounds}
use zephyr_samples.Kernel.Events.Posting.{process_event}

pub main_round : App (Unit {0})
main_round =
    call (k_event_post (bit 0))
    >> call (k_msleep 100)
    >> call (k_event_post (bit 3))
    >> call (k_msleep 1000)
    >> pure tt

pub main : ℕ → App (Unit {0})
main n = rounds n main_round

-- What follows the wait is the text of _03_posting_two_events.
pub consumer_round : App (Unit {0})
consumer_round = do
  event ← call (k_event_wait_all (bit 0 + bit 3) false)
  process_event (to_ℕ event % 2 ^ 32)

pub consumer_thread : ℕ → App (Unit {0})
consumer_thread n = rounds n consumer_round
