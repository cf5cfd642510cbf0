-- ===== src/Kernel/Events.antt =====
-- kernel/EVENTS: the calls of the samples _01 to _04, and what their consumer threads share. An event
-- is a uint32_t; the loops of the threads take their rounds as fuel.
pub mod Simple
pub mod Two
pub mod Posting
pub mod All
mod Tests
use zephyr_samples.Base.{
  ℕ, zero, suc, ◌/◌, ◌%◌, ◌^◌, ℤ, Bool, if◌then◌else◌, ◌==◌, Io, pure, ◌>>=◌, ◌>>◌, call,
}
use zephyr_samples.Kernel.Binary.{Printed}

pub data EventCall : Type 0 where
  k_event_set k_event_post k_event_clear : ℕ → EventCall
  -- the events waited for, and whether all are cleared before the wait
  k_event_wait k_event_wait_safe k_event_wait_all : ℕ → Bool → EventCall
  k_msleep : ℕ → EventCall
  -- the bit of an event that a thread reports
  print_event : ℕ → EventCall
  print_line : Printed → EventCall

abbrev pub App : Type 0 → Type 0
App A = Io (Unit {0}) EventCall A

abbrev pub bit : ℕ → ℕ
bit b = 2 ^ b

-- `event & BIT(b)`
unfoldable pub has_bit : ℕ → ℕ → Bool
has_bit b event = event / 2 ^ b % 2 == 1

unfoldable pub report : ℕ → ℕ → App (Unit {0})
report b event = if has_bit b event then call (print_event b) >> pure tt else pure tt

-- The rounds of a thread.
unfoldable pub rounds : ℕ → App (Unit {0}) → App (Unit {0})
rounds zero round = pure tt
rounds (suc n) round = round >> rounds n round
