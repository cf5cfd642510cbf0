-- ===== src/Kernel/Timers.antt =====
-- kernel/TIMERS: timers as the kernel's documentation has them, read off a log of the calls and of what
-- happens: time that passes, in milliseconds, and timers that expire.
pub mod Counts
pub mod OneShot
pub mod Stop
pub mod Reload
use zephyr_samples.Base.{
  ℕ, zero, suc, ◌+◌, ◌-◌, ◌≤◌, ◌≡◌, Bool, true, false, Option, none, some, List, [], ◌∷◌,
  if◌then◌else◌,
}

pub data Timer : Type 0 where
  timer_id1 timer_id2 : Timer

unfoldable pub same : Timer → Timer → Bool
same timer_id1 timer_id1 = true
same timer_id2 timer_id2 = true
same t u = false

pub data Entry : Type 0 where
  -- the first duration and the period, 0 for K_NO_WAIT
  k_timer_start : Timer → ℕ → ℕ → Entry
  k_timer_stop : Timer → Entry
  elapsed : ℕ → Entry
  expired : Timer → Entry
  print_count : ℕ → Entry
  print_ended print_stopping print_stopped : Entry

unfoldable pub period : Timer → List Entry → ℕ
period t [] = 0
period t (k_timer_start u first next ∷ log) = if same u t then next else period t log
period t (e ∷ log) = period t log

-- After an expiry: one with period 0 is not started again.
unfoldable pub again : ℕ → Option ℕ
again zero = none
again (suc p) = some (suc p)

unfoldable pub later : ℕ → Option ℕ → Option ℕ
later d none = none
later d (some r) = some (r - d)

-- The time until a timer expires; none where it does not run.
unfoldable pub remaining : Timer → List Entry → Option ℕ
remaining t [] = none
remaining t (k_timer_start u first next ∷ log) = if same u t then some first else remaining t log
remaining t (k_timer_stop u ∷ log) = if same u t then none else remaining t log
remaining t (elapsed d ∷ log) = later d (remaining t log)
remaining t (expired u ∷ log) = if same u t then again (period t log) else remaining t log
remaining t (e ∷ log) = remaining t log

unfoldable pub running : Option ℕ → Bool
running none = false
running (some r) = true

-- No time passes while a timer is due.
unfoldable pub Allows : ℕ → Option ℕ → Type 0
Allows d none = Unit {0}
Allows d (some r) = d ≤ r

-- The static `count` of a callback, and the log.
pub record World : Type 0 where
  pub count : ℕ
  pub log : List Entry

abbrev pub note : Entry → World → World
note e w = record w { log = e ∷ w.log }

-- `printk("…", count++)` of _02 and _06, whose counts stay below 7.
abbrev pub show_count : World → World
show_count w = let w' = note (print_count w.count) w in record w' { count = w.count + 1 }

-- What may happen; an expiry calls the function of the timer.
pub data Step (callback : Timer → World → World) : World → World → Type 0 where
  pass :
      (d : ℕ) (w : World)
      → Allows d (remaining timer_id1 w.log)
      → Allows d (remaining timer_id2 w.log)
      → Step callback w (note (elapsed d) w)
  expire :
      (t : Timer) (w : World)
      → remaining t w.log ≡ some 0
      → Step callback w (callback t (note (expired t) w))

pub data Reach (callback : Timer → World → World) (w : World) : World → Type 0 where
  here : Reach callback w w
  next : {u v : World} → Reach callback w u → Step callback u v → Reach callback w v
