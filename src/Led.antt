-- ===== src/Led.antt =====
-- middleware/LEDS/_04_led_brightness_pwm/src/main.c
-- The loop takes its rounds as fuel: a `while (1)` has no bound of its own.
pub mod Fade
mod Tests
use zephyr_samples.Base.{
  ℕ, zero, suc, ◌+◌, ◌-◌, ◌%◌, ◌^◌, ℤ, pos, negsuc, Bool, true, false, ◌||◌, if◌then◌else◌, ◌==◌,
  is_zero, Io, pure, ◌>>=◌, ◌>>◌, call, get,
}

pub data LedCall : Type 0 where
  device_is_ready : LedCall
  -- the LED and its brightness in percent
  led_set_brightness : ℕ → ℕ → LedCall
  k_sleep : ℕ → LedCall

abbrev pub fade_delay_ms : ℕ
fade_delay_ms = 20

abbrev pub fade_step : ℕ
fade_step = 2

-- A uint8_t and an int8_t.
pub record State : Type 0 where
  pub brightness : ℕ
  pub direction : ℤ

abbrev pub App : Type 0 → Type 0
App A = Io State LedCall A

-- `-direction`
abbrev pub negate : ℤ → ℤ
negate (pos zero) = pos zero
negate (pos (suc n)) = negsuc n
negate (negsuc n) = pos (suc n)

-- A uint8_t and an int8_t added, as a uint8_t.
abbrev pub add_u8 : ℕ → ℤ → ℕ
add_u8 a (pos n) = (a + n) % 2 ^ 8
add_u8 a (negsuc n) = (a + 2 ^ 8 - suc n) % 2 ^ 8

abbrev pub init : App (Unit {0})
init env s log = (tt, record { brightness = 0; direction = pos fade_step }, log)

abbrev pub add_direction : App (Unit {0})
add_direction env s log = (tt, record s { brightness = add_u8 s.brightness s.direction }, log)

-- At the limits the direction is reversed.
abbrev pub reverse_at_limit : App (Unit {0})
reverse_at_limit env s log = (
  tt,
  (if s.brightness == 0 || s.brightness == 100
      then record s { direction = negate s.direction }
      else s),
  log,
)

pub update : App (Unit {0})
update = do add_direction; reverse_at_limit; _ ← call (k_sleep fade_delay_ms); pure tt

-- Whether the program has ended.
pub fade_loop : ℕ → App Bool
fade_loop zero = pure false
fade_loop (suc rounds) = do
  s ← get
  ret ← call (led_set_brightness 0 s.brightness)
  let rest = update >> fade_loop rounds
  if is_zero ret then rest else pure true

pub main : ℕ → App Bool
main rounds = do
  init
  ready ← call device_is_ready
  if is_zero ready then pure true else fade_loop rounds
