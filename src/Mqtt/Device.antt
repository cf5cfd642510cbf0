-- ===== src/Mqtt/Device.antt =====
-- networking/ETHERNET/_13_mqtt/src/device.c
pub mod Commands
pub mod Sample
use zephyr_samples.Base.{
  ℕ, ℤ, pos, ◌+◌, ◌*◌, ◌/◌, ◌-◌, ◌^◌, Bool, true, false, ◌&&◌, List, [], ◌∷◌, Option, none, some,
  if◌then◌else◌, ◌==◌, is_zero, to_ℕ, bytes_eq, codes, not, pure, ◌>>=◌, ◌>>◌, call, get,
}
use zephyr_samples.Mqtt.{
  App, LedId, led_net, led_user, LedState, led_off, led_on, sensor, leds, write_led,
  device_is_ready, sys_rand32_get, sensor_sample_fetch, sensor_channel_get, sensor_value,
}

-- What the function returns is `rc`, which no branch that an `enum led_state` can take assigns.
unfoldable pub device_write_led : LedId → LedState → App (Option ℤ)
device_write_led led state = do
  s ← get
  if s.leds_present then (call (write_led led state) >> pure none) else pure none

led_on_handler : App (Unit {0})
unfolding device_write_led
led_on_handler = device_write_led led_user led_on >> pure tt

led_off_handler : App (Unit {0})
unfolding device_write_led
led_off_handler = device_write_led led_user led_off >> pure tt

-- A C string: the bytes before the first NUL.
unfoldable pub c_str : List ℕ → List ℕ
c_str [] = []
c_str (b ∷ bs) = let rest = c_str bs in if b == 0 then [] else b ∷ rest

device_commands : List (List ℕ × App (Unit {0}))
unfolding led_on_handler led_off_handler
device_commands = (codes "led_on", led_on_handler) ∷ (codes "led_off", led_off_handler) ∷ []

-- The loop of the dispatcher: the first command with the name is executed.
find_command : List (List ℕ × App (Unit {0})) → List ℕ → App (Unit {0})
find_command [] command = pure tt
find_command ((name, handler) ∷ rest) command =
    let later = find_command rest command in if bytes_eq command name then handler else later

pub device_command_handler : List ℕ → App (Unit {0})
unfolding device_commands find_command
device_command_handler command = find_command device_commands (c_str command)

-- 20.0 + rand / UINT32_MAX * 5.0, converted to `int`
dummy_value : ℕ → ℕ
dummy_value r = 20 + r * 5 / (2 ^ 32 - 1)

-- Without a sensor: a dummy value.
read_dummy : App (ℤ × Option ℤ)
unfolding dummy_value
read_dummy = do r ← call sys_rand32_get; pure (pos 0, some (pos (dummy_value (to_ℕ r))))

-- With a sensor: the return code, and the value where the sample was written.
read_channel : App (ℤ × Option ℤ)
read_channel = do
  rc ← call sensor_channel_get
  if is_zero rc then (do v ← call sensor_value; pure (rc, some v)) else pure (rc, none)

read_device : App (ℤ × Option ℤ)
unfolding read_channel
read_device = do rc ← call sensor_sample_fetch; if is_zero rc then read_channel else pure (rc, none)

pub device_read_sensor : App (ℤ × Option ℤ)
unfolding read_dummy read_device
device_read_sensor = do s ← get; if s.sensor_present then read_device else read_dummy

-- Readiness of a device, true where the device tree does not have it.
sensor_ready : App Bool
sensor_ready = do
  s ← get
  if s.sensor_present
      then (do r ← call (device_is_ready sensor); pure (not (is_zero r)))
      else pure true

leds_ready : App Bool
leds_ready = do
  s ← get
  if s.leds_present then (do r ← call (device_is_ready leds); pure (not (is_zero r))) else pure true

pub devices_ready : App Bool
unfolding sensor_ready leds_ready
devices_ready = do a ← sensor_ready; b ← leds_ready; pure (a && b)
