-- ===== src/Mqtt/Leds.antt =====
-- What a log of calls says of the board's LEDs.
use zephyr_samples.Base.{Bool, true, false, [], ◌∷◌, Option, none, some, Log}
use zephyr_samples.Mqtt.{MqttCall, led_net, led_user, LedState, led_off, led_on, write_led}

abbrev pub lit : LedState → Bool
lit led_on = true
lit led_off = false

-- Whether the network LED was last switched on.
abbrev pub net_led : Log MqttCall → Option Bool
net_led [] = none
net_led ((write_led led_net state, r) ∷ log) = some (lit state)
net_led (e ∷ log) = net_led log

-- Whether the user LED was last switched on.
abbrev pub user_led : Log MqttCall → Option Bool
user_led [] = none
user_led ((write_led led_user state, r) ∷ log) = some (lit state)
user_led (e ∷ log) = user_led log
