-- ===== src/Mqtt/Device/Commands.antt =====
-- Commands over MQTT drive the user LED, and nothing else.
use zephyr_samples.Base.{
  ℕ, Bool, true, false, ◌≡◌, List, Option, none, some, if◌then◌else◌, bytes_eq, codes, Log, Env,
  arith,
}
use zephyr_samples.Mqtt.{Evt, Mqtt, MqttCall}
use zephyr_samples.Mqtt.Leds.{net_led, user_led}
use zephyr_samples.Mqtt.Replies.{replies}
use zephyr_samples.Mqtt.Session.{session}
use zephyr_samples.Mqtt.Device.Sample.{publications}
use zephyr_samples.Mqtt.Device.{c_str, device_command_handler}

-- What a command asks of the user LED.
abbrev pub asked : List ℕ → Option Bool
asked command =
    if bytes_eq command (codes "led_on")
    then some true
    else (if bytes_eq command (codes "led_off") then some false else none)

abbrev pub otherwise : Option Bool → Option Bool → Option Bool
otherwise none b = b
otherwise (some b') b = some b'

-- On a board with LEDs the command up to its first NUL decides: `led_on` and `led_off` switch the
-- user LED, any other command nothing. The network LED and the client's state stay as they are.
pub device_command_handler-user_led :
    (env : Env MqttCall) (command : List ℕ) (s : Mqtt) (log : Log MqttCall)
    → s.leds_present ≡ true
    → let (_, s', log') = device_command_handler command env s log in
      (user_led log' ≡ otherwise (asked (c_str command)) (user_led log))
      × (net_led log' ≡ net_led log)
      × (s' ≡ s)
unfolding device_command_handler
device_command_handler-user_led env command s log h = ground arith

pub device_command_handler-replies :
    (env : Env MqttCall) (command : List ℕ) (s : Mqtt) (log : Log MqttCall)
    → replies (device_command_handler command env s log).2 ≡ replies log
unfolding device_command_handler
device_command_handler-replies env command s log = ground arith

pub device_command_handler-kept :
    (env : Env MqttCall) (command : List ℕ) (s : Mqtt) (log : Log MqttCall)
    → (device_command_handler command env s log).1 ≡ s
unfolding device_command_handler
device_command_handler-kept env command s log = ground arith

pub device_command_handler-session :
    (library : Log MqttCall → List Evt) (env : Env MqttCall) (command : List ℕ) (s : Mqtt)
    (log : Log MqttCall)
    → let (_, _, log') = device_command_handler command env s log in
      (session library log' ≡ session library log) × (publications log' ≡ publications log)
unfolding device_command_handler
device_command_handler-session library env command s log = ground arith
