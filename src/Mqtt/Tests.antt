-- ===== src/Mqtt/Tests.antt =====
-- The MQTT client with a library that accepts every connection.
use zephyr_samples.Base.{
  ℤ, pos, negsuc, false, true, ◌≡◌, ◌⊎◌, inr, refl, List, [], ◌∷◌, some, none, Env, Log, codes,
}
use zephyr_samples.Mqtt.{
  Mqtt, MqttCall, mqtt_input, poll, transport_sock, secure, mqtt_publish_qos1_ack, sys_rand32_get,
  Evt, connack, disconnect, publish, at_least_once,
}
use zephyr_samples.Mqtt.Session.{down, opened, session}
use zephyr_samples.Mqtt.Leds.{net_led, user_led}
use zephyr_samples.Mqtt.Replies.{replies}
use zephyr_samples.Mqtt.Device.{c_str, device_command_handler}
use zephyr_samples.Mqtt.Device.Commands.{asked, device_command_handler-user_led}
use zephyr_samples.Mqtt.Device.Commands
use zephyr_samples.Mqtt.Handler.{deliver}
use zephyr_samples.Mqtt.Handler.Connection.{otherwise, with_led, last_verdict, deliver-last_verdict}
use zephyr_samples.Mqtt.Handler.Replies.{deliver-replies}
use zephyr_samples.Mqtt.Client.{app_mqtt_connect}
use zephyr_samples.Mqtt.Client.Connect.{IsHonest, Accepts, app_mqtt_connect-returns}
use zephyr_samples.Mqtt.Main.{main_loop}
use zephyr_samples.Mqtt.Main.Rounds.{main_loop-session}

abbrev reply : MqttCall → ℤ
reply (poll fd n timeout) = pos 1
reply (transport_sock t) = pos 5
reply sys_rand32_get = pos 7
reply c = pos 0

abbrev lab : Env MqttCall
lab = record { result = λ log c. reply c; bytes = λ log c. codes "led_on" }

-- An accepted CONNACK during each input, and nothing else.
abbrev library : Log MqttCall → List Evt
library ((mqtt_input, r) ∷ log) = connack (pos 0) ∷ []
library log = []

abbrev boot : Mqtt
boot = record {
  sensor_present = false;
  leds_present = true;
  tls_enabled = true;
  mqtt_connected = false;
  fd = negsuc 0;
  nfds = 0;
  transport = secure;
  msg_id = 1;
  overrun = false;
}

abbrev connected : Mqtt
connected = record boot { mqtt_connected = true }

abbrev events : List Evt
events = connack (pos 0) ∷ publish at_least_once 9 (codes "zephyr_sample/command") ∷ disconnect ∷ []

honest : IsHonest library
honest = record {
  refused = λ log r h. λ e. cc;
  started = λ log r h. λ e. cc;
  aborted = λ log r. λ e. cc;
}

accepts : Accepts library lab
accepts = record {
  connects = λ log. refl;
  answers = λ log fd n timeout. refl;
  connack = λ log r. refl;
}

main_loop-session_example :
    let (_, _, log') = main_loop library 2 3 lab boot [] in
    (session library log' ≡ some down) ⊎ (session library log' ≡ some opened)
main_loop-session_example = main_loop-session library lab honest 2 3 boot [] refl

deliver-last_verdict_example :
    let (_, s', log') = deliver events lab boot [] in
    (s'.mqtt_connected ≡ otherwise (last_verdict events) false)
    × (net_led log' ≡ with_led (last_verdict events) none)
    × (s'.leds_present ≡ true)
deliver-last_verdict_example = deliver-last_verdict lab events boot [] refl

deliver-replies_example : replies (deliver events lab boot []).2 ≡ mqtt_publish_qos1_ack 9 ∷ []
deliver-replies_example = deliver-replies lab events boot []

app_mqtt_connect-returns_example :
    let (up, s', _) = app_mqtt_connect library 2 lab boot [] in
    (up ≡ true) × (s'.mqtt_connected ≡ true)
app_mqtt_connect-returns_example = app_mqtt_connect-returns library lab accepts boot [] (inr refl)

device_command_handler-user_led_example :
    let (_, s', log') = device_command_handler (codes "led_on") lab boot [] in
    (user_led log' ≡ Commands.otherwise (asked (c_str (codes "led_on"))) none)
    × (net_led log' ≡ none)
    × (s' ≡ boot)
device_command_handler-user_led_example =
    device_command_handler-user_led lab (codes "led_on") boot [] refl
