-- ===== src/Mqtt/Handler.antt =====
-- networking/ETHERNET/_13_mqtt/src/mqtt_client.c: the handler of MQTT events.
-- A call that the handler makes delivers no event of its own.
pub mod Connection
pub mod Replies
pub mod Kept
use zephyr_samples.Base.{
  ℕ, ℤ, pos, Bool, true, false, ◌||◌, List, [], ◌∷◌, if◌then◌else◌, outside, is_neg, is_zero, to_ℕ,
  take, bytes_eq, pure, ◌>>=◌, ◌>>◌, call, call_bytes,
}
use zephyr_samples.Mqtt.{
  App, Mqtt, led_net, led_off, led_on, Qos, at_most_once, at_least_once, exactly_once, payload_size,
  sub_topic_cmd, Evt, connack, disconnect, pingresp, puback, pubrec, pubrel, pubcomp, suback,
  publish, mqtt_read_publish_payload, mqtt_publish_qos1_ack, mqtt_publish_qos2_receive,
  mqtt_publish_qos2_release, mqtt_publish_qos2_complete,
}
use zephyr_samples.Mqtt.Device.{device_write_led, c_str, device_command_handler}

abbrev pub set_connected : Bool → App (Unit {0})
set_connected b env s log = (tt, record s { mqtt_connected = b }, log)

-- `nfds = 0`
abbrev pub clear_fds : App (Unit {0})
clear_fds env s log = (tt, record s { nfds = 0 }, log)

pub on_mqtt_connect : App (Unit {0})
on_mqtt_connect = do set_connected true; _ ← device_write_led led_net led_on; pure tt

pub on_mqtt_disconnect : App (Unit {0})
on_mqtt_disconnect = do
  set_connected false
  clear_fds
  _ ← device_write_led led_net led_off
  pure tt

-- `payload[rc] = '\0'`
abbrev pub terminate : ℤ → App (Unit {0})
terminate rc env s log = (tt, record s { overrun = s.overrun || outside payload_size rc }, log)

-- What follows a read that succeeded.
handle_payload : List ℕ → ℤ × List ℕ → App (Unit {0})
handle_payload topic p = do
  terminate p.0
  if bytes_eq (c_str topic) sub_topic_cmd
      then device_command_handler (take (to_ℕ p.0) p.1)
      else pure tt

pub on_mqtt_publish : List ℕ → App (Unit {0})
on_mqtt_publish topic = do
  p ← call_bytes (mqtt_read_publish_payload payload_size)
  if is_neg p.0 then pure tt else handle_payload topic p

-- The acknowledgement that the publisher's quality of service asks for.
acknowledge : Qos → ℕ → App (Unit {0})
acknowledge at_most_once id = pure tt
acknowledge at_least_once id = call (mqtt_publish_qos1_ack id) >> pure tt
acknowledge exactly_once id = call (mqtt_publish_qos2_receive id) >> pure tt

-- SUBACK is a failure where its result is MQTT_SUBACK_FAILURE; either way it is only logged.
pub mqtt_event_handler : Evt → App (Unit {0})
unfolding acknowledge
mqtt_event_handler (connack result) = if is_zero result then on_mqtt_connect else pure tt
mqtt_event_handler disconnect = on_mqtt_disconnect
mqtt_event_handler pingresp = pure tt
mqtt_event_handler (puback result id) = pure tt
mqtt_event_handler (pubrec result id) =
    if is_zero result then (call (mqtt_publish_qos2_release id) >> pure tt) else pure tt
mqtt_event_handler (pubrel result id) =
    if is_zero result then (call (mqtt_publish_qos2_complete id) >> pure tt) else pure tt
mqtt_event_handler (pubcomp result id) = pure tt
mqtt_event_handler (suback result id) = pure tt
mqtt_event_handler (publish q id topic) = acknowledge q id >> on_mqtt_publish topic

-- The events that the library delivers during one of its calls, in order.
pub deliver : List Evt → App (Unit {0})
deliver [] = pure tt
deliver (e ∷ es) = mqtt_event_handler e >> deliver es
