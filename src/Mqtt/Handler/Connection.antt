-- ===== src/Mqtt/Handler/Connection.antt =====
-- What a sequence of events makes of the connection flag, the poll set and the network LED.
use zephyr_samples.Base.{
  ℕ, Bool, true, false, ◌≡◌, refl, List, [], ◌∷◌, Option, none, some, Log, Env, arith, outside,
  ◌||◌, take, to_ℕ,
}
use zephyr_samples.Mqtt.{
  Mqtt, MqttCall, Evt, connack, disconnect, pingresp, puback, pubrec, pubrel, pubcomp, suback,
  publish, at_most_once, at_least_once, exactly_once, mqtt_read_publish_payload,
  mqtt_publish_qos1_ack, mqtt_publish_qos2_receive, payload_size,
}
pub use zephyr_samples.Mqtt.Session.{verdict, last_verdict}
use zephyr_samples.Mqtt.Leds.{net_led}
use zephyr_samples.Mqtt.Device.{device_write_led}
use zephyr_samples.Mqtt.Device.Commands.{
  device_command_handler-user_led, device_command_handler-kept,
}
use zephyr_samples.Mqtt.Handler.{
  on_mqtt_connect, on_mqtt_disconnect, handle_payload, on_mqtt_publish, mqtt_event_handler, deliver,
}

abbrev pub otherwise : Option Bool → Bool → Bool
otherwise none b = b
otherwise (some b') b = b'

abbrev pub with_led : Option Bool → Option Bool → Option Bool
with_led none led = led
with_led (some b) led = some b

-- A disconnect empties the poll set.
abbrev pub with_nfds : Option Bool → ℕ → ℕ
with_nfds (some false) n = 0
with_nfds _ n = n

module _ (env : Env MqttCall) where
  on_mqtt_publish-connected :
      (topic : List ℕ) (s : Mqtt) (log : Log MqttCall)
      → (on_mqtt_publish topic env s log).1.mqtt_connected ≡ s.mqtt_connected
  unfolding on_mqtt_publish handle_payload
  on_mqtt_publish-connected topic s log =
      let read = mqtt_read_publish_payload payload_size in
      let rc = env.result log read in
      let s' = record s { overrun = s.overrun || outside payload_size rc } in
      ground (
        arith,
        device_command_handler-kept env (take (to_ℕ rc) (env.bytes log read)) s' ((read, rc) ∷ log),
      )

  mqtt_event_handler-connected :
      (e : Evt) (s : Mqtt) (log : Log MqttCall)
      → (mqtt_event_handler e env s log).1.mqtt_connected ≡ otherwise (verdict e) s.mqtt_connected
  unfolding mqtt_event_handler on_mqtt_connect on_mqtt_disconnect device_write_led
  mqtt_event_handler-connected (publish at_most_once id topic) s log =
      on_mqtt_publish-connected topic s log
  mqtt_event_handler-connected (publish at_least_once id topic) s log =
      let ack = mqtt_publish_qos1_ack id in
      on_mqtt_publish-connected topic s ((ack, env.result log ack) ∷ log)
  mqtt_event_handler-connected (publish exactly_once id topic) s log =
      let rec = mqtt_publish_qos2_receive id in
      on_mqtt_publish-connected topic s ((rec, env.result log rec) ∷ log)
  mqtt_event_handler-connected (connack result) s log = ground arith
  mqtt_event_handler-connected disconnect s log = ground arith
  mqtt_event_handler-connected (pubrec result id) s log = ground arith
  mqtt_event_handler-connected (pubrel result id) s log = ground arith
  mqtt_event_handler-connected pingresp s log = refl
  mqtt_event_handler-connected (puback result id) s log = refl
  mqtt_event_handler-connected (pubcomp result id) s log = refl
  mqtt_event_handler-connected (suback result id) s log = refl

  pub deliver-connected :
      (es : List Evt) (s : Mqtt) (log : Log MqttCall)
      → (deliver es env s log).1.mqtt_connected ≡ otherwise (last_verdict es) s.mqtt_connected
  unfolding deliver
  deliver-connected [] s log = refl
  deliver-connected (e ∷ es) s log =
      let (_, s', log') = mqtt_event_handler e env s log in
      ground (arith, mqtt_event_handler-connected e s log, deliver-connected es s' log')

  on_mqtt_publish-kept :
      (topic : List ℕ) (s : Mqtt) (log : Log MqttCall)
      → s.leds_present ≡ true
      → let (_, s', log') = on_mqtt_publish topic env s log in
        (s'.mqtt_connected ≡ s.mqtt_connected)
        × (net_led log' ≡ net_led log)
        × (s'.nfds ≡ s.nfds)
        × (s'.leds_present ≡ true)
  unfolding on_mqtt_publish handle_payload
  on_mqtt_publish-kept topic s log h =
      let read = mqtt_read_publish_payload payload_size in
      let rc = env.result log read in
      let s' = record s { overrun = s.overrun || outside payload_size rc } in
      ground (
        arith,
        device_command_handler-user_led env (take (to_ℕ rc) (env.bytes log read)) s'
            ((read, rc) ∷ log),
      )

  -- One event, on a board with LEDs.
  mqtt_event_handler-verdict :
      (e : Evt) (s : Mqtt) (log : Log MqttCall)
      → s.leds_present ≡ true
      → let (_, s', log') = mqtt_event_handler e env s log in
        (s'.mqtt_connected ≡ otherwise (verdict e) s.mqtt_connected)
        × (net_led log' ≡ with_led (verdict e) (net_led log))
        × (s'.nfds ≡ with_nfds (verdict e) s.nfds)
        × (s'.leds_present ≡ true)
  unfolding mqtt_event_handler on_mqtt_connect on_mqtt_disconnect device_write_led
  mqtt_event_handler-verdict (publish at_most_once id topic) s log h =
      on_mqtt_publish-kept topic s log h
  mqtt_event_handler-verdict (publish at_least_once id topic) s log h =
      let ack = mqtt_publish_qos1_ack id in
      on_mqtt_publish-kept topic s ((ack, env.result log ack) ∷ log) h
  mqtt_event_handler-verdict (publish exactly_once id topic) s log h =
      let rec = mqtt_publish_qos2_receive id in
      on_mqtt_publish-kept topic s ((rec, env.result log rec) ∷ log) h
  mqtt_event_handler-verdict (connack result) s log h = ground arith
  mqtt_event_handler-verdict disconnect s log h = ground arith
  mqtt_event_handler-verdict pingresp s log h = ground arith
  mqtt_event_handler-verdict (puback result id) s log h = ground arith
  mqtt_event_handler-verdict (pubrec result id) s log h = ground arith
  mqtt_event_handler-verdict (pubrel result id) s log h = ground arith
  mqtt_event_handler-verdict (pubcomp result id) s log h = ground arith
  mqtt_event_handler-verdict (suback result id) s log h = ground arith

  -- After any sequence of events the connection flag is the last verdict among them, and the network
  -- LED, on a board with LEDs, shows it: CONNACK without error switches both on, DISCONNECT both off.
  -- Without a verdict neither changes.
  pub deliver-last_verdict :
      (es : List Evt) (s : Mqtt) (log : Log MqttCall)
      → s.leds_present ≡ true
      → let (_, s', log') = deliver es env s log in
        (s'.mqtt_connected ≡ otherwise (last_verdict es) s.mqtt_connected)
        × (net_led log' ≡ with_led (last_verdict es) (net_led log))
        × (s'.leds_present ≡ true)
  unfolding deliver
  deliver-last_verdict [] s log h = (refl, refl, h)
  deliver-last_verdict (e ∷ es) s log h =
      let (_, s', log') = mqtt_event_handler e env s log in
      ground (arith, mqtt_event_handler-verdict e s log h, deliver-last_verdict es s' log')
