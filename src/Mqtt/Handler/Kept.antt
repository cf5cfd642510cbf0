-- ===== src/Mqtt/Handler/Kept.antt =====
-- What the event handler leaves alone: the session, the descriptor and the configuration.
use zephyr_samples.Base.{
  ℕ, ◌≡◌, refl, ◌∙◌, List, [], ◌∷◌, outside, ◌||◌, take, to_ℕ, Log, Env, arith,
}
use zephyr_samples.Mqtt.{
  Mqtt, MqttCall, Evt, connack, disconnect, pingresp, puback, pubrec, pubrel, pubcomp, suback,
  publish, at_most_once, at_least_once, exactly_once, mqtt_publish_qos1_ack,
  mqtt_publish_qos2_receive, mqtt_read_publish_payload, payload_size,
}
use zephyr_samples.Mqtt.Session.{session}
use zephyr_samples.Mqtt.Device.Sample.{publications}
use zephyr_samples.Mqtt.Device.{device_write_led}
use zephyr_samples.Mqtt.Device.Commands.{
  device_command_handler-session, device_command_handler-kept,
}
use zephyr_samples.Mqtt.Handler.{
  on_mqtt_connect, on_mqtt_disconnect, handle_payload, on_mqtt_publish, mqtt_event_handler, deliver,
}

-- The session and the publications are those before.
abbrev SameSession : (Log MqttCall → List Evt) → Log MqttCall → Log MqttCall → Type 0
SameSession library log log' =
    (session library log' ≡ session library log) × (publications log' ≡ publications log)

module _ (library : Log MqttCall → List Evt) (env : Env MqttCall) where
  on_mqtt_publish-session :
      (topic : List ℕ) (s : Mqtt) (log : Log MqttCall)
      → SameSession library log (on_mqtt_publish topic env s log).2
  unfolding on_mqtt_publish handle_payload
  on_mqtt_publish-session topic s log =
      let read = mqtt_read_publish_payload payload_size in
      let rc = env.result log read in
      let s' = record s { overrun = s.overrun || outside payload_size rc } in
      ground (
        arith,
        device_command_handler-session library env (take (to_ℕ rc) (env.bytes log read)) s'
            ((read, rc) ∷ log),
      )

  mqtt_event_handler-session :
      (e : Evt) (s : Mqtt) (log : Log MqttCall)
      → SameSession library log (mqtt_event_handler e env s log).2
  unfolding mqtt_event_handler on_mqtt_connect on_mqtt_disconnect device_write_led
  mqtt_event_handler-session (publish at_most_once id topic) s log =
      on_mqtt_publish-session topic s log
  mqtt_event_handler-session (publish at_least_once id topic) s log =
      let ack = mqtt_publish_qos1_ack id in
      let log₁ : Log MqttCall = (ack, env.result log ack) ∷ log in
      ground (arith, on_mqtt_publish-session topic s log₁)
  mqtt_event_handler-session (publish exactly_once id topic) s log =
      let rec = mqtt_publish_qos2_receive id in
      let log₁ : Log MqttCall = (rec, env.result log rec) ∷ log in
      ground (arith, on_mqtt_publish-session topic s log₁)
  mqtt_event_handler-session (connack result) s log = ground arith
  mqtt_event_handler-session disconnect s log = ground arith
  mqtt_event_handler-session (pubrec result id) s log = ground arith
  mqtt_event_handler-session (pubrel result id) s log = ground arith
  mqtt_event_handler-session pingresp s log = (refl, refl)
  mqtt_event_handler-session (puback result id) s log = (refl, refl)
  mqtt_event_handler-session (pubcomp result id) s log = (refl, refl)
  mqtt_event_handler-session (suback result id) s log = (refl, refl)

  pub deliver-session :
      (es : List Evt) (s : Mqtt) (log : Log MqttCall)
      → SameSession library log (deliver es env s log).2
  unfolding deliver
  deliver-session [] s log = (refl, refl)
  deliver-session (e ∷ es) s log =
      let (_, s', log') = mqtt_event_handler e env s log in
      let (e1, p1) = mqtt_event_handler-session e s log in
      let (e2, p2) = deliver-session es s' log' in (e2 ∙ e1, p2 ∙ p1)

-- The configuration that the client was given.
abbrev pub SameConfig : Mqtt → Mqtt → Type 0
SameConfig s t =
    (t.transport ≡ s.transport)
    × (t.tls_enabled ≡ s.tls_enabled)
    × (t.leds_present ≡ s.leds_present)
    × (t.msg_id ≡ s.msg_id)

module _ (env : Env MqttCall) where
  on_mqtt_publish-config :
      (topic : List ℕ) (s : Mqtt) (log : Log MqttCall)
      → SameConfig s (on_mqtt_publish topic env s log).1
  unfolding on_mqtt_publish handle_payload
  on_mqtt_publish-config topic s log =
      let read = mqtt_read_publish_payload payload_size in
      let rc = env.result log read in
      let s' = record s { overrun = s.overrun || outside payload_size rc } in
      ground (
        arith,
        device_command_handler-kept env (take (to_ℕ rc) (env.bytes log read)) s' ((read, rc) ∷ log),
      )

  mqtt_event_handler-config :
      (e : Evt) (s : Mqtt) (log : Log MqttCall) → SameConfig s (mqtt_event_handler e env s log).1
  unfolding mqtt_event_handler on_mqtt_connect on_mqtt_disconnect device_write_led
  mqtt_event_handler-config (publish at_most_once id topic) s log =
      on_mqtt_publish-config topic s log
  mqtt_event_handler-config (publish at_least_once id topic) s log =
      let ack = mqtt_publish_qos1_ack id in
      on_mqtt_publish-config topic s ((ack, env.result log ack) ∷ log)
  mqtt_event_handler-config (publish exactly_once id topic) s log =
      let rec = mqtt_publish_qos2_receive id in
      on_mqtt_publish-config topic s ((rec, env.result log rec) ∷ log)
  mqtt_event_handler-config (connack result) s log = ground arith
  mqtt_event_handler-config disconnect s log = ground arith
  mqtt_event_handler-config (pubrec result id) s log = ground arith
  mqtt_event_handler-config (pubrel result id) s log = ground arith
  mqtt_event_handler-config pingresp s log = ground arith
  mqtt_event_handler-config (puback result id) s log = ground arith
  mqtt_event_handler-config (pubcomp result id) s log = ground arith
  mqtt_event_handler-config (suback result id) s log = ground arith

  pub deliver-config :
      (es : List Evt) (s : Mqtt) (log : Log MqttCall) → SameConfig s (deliver es env s log).1
  unfolding deliver
  deliver-config [] s log = ground arith
  deliver-config (e ∷ es) s log =
      let (_, s', log') = mqtt_event_handler e env s log in
      ground (arith, mqtt_event_handler-config e s log, deliver-config es s' log')
