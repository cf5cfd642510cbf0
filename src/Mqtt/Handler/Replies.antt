-- ===== src/Mqtt/Handler/Replies.antt =====
-- The packets with which the handler answers those of the broker.
use zephyr_samples.Base.{
  ℕ, ◌≡◌, ◌∙◌, sym, ap, List, [], ◌∷◌, ◌++◌, if◌then◌else◌, is_zero, outside, ◌||◌, take, to_ℕ, Log,
  Env, arith,
}
use mathlib.Core.List.{append-nil, append_assoc}
use zephyr_samples.Mqtt.{
  Mqtt, MqttCall, Evt, connack, disconnect, pingresp, puback, pubrec, pubrel, pubcomp, suback,
  publish, at_most_once, at_least_once, exactly_once, mqtt_publish_qos1_ack,
  mqtt_publish_qos2_receive, mqtt_publish_qos2_release, mqtt_publish_qos2_complete,
  mqtt_read_publish_payload, payload_size,
}
use zephyr_samples.Mqtt.Device.{device_write_led}
use zephyr_samples.Mqtt.Device.Commands.{device_command_handler-replies}
use zephyr_samples.Mqtt.Replies.{replies}
use zephyr_samples.Mqtt.Handler.{
  on_mqtt_connect, on_mqtt_disconnect, handle_payload, on_mqtt_publish, mqtt_event_handler, deliver,
}

-- What the protocol asks for, by the quality of service and the packet's identifier: PUBACK or PUBREC
-- for a publication, PUBREL for a PUBREC and PUBCOMP for a PUBREL that carry no error.
abbrev pub due : Evt → List MqttCall
due (publish at_least_once id topic) = mqtt_publish_qos1_ack id ∷ []
due (publish exactly_once id topic) = mqtt_publish_qos2_receive id ∷ []
due (pubrec result id) = if is_zero result then mqtt_publish_qos2_release id ∷ [] else []
due (pubrel result id) = if is_zero result then mqtt_publish_qos2_complete id ∷ [] else []
due e = []

abbrev pub all_due : List Evt → List MqttCall
all_due [] = []
all_due (e ∷ es) = due e ++ all_due es

module _ (env : Env MqttCall) where
  on_mqtt_publish-replies :
      (topic : List ℕ) (s : Mqtt) (log : Log MqttCall)
      → replies (on_mqtt_publish topic env s log).2 ≡ replies log
  unfolding on_mqtt_publish handle_payload
  on_mqtt_publish-replies topic s log =
      let read = mqtt_read_publish_payload payload_size in
      let rc = env.result log read in
      let s' = record s { overrun = s.overrun || outside payload_size rc } in
      ground (
        arith,
        device_command_handler-replies env (take (to_ℕ rc) (env.bytes log read)) s'
            ((read, rc) ∷ log),
      )

  mqtt_event_handler-replies :
      (e : Evt) (s : Mqtt) (log : Log MqttCall)
      → replies (mqtt_event_handler e env s log).2 ≡ replies log ++ due e
  unfolding mqtt_event_handler on_mqtt_connect on_mqtt_disconnect device_write_led
  mqtt_event_handler-replies (publish at_most_once id topic) s log =
      on_mqtt_publish-replies topic s log ∙ sym (append-nil (replies log))
  mqtt_event_handler-replies (publish at_least_once id topic) s log =
      let ack = mqtt_publish_qos1_ack id in
      on_mqtt_publish-replies topic s ((ack, env.result log ack) ∷ log)
  mqtt_event_handler-replies (publish exactly_once id topic) s log =
      let rec = mqtt_publish_qos2_receive id in
      on_mqtt_publish-replies topic s ((rec, env.result log rec) ∷ log)
  mqtt_event_handler-replies (connack result) s log = ground (arith, append-nil (replies log))
  mqtt_event_handler-replies disconnect s log = ground (arith, append-nil (replies log))
  mqtt_event_handler-replies (pubrec result id) s log = ground (arith, append-nil (replies log))
  mqtt_event_handler-replies (pubrel result id) s log = ground (arith, append-nil (replies log))
  mqtt_event_handler-replies pingresp s log = sym (append-nil (replies log))
  mqtt_event_handler-replies (puback result id) s log = sym (append-nil (replies log))
  mqtt_event_handler-replies (pubcomp result id) s log = sym (append-nil (replies log))
  mqtt_event_handler-replies (suback result id) s log = sym (append-nil (replies log))

  -- Over any sequence of events the handler sends exactly the packets that are due, in the order of
  -- the events, each with the identifier of the packet that it answers, and no other.
  pub deliver-replies :
      (es : List Evt) (s : Mqtt) (log : Log MqttCall)
      → replies (deliver es env s log).2 ≡ replies log ++ all_due es
  unfolding deliver
  deliver-replies [] s log = sym (append-nil (replies log))
  deliver-replies (e ∷ es) s log =
      let (_, s', log') = mqtt_event_handler e env s log in
      deliver-replies es s' log'
      ∙ ap (λ l. l ++ all_due es) (mqtt_event_handler-replies e s log)
      ∙ append_assoc (replies log) (due e) (all_due es)
