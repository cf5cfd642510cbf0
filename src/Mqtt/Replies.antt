-- ===== src/Mqtt/Replies.antt =====
-- The acknowledgements in a log of calls.
use zephyr_samples.Base.{List, [], ◌∷◌, ◌++◌, Log}
use zephyr_samples.Mqtt.{
  MqttCall, mqtt_publish_qos1_ack, mqtt_publish_qos2_receive, mqtt_publish_qos2_release,
  mqtt_publish_qos2_complete,
}

-- The calls that answer a packet, in their order.
abbrev pub replies : Log MqttCall → List MqttCall
replies [] = []
replies ((mqtt_publish_qos1_ack id, r) ∷ log) = replies log ++ mqtt_publish_qos1_ack id ∷ []
replies ((mqtt_publish_qos2_receive id, r) ∷ log) = replies log ++ mqtt_publish_qos2_receive id ∷ []
replies ((mqtt_publish_qos2_release id, r) ∷ log) = replies log ++ mqtt_publish_qos2_release id ∷ []
replies ((mqtt_publish_qos2_complete id, r) ∷ log) =
    replies log ++ mqtt_publish_qos2_complete id ∷ []
replies (e ∷ log) = replies log
