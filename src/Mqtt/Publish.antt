-- ===== src/Mqtt/Publish.antt =====
-- networking/ETHERNET/_13_mqtt/src/mqtt_client.c and main.c: the periodic publication.
pub mod Ids
use zephyr_samples.Base.{
  ℕ, ℤ, pos, ◌+◌, ◌%◌, ◌^◌, Bool, true, false, List, Option, none, some, if◌then◌else◌, is_zero,
  Log, pure, ◌>>=◌, ◌>>◌, call, call_bytes, get,
}
use zephyr_samples.Mqtt.{
  App, Evt, MqttCall, PublishParam, pub_topic, qos, json_obj_encode_buf, mqtt_publish,
  k_work_reschedule, k_work_cancel_delayable, publish_interval,
}
use zephyr_samples.Mqtt.Client.{library_call}
use zephyr_samples.Mqtt.Device.{device_read_sensor, c_str}

-- The payload is what the encoder wrote, up to its NUL.
encode_sample : ℤ → App (ℤ × Option (List ℕ))
encode_sample value = do
  p ← call_bytes (json_obj_encode_buf value)
  if is_zero p.0 then pure (p.0, some (c_str p.1)) else pure (p.0, none)

-- The return code, and the payload where it was set.
encode_read : ℤ × Option ℤ → App (ℤ × Option (List ℕ))
encode_read (rc, none) = pure (rc, none)
encode_read (rc, some value) = if is_zero rc then encode_sample value else pure (rc, none)

pub get_mqtt_payload : App (ℤ × Option (List ℕ))
unfolding encode_sample encode_read
get_mqtt_payload = do p ← device_read_sensor; encode_read p

-- `msg_id++`, a uint16_t
abbrev pub count_message : App (Unit {0})
count_message env s log = (tt, record s { msg_id = (s.msg_id + 1) % 2 ^ 16 }, log)

abbrev pub publish_param : ℕ → Option (List ℕ) → PublishParam
publish_param id payload = record {
  topic = pub_topic;
  qos = qos;
  payload = payload;
  message_id = id;
  dup_flag = 0;
  retain_flag = 0;
}

module _ (library : Log MqttCall → List Evt) where
  -- The publication is made also where there is no payload. The library delivers DISCONNECT where it
  -- fails to write.
  pub app_mqtt_publish : App ℤ
  app_mqtt_publish = do
    p ← get_mqtt_payload
    s ← get
    count_message
    library_call library (mqtt_publish (publish_param s.msg_id p.1))

  publish_and_reschedule : App (Unit {0})
  publish_and_reschedule = do
    _ ← app_mqtt_publish
    _ ← call (k_work_reschedule publish_interval)
    pure tt

  pub publish_work_handler : App (Unit {0})
  unfolding publish_and_reschedule
  publish_work_handler = do
    s ← get
    if s.mqtt_connected then publish_and_reschedule else (call k_work_cancel_delayable >> pure tt)
