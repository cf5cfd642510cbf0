-- ===== src/Mqtt.antt =====
-- networking/ETHERNET/_13_mqtt/src: the calls of the MQTT client to Zephyr, the events that the MQTT
-- library delivers to it, and its static state.
pub mod Leds
pub mod Session
pub mod Replies
pub mod Device
pub mod Handler
pub mod Client
pub mod Publish
pub mod Main
mod Tests
use zephyr_samples.Base.{
  ℕ, ℤ, Bool, true, false, List, Option, Io, codes, pos, is_zero, if◌then◌else◌,
}

-- device.h
pub data LedId : Type 0 where
  led_net led_user : LedId

pub data LedState : Type 0 where
  led_off led_on : LedState

pub data Peripheral : Type 0 where
  sensor leds : Peripheral

-- enum mqtt_qos
pub data Qos : Type 0 where
  at_most_once at_least_once exactly_once : Qos

-- enum mqtt_transport_type
pub data Transport : Type 0 where
  non_secure secure : Transport

-- The bits of `revents` that the client tests.
pub data PollFlag : Type 0 where
  pollin pollhup_pollerr : PollFlag

-- struct mqtt_publish_param; the payload is `none` where it was never written.
pub record PublishParam : Type 0 where
  pub topic : List ℕ
  pub qos : Qos
  pub payload : Option (List ℕ)
  pub message_id : ℕ
  pub dup_flag : ℕ
  pub retain_flag : ℕ

-- What the program asks of Zephyr. A read of a field that the library writes is such a call too.
pub data MqttCall : Type 0 where
  write_led : LedId → LedState → MqttCall
  device_is_ready : Peripheral → MqttCall
  sys_rand32_get : MqttCall
  sensor_sample_fetch : MqttCall
  sensor_channel_get : MqttCall
  -- the value of `sensor_value_to_double`, converted to `int`
  sensor_value : MqttCall
  -- the sample's value; fills the payload buffer
  json_obj_encode_buf : ℤ → MqttCall
  getaddrinfo : MqttCall
  -- whether `result` is NULL: 0 for NULL
  addrinfo_result : MqttCall
  freeaddrinfo : MqttCall
  tls_credential_add : ℕ → MqttCall
  mqtt_client_init : MqttCall
  transport_sock : Transport → MqttCall
  -- descriptor, number of descriptors, timeout
  poll : ℤ → ℕ → ℤ → MqttCall
  -- nonzero if the bits are set in `fds[0].revents`
  revents : PollFlag → MqttCall
  mqtt_keepalive_time_left : MqttCall
  mqtt_connect : MqttCall
  mqtt_disconnect : MqttCall
  mqtt_abort : MqttCall
  mqtt_input : MqttCall
  mqtt_live : MqttCall
  mqtt_subscribe : List ℕ → Qos → ℕ → MqttCall
  mqtt_publish : PublishParam → MqttCall
  mqtt_publish_qos1_ack : ℕ → MqttCall
  mqtt_publish_qos2_receive : ℕ → MqttCall
  mqtt_publish_qos2_release : ℕ → MqttCall
  mqtt_publish_qos2_complete : ℕ → MqttCall
  -- the room; fills a buffer
  mqtt_read_publish_payload : ℕ → MqttCall
  k_msleep : ℕ → MqttCall
  -- seconds
  k_work_reschedule : ℕ → MqttCall
  k_work_cancel_delayable : MqttCall
  k_work_init_delayable : MqttCall
  k_sem_give : MqttCall
  -- milliseconds; 0 where the semaphore was taken
  k_sem_take : ℕ → MqttCall
  -- 0 for NULL
  net_if_get_default : MqttCall
  net_if_get_link_addr : MqttCall
  net_mgmt_add_event_callback : MqttCall
  net_if_ipv4_get_global_addr : MqttCall

-- struct mqtt_evt: the event's type, its result, and the parameters that the handler reads.
pub data Evt : Type 0 where
  connack : ℤ → Evt
  disconnect : Evt
  pingresp : Evt
  puback : ℤ → ℕ → Evt
  pubrec : ℤ → ℕ → Evt
  pubrel : ℤ → ℕ → Evt
  pubcomp : ℤ → ℕ → Evt
  suback : ℤ → ℕ → Evt
  -- qos, message id, topic
  publish : Qos → ℕ → List ℕ → Evt

-- errno
pub data Errno : Type 0 where
  einval enotconn eio enoent enetdown : Errno

-- What a function of the program returns: the result of a call, or the negative of an errno.
pub data Rc : Type 0 where
  code : ℤ → Rc
  minus : Errno → Rc

abbrev pub is_ok : Rc → Bool
is_ok (code r) = is_zero r
is_ok (minus e) = false

-- mqtt_config.h and mqtt_client.h
abbrev pub pub_topic : List ℕ
pub_topic = codes "zephyr_sample/sensor"

abbrev pub sub_topic_cmd : List ℕ
sub_topic_cmd = codes "zephyr_sample/command"

abbrev pub qos : Qos
qos = at_least_once

abbrev pub publish_interval : ℕ
publish_interval = 3

abbrev pub payload_size : ℕ
payload_size = 128

abbrev pub net_poll_timeout : ℕ
net_poll_timeout = 5000

abbrev pub wait_reconnect : ℕ
wait_reconnect = 1000

-- The devices and options that the build fixes, and the static variables.
pub record Mqtt : Type 0 where
  -- whether the device tree has the device
  pub sensor_present : Bool
  pub leds_present : Bool
  -- CONFIG_MQTT_LIB_TLS
  pub tls_enabled : Bool
  pub mqtt_connected : Bool
  pub fd : ℤ
  pub nfds : ℕ
  -- client->transport.type
  pub transport : Transport
  -- uint16_t
  pub msg_id : ℕ
  -- whether a write has left the payload buffer of `on_mqtt_publish`
  pub overrun : Bool

abbrev pub App : Type 0 → Type 0
App A = Io Mqtt MqttCall A
