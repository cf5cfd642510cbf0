-- ===== src/Mqtt/Device/Sample.antt =====
-- The sensor sample: its range without a sensor, and its errors with one.
use zephyr_samples.Base.{
  ℕ, pos, ◌+◌, ◌≤◌, ◌<◌, ◌^◌, ◌*◌, ◌/◌, ◌-◌, false, ◌≡◌, List, [], ◌∷◌, some, to_ℕ, Log, Env, arith,
}
use zephyr_samples.Mqtt.{Mqtt, MqttCall, mqtt_publish, sys_rand32_get, PublishParam}
use zephyr_samples.Mqtt.Device.{device_read_sensor}

-- The parameters handed to `mqtt_publish`, the latest first.
abbrev pub publications : Log MqttCall → List PublishParam
publications [] = []
publications ((mqtt_publish p, r) ∷ log) = p ∷ publications log
publications (e ∷ log) = publications log

module _ (env : Env MqttCall) (s : Mqtt) (log : Log MqttCall) where
  pub device_read_sensor-kept :
      let (p, s', log') = device_read_sensor env s log in
      (s' ≡ s) × (publications log' ≡ publications log)
  unfolding device_read_sensor
  device_read_sensor-kept = ground arith

  -- Without a sensor the sample succeeds with a value from 20 to 25, where the random number has 32
  -- bits.
  pub device_read_sensor-dummy :
      s.sensor_present ≡ false
      → to_ℕ (env.result log sys_rand32_get) < 2 ^ 32
      → let (p, _, _) = device_read_sensor env s log in
        (v : ℕ) × (p ≡ (pos 0, some (pos v))) × (20 ≤ v) × (v ≤ 25)
  unfolding device_read_sensor
  device_read_sensor-dummy h lt =
      let r = to_ℕ (env.result log sys_rand32_get) in
      (20 + r * 5 / (2 ^ 32 - 1), ground arith, omega arith, omega arith)
