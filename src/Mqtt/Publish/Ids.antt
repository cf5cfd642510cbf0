-- ===== src/Mqtt/Publish/Ids.antt =====
-- The packet identifiers and payloads of the publications.
use zephyr_samples.Base.{
  ℕ, zero, suc, ℤ, ◌+◌, ◌%◌, ◌^◌, ◌≡◌, ◌⊎◌, List, [], ◌∷◌, Option, none, some, is_zero, Log, Env,
  pure, ◌>>◌, ◌&&◌, if◌then◌else◌, inl, inr, ap,
}
use zephyr_samples.Mqtt.{Mqtt, MqttCall, App, PublishParam, Evt, json_obj_encode_buf}
use zephyr_samples.Mqtt.Device.{c_str}
use zephyr_samples.Mqtt.Publish.{publish_work_handler}

-- The identifiers of the publications, the latest first.
abbrev pub ids : List PublishParam → List ℕ
ids [] = []
ids (p ∷ ps) = p.message_id ∷ ids ps

-- n identifiers from `first` on, the latest first, by a 16-bit counter.
abbrev pub numbered : ℕ → ℕ → List ℕ
numbered first zero = []
numbered first (suc n) = (first + n) % 2 ^ 16 ∷ numbered first n

-- The payload of a sample: what the encoder wrote, where the sample and its encoding succeed; `read`
-- and `log` are what reading the sensor returned and left.
abbrev pub payload_of : Env MqttCall → ℤ × Option ℤ → Log MqttCall → Option (List ℕ)
payload_of env (rc, none) log = none
payload_of env (rc, some value) log =
    let encode = json_obj_encode_buf value in
    if is_zero rc && is_zero (env.result log encode)
    then some (c_str (env.bytes log encode))
    else none

-- The work item run n times.
pub publish_times : (Log MqttCall → List Evt) → ℕ → App (Unit {0})
publish_times library zero = pure tt
publish_times library (suc n) = publish_work_handler library >> publish_times library n

later : (m n : ℕ) {P : Type 0} → (m ≡ n) ⊎ P → (suc m ≡ suc n) ⊎ P
later m n (inl e) = inl (ap suc e)
later m n (inr p) = inr p
