-- ===== src/Mqtt/Session.antt =====
-- How a client may use the MQTT library, independent of any client: a session is opened by
-- `mqtt_connect` where none is open, and ended by `mqtt_disconnect`, by `mqtt_abort`, or by the library,
-- which reports it with DISCONNECT during one of its calls. `mqtt_disconnect` and `mqtt_abort` have no
-- effect where no session is open; every other call needs one.
use zephyr_samples.Base.{
  ℤ, Bool, true, false, [], ◌∷◌, Option, none, some, if◌then◌else◌, is_zero, Log, List,
}
use zephyr_samples.Mqtt.{
  MqttCall, Evt, connack, disconnect, mqtt_connect, mqtt_disconnect, mqtt_abort, mqtt_input,
  mqtt_live, mqtt_subscribe, mqtt_publish,
}

-- What an event says of the connection, and the last word of a sequence of events.
abbrev pub verdict : Evt → Option Bool
verdict (connack result) = if is_zero result then some true else none
verdict disconnect = some false
verdict e = none

abbrev pub last_verdict : List Evt → Option Bool
last_verdict [] = none
last_verdict (e ∷ es) = elim (last_verdict es) [ none ↦ verdict e | some b ↦ some b ]

pub data Session : Type 0 where
  down opened : Session

abbrev pub uses_session : MqttCall → Bool
uses_session mqtt_input = true
uses_session mqtt_live = true
uses_session (mqtt_subscribe t q i) = true
uses_session (mqtt_publish p) = true
uses_session c = false

-- One call with its result; `none` is a call that the session does not admit.
abbrev pub next : Session → MqttCall → ℤ → Option Session
next down mqtt_connect r = some (if is_zero r then opened else down)
next opened mqtt_connect r = none
next opened mqtt_disconnect r = some down
next opened mqtt_abort r = some down
next down c r = if uses_session c then none else some down
next opened c r = some opened

-- The calls during which the library may deliver events.
abbrev pub delivers : MqttCall → Bool
delivers mqtt_connect = true
delivers mqtt_disconnect = true
delivers mqtt_abort = true
delivers c = uses_session c

-- The library has ended the session where the last word of its events is DISCONNECT.
abbrev pub lose : Option Bool → Option Session → Option Session
lose (some false) (some s) = some down
lose v s = s

-- The session after the calls of a log; `none` when one of them was not admitted.
abbrev pub session : (Log MqttCall → List Evt) → Log MqttCall → Option Session
session library [] = some down
session library ((c, r) ∷ log) =
    let here : Option Session = elim (session library log) [ none ↦ none | some s ↦ next s c r ] in
    if delivers c then lose (last_verdict (library ((c, r) ∷ log))) here else here
