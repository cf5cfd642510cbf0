-- ===== src/Mqtt/Client/Process.antt =====
-- One round of the client's main loop: the poll, and the session over it.
use zephyr_samples.Base.{
  ℕ, zero, suc, ℤ, true, ◌≡◌, ◌⊎◌, refl, List, ◌∷◌, some, if◌then◌else◌, Log, Env, arith,
}
use zephyr_samples.Mqtt.{
  Mqtt, MqttCall, Evt, non_secure, transport_sock, poll, pollin, revents, mqtt_input, mqtt_live,
  mqtt_disconnect, mqtt_subscribe, mqtt_keepalive_time_left, sub_topic_cmd, qos, code,
}
use zephyr_samples.Mqtt.Session.{down, opened, session, next, delivers}
use zephyr_samples.Mqtt.Handler.Connection.{last_verdict, otherwise, deliver-connected}
use zephyr_samples.Mqtt.Handler.Kept.{deliver-session}
use zephyr_samples.Mqtt.Client.{
  poll_mqtt_socket, app_mqtt_subscribe, library_call, app_mqtt_process, process_loop, app_mqtt_run,
}

-- The transport has a socket that the client polls.
abbrev pub IsPollable : Mqtt → Type 0
IsPollable s = (s.transport ≡ non_secure) ⊎ (s.tls_enabled ≡ true)

-- The poll is always made, on the one descriptor of the client's transport, and its result is what
-- the function returns: its error for an empty poll set is never returned.
pub poll_mqtt_socket-polls :
    (env : Env MqttCall) (timeout : ℤ) (s : Mqtt) (log : Log MqttCall)
    → IsPollable s
    → let (rc, s', log') = poll_mqtt_socket timeout env s log in
      let sock = transport_sock s.transport in
      let fd = env.result log sock in
      let c = poll fd 1 timeout in
      let r = env.result ((sock, fd) ∷ log) c in (log' ≡ (c, r) ∷ (sock, fd) ∷ log) × (rc ≡ code r)
unfolding poll_mqtt_socket
poll_mqtt_socket-polls env timeout s log h = ground arith

-- The session that goes with the connection flag.
abbrev pub Agrees : (Log MqttCall → List Evt) → Mqtt → Log MqttCall → Type 0
Agrees library s log = session library log ≡ some (if s.mqtt_connected then opened else down)

pub poll_mqtt_socket-session :
    (library : Log MqttCall → List Evt) (env : Env MqttCall) (timeout : ℤ) (s : Mqtt)
    (log : Log MqttCall)
    → let (_, s', log') = poll_mqtt_socket timeout env s log in
      (session library log' ≡ session library log) × (s'.mqtt_connected ≡ s.mqtt_connected)
unfolding poll_mqtt_socket
poll_mqtt_socket-session library env timeout s log = ground arith

module _ (library : Log MqttCall → List Evt) (env : Env MqttCall) where
  -- A library call moves the session as the call alone does.
  pub library_call-session :
      (c : MqttCall) (s : Mqtt) (log : Log MqttCall)
      → session library (library_call library c env s log).2
        ≡ session library ((c, env.result log c) ∷ log)
  unfolding library_call
  library_call-session c s log =
      let r = env.result log c in
      (deliver-session library env (library ((c, r) ∷ log)) s ((c, r) ∷ log)).0

  pub library_call-connected :
      (c : MqttCall) (s : Mqtt) (log : Log MqttCall)
      → (library_call library c env s log).1.mqtt_connected
        ≡ otherwise (last_verdict (library ((c, env.result log c) ∷ log))) s.mqtt_connected
  unfolding library_call
  library_call-connected c s log =
      let r = env.result log c in deliver-connected env (library ((c, r) ∷ log)) s ((c, r) ∷ log)

  -- A call on an open session that keeps it: the session and the flag follow the events.
  library_call-Agrees :
      (c : MqttCall) (s : Mqtt) (log : Log MqttCall)
      → delivers c ≡ true
      → next opened c (env.result log c) ≡ some opened
      → s.mqtt_connected ≡ true
      → session library log ≡ some opened
      → let (_, s', log') = library_call library c env s log in Agrees library s' log'
  library_call-Agrees c s log d k up h =
      ground (arith, library_call-session c s log, library_call-connected c s log, d, k, up, h)

  pub library_call-result :
      (c : MqttCall) (s : Mqtt) (log : Log MqttCall)
      → (library_call library c env s log).0 ≡ env.result log c
  unfolding library_call
  library_call-result c s log = refl

  app_mqtt_process-Agrees :
      (s : Mqtt) (log : Log MqttCall)
      → s.mqtt_connected ≡ true
      → session library log ≡ some opened
      → let (_, s', log') = app_mqtt_process library env s log in Agrees library s' log'
  unfolding app_mqtt_process
  app_mqtt_process-Agrees s log up h =
      let keep = mqtt_keepalive_time_left in
      let timeout = env.result log keep in
      let log₁ : Log MqttCall = (keep, timeout) ∷ log in
      let (_, s', log₂) = poll_mqtt_socket timeout env s log₁ in
      let flag = revents pollin in
      let log₃ : Log MqttCall = (flag, env.result log₂ flag) ∷ log₂ in
      ground (
        arith,
        poll_mqtt_socket-session library env timeout s log₁,
        library_call-Agrees mqtt_live s' log₂ refl refl,
        library_call-Agrees mqtt_input s' log₃ refl refl,
      )

  process_loop-Agrees :
      (rounds : ℕ) (s : Mqtt) (log : Log MqttCall)
      → Agrees library s log
      → let (_, s', log') = process_loop library rounds env s log in Agrees library s' log'
  unfolding process_loop
  process_loop-Agrees zero s log h = h
  process_loop-Agrees (suc n) s log h =
      let (rc, s', log') = app_mqtt_process library env s log in
      ground (arith, h, app_mqtt_process-Agrees s log, process_loop-Agrees n s' log')

  -- Run on an open session, the client makes no call on one that the library has ended, and opens none;
  -- when it returns none is open, whatever ended the loop.
  pub app_mqtt_run-session :
      (rounds : ℕ) (s : Mqtt) (log : Log MqttCall)
      → s.mqtt_connected ≡ true
      → session library log ≡ some opened
      → let (done, s', log') = app_mqtt_run library rounds env s log in
        session library log'
        ≡ some (if done then down else (if s'.mqtt_connected then opened else down))
  unfolding app_mqtt_run app_mqtt_subscribe
  app_mqtt_run-session rounds s log up h =
      let sub = mqtt_subscribe sub_topic_cmd qos 5841 in
      let (r, s₁, log₁) = library_call library sub env s log in
      let (_, s', log₂) = process_loop library rounds env s₁ log₁ in
      ground (
        arith,
        process_loop-Agrees rounds s₁ log₁ (library_call-Agrees sub s log refl refl up h),
        library_call-session mqtt_disconnect s' log₂,
      )
