-- ===== src/Mqtt/Client/Connect.antt =====
-- The connection loop: what it has established when it returns.
use zephyr_samples.Base.{
  ℕ, zero, suc, ℤ, pos, true, false, ◌≡◌, ◌≢◌, ◌⊎◌, inl, refl, List, ◌∷◌, some, if◌then◌else◌,
  is_zero, is_positive, Log, Env, arith,
}
use zephyr_samples.Mqtt.{
  Mqtt, MqttCall, Evt, mqtt_connect, mqtt_abort, mqtt_input, transport_sock, net_poll_timeout, Rc,
  code, minus,
}
use zephyr_samples.Mqtt.Session.{down, opened, session}
use zephyr_samples.Mqtt.Handler.{deliver}
use zephyr_samples.Mqtt.Handler.Connection.{last_verdict}
use zephyr_samples.Mqtt.Handler.Kept.{deliver-config}
use zephyr_samples.Mqtt.Client.{
  poll_mqtt_socket, library_call, read_positive, await_connack, connect_round, connect_loop,
  app_mqtt_connect,
}
use zephyr_samples.Mqtt.Client.Process.{
  poll_mqtt_socket-session, poll_mqtt_socket-polls, IsPollable, library_call-session,
  library_call-result, library_call-connected, Agrees,
}

-- The library delivers no accepted CONNACK during a connect that fails, nor during an abort, and no
-- DISCONNECT during a connect that succeeds.
pub record IsHonest (library : Log MqttCall → List Evt) : Type 0 where
  pub refused :
      (log : Log MqttCall) (r : ℤ)
      → is_zero r ≡ false
      → last_verdict (library ((mqtt_connect, r) ∷ log)) ≢ some true
  pub started :
      (log : Log MqttCall) (r : ℤ)
      → is_zero r ≡ true
      → last_verdict (library ((mqtt_connect, r) ∷ log)) ≢ some false
  pub aborted :
      (log : Log MqttCall) (r : ℤ) → last_verdict (library ((mqtt_abort, r) ∷ log)) ≢ some true

module _ (library : Log MqttCall → List Evt) (env : Env MqttCall) where
  -- After the input the session is open or was ended, and open where the flag says so.
  abbrev Answered : Mqtt → Log MqttCall → Type 0
  Answered s log =
      (session library log ≡ some opened)
      ⊎ ((session library log ≡ some down) × (s.mqtt_connected ≡ false))

  read_positive-Answered :
      (rc : Rc) (s : Mqtt) (log : Log MqttCall)
      → session library log ≡ some opened
      → let (_, s', log') = read_positive library rc env s log in Answered s' log'
  unfolding read_positive
  read_positive-Answered (code r) s log h = ground (
    arith,
    library_call-session library env mqtt_input s log,
    library_call-connected library env mqtt_input s log,
  )
  read_positive-Answered (minus e) s log h = inl h

  module _ (honest : IsHonest library) where
    await_connack-Agrees :
        (s : Mqtt) (log : Log MqttCall)
        → session library log ≡ some opened
        → let (_, s', log') = await_connack library env s log in Agrees library s' log'
    unfolding await_connack
    await_connack-Agrees s log h =
        let timeout = pos net_poll_timeout in
        let (rc, s₁, log₁) = poll_mqtt_socket timeout env s log in
        let (_, s₂, log₂) = read_positive library rc env s₁ log₁ in
        ground (
          arith,
          poll_mqtt_socket-session library env timeout s log,
          read_positive-Answered rc s₁ log₁,
          library_call-session library env mqtt_abort s₂ log₂,
          library_call-connected library env mqtt_abort s₂ log₂,
          honest.aborted log₂ (env.result log₂ mqtt_abort),
        )

    connect_round-Agrees :
        (s : Mqtt) (log : Log MqttCall)
        → s.mqtt_connected ≡ false
        → session library log ≡ some down
        → let (_, s', log') = connect_round library env s log in Agrees library s' log'
    unfolding connect_round
    connect_round-Agrees s log off h =
        let (r, s₁, log₁) = library_call library mqtt_connect env s log in
        ground (
          arith,
          library_call-result library env mqtt_connect s log,
          library_call-session library env mqtt_connect s log,
          library_call-connected library env mqtt_connect s log,
          honest.refused log (env.result log mqtt_connect),
          honest.started log (env.result log mqtt_connect),
          await_connack-Agrees s₁ log₁,
        )

    connect_loop-Agrees :
        (rounds : ℕ) (s : Mqtt) (log : Log MqttCall)
        → Agrees library s log
        → let (up, s', log') = connect_loop library rounds env s log in
          Agrees library s' log' × ((up ≡ false) ⊎ (s'.mqtt_connected ≡ true))
    unfolding connect_loop
    connect_loop-Agrees zero s log h = (h, inl refl)
    connect_loop-Agrees (suc n) s log h =
        let (_, s', log') = connect_round library env s log in
        ground (arith, connect_round-Agrees s log, connect_loop-Agrees n s' log')

    -- Called with no session open, the function never opens a second one; where it returns, the
    -- session is open and the flag says so, and between its attempts none is left open.
    pub app_mqtt_connect-session :
        (rounds : ℕ) (s : Mqtt) (log : Log MqttCall)
        → session library log ≡ some down
        → let (up, s', log') = app_mqtt_connect library rounds env s log in
          (session library log' ≡ some (if s'.mqtt_connected then opened else down))
          × ((up ≡ false) ⊎ (s'.mqtt_connected ≡ true))
    unfolding app_mqtt_connect
    app_mqtt_connect-session rounds s log h =
        connect_loop-Agrees rounds (record s { mqtt_connected = false }) log h

-- A broker that accepts: each connect succeeds, each poll sees data, and the last verdict delivered
-- by each input that follows is an accepted CONNACK.
pub record Accepts (library : Log MqttCall → List Evt) (env : Env MqttCall) : Type 0 where
  pub connects : (log : Log MqttCall) → is_zero (env.result log mqtt_connect) ≡ true
  pub answers :
      (log : Log MqttCall) (fd : ℤ) (n : ℕ) (timeout : ℤ)
      → is_positive (env.result log (MqttCall.poll fd n timeout)) ≡ true
  pub connack :
      (log : Log MqttCall) (r : ℤ) → last_verdict (library ((mqtt_input, r) ∷ log)) ≡ some true

module _ (library : Log MqttCall → List Evt) (env : Env MqttCall)
    (accepts : Accepts library env) where
  await_connack-accepted :
      (s : Mqtt) (log : Log MqttCall)
      → IsPollable s
      → (await_connack library env s log).1.mqtt_connected ≡ true
  unfolding await_connack read_positive
  await_connack-accepted s log h =
      let timeout = pos net_poll_timeout in
      let sock = transport_sock s.transport in
      let fd = env.result log sock in
      let (rc, s₁, log₁) = poll_mqtt_socket timeout env s log in
      ground (
        arith,
        poll_mqtt_socket-polls env timeout s log h,
        library_call-connected library env mqtt_input s₁ log₁,
        accepts.connack log₁ (env.result log₁ mqtt_input),
        accepts.answers ((sock, fd) ∷ log) fd 1 timeout,
      )

  connect_round-accepted :
      (s : Mqtt) (log : Log MqttCall)
      → IsPollable s
      → (connect_round library env s log).1.mqtt_connected ≡ true
  unfolding connect_round library_call
  connect_round-accepted s log h =
      let r = env.result log mqtt_connect in
      let log₀ : Log MqttCall = (mqtt_connect, r) ∷ log in
      let (_, s₁, log₁) = deliver (library log₀) env s log₀ in
      ground (
        arith,
        accepts.connects log,
        deliver-config env (library log₀) s log₀,
        await_connack-accepted s₁ log₁,
      )

  -- With a broker that accepts, the function returns after one attempt: two rounds are enough.
  pub app_mqtt_connect-returns :
      (s : Mqtt) (log : Log MqttCall)
      → IsPollable s
      → let (up, s', _) = app_mqtt_connect library 2 env s log in
        (up ≡ true) × (s'.mqtt_connected ≡ true)
  unfolding app_mqtt_connect connect_loop
  app_mqtt_connect-returns s log h =
      ground (arith, connect_round-accepted (record s { mqtt_connected = false }) log)
