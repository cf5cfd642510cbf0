-- ===== src/Mqtt/Main/Rounds.antt =====
-- The session over the life of the program.
use zephyr_samples.Base.{ℕ, zero, suc, true, ◌≡◌, ◌⊎◌, List, ◌∷◌, some, Log, Env, arith}
use zephyr_samples.Mqtt.{Mqtt, MqttCall, Evt, k_work_reschedule, publish_interval}
use zephyr_samples.Mqtt.Session.{down, opened, session}
use zephyr_samples.Mqtt.Client.{app_mqtt_connect}
use zephyr_samples.Mqtt.Client.Process.{app_mqtt_run-session}
use zephyr_samples.Mqtt.Client.Connect.{IsHonest, app_mqtt_connect-session}
use zephyr_samples.Mqtt.Main.{main_round, main_loop}

-- Every call was admitted: a session is open, or none.
abbrev IsAdmitted : (Log MqttCall → List Evt) → Log MqttCall → Type 0
IsAdmitted library log = (session library log ≡ some down) ⊎ (session library log ≡ some opened)

module _ (library : Log MqttCall → List Evt) (env : Env MqttCall) (honest : IsHonest library) where
  main_round-session :
      (rounds : ℕ) (s : Mqtt) (log : Log MqttCall)
      → session library log ≡ some down
      → let (done, s', log') = main_round library rounds env s log in
        IsAdmitted library log' × (done ≡ true → session library log' ≡ some down)
  unfolding main_round
  main_round-session rounds s log h =
      let (up, s₁, log₁) = app_mqtt_connect library rounds env s log in
      let c = k_work_reschedule publish_interval in
      ground (
        arith,
        app_mqtt_connect-session library env honest rounds s log h,
        app_mqtt_run-session library env rounds s₁ ((c, env.result log₁ c) ∷ log₁),
      )

  -- Started with no session open, with a library that reports connections honestly, and whenever it ends a session with DISCONNECT:
  -- over any number of sessions, each of any length, the program opens a session only where none is
  -- open, and subscribes, reads input and keeps alive only where one is.
  pub main_loop-session :
      (sessions rounds : ℕ) (s : Mqtt) (log : Log MqttCall)
      → session library log ≡ some down
      → let (_, _, log') = main_loop library sessions rounds env s log in
        (session library log' ≡ some down) ⊎ (session library log' ≡ some opened)
  unfolding main_loop
  main_loop-session zero rounds s log h = ground arith
  main_loop-session (suc n) rounds s log h =
      let (done, s', log') = main_round library rounds env s log in
      ground (arith, main_round-session rounds s log h, main_loop-session n rounds s' log')
