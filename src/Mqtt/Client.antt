-- ===== src/Mqtt/Client.antt =====
-- networking/ETHERNET/_13_mqtt/src/mqtt_client.c from `prepare_fds` on, and main.c.
-- `library log` is what the MQTT library delivers to the event handler during the call at the head
-- of the log. The loops take their rounds as fuel, and say whether they were left by their test.
pub mod Process
pub mod Connect
use zephyr_samples.Base.{
  ℕ, zero, suc, ℤ, pos, ◌+◌, ◌%◌, ◌^◌, Bool, true, false, List, ◌∷◌, if◌then◌else◌, is_neg,
  is_positive, is_zero, to_ℕ, Log, Env, pure, ◌>>=◌, ◌>>◌, call, get, not,
}
use zephyr_samples.Mqtt.{
  App, Mqtt, Evt, Transport, non_secure, secure, pollin, pollhup_pollerr, MqttCall, transport_sock,
  poll, revents, mqtt_keepalive_time_left, mqtt_connect, mqtt_disconnect, mqtt_abort, mqtt_input,
  mqtt_live, mqtt_subscribe, k_msleep, sub_topic_cmd, qos, net_poll_timeout, wait_reconnect, Rc,
  code, minus, einval, enotconn, eio, enoent, is_ok, getaddrinfo, addrinfo_result, freeaddrinfo,
  tls_credential_add, mqtt_client_init, sys_rand32_get,
}
use zephyr_samples.Mqtt.Handler.{deliver}

abbrev pub set_fd : ℤ → App (Unit {0})
set_fd fd env s log = (tt, record s { fd = fd }, log)

abbrev pub set_nfds : ℕ → App (Unit {0})
set_nfds n env s log = (tt, record s { nfds = n }, log)

abbrev pub set_transport : Transport → App (Unit {0})
set_transport t env s log = (tt, record s { transport = t }, log)

abbrev pub set_connected : Bool → App (Unit {0})
set_connected b env s log = (tt, record s { mqtt_connected = b }, log)

-- The descriptor by the transport's type; the secure one only where TLS is built in.
choose_fd : Transport → Bool → App (Unit {0})
choose_fd non_secure tls = do fd ← call (transport_sock non_secure); set_fd fd
choose_fd secure true = do fd ← call (transport_sock secure); set_fd fd
choose_fd secure false = pure tt

prepare_fds : App (Unit {0})
unfolding choose_fd
prepare_fds = do s ← get; choose_fd s.transport s.tls_enabled; set_nfds 1

call_poll : ℤ → App Rc
call_poll timeout = do s ← get; rc ← call (poll s.fd s.nfds timeout); pure (code rc)

pub poll_mqtt_socket : ℤ → App Rc
unfolding prepare_fds call_poll
poll_mqtt_socket timeout = do
  prepare_fds
  s ← get
  if is_zero (pos s.nfds) then pure (minus einval) else call_poll timeout

-- `init_mqtt_client_id` and the configuration of the client; the broker's port asks for TLS.
configure_tls : App Rc
configure_tls = do set_transport secure; rc ← call (tls_credential_add 1); pure (code rc)

configure_client : App Rc
unfolding configure_tls
configure_client = do
  _ ← call sys_rand32_get
  _ ← call mqtt_client_init
  s ← get
  if s.tls_enabled then configure_tls else pure (code (pos 0))

resolve_broker : App Rc
unfolding configure_client
resolve_broker = do
  result ← call addrinfo_result
  if is_zero result then pure (minus enoent) else (call freeaddrinfo >> configure_client)

pub app_mqtt_init : App Rc
unfolding resolve_broker
app_mqtt_init = do rc ← call getaddrinfo; if is_zero rc then resolve_broker else pure (minus eio)

module _ (library : Log MqttCall → List Evt) where
  -- A call of the library, with the events that it delivers while it runs.
  unfoldable pub library_call : MqttCall → App ℤ
  library_call c env s log =
      let r = env.result log c in
      let (_, s', log') = deliver (library ((c, r) ∷ log)) env s ((c, r) ∷ log) in (r, s', log')

  pub app_mqtt_subscribe : App ℤ
  app_mqtt_subscribe = library_call (mqtt_subscribe sub_topic_cmd qos 5841)

  -- The bits POLLHUP and POLLERR, tested after input that succeeded.
  check_hangup : App Rc
  check_hangup = do
    hangup ← call (revents pollhup_pollerr)
    if is_zero hangup then pure (code (pos 0)) else pure (minus enotconn)

  read_input : App Rc
  unfolding check_hangup
  read_input = do rc ← library_call mqtt_input; if is_zero rc then check_hangup else pure (code rc)

  -- The socket has an event, or `poll` failed.
  handle_revents : App Rc
  unfolding read_input
  handle_revents = do
    readable ← call (revents pollin)
    if is_zero readable then pure (code (pos 0)) else read_input

  -- The poll timed out.
  keep_alive : App Rc
  keep_alive = do
    rc ← library_call mqtt_live
    if is_zero rc then pure (code (pos 0)) else pure (code rc)

  pub app_mqtt_process : App Rc
  unfolding handle_revents keep_alive
  app_mqtt_process = do
    timeout ← call mqtt_keepalive_time_left
    rc ← poll_mqtt_socket timeout
    if is_ok rc then keep_alive else handle_revents

  -- The loop of `app_mqtt_run`; whether it was left within the rounds.
  process_loop : ℕ → App Bool
  process_loop zero = pure false
  process_loop (suc rounds) = do
    s ← get
    let round = (do rc ← app_mqtt_process; if is_ok rc then process_loop rounds else pure true)
    if s.mqtt_connected then round else pure true

  pub app_mqtt_run : ℕ → App Bool
  unfolding process_loop
  app_mqtt_run rounds = do
    _ ← app_mqtt_subscribe
    done ← process_loop rounds
    if done then (library_call mqtt_disconnect >> pure true) else pure false

  -- Input is read where the poll returned a positive number.
  read_positive : Rc → App ℤ
  read_positive (code r) = if is_positive r then library_call mqtt_input else pure (pos 0)
  read_positive (minus e) = pure (pos 0)

  -- The input that follows a poll; a connection that is not up after it is aborted.
  await_connack : App (Unit {0})
  unfolding read_positive
  await_connack = do
    rc ← poll_mqtt_socket (pos net_poll_timeout)
    _ ← read_positive rc
    s ← get
    if s.mqtt_connected then pure tt else (library_call mqtt_abort >> pure tt)

  -- One round of the loop of `app_mqtt_connect`.
  connect_round : App (Unit {0})
  unfolding await_connack
  connect_round = do
    rc ← library_call mqtt_connect
    if is_zero rc then await_connack else (call (k_msleep wait_reconnect) >> pure tt)

  connect_loop : ℕ → App Bool
  connect_loop zero = pure false
  connect_loop (suc rounds) = do
    s ← get
    let round = connect_round >> connect_loop rounds
    if s.mqtt_connected then pure true else round

  -- Whether the connection was up within the rounds.
  pub app_mqtt_connect : ℕ → App Bool
  unfolding connect_loop
  app_mqtt_connect rounds = set_connected false >> connect_loop rounds
