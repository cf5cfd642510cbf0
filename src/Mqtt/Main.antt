-- ===== src/Mqtt/Main.antt =====
-- networking/ETHERNET/_13_mqtt/src/main.c. The endless loop of the thread takes its rounds as fuel,
-- and each of its two inner loops too.
pub mod Rounds
use zephyr_samples.Base.{
  ℕ, zero, suc, ℤ, pos, Bool, true, false, List, if◌then◌else◌, is_zero, Log, pure, ◌>>=◌, ◌>>◌,
  call, get,
}
use zephyr_samples.Mqtt.{
  App, Mqtt, Evt, MqttCall, net_if_get_default, net_if_get_link_addr, net_mgmt_add_event_callback,
  net_if_ipv4_get_global_addr, k_sem_take, k_sem_give, k_work_reschedule, k_work_init_delayable,
  publish_interval, Rc, code, minus, enetdown, is_ok,
}
use zephyr_samples.Mqtt.Device.{devices_ready}
use zephyr_samples.Mqtt.Client.{app_mqtt_init, app_mqtt_connect, app_mqtt_run}

-- The network events that the program distinguishes.
pub data NetEvent : Type 0 where
  ipv4_addr_add other : NetEvent

pub net_event_handler : NetEvent → App (Unit {0})
net_event_handler ipv4_addr_add = call k_sem_give >> pure tt
net_event_handler other = pure tt

-- `k_sem_take` with five seconds, until it succeeds; whether it did within the rounds.
wait_for_address : ℕ → App Bool
wait_for_address zero = pure false
wait_for_address (suc rounds) = do
  r ← call (k_sem_take 5000)
  let again = wait_for_address rounds
  if is_zero r then pure true else again

-- The wait is skipped where the interface has an address already.
await_network : ℕ → App Bool
await_network rounds = do
  addr ← call net_if_ipv4_get_global_addr
  if is_zero addr then wait_for_address rounds else pure true

module _ (library : Log MqttCall → List Evt) where
  -- One round of the thread's loop; whether both of its inner loops returned within their rounds.
  serve_session : ℕ → App Bool
  serve_session rounds = do
    _ ← call (k_work_reschedule publish_interval)
    app_mqtt_run library rounds

  pub main_round : ℕ → App Bool
  unfolding serve_session
  main_round rounds = do
    up ← app_mqtt_connect library rounds
    if up then serve_session rounds else pure false

  pub main_loop : ℕ → ℕ → App (Unit {0})
  main_loop zero rounds = pure tt
  main_loop (suc n) rounds = do
    done ← main_round rounds
    let rest = main_loop n rounds
    if done then rest else pure tt

  start_client : ℕ → ℕ → App Rc
  start_client sessions rounds = do
    rc ← app_mqtt_init
    if is_ok rc
        then (do _ ← call k_work_init_delayable; main_loop sessions rounds; pure rc)
        else pure rc

  join_network : ℕ → ℕ → App Rc
  join_network sessions rounds = do
    _ ← call net_if_get_link_addr
    _ ← call net_mgmt_add_event_callback
    ready ← await_network rounds
    if ready then start_client sessions rounds else pure (code (pos 0))

  pub main : ℕ → ℕ → App Rc
  main sessions rounds = do
    _ ← devices_ready
    iface ← call net_if_get_default
    if is_zero iface then pure (minus enetdown) else join_network sessions rounds
