-- ===== src/Net/TcpServer.antt =====
-- networking/ETHERNET/_06_tcp_server/src/main.c
-- The echo loop and the accept loop take their rounds as fuel: a `while (1)` has no bound of its own.
mod Tests
pub mod Safety
pub mod Events
pub mod Echo
pub mod Bounds
use zephyr_samples.Base.{
  ℕ, zero, suc, ℤ, Bool, true, false, ◌||◌, List, Option, none, some, if◌then◌else◌, outside,
  is_neg, is_zero, to_ℕ, Io, pure, ◌>>=◌, ◌>>◌, call, call_bytes, get, take, ◌+◌, ◌*◌, ◌^◌,
}
use zephyr_samples.Net.{
  NetCall, net_if_get_default, net_mgmt_add_event_callback, net_if_ipv4_addr_add, k_sleep, stream,
  reuse_addr, socket, setsockopt, bind, listen, accept, send, recv, close,
}

abbrev pub server_port : ℕ
server_port = 5555

abbrev pub listen_queue_size : ℕ
listen_queue_size = 1

abbrev pub recv_buf_size : ℕ
recv_buf_size = 1024

-- before `htonl`
abbrev pub board_ip_addr : ℕ
board_ip_addr = 192 * 2 ^ 24 + 168 * 2 ^ 16 + 1 * 2 ^ 8 + 100

-- The static descriptor, and whether a write has left `recv_buffer`.
pub record State : Type 0 where
  pub server_socket : ℤ
  pub overrun : Bool

abbrev pub Server : Type 0 → Type 0
Server A = Io State NetCall A

abbrev pub set_socket : ℤ → Server (Unit {0})
set_socket fd env s log = (tt, record s { server_socket = fd }, log)

-- `recv_buffer[received] = '\0'`
abbrev pub terminate : ℤ → Server (Unit {0})
terminate ret env s log = (tt, record s { overrun = s.overrun || outside recv_buf_size ret }, log)

-- What follows a `recv` that returned bytes; whether the loop goes on.
pub echo_back : ℤ → ℤ × List ℕ → Server Bool
echo_back client (received, buffer) = do
  terminate received
  r ← call (send client (take (to_ℕ received) buffer))
  if is_neg r then pure false else pure true

-- One round of the echo loop; whether the loop goes on.
pub echo_round : ℤ → Server Bool
echo_round client = do
  p ← call_bytes (recv client 1023)
  if is_neg p.0 then pure false else (if is_zero p.0 then pure false else echo_back client p)

-- Whether the loop was left by a `break` within the rounds given.
pub echo_loop : ℕ → ℤ → Server Bool
echo_loop zero client = pure false
echo_loop (suc rounds) client = do
  more ← echo_round client
  let rest = echo_loop rounds client
  if more then rest else pure true

-- Closes the client where the loop was left.
pub handle_client : ℕ → ℤ → Server Bool
handle_client rounds client = do
  done ← echo_loop rounds client
  if done then (call (close client) >> pure true) else pure false

-- One round of the accept loop; false where a client is still being served.
pub accept_round : ℕ → Server Bool
accept_round rounds = do
  s ← get
  client ← call (accept s.server_socket)
  if is_neg client then pure true else handle_client rounds client

pub accept_loop : ℕ → ℕ → Server (Unit {0})
accept_loop zero rounds = pure tt
accept_loop (suc clients) rounds = do
  done ← accept_round rounds
  let rest = accept_loop clients rounds
  if done then rest else pure tt

-- `close(server_socket)` on the two error paths.
pub close_server : Server Bool
close_server = do s ← get; _ ← call (close s.server_socket); pure false

-- From `listen` on.
pub start_listening : Server Bool
unfolding close_server
start_listening = do
  s ← get
  ret ← call (listen s.server_socket listen_queue_size)
  if is_neg ret then close_server else pure true

-- From `setsockopt` on; a failure of `setsockopt` is only logged.
pub bind_server : Server Bool
unfolding close_server
bind_server = do
  s ← get
  _ ← call (setsockopt s.server_socket reuse_addr)
  ret ← call (bind s.server_socket server_port)
  if is_neg ret then close_server else start_listening

-- What stands before the accept loop; whether the loop is entered.
pub open_server : Server Bool
open_server = do
  fd ← call (socket stream)
  set_socket fd
  if is_neg fd then pure false else bind_server

pub start_tcp_server : ℕ → ℕ → Server (Unit {0})
start_tcp_server clients rounds = do
  ready ← open_server
  if ready then accept_loop clients rounds else pure tt

pub assign_static_ip : Server (Unit {0})
assign_static_ip = do _ ← call (net_if_ipv4_addr_add board_ip_addr 24); pure tt

pub run_server : ℕ → ℕ → Server ℕ
run_server clients rounds = do
  _ ← call net_mgmt_add_event_callback
  assign_static_ip
  _ ← call (k_sleep 1000)
  start_tcp_server clients rounds
  pure 0

pub main : ℕ → ℕ → Server ℕ
main clients rounds = do
  iface ← call net_if_get_default
  if is_zero iface then pure 1 else run_server clients rounds
