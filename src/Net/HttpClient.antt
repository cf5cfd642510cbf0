-- ===== src/Net/HttpClient.antt =====
-- networking/ETHERNET/_09_http_client/src/main.c and net_sample_common.c
-- `*sock` of the source is the local descriptor of `main`.
mod Tests
pub mod Safety
pub mod Callbacks
use zephyr_samples.Base.{
  ℕ, ℤ, negsuc, Bool, true, false, ◌||◌, List, [], if◌then◌else◌, is_neg, is_zero, is_positive, Io,
  pure, ◌>>=◌, ◌>>◌, call, get, codes, ◌+◌, ◌*◌, ◌^◌,
}
use zephyr_samples.Net.{
  NetCall, net_if_get_default, net_if_get_link_addr, net_mgmt_add_event_callback,
  conn_mgr_mon_resend_status, net_if_ipv4_addr_add, k_sem_take_forever, k_sleep, inet_pton, stream,
  socket, connect, http_client_req, http_get, http_post, close,
}

abbrev pub server_ip : List ℕ
server_ip = codes "192.168.1.1"

-- before `htonl`
abbrev pub board_ip_addr : ℕ
board_ip_addr = 192 * 2 ^ 24 + 168 * 2 ^ 16 + 1 * 2 ^ 8 + 100

abbrev pub post_payload : List ℕ
post_payload = codes "{\"message\":\"Hello from Zephyr\",\"board\":\"STM32H573I-DK\"}"

-- The local variable `sock` of `main`.
pub record State : Type 0 where
  pub sock : ℤ

abbrev pub Client : Type 0 → Type 0
Client A = Io State NetCall A

abbrev pub set_sock : ℤ → Client (Unit {0})
set_sock fd env s log = (tt, record s { sock = fd }, log)

-- -1 for a failure
abbrev pub failed : ℤ
failed = negsuc 0

abbrev pub success : ℤ
success = ℤ.pos 0

pub create_socket : Client ℤ
create_socket = do
  fd ← call (socket stream)
  set_sock fd
  if is_neg fd then pure failed else pure success

pub setup_socket : Client ℤ
setup_socket = do
  ret ← call (inet_pton server_ip)
  if is_positive ret then create_socket else pure failed

-- `close(*sock); *sock = -1; return -1;`
pub give_up : Client ℤ
give_up = do s ← get; _ ← call (close s.sock); set_sock (negsuc 0); pure failed

pub connect_sock : Client ℤ
connect_sock = do s ← get; ret ← call (connect s.sock); if is_neg ret then give_up else pure success

pub connect_socket : Client ℤ
connect_socket = do
  ret ← setup_socket
  s ← get
  if is_neg ret || is_neg s.sock then pure failed else connect_sock

-- The POST request on the connection at hand; its error is logged.
pub send_post : Client (Unit {0})
send_post = do
  s ← get
  _ ← call (http_client_req s.sock http_post post_payload)
  _ ← call (close s.sock)
  pure tt

-- The POST request on its own connection.
pub post_request : Client (Unit {0})
post_request = do ret ← connect_socket; if is_neg ret then pure tt else send_post

-- The GET request on the connection at hand, then the POST request; its error is logged.
pub send_get : Client (Unit {0})
send_get = do
  s ← get
  _ ← call (http_client_req s.sock http_get [])
  _ ← call (close s.sock)
  _ ← call (k_sleep 500)
  post_request

-- The GET request on its own connection.
pub get_request : Client (Unit {0})
get_request = do ret ← connect_socket; if is_neg ret then pure tt else send_get

pub assign_static_ip : Client (Unit {0})
assign_static_ip = do _ ← call (net_if_ipv4_addr_add board_ip_addr 24); pure tt

pub join_network : Client (Unit {0})
join_network = do
  _ ← call net_if_get_link_addr
  _ ← call net_mgmt_add_event_callback
  _ ← call conn_mgr_mon_resend_status
  assign_static_ip
  _ ← call k_sem_take_forever
  pure tt

pub wait_for_network : Client (Unit {0})
wait_for_network = do
  iface ← call net_if_get_default
  if is_zero iface then pure tt else join_network

pub main : Client (Unit {0})
main = do wait_for_network; set_sock (negsuc 0); get_request
