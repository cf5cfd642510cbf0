-- ===== src/Net/HttpsClient.antt =====
-- networking/ETHERNET/_10_https_client/src/main.c and net_sample_common.c
-- `*sock` of the source is the local descriptor of `main`.
mod Tests
pub mod Safety
pub mod Callbacks
use zephyr_samples.Base.{
  ℕ, ℤ, negsuc, Bool, true, false, ◌||◌, List, [], if◌then◌else◌, is_neg, is_zero, is_positive, Io,
  pure, ◌>>=◌, ◌>>◌, call, get, codes, ◌+◌, ◌*◌, ◌^◌,
}
use zephyr_samples.Net.{
  NetCall, net_if_get_default, net_if_get_link_addr, net_mgmt_add_event_callback,
  conn_mgr_mon_resend_status, net_if_ipv4_addr_add, net_if_ipv4_set_gw, k_sem_take_forever, k_sleep,
  inet_pton, tls, tls_credential_add, sec_tag_list, tls_hostname, socket, setsockopt, connect,
  http_client_req, http_get, http_post, close,
}

abbrev pub server_ip : List ℕ
server_ip = codes "192.168.1.1"

abbrev pub post_payload : List ℕ
post_payload =
    codes
      "{\"message\":\"Hello from Zephyr via HTTPS\",\"board\":\"STM32H573I-DK\",\"secure\":true}"

abbrev pub ca_certificate_tag : ℕ
ca_certificate_tag = 1

-- before `htonl`
abbrev pub board_ip_addr : ℕ
board_ip_addr = 192 * 2 ^ 24 + 168 * 2 ^ 16 + 1 * 2 ^ 8 + 100

abbrev pub gateway_addr : ℕ
gateway_addr = 192 * 2 ^ 24 + 168 * 2 ^ 16 + 1 * 2 ^ 8 + 1

-- The local variable `sock` of `main`.
pub record State : Type 0 where
  pub sock : ℤ

abbrev pub Client : Type 0 → Type 0
Client A = Io State NetCall A

abbrev pub set_sock : ℤ → Client (Unit {0})
set_sock fd env s log = (tt, record s { sock = fd }, log)

abbrev pub failed : ℤ
failed = negsuc 0

abbrev pub success : ℤ
success = ℤ.pos 0

-- `close(*sock); return -1;`: the variable keeps the closed descriptor.
pub close_failed : Client ℤ
close_failed = do s ← get; _ ← call (close s.sock); pure failed

pub set_hostname : Client ℤ
set_hostname = do
  s ← get
  ret ← call (setsockopt s.sock tls_hostname)
  if is_neg ret then close_failed else pure ret

pub set_security_tag : Client ℤ
set_security_tag = do
  s ← get
  ret ← call (setsockopt s.sock sec_tag_list)
  if is_neg ret then close_failed else set_hostname

pub create_tls_socket : Client ℤ
create_tls_socket = do
  fd ← call (socket tls)
  set_sock fd
  if is_neg fd then pure failed else set_security_tag

pub setup_tls_socket : Client ℤ
setup_tls_socket = do
  ret ← call (inet_pton server_ip)
  if is_positive ret then create_tls_socket else pure failed

-- `close(*sock); *sock = -1; return -1;`
pub give_up : Client ℤ
give_up = do s ← get; _ ← call (close s.sock); set_sock (negsuc 0); pure failed

pub connect_sock : Client ℤ
connect_sock = do s ← get; ret ← call (connect s.sock); if is_neg ret then give_up else pure success

pub connect_tls_socket : Client ℤ
connect_tls_socket = do
  ret ← setup_tls_socket
  s ← get
  if is_neg ret || is_neg s.sock then pure failed else connect_sock

-- The POST request on the connection at hand; its error is logged.
pub send_post : Client ℕ
send_post = do
  s ← get
  _ ← call (http_client_req s.sock http_post post_payload)
  _ ← call (close s.sock)
  pure 0

-- The POST request on its own connection.
pub post_request : Client ℕ
post_request = do ret ← connect_tls_socket; if is_neg ret then pure 0 else send_post

-- The GET request on the connection at hand, then the POST request; its error is logged.
pub send_get : Client ℕ
send_get = do
  s ← get
  _ ← call (http_client_req s.sock http_get [])
  _ ← call (close s.sock)
  _ ← call (k_sleep 500)
  post_request

-- The GET request on its own connection.
pub get_request : Client ℕ
get_request = do ret ← connect_tls_socket; if is_neg ret then pure 0 else send_get

pub set_gateway : Client (Unit {0})
set_gateway = do _ ← call (net_if_ipv4_set_gw gateway_addr); pure tt

-- The gateway is set where the address was added.
pub assign_static_ip : Client (Unit {0})
assign_static_ip = do
  ifaddr ← call (net_if_ipv4_addr_add board_ip_addr 24)
  if is_zero ifaddr then pure tt else set_gateway

pub join_network : Client (Unit {0})
join_network = do
  _ ← call net_if_get_link_addr
  _ ← call net_mgmt_add_event_callback
  _ ← call conn_mgr_mon_resend_status
  assign_static_ip
  _ ← call k_sem_take_forever
  pure tt

pub wait_for_network : Client (Unit {0})
wait_for_network = do
  iface ← call net_if_get_default
  if is_zero iface then pure tt else join_network

pub main : Client ℕ
main = do
  wait_for_network
  set_sock (negsuc 0)
  ret ← call (tls_credential_add ca_certificate_tag)
  if is_neg ret then pure 1 else get_request
