-- ===== src/Net/TcpClient.antt =====
-- networking/ETHERNET/_05_tcp_client/src/main.c
mod Tests
pub mod Safety
pub mod Events
use Prim.Native.String.{String}
use zephyr_samples.Base.{
  ℕ, ℤ, pos, negsuc, Bool, true, false, ◌||◌, List, Option, none, some, if◌then◌else◌, outside,
  is_neg, is_zero, is_positive, to_ℕ, not, Io, pure, ◌>>=◌, ◌>>◌, call, get, put, codes, ◌+◌, ◌*◌,
  ◌^◌,
}
use zephyr_samples.Net.{
  NetCall, net_if_get_default, net_mgmt_add_event_callback, net_if_ipv4_addr_add, k_sleep,
  k_sleep_forever, inet_pton, stream, socket, connect, send, recv, close,
}

abbrev pub server_addr : List ℕ
server_addr = codes "192.168.1.1"

abbrev pub send_data : List ℕ
send_data = codes "Hello from Zephyr!"

abbrev pub recv_buf_size : ℕ
recv_buf_size = 1024

-- before `htonl`
abbrev pub board_ip_addr : ℕ
board_ip_addr = 192 * 2 ^ 24 + 168 * 2 ^ 16 + 1 * 2 ^ 8 + 100

abbrev pub board_ip_mask : ℕ
board_ip_mask = 24

-- The static descriptor, and whether a write has left `recv_buffer`.
pub record State : Type 0 where
  pub tcp_socket : ℤ
  pub overrun : Bool

abbrev pub Client : Type 0 → Type 0
Client A = Io State NetCall A

abbrev pub set_socket : ℤ → Client (Unit {0})
set_socket fd env s log = (tt, record s { tcp_socket = fd }, log)

-- `close(tcp_socket); tcp_socket = -1;`
pub close_socket : Client (Unit {0})
close_socket = do s ← get; _ ← call (close s.tcp_socket); set_socket (negsuc 0)

-- `recv_buffer[ret] = '\0'`
abbrev pub terminate : ℤ → Client (Unit {0})
terminate ret env s log = (tt, record s { overrun = s.overrun || outside recv_buf_size ret }, log)

-- From `recv` on.
pub receive_response : Client (Unit {0})
unfolding close_socket
receive_response = do
  s ← get
  ret ← call (recv s.tcp_socket 1023)
  if is_neg ret then close_socket else (terminate ret >> close_socket)

-- From `send` on.
pub send_message : Client (Unit {0})
unfolding close_socket
send_message = do
  s ← get
  ret ← call (send s.tcp_socket send_data)
  if is_neg ret then close_socket else receive_response

-- From `connect` on.
pub connect_server : Client (Unit {0})
unfolding close_socket
connect_server = do
  s ← get
  ret ← call (connect s.tcp_socket)
  if is_neg ret then close_socket else send_message

-- From `inet_pton` on.
pub prepare_address : Client (Unit {0})
prepare_address = do
  s ← get
  ret ← call (inet_pton server_addr)
  if is_positive ret then connect_server else (call (close s.tcp_socket) >> pure tt)

pub tcp_connect_and_send : Client (Unit {0})
tcp_connect_and_send = do
  fd ← call (socket stream)
  set_socket fd
  if is_neg fd then pure tt else prepare_address

pub assign_static_ip : Client (Unit {0})
assign_static_ip = do _ ← call (net_if_ipv4_addr_add board_ip_addr board_ip_mask); pure tt

-- From the registration of the callback on; the program then sleeps forever.
pub run_client : Client (Option ℕ)
unfolding assign_static_ip
run_client = do
  _ ← call net_mgmt_add_event_callback
  assign_static_ip
  _ ← call (k_sleep 1000)
  tcp_connect_and_send
  _ ← call k_sleep_forever
  pure none

-- The value that `main` returns, `none` where it does not return.
pub main : Client (Option ℕ)
main = do iface ← call net_if_get_default; if is_zero iface then pure (some 1) else run_client
