-- ===== src/Net/UdpSender.antt =====
-- networking/ETHERNET/_07_udp_sender/src/main.c
mod Tests
pub mod Safety
pub mod Events
use zephyr_samples.Base.{
  ℕ, zero, suc, ℤ, negsuc, Bool, List, if◌then◌else◌, is_neg, is_zero, is_positive, Io, pure, ◌>>=◌,
  ◌>>◌, call, call_bytes, get, codes, ◌+◌, ◌*◌, ◌%◌, ◌^◌,
}
use zephyr_samples.Net.{
  NetCall, net_if_get_default, net_mgmt_add_event_callback, net_if_ipv4_addr_add, k_sleep,
  inet_pton, dgram, socket, connect, send, close, snprintf_packet,
}

abbrev pub server_addr : List ℕ
server_addr = codes "192.168.1.1"

abbrev pub send_interval_ms : ℕ
send_interval_ms = 2000

-- before `htonl`
abbrev pub board_ip_addr : ℕ
board_ip_addr = 192 * 2 ^ 24 + 168 * 2 ^ 16 + 1 * 2 ^ 8 + 100

-- The two statics; `packet_count` is a uint32_t.
pub record State : Type 0 where
  pub udp_socket : ℤ
  pub packet_count : ℕ

abbrev pub Sender : Type 0 → Type 0
Sender A = Io State NetCall A

abbrev pub set_socket : ℤ → Sender (Unit {0})
set_socket fd env s log = (tt, record s { udp_socket = fd }, log)

-- `packet_count++`
abbrev pub count_packet : Sender (Unit {0})
count_packet env s log = (tt, record s { packet_count = (s.packet_count + 1) % 2 ^ 32 }, log)

-- One round of the loop; whether the loop goes on. `snprintf` is handed the counter, which is
-- incremented whether or not the packet is sent.
pub send_packet : Sender Bool
send_packet = do
  s ← get
  p ← call_bytes (snprintf_packet s.packet_count)
  count_packet
  ret ← call (send s.udp_socket p.1)
  if is_neg ret then pure Bool.false else (call (k_sleep send_interval_ms) >> pure Bool.true)

-- The loop with the rounds that are left.
pub send_loop : ℕ → Sender (Unit {0})
send_loop zero = pure tt
send_loop (suc i) = do more ← send_packet; let rest = send_loop i; if more then rest else pure tt

-- `close(udp_socket); udp_socket = -1;`
pub close_socket : Sender (Unit {0})
close_socket = do s ← get; _ ← call (close s.udp_socket); set_socket (negsuc 0)

-- From `connect` on.
pub connect_and_send : Sender (Unit {0})
connect_and_send = do
  s ← get
  ret ← call (connect s.udp_socket)
  if is_neg ret then close_socket else (send_loop 10 >> close_socket)

-- From `inet_pton` on.
pub prepare_address : Sender (Unit {0})
prepare_address = do
  s ← get
  ret ← call (inet_pton server_addr)
  if is_positive ret then connect_and_send else (call (close s.udp_socket) >> pure tt)

pub udp_send_packets : Sender (Unit {0})
udp_send_packets = do
  fd ← call (socket dgram)
  set_socket fd
  if is_neg fd then pure tt else prepare_address

pub assign_static_ip : Sender (Unit {0})
assign_static_ip = do _ ← call (net_if_ipv4_addr_add board_ip_addr 24); pure tt

pub run_sender : Sender ℕ
run_sender = do
  _ ← call net_mgmt_add_event_callback
  assign_static_ip
  _ ← call (k_sleep 2000)
  udp_send_packets
  pure 0

pub main : Sender ℕ
main = do iface ← call net_if_get_default; if is_zero iface then pure 1 else run_sender
