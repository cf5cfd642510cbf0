-- ===== src/Net/UdpReceiver.antt =====
-- networking/ETHERNET/_08_udp_receiver/src/main.c
-- The receive loop takes its rounds as fuel: the `while (1)` has no bound of its own.
mod Tests
pub mod Safety
pub mod Events
use zephyr_samples.Base.{
  ℕ, zero, suc, ℤ, Bool, true, false, ◌||◌, if◌then◌else◌, outside, ◌==◌, is_neg, is_zero, to_ℕ, Io,
  pure, ◌>>=◌, ◌>>◌, call, call_bytes, get, take, List, ◌++◌, ◌∷◌, [], ◌+◌, ◌*◌, ◌^◌,
}
use zephyr_samples.Net.{
  NetCall, net_if_get_default, net_mgmt_add_event_callback, net_if_ipv4_addr_add, k_sleep, dgram,
  socket, bind, recvfrom, close,
}

abbrev pub local_port : ℕ
local_port = 4242

abbrev pub buffer_size : ℕ
buffer_size = 256

-- before `htonl`
abbrev pub board_ip_addr : ℕ
board_ip_addr = 192 * 2 ^ 24 + 168 * 2 ^ 16 + 1 * 2 ^ 8 + 100

-- The static descriptor, whether a write has left `recv_buf`, and what was printed of each datagram, in order.
pub record State : Type 0 where
  pub sock : ℤ
  pub overrun : Bool
  pub printed : List (ℕ × List ℕ)

abbrev pub Receiver : Type 0 → Type 0
Receiver A = Io State NetCall A

abbrev pub set_socket : ℤ → Receiver (Unit {0})
set_socket fd env s log = (tt, record s { sock = fd }, log)

-- What `%s` prints: the bytes up to the first NUL.
abbrev pub c_text : List ℕ → List ℕ
c_text [] = []
c_text (b ∷ bs) = let rest = c_text bs in if b == 0 then [] else b ∷ rest

-- `recv_buf[received] = '\0'`; the number of bytes and the text are printed.
pub show_datagram : ℤ × List ℕ → Receiver (Unit {0})
show_datagram p env s log =
    let datagram = take (to_ℕ p.0) p.1 in
    (
      tt,
      record s {
        overrun = s.overrun || outside buffer_size p.0;
        printed = s.printed ++ (to_ℕ p.0, c_text datagram) ∷ [];
      },
      log,
    )

-- One round of the loop; whether the loop goes on. An empty datagram is skipped.
pub receive_round : Receiver Bool
receive_round = do
  s ← get
  p ← call_bytes (recvfrom s.sock 255)
  if is_neg p.0
      then pure false
      else (if is_zero p.0 then pure true else (show_datagram p >> pure true))

-- Whether the loop was left by its `break` within the rounds given.
pub receive_loop : ℕ → Receiver Bool
receive_loop zero = pure false
receive_loop (suc rounds) = do
  more ← receive_round
  let rest = receive_loop rounds
  if more then rest else pure true

-- `close(sock)`; the static keeps its value.
pub close_sock : Receiver (Unit {0})
close_sock = do s ← get; _ ← call (close s.sock); pure tt

-- From the loop on.
pub receive_and_close : ℕ → Receiver (Unit {0})
receive_and_close rounds = do done ← receive_loop rounds; if done then close_sock else pure tt

-- From `bind` on.
pub bind_and_receive : ℕ → Receiver (Unit {0})
bind_and_receive rounds = do
  s ← get
  ret ← call (bind s.sock local_port)
  if is_neg ret then close_sock else receive_and_close rounds

pub udp_receive : ℕ → Receiver (Unit {0})
udp_receive rounds = do
  fd ← call (socket dgram)
  set_socket fd
  if is_neg fd then pure tt else bind_and_receive rounds

pub assign_static_ip : Receiver (Unit {0})
assign_static_ip = do _ ← call (net_if_ipv4_addr_add board_ip_addr 24); pure tt

pub run_receiver : ℕ → Receiver ℕ
run_receiver rounds = do
  _ ← call net_mgmt_add_event_callback
  assign_static_ip
  _ ← call (k_sleep 2000)
  udp_receive rounds
  pure 0

pub main : ℕ → Receiver ℕ
main rounds = do
  iface ← call net_if_get_default
  if is_zero iface then pure 1 else run_receiver rounds
