-- ===== src/Net/UdpSender/Tests.antt =====
-- The UDP sender with a counter that is about to wrap.
use zephyr_samples.Base.{
  ℕ, ◌+◌, ◌-◌, ◌%◌, ◌^◌, ◌≤◌, ℤ, pos, negsuc, ◌≡◌, ◌⊎◌, true, refl, [], ◌∷◌, ◌++◌, Env, arith,
}
use zephyr_samples.Net.{NetCall, socket, inet_pton}
use zephyr_samples.Net.Sniff.{packets, sends, texts_to}
use zephyr_samples.Net.UdpSender.{
  prepare_address, connect_and_send, close_socket, send_packet, State, send_loop, udp_send_packets,
}
use zephyr_samples.Net.UdpSender.Safety.{numbered, send_failed, send_loop-numbered}

abbrev reply : NetCall → ℤ
reply (socket k) = pos 3
reply (inet_pton a) = pos 1
reply c = pos 0

abbrev lab : Env NetCall
lab = record { result = λ log c. reply c; bytes = λ log c. 35 ∷ [] }

abbrev boot : State
boot = record { udp_socket = negsuc 0; packet_count = 2 ^ 32 - 1 }

counted : (udp_send_packets lab boot []).1.packet_count ≡ 9
unfolding udp_send_packets prepare_address connect_and_send close_socket send_loop send_packet
counted = refl

send_loop-numbered_example :
    let (_, s', log') = send_loop 10 lab boot [] in
    (m : ℕ) × (m ≤ 10)
    × (s'.packet_count ≡ (2 ^ 32 - 1 + m) % 2 ^ 32)
    × (packets log' ≡ numbered (2 ^ 32 - 1) m ++ [])
    × (sends log' ≡ texts_to (negsuc 0) lab log')
    × ((m ≡ 10) ⊎ (send_failed log' ≡ true))
send_loop-numbered_example = send_loop-numbered lab boot [] (omega arith) refl
