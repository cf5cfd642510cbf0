-- ===== src/Net/TcpClient/Tests.antt =====
-- The TCP client on a network that answers, and on one that refuses.
use zephyr_samples.Base.{
  ℤ, pos, negsuc, false, true, ◌≡◌, ◌⊎◌, ◌≤◌, refl, ◌++◌, [], ◌∷◌, some, Env, to_ℕ, Log, arith,
  is_neg, is_positive,
}
use zephyr_samples.Net.{NetCall, stream, socket, inet_pton, connect, send, recv, close}
use zephyr_samples.Net.Sniff.{sent}
use zephyr_samples.Net.Protocol.{idle, track}
use zephyr_samples.Net.TcpClient.{
  prepare_address, connect_server, send_message, receive_response, State, server_addr, send_data,
  tcp_connect_and_send,
}
use zephyr_samples.Net.TcpClient.Safety.{message, tcp_connect_and_send_lem}

abbrev reply : NetCall → ℤ
reply (socket k) = pos 3
reply (inet_pton a) = pos 1
reply (recv fd n) = pos 2
reply c = pos 0

abbrev lab : Env NetCall
lab = record { result = λ log c. reply c; bytes = λ log c. 111 ∷ 107 ∷ [] }

abbrev boot : State
boot = record { tcp_socket = negsuc 0; overrun = false }

whole_run :
    (tcp_connect_and_send lab boot []).2
    ≡ (close (pos 3), pos 0)
      ∷ (recv (pos 3) 1023, pos 2)
      ∷ (send (pos 3) send_data, pos 0)
      ∷ (connect (pos 3), pos 0)
      ∷ (inet_pton server_addr, pos 1)
      ∷ (socket stream, pos 3)
      ∷ []
unfolding tcp_connect_and_send prepare_address connect_server send_message receive_response
whole_run = refl

lab_fits : (l : Log NetCall) (fd : ℤ) → to_ℕ (lab.result l (recv fd 1023)) ≤ 1023
lab_fits l fd = omega arith

tcp_connect_and_send_lem_example :
    let (_, s', log') = tcp_connect_and_send lab boot [] in
    (track log' ≡ some idle)
    × (sent log' ≡ [] ++ message lab [])
    × (s'.overrun ≡ false)
    × ((is_neg s'.tcp_socket ≡ true)
        ⊎ ((is_positive (lab.result ((socket stream, pos 3) ∷ []) (inet_pton server_addr)) ≡ false)
            × (s'.tcp_socket ≡ pos 3)))
tcp_connect_and_send_lem_example = tcp_connect_and_send_lem lab lab_fits boot [] refl
