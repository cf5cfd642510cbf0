-- ===== src/Net/TcpServer/Tests.antt =====
-- The TCP server with a client that sends two bytes and leaves.
use zephyr_samples.Base.{
  ◌+◌, ℤ, pos, negsuc, false, true, ◌≡◌, ◌⊎◌, ◌≤◌, refl, [], ◌∷◌, some, Env, to_ℕ, Log, arith,
  is_positive, ltb, if◌then◌else◌,
}
use mathlib.Core.List.{head?, tail}
use zephyr_samples.Net.{NetCall, socket, accept, recv, close}
use zephyr_samples.Net.Sniff.{sent, sends, pieces, recv_count}
use zephyr_samples.Net.Protocol.{idle, listening, serving, track}
use zephyr_samples.Net.TcpServer.{
  open_server, bind_server, start_listening, accept_loop, accept_round, echo_loop, echo_round,
  echo_back, State, handle_client, start_tcp_server,
}
use zephyr_samples.Net.TcpServer.Safety.{start_tcp_server-track}
use zephyr_samples.Net.TcpServer.Echo.{handle_client-sent, handle_client-ends}
use zephyr_samples.Net.TcpServer.Bounds.{start_tcp_server-overrun}

-- The first `recv` returns two bytes, and each later one the end of the stream.
abbrev reply : Log NetCall → NetCall → ℤ
reply log (socket k) = pos 3
reply log (accept fd) = pos 4
reply log (recv fd n) = if ltb (recv_count log) 1 then pos 2 else pos 0
reply log c = pos 0

abbrev lab : Env NetCall
lab = record { result = reply; bytes = λ log c. 104 ∷ 105 ∷ [] }

abbrev boot : State
boot = record { server_socket = negsuc 0; overrun = false }

echoed : sent (start_tcp_server 1 3 lab boot []).2 ≡ 104 ∷ 105 ∷ []
unfolding start_tcp_server open_server bind_server start_listening accept_loop accept_round
    handle_client echo_loop echo_round echo_back
echoed = refl

start_tcp_server-track_example :
    let (_, s', log') = start_tcp_server 1 3 lab boot [] in
    (track log' ≡ some idle)
    ⊎ ((l : ℤ) × ((track log' ≡ some (listening l))
          ⊎ ((c : ℤ) × (track log' ≡ some (serving l c)))))
start_tcp_server-track_example = start_tcp_server-track lab 1 3 boot [] refl

handle_client-sent_example :
    let (_, s', log') = handle_client 3 (pos 4) lab boot [] in sends log' ≡ pieces lab log'
handle_client-sent_example = handle_client-sent lab (pos 4) 3 boot [] refl

lab_ends :
    (l : Log NetCall)
    → 1 + recv_count [] ≤ recv_count l
    → is_positive (lab.result l (recv (pos 4) 1023)) ≡ false
lab_ends l h = ground arith

handle_client-ends_example :
    let (done, _, log') = handle_client (1 + 1) (pos 4) lab boot [] in
    (done ≡ true) × (head? log' ≡ some (close (pos 4), lab.result (tail log') (close (pos 4))))
handle_client-ends_example = handle_client-ends lab (pos 4) 1 boot [] lab_ends

lab_fits : (l : Log NetCall) (c : ℤ) → to_ℕ (lab.result l (recv c 1023)) ≤ 1023
lab_fits l c = ground arith

start_tcp_server-overrun_example : (start_tcp_server 1 3 lab boot []).1.overrun ≡ false
start_tcp_server-overrun_example = start_tcp_server-overrun lab lab_fits 1 3 boot []
