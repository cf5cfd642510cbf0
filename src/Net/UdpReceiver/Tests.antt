-- ===== src/Net/UdpReceiver/Tests.antt =====
-- The UDP receiver with datagrams of two bytes.
use zephyr_samples.Base.{
  ℤ, pos, negsuc, false, ◌≡◌, ◌⊎◌, ◌≤◌, refl, [], ◌∷◌, some, Env, to_ℕ, Log, arith,
}
use zephyr_samples.Net.{NetCall, socket, recvfrom}
use zephyr_samples.Net.Protocol.{idle, bound, track}
use zephyr_samples.Net.UdpReceiver.{
  bind_and_receive, receive_and_close, receive_loop, receive_round, show_datagram, State,
  udp_receive,
}
use zephyr_samples.Net.UdpReceiver.Safety.{datagrams, udp_receive-Served}

abbrev reply : NetCall → ℤ
reply (socket k) = pos 3
reply (recvfrom fd n) = pos 2
reply c = pos 0

abbrev lab : Env NetCall
lab = record { result = λ log c. reply c; bytes = λ log c. 104 ∷ 105 ∷ 33 ∷ [] }

abbrev boot : State
boot = record { sock = negsuc 0; overrun = false; printed = [] }

shown : (udp_receive 2 lab boot []).1.printed ≡ (2, 104 ∷ 105 ∷ []) ∷ (2, 104 ∷ 105 ∷ []) ∷ []
unfolding udp_receive bind_and_receive receive_and_close receive_loop receive_round show_datagram
shown = refl

lab_fits : (l : Log NetCall) (fd : ℤ) → to_ℕ (lab.result l (recvfrom fd 255)) ≤ 255
lab_fits l fd = omega arith

udp_receive-Served_example :
    let (_, s', log') = udp_receive 2 lab boot [] in
    (s'.printed ≡ datagrams lab log')
    × (s'.overrun ≡ false)
    × ((track log' ≡ some idle) ⊎ (track log' ≡ some (bound s'.sock)))
udp_receive-Served_example = udp_receive-Served lab lab_fits 2 boot [] refl refl refl
