-- ===== src/Net/UdpSender/Safety.antt =====
-- The UDP sender: its descriptor over a whole run, and the numbers of its packets.
use zephyr_samples.Base.{
  ℕ, zero, suc, ◌+◌, ◌%◌, ◌^◌, ◌≤◌, ◌<◌, some, ◌≡◌, refl, List, [], ◌∷◌, ◌++◌, inl, inr, Bool-cases,
  Log, Env, ℤ, Bool, true, false, is_neg, ◌∙◌, ◌⊎◌, int_eq_refl, arith,
}
use zephyr_samples.Net.{NetCall, dgram, socket, inet_pton, send}
use zephyr_samples.Net.Sniff.{packets, sends, texts_to}
use zephyr_samples.Net.Protocol.{idle, created, connected, track}
use zephyr_samples.Net.UdpSender.{
  State, server_addr, send_packet, send_loop, close_socket, connect_and_send, prepare_address,
  udp_send_packets,
}

module _ (env : Env NetCall) where
  send_packet-track :
      (s : State) (log : Log NetCall)
      → track log ≡ some (connected s.udp_socket)
      → let (_, s', log') = send_packet env s log in
        (track log' ≡ some (connected s.udp_socket)) × (s'.udp_socket ≡ s.udp_socket)
  unfolding send_packet
  send_packet-track s log h = ground (arith, int_eq_refl s.udp_socket)

  send_loop-track :
      (i : ℕ) (s : State) (log : Log NetCall)
      → track log ≡ some (connected s.udp_socket)
      → let (_, s', log') = send_loop i env s log in
        (track log' ≡ some (connected s.udp_socket)) × (s'.udp_socket ≡ s.udp_socket)
  unfolding send_loop
  send_loop-track zero s log h = (h, refl)
  send_loop-track (suc i) s log h =
      let (_, s', log') = send_packet env s log in
      ground (arith, send_packet-track s log h, send_loop-track i s' log')

  connect_and_send-track :
      (s : State) (log : Log NetCall)
      → track log ≡ some (created s.udp_socket)
      → track (connect_and_send env s log).2 ≡ some idle
  unfolding connect_and_send close_socket
  connect_and_send-track s log h =
      let r = env.result log (NetCall.connect s.udp_socket) in
      ground (
        arith,
        int_eq_refl s.udp_socket,
        send_loop-track 10 s ((NetCall.connect s.udp_socket, r) ∷ log),
      )

  prepare_address-track :
      (s : State) (log : Log NetCall)
      → track log ≡ some (created s.udp_socket)
      → track (prepare_address env s log).2 ≡ some idle
  unfolding prepare_address
  prepare_address-track s log h =
      let r = env.result log (inet_pton server_addr) in
      ground (
        arith,
        int_eq_refl s.udp_socket,
        connect_and_send-track s ((inet_pton server_addr, r) ∷ log),
      )

  -- Whatever the calls return, the sender uses its socket as it admits, and holds none in the end.
  pub udp_send_packets-track :
      (s : State) (log : Log NetCall)
      → track log ≡ some idle
      → track (udp_send_packets env s log).2 ≡ some idle
  unfolding udp_send_packets
  udp_send_packets-track s log h =
      let fd = env.result log (socket dgram) in
      ground
        (arith, prepare_address-track (record s { udp_socket = fd }) ((socket dgram, fd) ∷ log))

-- The numbers of n packets from `first` on, the latest first, by a 32-bit counter.
abbrev pub numbered : ℕ → ℕ → List ℕ
numbered first zero = []
numbered first (suc n) = (first + n) % 2 ^ 32 ∷ numbered first n

shift : (m n i : ℕ) {P : Type 0} → (m ≡ suc n + i) ⊎ P → (m ≡ n + suc i) ⊎ P
shift m n i (inl e) = inl (omega (arith, e))
shift m n i (inr p) = inr p

-- Whether the last call is a `send` that failed.
abbrev pub send_failed : Log NetCall → Bool
send_failed ((send fd b, r) ∷ log) = is_neg r
send_failed log = false

module _ (env : Env NetCall) where
  send_packet-packets :
      (s : State) (log : Log NetCall)
      → sends log ≡ texts_to s.udp_socket env log
      → let (more, s', log') = send_packet env s log in
        (packets log' ≡ s.packet_count ∷ packets log)
        × (s'.packet_count ≡ (s.packet_count + 1) % 2 ^ 32)
        × (s'.udp_socket ≡ s.udp_socket)
        × (sends log' ≡ texts_to s.udp_socket env log')
        × ((more ≡ true) ⊎ (send_failed log' ≡ true))
  unfolding send_packet
  send_packet-packets s log h = ground (arith, h)

  -- The loop, n packets after it began with the counter at `first`.
  send_loop-packets :
      (i first n : ℕ) (past : List ℕ) (fd : ℤ) (s : State) (log : Log NetCall)
      → s.packet_count ≡ (first + n) % 2 ^ 32
      → packets log ≡ numbered first n ++ past
      → s.udp_socket ≡ fd
      → sends log ≡ texts_to fd env log
      → let (_, s', log') = send_loop i env s log in
        (m : ℕ) × (m ≤ n + i)
        × (s'.packet_count ≡ (first + m) % 2 ^ 32)
        × (packets log' ≡ numbered first m ++ past)
        × (sends log' ≡ texts_to fd env log')
        × ((m ≡ n + i) ⊎ (send_failed log' ≡ true))
  unfolding send_loop
  send_loop-packets zero first n past fd s log c p ef t =
      (n, omega arith, c, p, t, inl (omega arith))
  send_loop-packets (suc i) first n past fd s log c p ef t =
      let (more, s', log') = send_packet env s log in
      let t0 : sends log ≡ texts_to s.udp_socket env log = rw ef t in
      let (new, count, kept, t1, ends) = send_packet-packets s log t0 in
      let ef' : s'.udp_socket ≡ fd = kept ∙ ef in
      let t' : sends log' ≡ texts_to fd env log' = rw (← ef) t1 in
      let c' : s'.packet_count ≡ (first + suc n) % 2 ^ 32 = omega arith in
      let p' : packets log' ≡ numbered first (suc n) ++ past = ground arith in
      elim (Bool-cases more) [
        | inl goes_on ↦
            let (m, le, c'', p'', t'', last) =
              send_loop-packets i first (suc n) past fd s' log' c' p' ef' t' in
            let last' = shift m n i last in rw goes_on (m, omega arith, c'', p'', t'', last')
        | inr stops ↦
            let failed : send_failed log' ≡ true = ground (arith, stops, ends) in
            rw stops (suc n, omega arith, c', p', t', inr failed)
      ]

  -- Started where each text formatted before was sent once on the socket of the sender, and nothing
  -- else, which still holds then, and with a counter of 32 bits: the loop formats at most ten packets, and
  -- fewer only where the last one fails; it numbers them one after the other from the counter on,
  -- modulo 2 ^ 32, leaves the counter behind the last, and sends each text once, in order, on its socket.
  pub send_loop-numbered :
      (s : State) (log : Log NetCall)
      → s.packet_count < 2 ^ 32
      → sends log ≡ texts_to s.udp_socket env log
      → let (_, s', log') = send_loop 10 env s log in
        (m : ℕ) × (m ≤ 10)
        × (s'.packet_count ≡ (s.packet_count + m) % 2 ^ 32)
        × (packets log' ≡ numbered s.packet_count m ++ packets log)
        × (sends log' ≡ texts_to s.udp_socket env log')
        × ((m ≡ 10) ⊎ (send_failed log' ≡ true))
  send_loop-numbered s log h t =
      send_loop-packets 10 s.packet_count 0 (packets log) s.udp_socket s log (omega arith) refl refl
        t
