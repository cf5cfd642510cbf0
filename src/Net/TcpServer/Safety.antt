-- ===== src/Net/TcpServer/Safety.antt =====
-- The sockets of the TCP server: after every client it is listening again, with no client left open.
use zephyr_samples.Base.{
  ℕ, zero, suc, ℤ, some, ◌≡◌, ◌⊎◌, inl, inr, ◌∷◌, Log, Env, if◌then◌else◌, Bool-cases, ◌∙◌,
  int_eq_refl, arith, refl,
}
use zephyr_samples.Net.{NetCall, stream, socket, accept}
use zephyr_samples.Net.Protocol.{idle, listening, serving, track}
use zephyr_samples.Net.TcpServer.{
  State, echo_back, echo_round, echo_loop, handle_client, accept_round, accept_loop,
  start_listening, bind_server, open_server, start_tcp_server,
}

module _ (env : Env NetCall) (l c : ℤ) where
  echo_round-track :
      (s : State) (log : Log NetCall)
      → track log ≡ some (serving l c)
      → track (echo_round c env s log).2 ≡ some (serving l c)
  unfolding echo_round echo_back
  echo_round-track s log h = ground (arith, int_eq_refl c)

  echo_round-server_socket :
      (s : State) (log : Log NetCall) → (echo_round c env s log).1.server_socket ≡ s.server_socket
  unfolding echo_round echo_back
  echo_round-server_socket s log = ground arith

  echo_loop-track :
      (rounds : ℕ) (s : State) (log : Log NetCall)
      → track log ≡ some (serving l c)
      → (track (echo_loop rounds c env s log).2 ≡ some (serving l c))
        × ((echo_loop rounds c env s log).1.server_socket ≡ s.server_socket)
  unfolding echo_loop
  echo_loop-track zero s log h = (h, refl)
  echo_loop-track (suc n) s log h =
      let (more, s', log') = echo_round c env s log in
      ground
        (arith, echo_round-track s log h, echo_round-server_socket s log, echo_loop-track n s' log')

-- What the server holds between two rounds of its accept loop: `done` tells whether the client is
-- closed.
module _ (env : Env NetCall) where
  handle_client-track :
      (l c : ℤ) (rounds : ℕ) (s : State) (log : Log NetCall)
      → track log ≡ some (serving l c)
      → let (done, s', log') = handle_client rounds c env s log in
        (track log' ≡ some (if done then listening l else serving l c))
        × (s'.server_socket ≡ s.server_socket)
  unfolding handle_client
  handle_client-track l c rounds s log h =
      ground (arith, echo_loop-track env l c rounds s log h, int_eq_refl c)

  accept_round-track :
      (rounds : ℕ) (s : State) (log : Log NetCall)
      → track log ≡ some (listening s.server_socket)
      → let (done, s', log') = accept_round rounds env s log in
        let c = env.result log (accept s.server_socket) in
        (track log' ≡ some (if done then listening s.server_socket else serving s.server_socket c))
        × (s'.server_socket ≡ s.server_socket)
  unfolding accept_round
  accept_round-track rounds s log h =
      let c = env.result log (accept s.server_socket) in
      ground (
        arith,
        int_eq_refl s.server_socket,
        handle_client-track s.server_socket c rounds s ((accept s.server_socket, c) ∷ log),
      )

  -- However many clients come and however long they talk, the server holds its listening socket,
  -- and at most the one client that is being served.
  accept_loop-track :
      (clients rounds : ℕ) (l : ℤ) (s : State) (log : Log NetCall)
      → s.server_socket ≡ l
      → track log ≡ some (listening l)
      → let log' = (accept_loop clients rounds env s log).2 in
        (track log' ≡ some (listening l)) ⊎ ((c : ℤ) × (track log' ≡ some (serving l c)))
  unfolding accept_loop
  accept_loop-track zero rounds l s log e h = inl h
  accept_loop-track (suc n) rounds l s log e h =
      let (d, s', log') = accept_round rounds env s log in
      let (held, kept) = accept_round-track rounds s log (rw e h) in
      elim (Bool-cases d) [
        | inl done ↦ rw done (accept_loop-track n rounds l s' log' (kept ∙ e) (ground arith))
        | inr stuck ↦ rw stuck (inr (env.result log (accept s.server_socket), ground arith))
      ]

  open_server-track :
      (s : State) (log : Log NetCall)
      → track log ≡ some idle
      → let (ready, s', log') = open_server env s log in
        track log' ≡ some (if ready then listening s'.server_socket else idle)
  unfolding open_server bind_server start_listening
  open_server-track s log h = ground (arith, int_eq_refl (env.result log (socket stream)))

  -- However the calls of the network stack end, the server holds no socket where its set-up failed,
  -- and otherwise its listening socket and at most the client that is being served: every
  -- descriptor is used as it admits, and each earlier client has been closed once.
  pub start_tcp_server-track :
      (clients rounds : ℕ) (s : State) (log : Log NetCall)
      → track log ≡ some idle
      → let (_, s', log') = start_tcp_server clients rounds env s log in
        (track log' ≡ some idle)
        ⊎ ((l : ℤ) × ((track log' ≡ some (listening l))
              ⊎ ((c : ℤ) × (track log' ≡ some (serving l c)))))
  unfolding start_tcp_server
  start_tcp_server-track clients rounds s log h =
      let (r, s', log') = open_server env s log in
      elim (Bool-cases r) [
        | inl ready ↦ rw ready (
            inr (
              s'.server_socket,
              accept_loop-track clients rounds s'.server_socket s' log' refl
                  (ground (arith, open_server-track s log h)),
            ))
        | inr not_ready ↦ rw not_ready (inl (ground (arith, open_server-track s log h)))
      ]
