-- ===== src/Net/TcpClient/Safety.antt =====
-- The descriptor of the TCP client over a whole run.
use mathlib.Core.List.{append-nil}
use zephyr_samples.Base.{
  ℕ, List, [], if◌then◌else◌, ℤ, true, false, some, ◌≡◌, ◌≤◌, ◌⊎◌, ◌∷◌, ◌++◌, to_ℕ, Log, Env,
  int_eq_refl, is_neg, is_positive, arith,
}
use zephyr_samples.Net.{NetCall, stream, socket, inet_pton, connect, send, recv}
use zephyr_samples.Net.Sniff.{sent}
use zephyr_samples.Net.Protocol.{idle, created, connected, track}
use zephyr_samples.Net.TcpClient.{
  State, server_addr, send_data, receive_response, send_message, connect_server, prepare_address,
  tcp_connect_and_send,
}

module _ (env : Env NetCall) (s : State) (log : Log NetCall) where
  receive_response-track :
      track log ≡ some (connected s.tcp_socket) → track (receive_response env s log).2 ≡ some idle
  unfolding receive_response
  receive_response-track h = ground (arith, int_eq_refl s.tcp_socket)

  send_message-track :
      track log ≡ some (connected s.tcp_socket) → track (send_message env s log).2 ≡ some idle
  unfolding send_message receive_response
  send_message-track h = ground (arith, int_eq_refl s.tcp_socket)

  connect_server-track :
      track log ≡ some (created s.tcp_socket) → track (connect_server env s log).2 ≡ some idle
  unfolding connect_server send_message receive_response
  connect_server-track h = ground (arith, int_eq_refl s.tcp_socket)

  prepare_address-track :
      track log ≡ some (created s.tcp_socket) → track (prepare_address env s log).2 ≡ some idle
  unfolding prepare_address connect_server send_message receive_response
  prepare_address-track h = ground (arith, int_eq_refl s.tcp_socket)

  -- Whatever the calls return, the client uses its socket as it admits: connected before it sends and
  -- receives, closed once and not used after; it holds none in the end.
  pub tcp_connect_and_send-track :
      track log ≡ some idle → track (tcp_connect_and_send env s log).2 ≡ some idle
  unfolding tcp_connect_and_send prepare_address connect_server send_message receive_response
  tcp_connect_and_send-track h = ground (arith, int_eq_refl (env.result log (socket stream)))

  -- When it is done the static descriptor is negative, but where the server's address is refused: it
  -- then still names the socket that was closed.
  pub tcp_connect_and_send-socket :
      let fd = env.result log (socket stream) in
      let s' = (tcp_connect_and_send env s log).1 in
      (is_neg s'.tcp_socket ≡ true)
      ⊎ ((is_positive (env.result ((socket stream, fd) ∷ log) (inet_pton server_addr)) ≡ false)
          × (s'.tcp_socket ≡ fd))
  unfolding tcp_connect_and_send prepare_address connect_server send_message receive_response
  tcp_connect_and_send-socket = ground arith

-- What the client sends, by the results of the calls: the message, where there is a socket, the address
-- of the server is accepted and the connection is made.
abbrev pub connected_message : Env NetCall → ℤ → Log NetCall → List ℕ
connected_message env fd log = if is_neg (env.result log (connect fd)) then [] else send_data

abbrev pub addressed_message : Env NetCall → ℤ → Log NetCall → List ℕ
addressed_message env fd log =
    let p = inet_pton server_addr in
    if is_positive (env.result log p)
    then connected_message env fd ((p, env.result log p) ∷ log)
    else []

abbrev pub message : Env NetCall → Log NetCall → List ℕ
message env log =
    let fd = env.result log (socket stream) in
    if is_neg fd then [] else addressed_message env fd ((socket stream, fd) ∷ log)

module _ (env : Env NetCall)
    (fits : (l : Log NetCall) (fd : ℤ) → to_ℕ (env.result l (recv fd 1023)) ≤ 1023) where
  receive_response-sent :
      (s : State) (log : Log NetCall)
      → let (_, s', log') = receive_response env s log in
        (sent log' ≡ sent log) × (s'.overrun ≡ s.overrun)
  unfolding receive_response
  receive_response-sent s log = ground (arith, fits log s.tcp_socket)

  send_message-sent :
      (s : State) (log : Log NetCall)
      → let (_, s', log') = send_message env s log in
        (sent log' ≡ sent log ++ send_data) × (s'.overrun ≡ s.overrun)
  unfolding send_message
  send_message-sent s log =
      let c = send s.tcp_socket send_data in
      ground (arith, receive_response-sent s ((c, env.result log c) ∷ log))

  connect_server-sent :
      (s : State) (log : Log NetCall)
      → let (_, s', log') = connect_server env s log in
        (sent log' ≡ sent log ++ connected_message env s.tcp_socket log) × (s'.overrun ≡ s.overrun)
  unfolding connect_server
  connect_server-sent s log =
      let c = connect s.tcp_socket in
      ground (arith, append-nil (sent log), send_message-sent s ((c, env.result log c) ∷ log))

  prepare_address-sent :
      (s : State) (log : Log NetCall)
      → let (_, s', log') = prepare_address env s log in
        (sent log' ≡ sent log ++ addressed_message env s.tcp_socket log) × (s'.overrun ≡ s.overrun)
  unfolding prepare_address
  prepare_address-sent s log =
      let c = inet_pton server_addr in
      ground (arith, append-nil (sent log), connect_server-sent s ((c, env.result log c) ∷ log))

  -- The client hands the message to `send` once, whole, where it is connected, and nothing otherwise; and
  -- where `recv` keeps to the room
  -- that it is given, no NUL is written outside the receive buffer.
  pub tcp_connect_and_send-sent :
      (s : State) (log : Log NetCall)
      → let (_, s', log') = tcp_connect_and_send env s log in
        (sent log' ≡ sent log ++ message env log) × (s'.overrun ≡ s.overrun)
  unfolding tcp_connect_and_send
  tcp_connect_and_send-sent s log =
      let fd = env.result log (socket stream) in
      ground (
        arith,
        append-nil (sent log),
        prepare_address-sent (record s { tcp_socket = fd }) ((socket stream, fd) ∷ log),
      )

  -- Started with no socket, where `recv` keeps to the room that it is given, and whatever the calls
  -- return: the client uses its
  -- socket as it admits, and holds none in the end; it hands the message to `send` once, whole, exactly
  -- where there is a socket, the server's address is accepted and the connection is made, and nothing
  -- else; it writes no NUL outside the receive buffer; and the static descriptor is then negative, but where
  -- the server's address is refused: it then still names the socket that was closed.
  pub tcp_connect_and_send_lem :
      (s : State) (log : Log NetCall)
      → track log ≡ some idle
      → let (_, s', log') = tcp_connect_and_send env s log in
        let fd = env.result log (socket stream) in
        (track log' ≡ some idle)
        × (sent log' ≡ sent log ++ message env log)
        × (s'.overrun ≡ s.overrun)
        × ((is_neg s'.tcp_socket ≡ true)
            ⊎ ((is_positive (env.result ((socket stream, fd) ∷ log) (inet_pton server_addr))
                  ≡ false)
                × (s'.tcp_socket ≡ fd)))
  tcp_connect_and_send_lem s log h =
      let (once, kept) = tcp_connect_and_send-sent s log in
      (tcp_connect_and_send-track env s log h, once, kept, tcp_connect_and_send-socket env s log)
