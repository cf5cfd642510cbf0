-- ===== src/Net/TcpServer/Bounds.antt =====
-- The TCP server's buffer: the terminating NUL stays inside it.
use zephyr_samples.Base.{ℕ, zero, suc, ◌≤◌, ℤ, ◌≡◌, refl, ◌∷◌, to_ℕ, Log, Env, arith}
use zephyr_samples.Net.{NetCall, recv, accept}
use zephyr_samples.Net.TcpServer.{
  State, echo_back, echo_round, echo_loop, handle_client, accept_round, accept_loop,
  start_listening, bind_server, open_server, start_tcp_server,
}

module _ (env : Env NetCall)
    (fits : (l : Log NetCall) (c : ℤ) → to_ℕ (env.result l (recv c 1023)) ≤ 1023) where
  echo_round-overrun :
      (c : ℤ) (s : State) (log : Log NetCall) → (echo_round c env s log).1.overrun ≡ s.overrun
  unfolding echo_round echo_back
  echo_round-overrun c s log = ground (arith, fits log c)

  echo_loop-overrun :
      (rounds : ℕ) (c : ℤ) (s : State) (log : Log NetCall)
      → (echo_loop rounds c env s log).1.overrun ≡ s.overrun
  unfolding echo_loop
  echo_loop-overrun zero c s log = refl
  echo_loop-overrun (suc n) c s log =
      let (more, s', log') = echo_round c env s log in
      ground (arith, echo_round-overrun c s log, echo_loop-overrun n c s' log')

  accept_round-overrun :
      (rounds : ℕ) (s : State) (log : Log NetCall)
      → (accept_round rounds env s log).1.overrun ≡ s.overrun
  unfolding accept_round handle_client
  accept_round-overrun rounds s log =
      let c = env.result log (accept s.server_socket) in
      ground (arith, echo_loop-overrun rounds c s ((accept s.server_socket, c) ∷ log))

  accept_loop-overrun :
      (clients rounds : ℕ) (s : State) (log : Log NetCall)
      → (accept_loop clients rounds env s log).1.overrun ≡ s.overrun
  unfolding accept_loop
  accept_loop-overrun zero rounds s log = refl
  accept_loop-overrun (suc n) rounds s log =
      let (more, s', log') = accept_round rounds env s log in
      ground (arith, accept_round-overrun rounds s log, accept_loop-overrun n rounds s' log')

  open_server-overrun :
      (s : State) (log : Log NetCall) → (open_server env s log).1.overrun ≡ s.overrun
  unfolding open_server bind_server start_listening
  open_server-overrun s log = ground arith

  -- Where `recv` keeps to the room that it is given, no NUL is written outside the receive buffer,
  -- for however many clients and rounds.
  pub start_tcp_server-overrun :
      (clients rounds : ℕ) (s : State) (log : Log NetCall)
      → (start_tcp_server clients rounds env s log).1.overrun ≡ s.overrun
  unfolding start_tcp_server
  start_tcp_server-overrun clients rounds s log =
      let (ready, s', log') = open_server env s log in
      ground (arith, open_server-overrun s log, accept_loop-overrun clients rounds s' log')
