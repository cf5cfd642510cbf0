-- ===== src/Net/TcpServer/Echo.antt =====
-- The echo service: what a client gets back, and that the loop ends with the client.
use zephyr_samples.Base.{
  ℕ, zero, suc, ◌+◌, ◌≤◌, ◌<◌, ℤ, true, false, some, ◌≡◌, Log, Env, is_positive, arith,
}
use mathlib.Core.List.{head?, tail}
use native.Mathlib.Decide.{dec_le}
use zephyr_samples.Net.{NetCall, recv, close}
use zephyr_samples.Net.Sniff.{sends, pieces, recv_count}
use zephyr_samples.Net.TcpServer.{State, echo_back, echo_round, echo_loop, handle_client}

module _ (env : Env NetCall) (c : ℤ) where
  echo_round-sent :
      (s : State) (log : Log NetCall)
      → sends log ≡ pieces env log
      → let (_, s', log') = echo_round c env s log in sends log' ≡ pieces env log'
  unfolding echo_round echo_back
  echo_round-sent s log h = ground arith

  echo_loop-sent :
      (rounds : ℕ) (s : State) (log : Log NetCall)
      → sends log ≡ pieces env log
      → let (_, s', log') = echo_loop rounds c env s log in sends log' ≡ pieces env log'
  unfolding echo_loop
  echo_loop-sent zero s log h = h
  echo_loop-sent (suc n) s log h =
      let (more, s', log') = echo_round c env s log in
      ground (arith, echo_round-sent s log h, echo_loop-sent n s' log')

  -- Where it holds of the calls before, and whatever the results of the calls: each piece that the
  -- server receives is handed to `send` once, in order, to the client that it came from, and nothing
  -- else is.
  pub handle_client-sent :
      (rounds : ℕ) (s : State) (log : Log NetCall)
      → sends log ≡ pieces env log
      → let (_, s', log') = handle_client rounds c env s log in sends log' ≡ pieces env log'
  unfolding handle_client
  handle_client-sent rounds s log h =
      let (done, s', log') = echo_loop rounds c env s log in
      ground (arith, echo_loop-sent rounds s log h)

  echo_round-recv_count :
      (s : State) (log : Log NetCall)
      → let (more, s', log') = echo_round c env s log in
        (recv_count log' ≡ recv_count log + 1)
        × (more ≡ true → is_positive (env.result log (recv c 1023)) ≡ true)
  unfolding echo_round echo_back
  echo_round-recv_count s log = ground arith

  -- A client whose `recv` returns no bytes by its k-th call, counted over the log, is left by the
  -- echo loop: rounds that reach past k are enough.
  echo_loop-ends :
      (k rounds : ℕ) (s : State) (log : Log NetCall)
      → ((l : Log NetCall) → k ≤ recv_count l → is_positive (env.result l (recv c 1023)) ≡ false)
      → recv_count log ≤ k
      → k < recv_count log + rounds
      → (echo_loop rounds c env s log).0 ≡ true
  unfolding echo_loop
  echo_loop-ends k zero s log ends le h = absurd (omega arith)
  echo_loop-ends k (suc n) s log ends le h =
      let (more, s', log') = echo_round c env s log in
      elim (dec_le k (recv_count log)) [
        | yes p ↦ ground (arith, echo_round-recv_count s log, ends log p)
        | no p ↦ ground (
          arith,
          echo_round-recv_count s log,
          echo_loop-ends k n s' log' ends (omega (arith, echo_round-recv_count s log))
              (omega (arith, echo_round-recv_count s log)),
        )
      ]

  -- A client whose `recv` returns no bytes after at most k calls is served to the end: with k + 1
  -- rounds the function returns, and its last call closes the client.
  pub handle_client-ends :
      (k : ℕ) (s : State) (log : Log NetCall)
      → ((l : Log NetCall)
          → k + recv_count log ≤ recv_count l
          → is_positive (env.result l (recv c 1023)) ≡ false)
      → let (done, _, log') = handle_client (k + 1) c env s log in
        (done ≡ true) × (head? log' ≡ some (close c, env.result (tail log') (close c)))
  unfolding handle_client
  handle_client-ends k s log ends =
      ground
        (arith, echo_loop-ends (k + recv_count log) (k + 1) s log ends (omega arith) (omega arith))
