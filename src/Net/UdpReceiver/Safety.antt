-- ===== src/Net/UdpReceiver/Safety.antt =====
-- The UDP receiver: its descriptor, its buffer, and what it prints.
use zephyr_samples.Base.{
  ℕ, zero, suc, ◌≤◌, ℤ, false, some, ◌≡◌, ◌⊎◌, List, [], ◌∷◌, ◌++◌, inl, inr, Bool-cases,
  if◌then◌else◌, is_positive, to_ℕ, take, Log, Env, int_eq_refl, arith,
}
use zephyr_samples.Net.{NetCall, dgram, socket, bind, recvfrom}
use zephyr_samples.Net.Protocol.{idle, created, bound, track}
use zephyr_samples.Net.UdpReceiver.{
  State, local_port, c_text, show_datagram, receive_round, receive_loop, close_sock,
  receive_and_close, bind_and_receive, udp_receive,
}

-- The datagrams that `recvfrom` returned, the empty ones left out, in their order: of each the number
-- of its bytes, and its text up to its first NUL.
abbrev pub datagrams : Env NetCall → Log NetCall → List (ℕ × List ℕ)
datagrams env [] = []
datagrams env ((recvfrom fd n, r) ∷ log) =
    if is_positive r
    then datagrams env log ++ (to_ℕ r, c_text (take (to_ℕ r) (env.bytes log (recvfrom fd n)))) ∷ []
    else datagrams env log
datagrams env (e ∷ log) = datagrams env log

-- What holds from `bind` to the end of the loop.
record Bound (env : Env NetCall) (fd : ℤ) (s : State) (log : Log NetCall) : Type 0 where
  held : track log ≡ some (bound fd)
  kept : s.sock ≡ fd
  shown : s.printed ≡ datagrams env log
  inside : s.overrun ≡ false

module _ (env : Env NetCall)
    (fits : (l : Log NetCall) (fd : ℤ) → to_ℕ (env.result l (recvfrom fd 255)) ≤ 255) where
  receive_round-Bound :
      (fd : ℤ) (s : State) (log : Log NetCall)
      → Bound env fd s log
      → let (_, s', log') = receive_round env s log in Bound env fd s' log'
  unfolding receive_round show_datagram
  receive_round-Bound fd s log b = ground (arith, int_eq_refl fd, fits log fd)

  receive_loop-Bound :
      (rounds : ℕ) (fd : ℤ) (s : State) (log : Log NetCall)
      → Bound env fd s log
      → let (_, s', log') = receive_loop rounds env s log in Bound env fd s' log'
  unfolding receive_loop
  receive_loop-Bound zero fd s log b = b
  receive_loop-Bound (suc n) fd s log b =
      let (more, s', log') = receive_round env s log in
      let b' = receive_round-Bound fd s log b in
      elim (Bool-cases more) [
        | inl goes_on ↦ rw goes_on (receive_loop-Bound n fd s' log' b')
        | inr stops ↦ rw stops b'
      ]

  -- What holds whenever the receiver is seen: it has printed the datagrams that were not empty, in
  -- order, stayed inside its buffer, and holds its bound socket or none.
  record Served (s : State) (log : Log NetCall) : Type 0 where
    shown : s.printed ≡ datagrams env log
    inside : s.overrun ≡ false
    held : (track log ≡ some idle) ⊎ (track log ≡ some (bound s.sock))

  receive_and_close-Served :
      (rounds : ℕ) (fd : ℤ) (s : State) (log : Log NetCall)
      → Bound env fd s log
      → let (_, s', log') = receive_and_close rounds env s log in Served s' log'
  unfolding receive_and_close close_sock
  receive_and_close-Served rounds fd s log b =
      let (done, s', log') = receive_loop rounds env s log in
      ground (arith, receive_loop-Bound rounds fd s log b, int_eq_refl fd)

  bind_and_receive-Served :
      (rounds : ℕ) (s : State) (log : Log NetCall)
      → track log ≡ some (created s.sock)
      → s.printed ≡ datagrams env log
      → s.overrun ≡ false
      → let (_, s', log') = bind_and_receive rounds env s log in Served s' log'
  unfolding bind_and_receive close_sock
  bind_and_receive-Served rounds s log h p o =
      let c = bind s.sock local_port in
      ground (
        arith,
        int_eq_refl s.sock,
        receive_and_close-Served rounds s.sock s ((c, env.result log c) ∷ log),
      )

  -- Started with no socket, where what it says holds so far, and where `recvfrom` keeps to the room that
  -- it is given: the receiver prints of every datagram
  -- that is not empty, in order, the number of its bytes and its text up to the first NUL, and never writes outside its buffer; it holds no socket, or its bound one.
  pub udp_receive-Served :
      (rounds : ℕ) (s : State) (log : Log NetCall)
      → track log ≡ some idle
      → s.printed ≡ datagrams env log
      → s.overrun ≡ false
      → let (_, s', log') = udp_receive rounds env s log in
        (s'.printed ≡ datagrams env log')
        × (s'.overrun ≡ false)
        × ((track log' ≡ some idle) ⊎ (track log' ≡ some (bound s'.sock)))
  unfolding udp_receive
  udp_receive-Served rounds s log h p o =
      let fd = env.result log (socket dgram) in
      ground
        (arith, bind_and_receive-Served rounds (record s { sock = fd }) ((socket dgram, fd) ∷ log))
