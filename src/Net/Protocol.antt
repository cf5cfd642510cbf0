-- ===== src/Net/Protocol.antt =====
-- How a program may use its sockets, independent of any program: which calls a descriptor admits,
-- and in which order. The samples are checked against it over the log of their calls.
use zephyr_samples.Base.{
  ℤ, Bool, true, false, [], ◌∷◌, Option, none, some, if◌then◌else◌, int_eq, is_neg, Log,
}
use zephyr_samples.Net.{
  NetCall, socket, setsockopt, connect, bind, listen, accept, send, recv, recvfrom, http_client_req,
  close,
}

-- What the program holds open. `serving l c` is a listening socket with an accepted client.
pub data Sock : Type 0 where
  idle : Sock
  created : ℤ → Sock
  connected : ℤ → Sock
  bound : ℤ → Sock
  listening : ℤ → Sock
  serving : ℤ → ℤ → Sock

-- The call names the descriptor that is held.
abbrev pub same : ℤ → ℤ → Sock → Option Sock
same fd fd' s = if int_eq fd fd' then some s else none

abbrev pub uses_socket : NetCall → Bool
uses_socket (socket k) = true
uses_socket (setsockopt fd o) = true
uses_socket (connect fd) = true
uses_socket (bind fd p) = true
uses_socket (listen fd n) = true
uses_socket (accept fd) = true
uses_socket (send fd b) = true
uses_socket (recv fd n) = true
uses_socket (recvfrom fd n) = true
uses_socket (http_client_req fd m b) = true
uses_socket (close fd) = true
uses_socket c = false

-- One call with its result; `none` is a call that the descriptor does not admit.
abbrev pub next : Sock → NetCall → ℤ → Option Sock
next idle (socket k) r = some (if is_neg r then idle else created r)
next (created fd) (setsockopt fd' o) r = same fd fd' (created fd)
next (created fd) (connect fd') r = same fd fd' (if is_neg r then created fd else connected fd)
next (created fd) (bind fd' p) r = same fd fd' (if is_neg r then created fd else bound fd)
next (created fd) (close fd') r = same fd fd' idle
next (connected fd) (send fd' b) r = same fd fd' (connected fd)
next (connected fd) (recv fd' n) r = same fd fd' (connected fd)
next (connected fd) (http_client_req fd' m b) r = same fd fd' (connected fd)
next (connected fd) (close fd') r = same fd fd' idle
next (bound fd) (listen fd' n) r = same fd fd' (if is_neg r then bound fd else listening fd)
next (bound fd) (recvfrom fd' n) r = same fd fd' (bound fd)
next (bound fd) (close fd') r = same fd fd' idle
next (listening fd) (accept fd') r = same fd fd' (if is_neg r then listening fd else serving fd r)
next (listening fd) (close fd') r = same fd fd' idle
next (serving fd c) (send c' b) r = same c c' (serving fd c)
next (serving fd c) (recv c' n) r = same c c' (serving fd c)
next (serving fd c) (close c') r = same c c' (listening fd)
next s c r = if uses_socket c then none else some s

-- What is held after the calls of a log; `none` when one of them was not admitted.
abbrev pub track : Log NetCall → Option Sock
track [] = some idle
track ((c, r) ∷ log) = elim (track log) [ none ↦ none | some s ↦ next s c r ]
