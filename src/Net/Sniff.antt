-- ===== src/Net/Sniff.antt =====
-- What a log of calls says of the bytes on the wire.
use zephyr_samples.Base.{
  ℕ, suc, List, [], ◌∷◌, ◌++◌, Log, Env, take, to_ℕ, ℤ, if◌then◌else◌, is_positive, is_neg,
}
use zephyr_samples.Net.{
  NetCall, inet_pton, socket, setsockopt, connect, send, recv, snprintf_packet,
}

-- The bytes handed to `send`, in the order of the calls.
abbrev pub sent : Log NetCall → List ℕ
sent [] = []
sent ((send fd b, r) ∷ log) = sent log ++ b
sent (e ∷ log) = sent log

-- The buffers handed to `send`, each with its descriptor, the latest first.
abbrev pub sends : Log NetCall → List (ℤ × List ℕ)
sends [] = []
sends ((send fd b, r) ∷ log) = (fd, b) ∷ sends log
sends (e ∷ log) = sends log

-- The bytes that each `recv` returned, with its descriptor, where there were any; the latest first.
abbrev pub pieces : Env NetCall → Log NetCall → List (ℤ × List ℕ)
pieces env [] = []
pieces env ((recv fd n, r) ∷ log) =
    if is_positive r
    then (fd, take (to_ℕ r) (env.bytes log (recv fd n))) ∷ pieces env log
    else pieces env log
pieces env (e ∷ log) = pieces env log

-- The bytes that `send` accepted: of each buffer as many as its result says.
abbrev pub delivered : Log NetCall → List ℕ
delivered [] = []
delivered ((send fd b, r) ∷ log) = delivered log ++ take (to_ℕ r) b
delivered (e ∷ log) = delivered log

-- The bytes that `recv` put into the program's buffer.
abbrev pub received : Env NetCall → Log NetCall → List ℕ
received env [] = []
received env ((recv fd n, r) ∷ log) = received env log ++ take (to_ℕ r) (env.bytes log (recv fd n))
received env (e ∷ log) = received env log

-- The number of calls of `recv`.
abbrev pub recv_count : Log NetCall → ℕ
recv_count [] = 0
recv_count ((recv fd n, r) ∷ log) = suc (recv_count log)
recv_count (e ∷ log) = recv_count log

-- How the attempts at a connection went, the latest first: each begins with the address, and ends with
-- the first call that fails or with the connection.
pub data Attempt : Type 0 where
  under_way refused made : Attempt

abbrev pub mark : Attempt → List Attempt → List Attempt
mark a [] = []
mark a (b ∷ bs) = a ∷ bs

abbrev pub attempts : Log NetCall → List Attempt
attempts [] = []
attempts ((inet_pton a, r) ∷ log) = (if is_positive r then under_way else refused) ∷ attempts log
attempts ((socket k, r) ∷ log) = if is_neg r then mark refused (attempts log) else attempts log
attempts ((setsockopt fd o, r) ∷ log) =
    if is_neg r then mark refused (attempts log) else attempts log
attempts ((connect fd, r) ∷ log) = mark (if is_neg r then refused else made) (attempts log)
attempts (e ∷ log) = attempts log

-- The packet texts that were formatted, each with a descriptor, the latest first.
abbrev pub texts_to : ℤ → Env NetCall → Log NetCall → List (ℤ × List ℕ)
texts_to fd env [] = []
texts_to fd env ((snprintf_packet n, r) ∷ log) =
    (fd, env.bytes log (snprintf_packet n)) ∷ texts_to fd env log
texts_to fd env (e ∷ log) = texts_to fd env log

-- The packet numbers that were formatted, the latest first.
abbrev pub packets : Log NetCall → List ℕ
packets [] = []
packets ((snprintf_packet n, r) ∷ log) = n ∷ packets log
packets (e ∷ log) = packets log
