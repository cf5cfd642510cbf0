-- ===== src/Net/HttpClient/Safety.antt =====
-- The HTTP client: one connection for each request, closed whatever the request returns.
use zephyr_samples.Base.{
  negsuc, some, ℤ, Bool, true, false, int_eq, ◌&&◌, not, ◌≡◌, ◌⊎◌, refl, List, [], ◌∷◌, ◌++◌,
  if◌then◌else◌, is_neg, Log, Env, int_eq_refl, arith,
}
use zephyr_samples.Net.{
  NetCall, Method, http_get, http_post, http_client_req, stream, socket, inet_pton, connect,
  k_sleep, close,
}
use zephyr_samples.Net.Sniff.{refused, made, attempts}
use zephyr_samples.Net.Protocol.{idle, connected, track}
use zephyr_samples.Net.HttpClient.{
  State, server_ip, create_socket, setup_socket, give_up, connect_sock, connect_socket, send_post,
  post_request, send_get, get_request, assign_static_ip, join_network, wait_for_network, main,
}

-- Whether a socket is connected by the last call.
abbrev pub fresh : ℤ → Log NetCall → Bool
fresh fd ((connect a, r) ∷ log) = int_eq fd a && not (is_neg r)
fresh fd log = false

-- The requests made, in order, and whether the socket of each was connected just before it.
abbrev pub requests : Log NetCall → List (Method × Bool)
requests [] = []
requests ((http_client_req fd m b, r) ∷ log) = requests log ++ (m, fresh fd log) ∷ []
requests (e ∷ log) = requests log

-- One attempt that failed and no request; the GET request, and an attempt that failed after it; or the
-- GET and then the POST request, each on a connection of its own.
abbrev pub Requested : Log NetCall → Type 0
Requested log =
    ((requests log ≡ []) × (attempts log ≡ refused ∷ []))
    ⊎ ((requests log ≡ (http_get, true) ∷ []) × (attempts log ≡ refused ∷ made ∷ []))
    ⊎ ((requests log ≡ (http_get, true) ∷ (http_post, true) ∷ [])
        × (attempts log ≡ made ∷ made ∷ []))

module _ (env : Env NetCall) where
  -- A connection is there where the function succeeds, and no socket where it fails; it makes no
  -- request.
  pub connect_socket-track :
      (s : State) (log : Log NetCall)
      → track log ≡ some idle
      → let (ret, s', log') = connect_socket env s log in
        (track log' ≡ some (if is_neg ret then idle else connected s'.sock))
        × (requests log' ≡ requests log)
        × ((is_neg ret ≡ true) ⊎ (fresh s'.sock log' ≡ true))
        × (attempts log' ≡ (if is_neg ret then refused else made) ∷ attempts log)
  unfolding connect_socket setup_socket create_socket connect_sock give_up
  connect_socket-track s log h =
      let pton = inet_pton server_ip in
      let log₁ : Log NetCall = (pton, env.result log pton) ∷ log in
      ground (arith, int_eq_refl (env.result log₁ (socket stream)))

  post_request-track :
      (s : State) (log : Log NetCall)
      → track log ≡ some idle
      → let (_, s', log') = post_request env s log in
        (track log' ≡ some idle)
        × (((requests log' ≡ requests log) × (attempts log' ≡ refused ∷ attempts log))
            ⊎ ((requests log' ≡ requests log ++ (http_post, true) ∷ [])
                × (attempts log' ≡ made ∷ attempts log)))
  unfolding post_request send_post
  post_request-track s log h =
      let (ret, s', log') = connect_socket env s log in
      ground (arith, connect_socket-track s log h, int_eq_refl s'.sock)

  get_request-track :
      (s : State) (log : Log NetCall)
      → track log ≡ some idle
      → requests log ≡ []
      → attempts log ≡ []
      → let log' = (get_request env s log).2 in (track log' ≡ some idle) × Requested log'
  unfolding get_request send_get
  get_request-track s log h none_yet no_try =
      let (ret, s', log') = connect_socket env s log in
      let get = http_client_req s'.sock http_get [] in
      let log₁ : Log NetCall = (get, env.result log' get) ∷ log' in
      let log₂ : Log NetCall = (close s'.sock, env.result log₁ (close s'.sock)) ∷ log₁ in
      ground (
        arith,
        connect_socket-track s log h,
        int_eq_refl s'.sock,
        post_request-track s' ((k_sleep 500, env.result log₂ (k_sleep 500)) ∷ log₂),
      )

  wait_for_network-track :
      (s : State) (log : Log NetCall)
      → track log ≡ some idle
      → requests log ≡ []
      → attempts log ≡ []
      → let log' = (wait_for_network env s log).2 in
        (track log' ≡ some idle) × (requests log' ≡ []) × (attempts log' ≡ [])
  unfolding wait_for_network join_network assign_static_ip
  wait_for_network-track s log h none_yet no_try = ground arith

  -- The program makes the GET request and then the POST request, each on a socket of its own that was
  -- connected just before it; the first attempt at a connection of which a call fails ends it. It closes
  -- each socket, whatever the request returns, and holds none in the end.
  pub main-requests :
      (s : State) → let log' = (main env s []).2 in (track log' ≡ some idle) × Requested log'
  unfolding main
  main-requests s =
      let (_, s', log') = wait_for_network env s [] in
      let (held, none_yet, no_try) = wait_for_network-track s [] refl refl refl in
      get_request-track (record s' { sock = negsuc 0 }) log' held none_yet no_try
