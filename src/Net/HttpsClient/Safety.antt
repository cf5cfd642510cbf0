-- ===== src/Net/HttpsClient/Safety.antt =====
-- The HTTPS client: one secured connection for each request, closed whatever the request returns.
use zephyr_samples.Base.{
  ℤ, Bool, true, false, some, ◌≡◌, ◌⊎◌, List, [], ◌∷◌, ◌++◌, ◌&&◌, not, if◌then◌else◌, int_eq,
  is_neg, Log, Env, int_eq_refl, arith,
}
use zephyr_samples.Net.{
  NetCall, Method, http_get, http_post, http_client_req, tls, socket, setsockopt, sec_tag_list,
  tls_hostname, inet_pton, connect,
}
use zephyr_samples.Net.Sniff.{refused, made, attempts}
use zephyr_samples.Net.Protocol.{idle, connected, track}
use zephyr_samples.Net.HttpsClient.{
  State, server_ip, create_tls_socket, setup_tls_socket, set_security_tag, set_hostname,
  close_failed, give_up, connect_sock, connect_tls_socket,
}

-- The requests made, in order, and whether each was made on a secured socket: its last five calls
-- before the request made a TLS socket, set its CA tag and its host name, and connected it.
abbrev pub secured : ℤ → Log NetCall → Bool
secured fd
      ((connect a, r)
        ∷ (setsockopt b tls_hostname, q)
        ∷ (setsockopt c sec_tag_list, p)
        ∷ (socket tls, d)
        ∷ log) =
    int_eq fd a
    && (int_eq fd b
        && (int_eq fd c && (int_eq fd d && (not (is_neg r) && (not (is_neg q) && not (is_neg p))))))
secured fd log = false

abbrev pub requests : Log NetCall → List (Method × Bool)
requests [] = []
requests ((http_client_req fd m b, r) ∷ log) = requests log ++ (m, secured fd log) ∷ []
requests (e ∷ log) = requests log

-- One attempt that failed and no request; the GET request, and an attempt that failed after it; or the
-- GET and then the POST request, each on a connection of its own.
abbrev pub Requested : Log NetCall → Type 0
Requested log =
    ((requests log ≡ []) × (attempts log ≡ refused ∷ []))
    ⊎ ((requests log ≡ (http_get, true) ∷ []) × (attempts log ≡ refused ∷ made ∷ []))
    ⊎ ((requests log ≡ (http_get, true) ∷ (http_post, true) ∷ [])
        × (attempts log ≡ made ∷ made ∷ []))

module _ (env : Env NetCall) where
  -- A secured connection is there where the function succeeds, and no socket where it fails; it
  -- makes no request.
  pub connect_tls_socket-track :
      (s : State) (log : Log NetCall)
      → track log ≡ some idle
      → let (ret, s', log') = connect_tls_socket env s log in
        (track log' ≡ some (if is_neg ret then idle else connected s'.sock))
        × (requests log' ≡ requests log)
        × ((is_neg ret ≡ true) ⊎ (secured s'.sock log' ≡ true))
        × (attempts log' ≡ (if is_neg ret then refused else made) ∷ attempts log)
  unfolding connect_tls_socket setup_tls_socket create_tls_socket set_security_tag set_hostname
      close_failed connect_sock give_up
  connect_tls_socket-track s log h =
      let pton = inet_pton server_ip in
      let log₁ : Log NetCall = (pton, env.result log pton) ∷ log in
      ground (arith, int_eq_refl (env.result log₁ (socket tls)))
