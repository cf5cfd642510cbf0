-- ===== src/Net/HttpClient/Tests.antt =====
-- A run of the program on a network where every call succeeds.
use zephyr_samples.Base.{int_eq, true, ℤ, pos, negsuc, ◌≡◌, refl, [], ◌∷◌, some, Env}
use zephyr_samples.Net.{NetCall, http_get, http_post, socket, inet_pton, net_if_get_default}
use zephyr_samples.Net.Protocol.{idle, track}
use zephyr_samples.Net.HttpClient.{
  get_request, connect_socket, setup_socket, create_socket, connect_sock, send_get, post_request,
  send_post, wait_for_network, join_network, assign_static_ip, State, main,
}
use zephyr_samples.Net.HttpClient.Safety.{Requested, requests, main-requests}

abbrev reply : NetCall → ℤ
reply (socket k) = pos 3
reply (inet_pton a) = pos 1
reply net_if_get_default = pos 1
reply c = pos 0

abbrev lab : Env NetCall
lab = record { result = λ log c. reply c; bytes = λ log c. [] }

abbrev boot : State
boot = record { sock = negsuc 0 }

both_requests : requests (main lab boot []).2 ≡ (http_get, true) ∷ (http_post, true) ∷ []
unfolding main get_request connect_socket setup_socket create_socket connect_sock send_get
    post_request send_post wait_for_network join_network assign_static_ip int_eq
both_requests = refl

main-requests_example : let log' = (main lab boot []).2 in (track log' ≡ some idle) × Requested log'
main-requests_example = main-requests lab boot
