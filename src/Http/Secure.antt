-- ===== src/Http/Secure.antt =====
-- networking/ETHERNET/_12_https_server_basic/src/main.c: the credentials, and the resources of
-- _11_http_server_basic behind TLS. The tags stand in a header that the build provides.
use zephyr_samples.Base.{ℕ, true, false, List, [], ◌∷◌, codes, pure, ◌>>=◌, ◌>>◌, call}
use zephyr_samples.Http
use zephyr_samples.Http.{
  HttpCall, Credential, server_certificate, private_key, psk, psk_id, tls_credential_add,
  http_server_start, Status, App, Rc, Resource, static_file, dynamic,
}

abbrev pub https_server_port : ℕ
https_server_port = 4443

-- The handlers are those of the other sample.
abbrev pub device_info_handler : Status → List ℕ → App Rc
device_info_handler = Http.device_info_handler

abbrev pub echo_handler : Status → List ℕ → App Rc
echo_handler = Http.echo_handler

module _ (http_server_certificate_tag psk_tag : ℕ) where
  pub sec_tag_list_verify_none : List ℕ
  sec_tag_list_verify_none = http_server_certificate_tag ∷ psk_tag ∷ []

  -- An error of a registration is only logged.
  pub setup_tls : App (Unit {0})
  setup_tls = do
    _ ← call (tls_credential_add http_server_certificate_tag server_certificate)
    _ ← call (tls_credential_add http_server_certificate_tag private_key)
    _ ← call (tls_credential_add psk_tag psk)
    _ ← call (tls_credential_add psk_tag psk_id)
    pure tt

  pub main : App ℕ
  main = do setup_tls; _ ← call http_server_start; pure 0

module _ (index_html_gz main_js_gz : List ℕ) where
  pub resources : List (List ℕ × Resource)
  resources =
      (codes "/", static_file index_html_gz)
      ∷ (codes "/main.js", static_file main_js_gz)
      ∷ (codes "/device-info", dynamic false device_info_handler)
      ∷ (codes "/echo", dynamic true echo_handler)
      ∷ []
