-- ===== src/Net/HttpClient/Callbacks.antt =====
-- networking/ETHERNET/_09_http_client: `response_cb` of main.c and `l4_event_handler` of
-- net_sample_common.c. A response has its body from `body_frag_start` on.
use mathlib.Core.List.{append_assoc, append-nil}
use zephyr_samples.Base.{
  ℕ, ◌≡◌, refl, sym, ap, ◌∙◌, Bool, ◌&&◌, not, List, [], ◌∷◌, ◌++◌, Log, Env, if◌then◌else◌, ◌==◌,
  ltb, take, Bool-cases, inl, inr, Io, pure, ◌>>=◌, ◌>>◌, call,
}
use zephyr_samples.Net.Address.{IfAddr}

pub data CallbackCall : Type 0 where
  -- the bytes received
  print_partial print_all : ℕ → CallbackCall
  print_status print_fragment : List ℕ → CallbackCall
  print_address print_netmask print_gateway : ℕ → CallbackCall
  -- `network_connected`
  k_sem_give : CallbackCall

abbrev pub App : Type 0 → Type 0
App A = Io (Unit {0}) CallbackCall A

-- `enum http_final_call`
pub data FinalCall : Type 0 where
  http_data_more http_data_final : FinalCall

-- `body_frag_start` is 0 for NULL; `fragment` is what stands there.
pub record HttpResponse : Type 0 where
  pub data_len : ℕ
  pub http_status : List ℕ
  pub body_frag_len : ℕ
  pub body_frag_start : ℕ
  pub fragment : List ℕ

abbrev pub has_fragment : HttpResponse → Bool
has_fragment rsp = ltb 0 rsp.body_frag_len && not (rsp.body_frag_start == 0)

-- The `switch` of the source.
pub show_length : FinalCall → ℕ → App (Unit {0})
show_length http_data_more n = call (print_partial n) >> pure tt
show_length http_data_final n = call (print_all n) >> pure tt

pub show_fragment : HttpResponse → App (Unit {0})
show_fragment rsp =
    if has_fragment rsp
    then call (print_fragment (take rsp.body_frag_len rsp.fragment)) >> pure tt
    else pure tt

-- The source returns 0 on every path.
pub response_cb : HttpResponse → FinalCall → App (Unit {0})
response_cb rsp final_data = do
  show_length final_data rsp.data_len
  _ ← call (print_status rsp.http_status)
  show_fragment rsp

pub data L4Event : Type 0 where
  net_event_l4_connected net_event_l4_disconnected net_event_other : L4Event

-- Shows the first slot of the interface.
pub l4_event_handler : L4Event → IfAddr → ℕ → App (Unit {0})
l4_event_handler net_event_l4_connected slot gw = do
  _ ← call (print_address slot.address)
  _ ← call (print_netmask slot.netmask)
  _ ← call (print_gateway gw)
  _ ← call k_sem_give
  pure tt
l4_event_handler event slot gw = pure tt

-- The calls of `response_cb` for one response of the server.
pub responses : List (HttpResponse × FinalCall) → App (Unit {0})
responses [] = pure tt
responses ((rsp, final_data) ∷ rest) = response_cb rsp final_data >> responses rest

-- The body that a log shows.
unfoldable pub shown : Log CallbackCall → List ℕ
shown [] = []
shown ((print_fragment bytes, r) ∷ log) = shown log ++ bytes
shown ((c, r) ∷ log) = shown log

-- The body that responses carry.
unfoldable pub body : List (HttpResponse × FinalCall) → List ℕ
body [] = []
body ((rsp, final_data) ∷ rest) =
    (if has_fragment rsp then take rsp.body_frag_len rsp.fragment else []) ++ body rest

module _ (env : Env CallbackCall) where
  show_length-shown :
      (final_data : FinalCall) (n : ℕ) (s : Unit {0}) (log : Log CallbackCall)
      → shown (show_length final_data n env s log).2 ≡ shown log
  unfolding show_length shown
  show_length-shown http_data_more n s log = refl
  show_length-shown http_data_final n s log = refl

  show_fragment-shown :
      (rsp : HttpResponse) (s : Unit {0}) (log : Log CallbackCall)
      → shown (show_fragment rsp env s log).2
        ≡ shown log ++ (if has_fragment rsp then take rsp.body_frag_len rsp.fragment else [])
  unfolding show_fragment shown
  show_fragment-shown rsp s log = elim (Bool-cases (has_fragment rsp)) [
    | inl e ↦ rw e refl
    | inr e ↦ rw e (sym (append-nil (shown log)))
  ]

  response_cb-shown :
      (rsp : HttpResponse) (final_data : FinalCall) (s : Unit {0}) (log : Log CallbackCall)
      → shown (response_cb rsp final_data env s log).2
        ≡ shown log ++ (if has_fragment rsp then take rsp.body_frag_len rsp.fragment else [])
  unfolding response_cb shown
  response_cb-shown rsp final_data s log =
      let status : CallbackCall = print_status rsp.http_status in
      let (u, s', log') = show_length final_data rsp.data_len env s log in
      show_fragment-shown rsp s' ((status, env.result log' status) ∷ log')
      ∙ ap (λ xs. xs ++ (if has_fragment rsp then take rsp.body_frag_len rsp.fragment else []))
          (show_length-shown final_data rsp.data_len s log)

  -- The fragments that the responses carry are shown whole and in order.
  pub responses-shown :
      (rs : List (HttpResponse × FinalCall)) (s : Unit {0}) (log : Log CallbackCall)
      → shown (responses rs env s log).2 ≡ shown log ++ body rs
  unfolding responses body
  responses-shown [] s log = sym (append-nil (shown log))
  responses-shown ((rsp, final_data) ∷ rest) s log =
      let (u, s', log') = response_cb rsp final_data env s log in
      responses-shown rest s' log'
      ∙ ap (λ xs. xs ++ body rest) (response_cb-shown rsp final_data s log)
      ∙ append_assoc (shown log)
          (if has_fragment rsp then take rsp.body_frag_len rsp.fragment else []) (body rest)
