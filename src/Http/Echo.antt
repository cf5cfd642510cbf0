-- ===== src/Http/Echo.antt =====
-- The echo resource over the pieces of a request.
use zephyr_samples.Base.{
  ℕ, ◌≡◌, refl, Bool, true, false, List, [], ◌∷◌, ◌++◌, Log, Env, if◌then◌else◌,
}
use mathlib.Core.List.{append_assoc}
use zephyr_samples.Http.{
  HttpCall, Status, aborted, more, final, Response, Rc, set_echo, is_final, echo_handler,
}

abbrev pub no_response : Response
no_response = record { body = []; final_chunk = false; overrun = false }

-- The server's side of a request, as Zephyr documents it: the handler is called for each piece with an empty response, whose
-- body is sent; after a final piece of the response the request is over. The bytes sent, and whether
-- the response was ended.
pub respond :
    (Status → List ℕ → Env HttpCall → Response → Log HttpCall → Rc × Response × Log HttpCall)
    → Env HttpCall
    → List (Status × List ℕ)
    → Log HttpCall
    → List ℕ × Bool × Log HttpCall
respond handler env [] log = ([], false, log)
respond handler env ((status, bytes) ∷ rest) log =
    let (rc, s, log') = handler status bytes env no_response log in
    let (sent, ended, log'') = respond handler env rest log' in
    if s.final_chunk then (s.body, true, log') else (s.body ++ sent, ended, log'')

-- The pieces of a request in the order in which a client sends them: the last one is final, or the
-- client goes away.
abbrev pub request : List (List ℕ) → List ℕ → Status → List (Status × List ℕ)
request [] end status = (status, end) ∷ []
request (p ∷ ps) end status = (more, p) ∷ request ps end status

abbrev pub joined : List (List ℕ) → List ℕ
joined [] = []
joined (p ∷ ps) = p ++ joined ps

module _ (env : Env HttpCall) where
  -- A request in any number of pieces is answered with exactly its bytes, and the response ends with
  -- the request; the pieces before an abort are answered too, and that response is never ended.
  pub echo_handler-echo :
      (ps : List (List ℕ)) (end : List ℕ) (log : Log HttpCall)
      → (respond echo_handler env (request ps end final) log ≡ (joined ps ++ end, true, log))
        × (respond echo_handler env (request ps end aborted) log ≡ (joined ps, false, log))
  unfolding respond echo_handler set_echo is_final
  echo_handler-echo [] end log = (refl, refl)
  echo_handler-echo (p ∷ ps) end log =
      let (e, e') = echo_handler-echo ps end log in (rw (e, append_assoc p) refl, rw e' refl)
