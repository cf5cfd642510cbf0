-- ===== src/Net/Address/Connection/Changes.antt =====
-- What the loop of _01_basic_connection reports of the states that it polls.
use mathlib.Core.List.{append-nil}
use zephyr_samples.Base.{
  ℕ, zero, suc, ◌≡◌, refl, sym, ◌∙◌, ap, Bool, true, false, not, List, [], ◌∷◌, ◌++◌, Log, Env,
  if◌then◌else◌, is_zero,
}
use zephyr_samples.Net.Address.{IfaceCall, net_if_is_up, print_link_up, print_link_down}
use zephyr_samples.Net.Address.Connection.{show_link, differ, report_change, poll_round, poll_link}

-- The states polled, and those reported, in order.
abbrev pub polled : Log IfaceCall → List Bool
polled [] = []
polled ((net_if_is_up, r) ∷ log) = polled log ++ not (is_zero r) ∷ []
polled ((c, r) ∷ log) = polled log

abbrev pub reported : Log IfaceCall → List Bool
reported [] = []
reported ((print_link_up, r) ∷ log) = reported log ++ true ∷ []
reported ((print_link_down, r) ∷ log) = reported log ++ false ∷ []
reported ((c, r) ∷ log) = reported log

-- The changes in a list of states, after a first one, and the last state.
abbrev pub changes : Bool → List Bool → List Bool
changes last [] = []
changes last (up ∷ ups) = if differ up last then up ∷ changes up ups else changes last ups

abbrev pub last_state : Bool → List Bool → Bool
last_state last [] = last
last_state last (up ∷ ups) = last_state up ups

changes-append :
    (last : Bool) (ups : List Bool) (up : Bool)
    → changes last (ups ++ up ∷ [])
      ≡ changes last ups ++ (if differ up (last_state last ups) then up ∷ [] else [])
unfolding differ
changes-append true [] true = refl
changes-append true [] false = refl
changes-append false [] true = refl
changes-append false [] false = refl
changes-append true (true ∷ ups) up = changes-append true ups up
changes-append true (false ∷ ups) up = ap (λ xs. false ∷ xs) (changes-append false ups up)
changes-append false (true ∷ ups) up = ap (λ xs. true ∷ xs) (changes-append true ups up)
changes-append false (false ∷ ups) up = changes-append false ups up

last_state-append :
    (last : Bool) (ups : List Bool) (up : Bool) → last_state last (ups ++ up ∷ []) ≡ up
last_state-append last [] up = refl
last_state-append last (k ∷ ks) up = last_state-append k ks up

abbrev Reports : Bool → Log IfaceCall → Type 0
Reports s log = (reported log ≡ changes false (polled log)) × (s ≡ last_state false (polled log))

module _ (env : Env IfaceCall) where
  report_change-Reports :
      (up s : Bool) (log : Log IfaceCall)
      → let (_, s', log') = report_change up env s log in
        (reported log' ≡ reported log ++ (if differ up s then up ∷ [] else []))
        × (polled log' ≡ polled log)
        × (s' ≡ up)
  unfolding report_change show_link differ
  report_change-Reports true true log = (sym (append-nil (reported log)), refl, refl)
  report_change-Reports true false log = (refl, refl, refl)
  report_change-Reports false true log = (refl, refl, refl)
  report_change-Reports false false log = (sym (append-nil (reported log)), refl, refl)

  poll_round-Reports :
      (s : Bool) (log : Log IfaceCall)
      → Reports s log
      → let (_, s', log') = poll_round env s log in Reports s' log'
  unfolding poll_round
  poll_round-Reports s log (e, es) =
      let r = env.result log net_if_is_up in
      let up : Bool = not (is_zero r) in
      let (er, ep, eu) = report_change-Reports up s ((net_if_is_up, r) ∷ log) in
      let (u, s', log') = report_change up env s ((net_if_is_up, r) ∷ log) in
      let reports : Bool → List Bool =
        λ k. changes false (polled log) ++ (if differ up k then up ∷ [] else []) in
      (
        er
            ∙ ap (λ l. l ++ (if differ up s then up ∷ [] else [])) e
            ∙ ap reports es
            ∙ sym (changes-append false (polled log) up)
            ∙ sym (ap (changes false) ep),
        eu ∙ sym (last_state-append false (polled log) up) ∙ sym (ap (last_state false) ep),
      )

  poll_link-Reports :
      (n : ℕ) (s : Bool) (log : Log IfaceCall)
      → Reports s log
      → let (_, s', log') = poll_link n env s log in Reports s' log'
  unfolding poll_link
  poll_link-Reports zero s log h = h
  poll_link-Reports (suc n) s log h =
      let (u, s', log') = poll_round env s log in
      poll_link-Reports n s' log' (poll_round-Reports s log h)

  -- The loop reports exactly the changes of the states that it polls, each once and in order, from a link
  -- that is down on.
  pub poll_link-changes :
      (n : ℕ) → let log = (poll_link n env false []).2 in reported log ≡ changes false (polled log)
  poll_link-changes n = (poll_link-Reports n false [] (refl, refl)).0
