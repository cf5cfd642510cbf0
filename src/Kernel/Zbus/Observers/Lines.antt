-- ===== src/Kernel/Zbus/Observers/Lines.antt =====
-- The lines of the listener of _02_listener_observer, and of the subscriber of _04_subscriber_observer.
use mathlib.Core.List.{append_assoc, append-nil}
use zephyr_samples.Base.{
  ℕ, zero, suc, ◌+◌, ◌%◌, ◌^◌, ◌≡◌, refl, sym, ◌∙◌, List, [], ◌∷◌, ◌++◌, Log, Env, if◌then◌else◌,
  Bool-cases, inl, inr,
}
use zephyr_samples.Kernel.Zbus.{
  channel_1, same, ZbusCall, zbus_chan_pub, zbus_chan_read, zbus_chan_const_msg, print_msg1, latest,
  byte0, byte1, is_taken,
}
use zephyr_samples.Kernel.Zbus.Observers.{
  publish, main_round, main, listener_callback, subscriber_round, subscriber_task,
}

-- The lines printed: major and minor.
abbrev pub lines : Log ZbusCall → List (ℕ × ℕ)
lines [] = []
lines ((print_msg1 a b, r) ∷ log) = lines log ++ (a, b) ∷ []
lines ((e, r) ∷ log) = lines log

-- The messages that the channel took, in order.
abbrev pub taken : Log ZbusCall → List (ℕ × ℕ)
taken [] = []
taken ((zbus_chan_pub c m, r) ∷ log) =
    if is_taken r then taken log ++ (byte0 m, byte1 m) ∷ [] else taken log
taken ((e, r) ∷ log) = taken log

-- A read gives the message of the channel.
unfoldable pub Reads : Env ZbusCall → Type 0
Reads env =
    (log : Log ZbusCall)
    → (env.bytes log (zbus_chan_const_msg channel_1) ≡ latest channel_1 log)
      × (env.bytes log (zbus_chan_read channel_1) ≡ latest channel_1 log)

module _ (env : Env ZbusCall) (reads : Reads env) where
  publish-lines :
      (s : ℕ) (log : Log ZbusCall)
      → lines log ≡ taken log
      → let log' = (publish listener_callback env s log).2 in lines log' ≡ taken log'
  unfolding publish listener_callback Reads latest same
  publish-lines s log h =
      let m : List ℕ = 1 ∷ (s + 1) % 2 ^ 8 ∷ [] in
      let r = env.result log (zbus_chan_pub channel_1 m) in
      let log1 : Log ZbusCall = (zbus_chan_pub channel_1 m, r) ∷ log in
      let read = (reads log1).0 in
      elim (Bool-cases (is_taken r)) [ inl e ↦ rw e (rw (read, e, h) refl) | inr e ↦ rw (e, e) h ]

  main-lines-taken :
      (n s : ℕ) (log : Log ZbusCall)
      → lines log ≡ taken log
      → let log' = (main n listener_callback env s log).2 in lines log' ≡ taken log'
  unfolding main main_round
  main-lines-taken zero s log h = h
  main-lines-taken (suc n) s log h =
      let (u, s', log') = main_round listener_callback env s log in
      main-lines-taken n s' log' (publish-lines s log h)

  -- The listener prints each message that the channel takes, once and in order.
  pub main-listener_lines :
      (n s : ℕ) → let log = (main n listener_callback env s []).2 in lines log ≡ taken log
  main-listener_lines n s = main-lines-taken n s [] refl

-- One message for each of a number of lines.
abbrev pub repeated : ℕ → ℕ × ℕ → List (ℕ × ℕ)
repeated zero l = []
repeated (suc n) l = l ∷ repeated n l

module _ (env : Env ZbusCall) (reads : Reads env) where
  subscriber_round-latest :
      (s : ℕ) (log : Log ZbusCall)
      → let log' = (subscriber_round env s log).2 in
        let m = latest channel_1 log in
        (lines log' ≡ lines log ++ (byte0 m, byte1 m) ∷ []) × (latest channel_1 log' ≡ m)
  unfolding subscriber_round Reads latest
  subscriber_round-latest s log = rw ((reads log).1) (refl, refl)

  -- The subscriber of _04 does not wait: with nothing published it prints the same message each round.
  pub subscriber_task-repeated :
      (n s : ℕ) (log : Log ZbusCall)
      → let m = latest channel_1 log in
        lines (subscriber_task n env s log).2 ≡ lines log ++ repeated n (byte0 m, byte1 m)
  unfolding subscriber_task
  subscriber_task-repeated zero s log = sym (append-nil (lines log))
  subscriber_task-repeated (suc n) s log =
      let (u, s', log') = subscriber_round env s log in
      let m = latest channel_1 log in
      let l : ℕ × ℕ = (byte0 m, byte1 m) in
      let (e, same_message) = subscriber_round-latest s log in
      subscriber_task-repeated n s' log'
      ∙ rw (same_message, e) (append_assoc (lines log) (l ∷ []) (repeated n l))
