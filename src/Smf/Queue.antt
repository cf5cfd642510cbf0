-- ===== src/Smf/Queue.antt =====
-- middleware/SMF/_06_event_machine_with_mqueue/src/main.c
-- The timer's callback and the loop of `main` by schedule; the callback runs whole.
pub mod Parity
use zephyr_samples.Base.{
  to_word, behind, has_message, ℕ, ◌+◌, ◌-◌, ◌*◌, ◌%◌, ◌≡◌, Bool, true, false, List, [], ◌∷◌, ◌++◌,
  Log, Env, if◌then◌else◌, ◌==◌, is_zero, Io, pure, ◌>>=◌, ◌>>◌, call, call_bytes, get,
}
use zephyr_samples.Smf.{MyStates, state1, state2, Smf}

pub data QueueCall : Type 0 where
  k_msgq_init k_timer_start k_timer_user_data_set : QueueCall
  k_msgq_put : ℕ → QueueCall
  k_msgq_get : QueueCall

-- `struct state_machine`, and `dummy_msg` of the callback.
pub record StateMachine (Ctx : Type 0) : Type 0 where
  pub ctx : Ctx
  pub word : ℕ
  pub dummy_msg : ℕ

-- The messages in the queue, the oldest first: a `k_msgq_put` that fails leaves it as it is.
pub queued : Log QueueCall → List ℕ
queued [] = []
queued ((k_msgq_put m, r) ∷ log) = if is_zero r then queued log ++ m ∷ [] else queued log
queued ((k_msgq_get, r) ∷ log) = behind (queued log)
queued ((c, r) ∷ log) = queued log

pub data Turn : Type 0 where
  thread timer : Turn

module _ {Ctx : Type 0} (smf : Smf Ctx) where
  abbrev pub App : Type 0 → Type 0
  App A = Io (StateMachine Ctx) QueueCall A

  abbrev pub set_state : MyStates → StateMachine Ctx → StateMachine Ctx
  set_state m obj = record obj { ctx = smf.set_state m obj.ctx }

  pub state1_run : StateMachine Ctx → StateMachine Ctx
  state1_run obj = if obj.word == 1 then set_state state2 obj else obj

  pub state2_run : StateMachine Ctx → StateMachine Ctx
  state2_run obj = if obj.word == 1 then set_state state1 obj else obj

  pub state_table : MyStates → StateMachine Ctx → StateMachine Ctx
  state_table state1 = state1_run
  state_table state2 = state2_run

  abbrev pub store_word : ℕ → App (Unit {0})
  store_word w env s log = (tt, record s { word = w }, log)

  abbrev pub run_state : App (Unit {0})
  run_state env s log = (tt, smf.run_state (λ o. o.ctx) state_table s, log)

  -- One round of the loop of `main`.
  pub main_round : App (Unit {0})
  main_round = do p ← call_bytes k_msgq_get; store_word (to_word p.1); run_state

  -- `dummy_msg ^= 1`
  abbrev pub switch_msg : App (Unit {0})
  switch_msg env s log =
      let m = s.dummy_msg in (tt, record s { dummy_msg = if m % 2 == 0 then m + 1 else m - 1 }, log)

  pub expiry_callback : App (Unit {0})
  expiry_callback = do s ← get; _ ← call (k_msgq_put s.dummy_msg); switch_msg

  abbrev pub set_initial : App (Unit {0})
  set_initial env s log = (tt, record s { ctx = smf.set_initial state1 s.ctx; dummy_msg = 0 }, log)

  -- `main` before its loop.
  pub start : App (Unit {0})
  start = do
    _ ← call k_msgq_init
    _ ← call k_timer_start
    _ ← call k_timer_user_data_set
    set_initial

  -- `k_msgq_get` waits for a message.
  pub step : Turn → App (Unit {0})
  step thread env s log = if has_message (queued log) then main_round env s log else (tt, s, log)
  step timer env s log = expiry_callback env s log

  pub run : List Turn → App (Unit {0})
  run [] = pure tt
  run (t ∷ ts) = step t >> run ts

  pub main : List Turn → App (Unit {0})
  main ts = start >> run ts
