-- ===== src/Smf/Event.antt =====
-- middleware/SMF/_01_simple_state_machine/src/main.c and _05_simple_event_machine/src/main.c: the
-- machine of _01 runs in each round of its loop, that of _05 where an event is set. The timer's
-- callback and the thread of _05 by schedule; `k_event_wait` clears the events, then waits for one.
pub mod Runs
mod Tests
use zephyr_samples.Base.{
  ℕ, zero, suc, Bool, true, false, List, [], ◌∷◌, Log, Env, if◌then◌else◌, Io, pure, ◌>>=◌, ◌>>◌,
  call,
}
use zephyr_samples.Smf.{MyStates, state1, state2, Smf}

pub data EventCall : Type 0 where
  k_event_init k_timer_start k_timer_user_data_set : EventCall
  k_event_set : EventCall
  -- `k_event_wait` up to its wait, and its return
  k_event_wait_reset k_event_wait_return : EventCall

-- Whether the event is set.
unfoldable pub pending : Log EventCall → Bool
pending [] = false
pending ((k_event_set, r) ∷ log) = true
pending ((k_event_init, r) ∷ log) = false
pending ((k_event_wait_reset, r) ∷ log) = false
pending ((c, r) ∷ log) = pending log

pub data Point : Type 0 where
  resetting waiting : Point

-- The context, and the statement that the thread runs next.
pub record Machine (Ctx : Type 0) : Type 0 where
  pub ctx : Ctx
  pub point : Point

pub data Turn : Type 0 where
  thread timer : Turn

module _ {Ctx : Type 0} (smf : Smf Ctx) where
  -- `state1_run` and `state2_run`, which _01 and _05 share
  pub state1_run : Ctx → Ctx
  state1_run c = smf.set_state state2 c

  pub state2_run : Ctx → Ctx
  state2_run c = smf.set_state state1 c

  pub state_table : MyStates → Ctx → Ctx
  state_table state1 = state1_run
  state_table state2 = state2_run

  pub run_state : Ctx → Ctx
  run_state c = smf.run_state (λ o. o) state_table c

  -- The rounds of the loop of `main` of _01.
  pub simple_rounds : ℕ → Ctx → Ctx
  simple_rounds zero c = c
  simple_rounds (suc n) c = run_state (simple_rounds n c)

  pub simple_main : ℕ → Ctx → Ctx
  simple_main n c = simple_rounds n (smf.set_initial state1 c)

  abbrev pub App : Type 0 → Type 0
  App A = Io (Machine Ctx) EventCall A

  abbrev pub set_point : Point → App (Unit {0})
  set_point p env s log = (tt, record s { point = p }, log)

  abbrev pub update_ctx : (Ctx → Ctx) → App (Unit {0})
  update_ctx f env s log = (tt, record s { ctx = f s.ctx }, log)

  pub expiry_callback : App (Unit {0})
  expiry_callback = call k_event_set >> pure tt

  -- What the thread does in `k_event_wait` and after it.
  pub wait_reset : App (Unit {0})
  wait_reset = call k_event_wait_reset >> set_point waiting

  pub wait_return : App (Unit {0})
  wait_return = call k_event_wait_return >> update_ctx run_state >> set_point resetting

  pub thread_step : Point → App (Unit {0})
  thread_step resetting env s log = wait_reset env s log
  thread_step waiting env s log = if pending log then wait_return env s log else (tt, s, log)

  pub step : Turn → App (Unit {0})
  step thread env s log = thread_step s.point env s log
  step timer env s log = expiry_callback env s log

  pub run : List Turn → App (Unit {0})
  run [] = pure tt
  run (t ∷ ts) = step t >> run ts

  -- `main` before its loop.
  pub start : App (Unit {0})
  start =
      call k_event_init
      >> call k_timer_start
      >> call k_timer_user_data_set
      >> update_ctx (smf.set_initial state1)
      >> set_point resetting

  pub main : List Turn → App (Unit {0})
  main ts = start >> run ts
