-- ===== src/Runtime/Steps.antt =====
-- Histories of calls of the runtime's methods.
use ruflo_rust.Prelude.{◌≡◌, List, [], ◌∷◌, Result, ok, err, arith}
use ruflo_rust.Types.{RufloError}
use ruflo_rust.Runtime.{
  RuntimeState, AgentId, TaskId, NewAgent, NewTask, NewSwarm, spawn_agent, start_agent, stop_agent,
  create_task, init_swarm, cancel_task,
}

-- A method that changes the state, with its arguments.
pub data Call : Type 0 where
  spawn : NewAgent → Call
  start stop : AgentId → Call
  create : NewTask → Call
  init : NewSwarm → Call
  cancel : TaskId → Call

unfoldable pub step : RuntimeState → Call → RuntimeState
step s (spawn new) = (spawn_agent new s).1
step s (start id) = (start_agent id s).1
step s (stop id) = (stop_agent id s).1
step s (create new) = (create_task new s).1
step s (init new) = (init_swarm new s).1
step s (cancel id) = (cancel_task id s).1

unfoldable pub run : RuntimeState → List Call → RuntimeState
run s [] = s
run s (c ∷ cs) = run (step s c) cs

-- The error that a call gives back, if any.
abbrev error_of : {A : Type 0} → Result A RufloError → Result (Unit {0}) RufloError
error_of (ok a) = ok tt
error_of (err e) = err e

unfoldable pub reply : RuntimeState → Call → Result (Unit {0}) RufloError
reply s (spawn new) = error_of (spawn_agent new s).0
reply s (start id) = error_of (start_agent id s).0
reply s (stop id) = error_of (stop_agent id s).0
reply s (create new) = error_of (create_task new s).0
reply s (init new) = error_of (init_swarm new s).0
reply s (cancel id) = error_of (cancel_task id s).0

-- A call that fails leaves the whole runtime state as it was.
pub failed_step_unchanged :
    (s : RuntimeState) (c : Call) {e : RufloError} → reply s c ≡ err e → step s c ≡ s
unfolding reply step spawn_agent start_agent stop_agent create_task init_swarm cancel_task
failed_step_unchanged s (spawn new) h = ground arith
failed_step_unchanged s (start id) h = ground arith
failed_step_unchanged s (stop id) h = ground arith
failed_step_unchanged s (create new) h = ground arith
failed_step_unchanged s (init new) h = ground arith
failed_step_unchanged s (cancel id) h = ground arith
