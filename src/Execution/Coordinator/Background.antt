-- ===== src/Execution/Coordinator/Background.antt =====
-- `_run_execution` of netherbrain/agent_runtime/execution/launch.py: the background task of a session.
use netherbrain.Prelude.Dict
use netherbrain.Managers.Sessions.{fail_session}
use netherbrain.Execution.Coordinator.{execute_session}
use netherbrain.Execution.Coordinator.Setting.{Surroundings, Job, Stream, World}

-- How `execute_session` goes: its set-up raises, of which nothing is caught there, or it runs.
pub data Attempt : Type 0 where
  set_up_raises : Attempt
  runs : Stream → Attempt

module _ (env : Surroundings) (job : Job) where
  -- `_run_execution`.
  unfoldable pub run_execution : Attempt → World → World
  run_execution set_up_raises w = record w { system = fail_session job.session_id w.system }
  run_execution (runs stream) w = (execute_session env job stream w).0
