-- ===== src/Kubernetes/Monitor.antt =====
-- JobMonitorKubernetes of reana_job_controller/job_monitor.py: which jobs remain, whether a pod
-- event is processed, and the reaction to an event. `should_cleanup` is JobStatus.should_cleanup_job
-- of reana_db, which is not part of the repository.
pub mod Remaining
pub mod Confined
pub mod Processing
pub mod Once
pub mod Final
use reana_job_controller.Prelude.{
  Bool, List, Option, String, [], false, if◌then◌else◌, none, not, one_of, some, ◌&&◌, ◌==◌, ◌∷◌,
}
use reana_job_controller.Text.{concat, str}
use reana_job_controller.Dict.{Dict, has_key, insert, lookup}
use reana_job_controller.Python.{
  Action, Result, for_each, gets, lift, ok, pure, raised, try_except, type_error, ◌>>=◌, ◌>>◌,
}
use reana_job_controller.JobDb.{
  Job, State, mark_deleted, or_key_error, store_job_logs, update_job_status,
}
use reana_job_controller.Kubernetes.{Api, Condition, Pod, stop}
use reana_job_controller.Kubernetes.Status.{get_job_status}
use reana_job_controller.Kubernetes.Logs.{get_logs}

abbrev pub final_statuses : List String
final_statuses = "finished" ∷ "failed" ∷ "stopped" ∷ []

-- `self.job_db[job_id]` and `job_dict` are one object
unfoldable pub is_remaining : String → List String → Job → Bool
is_remaining compute_backend statuses_to_skip job =
    not job.deleted
    && job.compute_backend == compute_backend
    && not (one_of job.status statuses_to_skip)

-- the loop, with the dictionary so far: backend job ids to REANA job ids
unfoldable pub collect_remaining : String → List String → Dict Job → Dict String → Dict String
collect_remaining backend skip [] found = found
collect_remaining backend skip ((id, job) ∷ db) found =
    collect_remaining backend skip db
      (if is_remaining backend skip job then insert job.backend_job_id id found else found)

unfoldable pub get_remaining_jobs : List String → Dict Job → Dict String
get_remaining_jobs skip db = collect_remaining "kubernetes" skip db []

unfoldable pub get_reana_job_id : String → Dict Job → Result String
get_reana_job_id backend_job_id db =
    or_key_error backend_job_id (lookup backend_job_id (get_remaining_jobs [] db))

abbrev is_completed : Option String → Bool
is_completed none = false
is_completed (some status) = one_of status ("finished" ∷ "failed" ∷ [])

unfoldable pub should_process_job : Pod → Dict Job → Bool
should_process_job pod db =
    has_key pod.job_name (get_remaining_jobs final_statuses db) && is_completed (get_job_status pod)

-- next((item for item in conditions if item.type == "DisruptionTarget"), None)
find_disruption : List Condition → Option Condition
find_disruption [] = none
find_disruption (c ∷ cs) = if c.type_name == "DisruptionTarget" then some c else find_disruption cs

disruption_message : String → Option Condition → Option String
disruption_message backend_job_id none = none
disruption_message backend_job_id (some c) =
    some (concat (c.reason ∷ ": Job " ∷ backend_job_id ∷ " was disrupted: " ∷ c.message ∷ []))

-- The message that is logged, if any; iterating over None raises.
unfoldable pub log_disruption : Option (List Condition) → String → Result (Option String)
unfolding find_disruption disruption_message
log_disruption none backend_job_id = raised type_error
log_disruption (some cs) backend_job_id =
    ok (disruption_message backend_job_id (find_disruption cs))

log_failure : Option String → Pod → Result (Option String)
unfolding log_disruption
log_failure none pod = ok none
log_failure (some status) pod =
    if status == "failed" then log_disruption pod.conditions pod.job_name else ok none

module _ (api : Api) (should_cleanup : String → Bool) where
  -- both `except` clauses only log
  unfoldable pub clean_job : String → Action State (Unit {0})
  unfolding get_reana_job_id
  clean_job backend_job_id =
      try_except
        (do
          stop api backend_job_id
          db ← gets (λ s. s.job_db)
          id ← lift (get_reana_job_id backend_job_id db)
          mark_deleted id)
        (λ e. pure tt)

  clean_after : String → String → Action State (Unit {0})
  clean_after status backend_job_id =
      if should_cleanup status then clean_job backend_job_id else pure tt

  -- the writes for a processed job, and its clean-up
  unfoldable pub store_result : String → String → Option String → String → Action State (Unit {0})
  unfolding clean_after
  store_result id backend_job_id logs status = do
    store_job_logs id logs
    update_job_status id status
    clean_after status backend_job_id

  -- the body of `if self.should_process_job(job_pod)`
  unfoldable pub process_job : Pod → Action State (Unit {0})
  unfolding log_failure
  process_job pod = do
    db ← gets (λ s. s.job_db)
    id ← lift (get_reana_job_id pod.job_name db)
    logs ← lift (get_logs api pod.job_name (some pod))
    lift (log_failure (get_job_status pod) pod)
    store_result id pod.job_name logs (str (get_job_status pod))

  unfoldable pub handle_event : Pod → Action State (Unit {0})
  unfolding process_job
  handle_event pod s = if should_process_job pod s.job_db then process_job pod s else (ok tt, s)

  -- One stream request; an exception ends it and is logged.
  unfoldable pub watch_stream : List Pod → Action State (Unit {0})
  watch_stream pods = try_except (for_each pods handle_event) (λ e. pure tt)

  -- `while True`: the streams that the API server sends, one after another
  unfoldable pub watch_jobs : List (List Pod) → State → State
  watch_jobs [] s = s
  watch_jobs (pods ∷ streams) s = watch_jobs streams (watch_stream pods s).1
