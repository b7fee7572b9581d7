-- ===== src/Punch.antt =====
-- JobMonitorCompute4PUNCH of reana_job_controller/job_monitor.py, with query_c4p_jobs and
-- filter_jobs_to_watch. The login node that it asks over SSH, the csv module that reads the answer
-- and the transfer of outputs are not part of the repository: they are the fields of `LoginNode`.
pub mod Results
pub mod Rounds
pub mod Submission
pub mod Tests
use reana_job_controller.Prelude.{
  Bool, List, Option, String, [], false, if◌then◌else◌, none, not, one_of, some, ◌&&◌, ◌==◌, ◌||◌,
  ◌∷◌,
}
use reana_job_controller.Text.{concat, str}
use reana_job_controller.Dict.{Dict, insert, keys, lookup}
use reana_job_controller.Python.{
  Action, Result, bind_result, for_each, gets, lift, ok, pure, try_except, ◌>>=◌, ◌>>◌,
}
use reana_job_controller.JobDb.{
  Job, State, call, get_outputs, mark_deleted, sleep, store_job_logs, update_job_status,
}
use reana_job_controller.JobDb
use reana_job_controller.Managers.{Outside}
use reana_job_controller.Managers
use reana_job_controller.Managers.Backends.{compute4punch}

-- A row of the answer: `undefined` and an absent column are None.
pub record Row : Type 0 where
  pub job_status : Option String
  pub cluster_id : Option String
  pub proc_id : Option String
  pub exit_code : Option String
  pub hold_reason_code : Option String

pub record LoginNode : Type 0 where
  pub hostname : String
  -- condor_q and condor_history for some jobs, as rows
  pub rows : List String → Result (List Row)
  -- Compute4PUNCHJobManager.get_outputs, with its destination
  pub transfer : String → Result (Unit {0})
  pub outside : Outside

abbrev pub statuses_to_skip : List String
statuses_to_skip = "finished" ∷ "failed" ∷ "stopped" ∷ []

-- with compute_backend="compute4punch", for the job that stands under the id
unfoldable pub filter_jobs_to_watch : Job → Bool
filter_jobs_to_watch job =
    job.compute_backend == "compute4punch"
    && not (job.deleted || one_of job.status statuses_to_skip)

map_jobs : Dict Job → Dict String → Dict String
unfolding filter_jobs_to_watch
map_jobs [] mapping = mapping
map_jobs ((id, job) ∷ db) mapping =
    map_jobs db (if filter_jobs_to_watch job then insert job.backend_job_id id mapping else mapping)

-- the dictionary comprehension c4p_job_mapping
unfoldable pub c4p_job_mapping : Dict Job → Dict String
unfolding map_jobs
c4p_job_mapping db = map_jobs db []

-- row["JobId"]
job_id_of : Row → String
job_id_of row = concat (str row.cluster_id ∷ "." ∷ str row.proc_id ∷ [])

-- the loop of query_c4p_jobs; a later row of a job replaces an earlier one
unfoldable pub fill_queue : List Row → Dict Row → Dict Row
unfolding job_id_of
fill_queue [] queue = queue
fill_queue (row ∷ rows) queue = fill_queue rows (insert (job_id_of row) row queue)

unfoldable pub query_c4p_jobs : LoginNode → List String → Result (Dict Row)
unfolding fill_queue
query_c4p_jobs node ids = bind_result (node.rows ids) (λ rows. ok (fill_queue rows []))

abbrev pub is_text : String → Option String → Bool
is_text x none = false
is_text x (some y) = y == x

module _ (node : LoginNode) where
  -- the lines under `if job_status in ("failed", "finished")`
  unfoldable pub finish : String → String → String → Action State (Unit {0})
  finish c4p_job_id id status = do
    db ← gets (λ s. s.job_db)
    job ← lift (JobDb.get_job id db)
    call get_outputs
    lift (node.transfer job.workflow_workspace)
    update_job_status id status
    mark_deleted id
    logs ← lift (Managers.get_logs node.outside compute4punch c4p_job_id job.workflow_workspace)
    store_job_logs id logs

  pub lost_message : String → String
  lost_message c4p_job_id = concat (
      "Job " ∷ c4p_job_id ∷ " was not found on " ∷ node.hostname ∷ ". Assuming it has failed." ∷ [])

  unfoldable pub lose : String → String → Action State (Unit {0})
  unfolding lost_message
  lose c4p_job_id id = do
    update_job_status id "failed"
    mark_deleted id
    store_job_logs id (some (lost_message c4p_job_id))

  unfoldable pub release : String → String → Row → Action State (Unit {0})
  unfolding finish
  release c4p_job_id id row =
      if is_text "16" row.hold_reason_code
      then pure tt
      else do Managers.stop node.outside compute4punch c4p_job_id; finish c4p_job_id id "failed"

  unfoldable pub settle : String → String → Option Row → Action State (Unit {0})
  unfolding finish lose release
  settle c4p_job_id id none = lose c4p_job_id id
  settle c4p_job_id id (some row) =
      if is_text "4" row.job_status
      then finish c4p_job_id id (if is_text "0" row.exit_code then "finished" else "failed")
      else if is_text "5" row.job_status
      then release c4p_job_id id row
      else pure tt

  unfoldable pub watch_job : Dict Row → String × String → Action State (Unit {0})
  unfolding settle
  watch_job statuses (c4p_job_id, id) = settle c4p_job_id id (lookup c4p_job_id statuses)

  watch_mapped : Dict String → Action State (Unit {0})
  unfolding query_c4p_jobs watch_job
  watch_mapped mapping = do
    statuses ← lift (query_c4p_jobs node (keys mapping))
    for_each mapping (watch_job statuses)

  -- One round of `while True`.
  unfoldable pub watch_pass : Action State (Unit {0})
  unfolding c4p_job_mapping watch_mapped
  watch_pass = do
    try_except (do db ← gets (λ s. s.job_db); watch_mapped (c4p_job_mapping db)) (λ e. pure tt)
    call (sleep 120)

-- The passes one after another, each with what the login node answers in it.
unfoldable pub watch_jobs : List LoginNode → State → State
watch_jobs [] s = s
watch_jobs (node ∷ later) s = watch_jobs later (watch_pass node s).1
