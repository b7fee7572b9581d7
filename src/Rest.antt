-- ===== src/Rest.antt =====
-- reana_job_controller/rest.py: the handlers of the REST interface.
pub mod Shutdown
pub mod Create
pub mod Delete
pub mod Cache
pub mod Tests
pub mod Samples
use reana_job_controller.Prelude.{
  List, Option, String, [], if◌then◌else◌, none, one_of, some, ℕ, ◌++◌, ◌∷◌,
}
use reana_job_controller.Text.{concat, join}
use reana_job_controller.Python.{
  Action, Exception, Result, bind_result, continue, lift, ok, pure, raise, raised, submission_error,
  try_except, type_error, ◌>>=◌, ◌>>◌,
}
use reana_job_controller.Dict.{Dict}
use reana_job_controller.JobDb.{
  Job, JobView, State, job_exists, mark_deleted, retrieve_all_jobs, retrieve_backend_job_id,
  retrieve_job, retrieve_job_logs, store_job_logs, update_job_status,
}
use reana_job_controller.JobDb
use reana_job_controller.Managers.{Outside}
use reana_job_controller.Managers
use reana_job_controller.Managers.Backends.{Backend, backend_named}

pub data Body : Type 0 where
  empty : Body
  -- {"message": ...} and {"job": ...}
  message : String → Body
  job_message : String → Body
  -- {"job_id": ...}
  job_id : String → Body
  one : JobView → Body
  all : List (String × JobView) → Body
  -- the logs, returned as they are
  log_text : String → Body

pub record Response : Type 0 where
  pub body : Body
  pub code : ℕ

abbrev pub respond : Body → ℕ → Response
respond b c = record { body = b; code = c }

abbrev no_job : String → Body
no_job id = message (concat ("The job " ∷ id ∷ " doesn't exist" ∷ []))

-- GET /jobs
unfoldable pub get_jobs : Dict Job → Response
get_jobs db = respond (all (retrieve_all_jobs db)) 200

-- GET /jobs/<job_id>
unfoldable pub get_job : String → Dict Job → Result Response
get_job id db =
    if job_exists id db
    then bind_result (retrieve_job id db) (λ view. ok (respond (one view) 200))
    else ok (respond (no_job id) 400)

-- A view that returns None makes Flask raise TypeError.
log_response : Option String → Result Response
log_response none = raised type_error
log_response (some job_log) = ok (respond (log_text job_log) 200)

-- GET /jobs/<job_id>/logs
unfoldable pub get_logs : String → Dict Job → Result Response
unfolding log_response
get_logs id db =
    if job_exists id db
    then bind_result (retrieve_job_logs id db) log_response
    else ok (respond (no_job id) 404)

-- `except ComputingBackendSubmissionError`: other exceptions pass
abbrev bad_gateway : (Exception → String) → Exception → Action State Response
bad_gateway describe (submission_error reason) = pure (
    respond
      (message (
        concat
          ("Connection to compute backend failed:\n" ∷ describe (submission_error reason) ∷ [])))
      502)
bad_gateway describe e = raise e

-- DELETE /jobs/<job_id>/, with the value of the parameter compute_backend or its default
unfoldable pub delete_job : Outside → String → String → Action State Response
delete_job out id compute_backend s =
    if job_exists id s.job_db
    then try_except
        (do
          backend_job_id ← lift (retrieve_backend_job_id id s.job_db)
          backend ← lift (backend_named compute_backend)
          Managers.stop out backend backend_job_id
          pure (respond empty 204))
        (bad_gateway out.describe) s
    else (ok (respond (no_job id) 404), s)

-- the `try` body of shutdown for one job
try_stop : Outside → Backend → String → Job → Action State (Unit {0})
try_stop out backend id job = do
  logs ← lift (Managers.get_logs out backend job.backend_job_id job.workflow_workspace)
  store_job_logs id logs
  Managers.stop out backend job.backend_job_id
  update_job_status id "stopped"
  mark_deleted id

-- One job of the loop, with `failed_to_stop` so far. The look-ups before the `try` raise.
pub settle_job : Outside → String → JobView → List String → Action State (List String)
unfolding try_stop
settle_job out id view failed_to_stop s =
    if one_of view.status ("finished" ∷ "failed" ∷ "stopped" ∷ [])
    then (ok failed_to_stop, s)
    else (do
      job ← lift (JobDb.get_job id s.job_db)
      backend ← lift (backend_named job.compute_backend)
      try_except (do try_stop out backend id job; pure failed_to_stop)
          (λ e. pure (failed_to_stop ++ id ∷ [])))
        s

pub stop_jobs : Outside → List (String × JobView) → List String → Action State (List String)
unfolding settle_job
stop_jobs out [] failed_to_stop s = (ok failed_to_stop, s)
stop_jobs out ((id, view) ∷ jobs) failed_to_stop s =
    let (r, s') = settle_job out id view failed_to_stop s in
    continue r (λ failed. stop_jobs out jobs failed) s'

abbrev pub shutdown_response : List String → Response
shutdown_response [] = respond (message "All jobs stopped.") 200
shutdown_response (id ∷ ids) =
    respond (message (concat ("Could not stop jobs " ∷ join ", " (id ∷ ids) ∷ []))) 500

-- GET /shutdown, after disable_creation has returned
unfoldable pub shutdown : Outside → Action State Response
unfolding stop_jobs
shutdown out s =
    (do
      failed_to_stop ← stop_jobs out (retrieve_all_jobs s.job_db) []
      pure (shutdown_response failed_to_stop))
      s
