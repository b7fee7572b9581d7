-- ===== src/Rest/Tests.antt =====
-- The handlers of the REST interface on small inputs.
use reana_job_controller.Prelude.{String, [], inl, none, refl, some, ◌∷◌, ◌≡◌}
use reana_job_controller.Python.{ok}
use reana_job_controller.Text.{}
use reana_job_controller.Dict.{IsDict, lookup, insert}
use reana_job_controller.JobDb
use reana_job_controller.JobDb.{State, store_job_logs, update_job_status}
use reana_job_controller.Creation.{new, start_creation, stop_creation}
use reana_job_controller.Managers
use reana_job_controller.Managers.Backends.{backend_named, htcondorcern, slurmcern}
use reana_job_controller.Rest.{Body, job_id, respond, shutdown, shutdown_response, log_text}
use reana_job_controller.Rest.Samples.{job_on, outside}
use reana_job_controller.Rest.Shutdown.{AllHaveBackend, settle_all, unsettled}
use reana_job_controller.Rest.Shutdown.Whole.{shutdown-CannotStop, shutdown_lem}
use reana_job_controller.Rest.Create.{Controller, Environment, JobRequest, create_job, valid}
use reana_job_controller.Rest
use reana_job_controller.Rest.Delete.{answer_for, delete_job_lem}
use reana_job_controller.Rest.Create.Reads.{
  ShowsRunning, get_job-create_job, get_logs-store_job_logs,
}
use reana_job_controller.Rest.Create.Laws.{Outcome, create_job_cases}

abbrev two_jobs : State
two_jobs = record {
  job_db =
      ("j1", job_on "j1" "htcondorcern" "running") ∷ ("j2", job_on "j2" "slurmcern" "running") ∷ [];
  calls = [];
}

two_jobs-IsDict : IsDict two_jobs.job_db
unfolding lookup
two_jobs-IsDict = (refl, (refl, tt))

two_jobs-AllHaveBackend : AllHaveBackend two_jobs.job_db
unfolding backend_named
two_jobs-AllHaveBackend = ((htcondorcern, refl), ((slurmcern, refl), tt))

shutdown_lem_example :
    ((shutdown outside two_jobs).0 ≡ ok (shutdown_response (unsettled outside two_jobs.job_db)))
    × ((shutdown outside two_jobs).1.job_db ≡ settle_all outside two_jobs.job_db)
shutdown_lem_example = shutdown_lem outside two_jobs two_jobs-IsDict two_jobs-AllHaveBackend

left_over : unsettled outside two_jobs.job_db ≡ "j2" ∷ []
unfolding backend_named Managers.get_logs
left_over = refl

shutdown-CannotStop_example :
    (body : Body) × ((shutdown outside two_jobs).0 ≡ ok (respond body 500))
shutdown-CannotStop_example =
    shutdown-CannotStop outside two_jobs "j2" (job_on "j2" "slurmcern" "running") two_jobs-IsDict
      two_jobs-AllHaveBackend (unfold lookup in refl) refl (inl refl)

abbrev one_job : State
one_job = record { job_db = ("j1", job_on "j1" "htcondorcern" "running") ∷ []; calls = [] }

abbrev request : JobRequest
request = record {
  workflow_uuid = "w";
  workflow_workspace = "/ws";
  cmd = "date";
  cvmfs_mounts = "false";
  docker_img = "busybox";
  compute_backend = none;
}

abbrev environment : Environment String
environment = record {
  load = λ json. ok (valid request);
  default_compute_backend = "kubernetes";
  supported_compute_backends = "kubernetes" ∷ [];
  construct = λ backend r. ok tt;
  execute = λ backend r. ok ("run-job-1", "j1");
  start_monitor = λ backend workflow_uuid. ok tt;
  describe = λ e. "an error";
}

abbrev controller : Controller
controller = record { state = record { job_db = []; calls = [] }; condition = new }

create_job_cases_example :
    Outcome environment controller (create_job environment (some "{}") controller)
create_job_cases_example = create_job_cases environment (some "{}") controller

created_first : (create_job environment (some "{}") controller).0 ≡ ok (respond (job_id "j1") 201)
unfolding create_job new start_creation stop_creation backend_named update_job_status lookup insert
created_first = refl

get_job-create_job_example :
    ShowsRunning "j1" (create_job environment (some "{}") controller).1.state.job_db
get_job-create_job_example =
    get_job-create_job environment (some "{}") controller "j1" created_first

get_logs-store_job_logs_example :
    Rest.get_logs "j1" (store_job_logs "j1" (some "text") one_job).1.job_db
    ≡ ok (respond (log_text "text") 200)
get_logs-store_job_logs_example =
    get_logs-store_job_logs "j1" "text" one_job (job_on "j1" "htcondorcern" "running")
      (unfold lookup in refl)

delete_job_lem_example :
    ((Rest.delete_job outside "j1" "htcondorcern" one_job).0
      ≡ answer_for outside "j1" "htcondorcern" one_job (lookup "j1" one_job.job_db))
    × ((Rest.delete_job outside "j1" "htcondorcern" one_job).1.job_db ≡ one_job.job_db)
delete_job_lem_example = delete_job_lem outside "j1" "htcondorcern" one_job
