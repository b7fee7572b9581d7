-- ===== src/Rest/Create.antt =====
-- create_job of reana_job_controller/rest.py (POST /jobs). What the handler calls and this module
-- does not define is a parameter: loading the request by the marshmallow schema, the constructor
-- and `execute` of the backend's job manager, and the start of the backend's monitor.
pub mod Laws
pub mod Reads
use reana_job_controller.Prelude.{
  List, Option, String, [], false, if◌then◌else◌, none, one_of, some, ◌∷◌,
}
use reana_job_controller.Text.{concat}
use reana_job_controller.Python.{
  Action, Exception, Result, lift, memory_limit_exceeded, ok, operational_error, pure, raised,
  system_exit, wrong_memory_format, ◌>>=◌, ◌>>◌,
}
use reana_job_controller.Dict.{insert}
use reana_job_controller.JobDb.{Job, State, call, session_workflow_logs, update_job_status}
use reana_job_controller.Creation.{Condition, start_creation, stop_creation}
use reana_job_controller.Managers.Backends.{Backend, backend_named}
use reana_job_controller.Rest.{Response, job_id, job_message, message, respond}

-- The fields of the loaded request that this handler reads or stores.
pub record JobRequest : Type 0 where
  pub workflow_uuid : String
  pub workflow_workspace : String
  pub cmd : String
  pub cvmfs_mounts : String
  pub docker_img : String
  pub compute_backend : Option String

-- What job_request_schema.load returns: the request, or the errors that make it invalid.
pub data Loaded : Type 0 where
  valid : JobRequest → Loaded
  invalid : String → Loaded

pub record Environment (Json : Type 0) : Type 0 where
  -- job_request_schema.load(json_data), which may also raise: a hook of the schema that runs before
  -- the validation fails on data that is no dictionary
  pub load : Json → Result Loaded
  -- DEFAULT_COMPUTE_BACKEND and SUPPORTED_COMPUTE_BACKENDS of the application's configuration
  pub default_compute_backend : String
  pub supported_compute_backends : List String
  -- job_manager_cls(**job_request, secrets=get_cached_user_secrets())
  pub construct : Backend → JobRequest → Result (Unit {0})
  -- job_obj.execute(): the backend job id; and job_obj.job_id, which execute sets
  pub execute : Backend → JobRequest → Result (String × String)
  -- job_monitor_cls(app=..., workflow_uuid=...)
  pub start_monitor : Backend → String → Result (Unit {0})
  pub describe : Exception → String

-- The state of the process: JOB_DB with the calls made, and job_creation_condition.
pub record Controller : Type 0 where
  pub state : State
  pub condition : Condition

-- An action on JOB_DB, in the controller.
abbrev pub on_state : {A : Type 0} → Action State A → Controller → Result A × Controller
on_state m c = let (r, s) = m c.state in (r, record c { state = s })

abbrev get_or : Option String → String → String
get_or none d = d
get_or (some x) d = x

new_job : JobRequest → String → String → String → Job
new_job request compute_backend backend_job_id id = record {
  cmd = some request.cmd;
  cvmfs_mounts = some request.cvmfs_mounts;
  docker_img = request.docker_img;
  job_id = id;
  max_restart_count = 3;
  restart_count = 0;
  status = "started";
  deleted = false;
  compute_backend = compute_backend;
  backend_job_id = backend_job_id;
  workflow_workspace = request.workflow_workspace;
  log = none;
}

-- JOB_DB[str(job["job_id"])] = job
store_job : Job → Action State (Unit {0})
store_job job s = (ok tt, record s { job_db = insert job.job_id job s.job_db })

module _ {Json : Type 0} (env : Environment Json) where
  -- `if job_obj:`, always taken: an object of a class with no __bool__ and no __len__ is true
  register_job : JobRequest → String → Backend → String × String → Action State Response
  unfolding new_job store_job
  register_job request compute_backend backend (backend_job_id, id) = do
    store_job (new_job request compute_backend backend_job_id id)
    update_job_status id "running"
    lift (env.start_monitor backend request.workflow_uuid)
    pure (respond (job_id id) 201)

  -- both `except` clauses of the submission; SystemExit does not reach them
  submission_failed : Exception → Response
  submission_failed (operational_error e) =
      respond
        (message (
          concat (
            "Job submission failed because of DB connection issues. \n"
            ∷ env.describe (operational_error e)
            ∷ [])))
        500
  submission_failed e =
      respond (message (concat ("Job submission failed. \n" ∷ env.describe e ∷ []))) 500

  after_execute :
      JobRequest
      → String
      → Backend
      → Result (String × String)
      → Controller
      → Result Response × Controller
  unfolding register_job submission_failed
  after_execute request compute_backend backend (raised system_exit) c = (raised system_exit, c)
  after_execute request compute_backend backend (raised e) c = (ok (submission_failed e), c)
  after_execute request compute_backend backend (ok ids) c =
      on_state (register_job request compute_backend backend ids) c

  -- start_creation; try: execute ... finally: stop_creation, which also comes before a SystemExit
  -- leaves the handler
  submit : JobRequest → String → Backend → Controller → Result Response × Controller
  unfolding after_execute
  submit request compute_backend backend c =
      let (granted, started) = start_creation c.condition in
      if granted
      then after_execute request compute_backend backend (env.execute backend request)
          (record c { condition = (stop_creation started).1 })
      else (ok (respond (message "Cannot create new jobs, shutting down") 400), c)

  after_construct :
      JobRequest → String → Backend → Result (Unit {0}) → Controller → Result Response × Controller
  unfolding submit
  after_construct request compute_backend backend (ok done) c =
      submit request compute_backend backend c
  after_construct request compute_backend backend (raised (memory_limit_exceeded m)) c =
      (ok (respond (message m) 403), c)
  after_construct request compute_backend backend (raised (wrong_memory_format m)) c =
      (ok (respond (message m) 400), c)
  after_construct request compute_backend backend (raised e) c = (raised e, c)

  construct_job : JobRequest → String → Result Backend → Controller → Result Response × Controller
  unfolding after_construct
  construct_job request compute_backend (raised e) c = (raised e, c)
  construct_job request compute_backend (ok backend) c =
      after_construct request compute_backend backend (env.construct backend request) c

  unsupported : String → String
  unsupported compute_backend =
      concat ("Job submission failed. Backend " ∷ compute_backend ∷ " is not supported." ∷ [])

  after_load : Result Loaded → Controller → Result Response × Controller
  unfolding construct_job unsupported
  after_load (raised e) c = (raised e, c)
  after_load (ok (invalid errors)) c = (ok (respond (message errors) 400), c)
  after_load (ok (valid request)) c =
      let compute_backend = get_or request.compute_backend env.default_compute_backend in
      if one_of compute_backend env.supported_compute_backends
      then construct_job request compute_backend (backend_named compute_backend) c
      else on_state
          (do
            call (session_workflow_logs request.workflow_uuid (unsupported compute_backend))
            pure (respond (job_message (unsupported compute_backend)) 500))
          c

  -- `none` is a request whose JSON data is absent or false in a test (null, {}, [], 0)
  unfoldable pub create_job : Option Json → Controller → Result Response × Controller
  unfolding after_load
  create_job none c = (ok (respond (message "Empty request") 400), c)
  create_job (some json) c = after_load (env.load json) c
