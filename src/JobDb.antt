-- ===== src/JobDb.antt =====
-- reana_job_controller/job_db.py: the in-memory job database JOB_DB and its accessors.
-- `State` holds JOB_DB and the list of calls that the code has made to systems outside it, oldest
-- first. The calls to the reana_db session stand in a `try` whose handler only logs, so their
-- outcome is invisible here: a call is recorded when it is attempted.
pub mod Laws
pub mod Frame
use reana_job_controller.Prelude.{
  ℕ, String, Bool, true, Option, none, some, List, [], ◌∷◌, ◌++◌, ◌==◌, if◌then◌else◌,
}
use reana_job_controller.Dict.{Dict, lookup, insert, has_key}
use reana_job_controller.Python.{Result, ok, raised, key_error, Action, ◌>>=◌, ◌>>◌, bind_result}

-- The dictionary that create_job stores. `obj` is kept by the one attribute that is read from it,
-- `obj.workflow_workspace`; `log` is absent until store_job_logs writes it, and `get("log")` reads
-- an absent key and None alike. `cmd` and `cvmfs_mounts` are read by `get` too.
pub record Job : Type 0 where
  pub cmd : Option String
  pub cvmfs_mounts : Option String
  pub docker_img : String
  pub job_id : String
  pub max_restart_count : ℕ
  pub restart_count : ℕ
  pub status : String
  pub deleted : Bool
  pub compute_backend : String
  pub backend_job_id : String
  pub workflow_workspace : String
  pub log : Option String

pub data Call : Type 0 where
  -- reana_db: Job.logs, Job.status and Workflow.logs
  session_logs : String → Option String → Call
  session_status : String → String → Call
  session_workflow_logs : String → String → Call
  -- compute backends, by the backend's job id
  stop_job : String → Call
  spool_output : String → Call
  get_outputs : Call
  -- time.sleep
  sleep : ℕ → Call

pub record State : Type 0 where
  pub job_db : Dict Job
  pub calls : List Call

unfoldable pub call : Call → Action State Unit
call c s = (ok tt, record s { calls = s.calls ++ c ∷ [] })

-- JOB_DB[job_id]
abbrev pub or_key_error {ℓ} : {A : Type ℓ} → String → Option A → Result A
or_key_error k none = raised (key_error k)
or_key_error k (some a) = ok a

unfoldable pub get_job : String → Dict Job → Result Job
get_job id db = or_key_error id (lookup id db)

-- JOB_DB[job_id][field] = value, for a field
write_job : Option Job → String → (Job → Job) → Action State Unit
write_job none id f s = (raised (key_error id), s)
write_job (some job) id f s = (ok tt, record s { job_db = insert id (f job) s.job_db })

unfoldable pub modify_job : String → (Job → Job) → Action State Unit
unfolding write_job
modify_job id f s = write_job (lookup id s.job_db) id f s

-- x if x else default
abbrev pub or_default : String → Option String → String
or_default d none = d
or_default d (some x) = if x == "" then d else x

-- The value under "cvmfs_mounts" in a response: a text, or an empty list.
pub data Mounts : Type 0 where
  text : String → Mounts
  empty_list : Mounts

abbrev pub mounts_or : Mounts → Option String → Mounts
mounts_or d none = d
mounts_or d (some x) = if x == "" then d else text x

pub record JobView : Type 0 where
  pub cmd : String
  pub cvmfs_mounts : Mounts
  pub docker_img : String
  pub job_id : String
  pub max_restart_count : ℕ
  pub restart_count : ℕ
  pub status : String

unfoldable pub view_job : Mounts → Job → JobView
view_job no_mounts job = record {
  cmd = or_default "" job.cmd;
  cvmfs_mounts = mounts_or no_mounts job.cvmfs_mounts;
  docker_img = job.docker_img;
  job_id = job.job_id;
  max_restart_count = job.max_restart_count;
  restart_count = job.restart_count;
  status = job.status;
}

unfoldable pub retrieve_job : String → Dict Job → Result JobView
unfolding get_job view_job
retrieve_job id db = bind_result (get_job id db) (λ job. ok (view_job (text "") job))

unfoldable pub retrieve_backend_job_id : String → Dict Job → Result String
unfolding get_job
retrieve_backend_job_id id db = bind_result (get_job id db) (λ job. ok job.backend_job_id)

unfoldable pub retrieve_all_jobs : Dict Job → List (String × JobView)
unfolding view_job
retrieve_all_jobs [] = []
retrieve_all_jobs ((id, job) ∷ db) = (id, view_job empty_list job) ∷ retrieve_all_jobs db

unfoldable pub job_exists : String → Dict Job → Bool
job_exists id db = has_key id db

unfoldable pub retrieve_job_logs : String → Dict Job → Result (Option String)
unfolding get_job
retrieve_job_logs id db = bind_result (get_job id db) (λ job. ok job.log)

unfoldable pub store_job_logs : String → Option String → Action State Unit
unfolding modify_job call
store_job_logs id logs = do
  modify_job id (λ job. record job { log = logs })
  call (session_logs id logs)

unfoldable pub update_job_status : String → String → Action State Unit
unfolding modify_job call
update_job_status id status = do
  modify_job id (λ job. record job { status = status })
  call (session_status id status)

-- job_db[job_id]["deleted"] = True, which the monitors and the shutdown write themselves
unfoldable pub mark_deleted : String → Action State Unit
unfolding modify_job
mark_deleted id = modify_job id (λ job. record job { deleted = true })
