-- ===== src/Kubernetes.antt =====
-- The Kubernetes objects and API calls that the job controller uses: what it reads of a V1Pod
-- (attributes that it tests for None are options), and the API client, which is not part of the
-- repository, as a record of functions that return or raise.
pub mod Status
pub mod Logs
pub mod Monitor
pub mod Limits
pub mod JobSpec
pub mod Tests
use reana_job_controller.Prelude.{Bool, List, Option, String, [], none, some, ◌++◌}
use reana_job_controller.Python.{
  Action, Result, api_exception, lift, raised, submission_error, ◌>>=◌, ◌>>◌,
}
use reana_job_controller.JobDb.{State, call, stop_job}

-- container.state.terminated and container.state.waiting
pub record Detail : Type 0 where
  pub reason : Option String
  pub message : Option String

-- container.state
pub record ContainerState : Type 0 where
  pub terminated : Option Detail
  pub waiting : Option Detail
  pub running : Bool

pub record Container : Type 0 where
  pub name : String
  pub state : Option ContainerState

-- an item of pod.status.conditions
pub record Condition : Type 0 where
  pub type_name : String
  pub reason : String
  pub message : String

pub record Pod : Type 0 where
  -- pod.metadata.name and pod.metadata.labels["job-name"]
  pub name : String
  pub job_name : String
  -- pod.status
  pub phase : String
  pub reason : Option String
  pub container_statuses : Option (List Container)
  pub init_container_statuses : Option (List Container)
  pub conditions : Option (List Condition)

pub record Api : Type 0 where
  -- read_namespaced_pod_log(name, container)
  pub read_pod_log : String → String → Result String
  -- list_namespaced_pod(label_selector="job-name=...").items
  pub list_pods : String → Result (List Pod)
  -- delete_namespaced_job(name)
  pub delete_job : String → Result (Unit {0})

abbrev or_empty {ℓ} : {A : Type ℓ} → Option (List A) → List A
or_empty none = []
or_empty (some xs) = xs

-- (job_pod.status.container_statuses or []) + (job_pod.status.init_container_statuses or [])
unfoldable pub container_statuses : Pod → List Container
container_statuses pod = or_empty pod.container_statuses ++ or_empty pod.init_container_statuses

-- `except ApiException` of KubernetesJobManager.stop; other exceptions pass
abbrev as_submission_error : Result (Unit {0}) → Result (Unit {0})
as_submission_error (raised (api_exception reason)) = raised (submission_error reason)
as_submission_error r = r

-- KubernetesJobManager.stop
unfoldable pub stop : Api → String → Action State (Unit {0})
unfolding call
stop api backend_job_id = do
  call (stop_job backend_job_id)
  lift (as_submission_error (api.delete_job backend_job_id))
