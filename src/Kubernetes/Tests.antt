-- ===== src/Kubernetes/Tests.antt =====
-- The Kubernetes monitor on small inputs, among them those of tests/test_job_monitor.py.
use reana_job_controller.Prelude.{
  Bool, Bool-cases, List, Option, String, [], eq_iff, false, inl, inr, none, refl, some, some_inj,
  sym, true, ◌==◌, ◌∙◌, ◌∷◌, ◌≡◌, if◌then◌else◌, ℕ, ◌≤◌,
}
use reana_job_controller.Text.{concat}
use reana_job_controller.Dict.{has_key, insert, lookup}
use reana_job_controller.Python.{api_exception, ok, raised, type_error}
use reana_job_controller.JobDb.{Job, State}
use reana_job_controller.Kubernetes.{Api, Condition, Container, Pod, container_statuses}
use reana_job_controller.Kubernetes.Status.{get_job_status}
use reana_job_controller.Kubernetes.Logs.{get_logs}
use reana_job_controller.Kubernetes.Limits.{Memory, set_memory_limit, set_memory_limit-bounded}
use reana_job_controller.Kubernetes.Monitor.{
  collect_remaining, get_remaining_jobs, handle_event, is_remaining, log_disruption,
  should_process_job, watch_jobs,
}
use reana_job_controller.Kubernetes.Monitor.Remaining.{IsSound}
use reana_job_controller.Kubernetes.Monitor.Confined.{Touches}
use reana_job_controller.Kubernetes.Monitor.Processing.{IsFinal}
use reana_job_controller.Kubernetes.Monitor.Once.{handle_event_once}
use reana_job_controller.Kubernetes.Monitor.Final.{handle_event-conditions_none, watch_jobs-final}

abbrev terminated : String → Container
terminated reason = record {
  name = "job";
  state = some (record {
    terminated = some (record { reason = some reason; message = none });
    waiting = none;
    running = false;
  });
}

abbrev waits : String → Container
waits reason = record {
  name = "job";
  state = some (record {
    terminated = none;
    waiting = some (record { reason = some reason; message = none });
    running = false;
  });
}

abbrev pod_of : String → List Container → Option (List Condition) → Pod
pod_of phase containers conditions = record {
  name = "run-job-1-pod";
  job_name = "run-job-1";
  phase = phase;
  reason = none;
  container_statuses = some containers;
  init_container_statuses = none;
  conditions = conditions;
}

statuses :
    (get_job_status (pod_of "Pending" (waits "ErrImagePull" ∷ []) none) ≡ some "failed")
    × (get_job_status (pod_of "Pending" (waits "InvalidImageName" ∷ []) none) ≡ some "failed")
    × (get_job_status (pod_of "Succeeded" (terminated "Completed" ∷ []) none) ≡ some "finished")
    × (get_job_status (pod_of "Failed" (terminated "Error" ∷ []) none) ≡ some "failed")
    × (get_job_status (pod_of "Succeeded" (terminated "OOMKilled" ∷ []) none) ≡ some "failed")
    × (get_job_status (pod_of "Pending" (waits "ContainerCreating" ∷ []) none) ≡ none)
unfolding get_job_status
statuses = (refl, refl, refl, refl, refl, refl)

disruption :
    log_disruption
      (some (
        record { type_name = "PodScheduled"; reason = ""; message = "" }
        ∷ record {
          type_name = "DisruptionTarget";
          reason = "EvictionByEvictionAPI";
          message = "Eviction API: evicting";
        }
        ∷ []))
      "backend_job_id"
    ≡ ok (some "EvictionByEvictionAPI: Job backend_job_id was disrupted: Eviction API: evicting")
unfolding log_disruption concat
disruption = refl

abbrev running_job : String → Job
running_job status = record {
  cmd = some "date";
  cvmfs_mounts = none;
  docker_img = "busybox";
  job_id = "1612a779";
  max_restart_count = 3;
  restart_count = 0;
  status = status;
  deleted = false;
  compute_backend = "kubernetes";
  backend_job_id = "run-job-1";
  workflow_workspace = "/var/reana/ws";
  log = none;
}

abbrev one_job : String → State
one_job status = record { job_db = ("1612a779", running_job status) ∷ []; calls = [] }

lookup-one :
    (id i : String) (job a : Job) → lookup i ((id, job) ∷ []) ≡ some a → (id ≡ i) × (a ≡ job)
unfolding lookup
lookup-one id i job a e = elim (Bool-cases (id == i)) [
  | inl same ↦ ((eq_iff id i).0 same, sym (some_inj (rw same at e)))
  | inr other ↦ cc (rw other at e)
]

one_job-IsSound : (status : String) → IsSound (one_job status).job_db
unfolding lookup
one_job-IsSound status = record {
  is_dict = (refl, tt);
  unique = λ i j a b p q ha hb same.
      sym (lookup-one "1612a779" i _ a p).0 ∙ (lookup-one "1612a779" j _ b q).0;
}

abbrev api : Api
api = record {
  read_pod_log = λ pod container. ok "hello";
  list_pods = λ backend_job_id. ok [];
  delete_job = λ backend_job_id. raised (api_exception "gone");
}

abbrev always : String → Bool
always status = true

abbrev done_pod : Pod
done_pod = pod_of "Succeeded" (terminated "Completed" ∷ []) (some [])

abbrev evicted_pod : Pod
evicted_pod = pod_of "Failed" [] none

logs_of_done : get_logs api "run-job-1" (some done_pod) ≡ ok (some "job: :\n hello\n\nCompleted\n")
unfolding get_logs concat
logs_of_done = refl

done_is_processed : should_process_job done_pod (one_job "running").job_db ≡ true
unfolding should_process_job get_remaining_jobs collect_remaining is_remaining insert has_key
    get_job_status
done_is_processed = refl

handle_event_once_example :
    let after = (handle_event api always done_pod (one_job "running")).1.job_db in
    ((id : String) × Touches IsFinal "run-job-1" id (one_job "running").job_db after)
    × ((later : Pod) → later.job_name ≡ "run-job-1" → should_process_job later after ≡ false)
handle_event_once_example =
    handle_event_once api always done_pod [] (one_job "running") (one_job-IsSound "running")
      done_is_processed refl

watch_jobs-final_example :
    let after =
      (watch_jobs api always ((done_pod ∷ evicted_pod ∷ []) ∷ []) (one_job "failed")).job_db in
    IsSound after × (lookup "1612a779" after ≡ some (running_job "failed"))
watch_jobs-final_example =
    watch_jobs-final api always ((done_pod ∷ evicted_pod ∷ []) ∷ []) (one_job "failed") "1612a779"
      (running_job "failed") (one_job-IsSound "failed") (unfold lookup in refl) refl

evicted_is_processed : should_process_job evicted_pod (one_job "running").job_db ≡ true
unfolding should_process_job get_remaining_jobs collect_remaining is_remaining insert has_key
    get_job_status
evicted_is_processed = refl

handle_event-conditions_none_example :
    handle_event api always evicted_pod (one_job "running") ≡ (raised type_error, one_job "running")
handle_event-conditions_none_example =
    handle_event-conditions_none api always evicted_pod (one_job "running")
      (one_job-IsSound "running") evicted_is_processed (unfold get_job_status in refl) refl

abbrev memory : Memory
memory = record {
  validate = λ limit. true;
  to_bytes = λ limit. ok (if limit == "1Gi" then 1073741824 else 1048576);
  max_limit = some "1Gi";
}

accepted_limit : set_memory_limit memory (some "1Mi") ≡ ok (some "1Mi")
unfolding set_memory_limit
accepted_limit = refl

set_memory_limit-bounded_example :
    (memory.validate "1Mi" ≡ true)
    × (asked : ℕ) × (memory.to_bytes "1Mi" ≡ ok asked)
    × (asked ≤ 1073741824)
set_memory_limit-bounded_example =
    set_memory_limit-bounded memory "1Mi" "1Gi" 1073741824 refl refl (λ h. cc h) accepted_limit
