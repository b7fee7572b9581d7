-- ===== src/Kubernetes/Logs.antt =====
-- KubernetesJobManager._get_containers_logs and get_logs of
-- reana_job_controller/kubernetes_job_manager.py. What is only written to the log file is left out.
use reana_job_controller.Prelude.{
  List, Option, String, [], if◌then◌else◌, is_some, none, some, ◌==◌, ◌||◌, ◌∷◌, eq_refl, ◌≡◌,
}
use reana_job_controller.Text.{concat, str}
use reana_job_controller.Python.{Result, assertion_error, attribute_error, bind_result, ok, raised}
use reana_job_controller.Kubernetes.{
  Api, Container, ContainerState, Detail, Pod, container_statuses,
}

-- "\n{}\n".format(container.state.terminated.reason), where there is a `terminated`
abbrev pub reason_line : Option Detail → String
reason_line none = ""
reason_line (some d) = concat ("\n" ∷ str d.reason ∷ "\n" ∷ [])

abbrev waiting_message : String → Option Detail → String
waiting_message name none = ""
waiting_message name (some d) =
    concat ("Container " ∷ name ∷ " failed, error: " ∷ str d.message ∷ [])

-- What one container adds to the logs; the API is asked only for a container that has started.
container_log : Api → String → String → ContainerState → Result String
container_log api pod name st =
    if is_some st.terminated || st.running
    then bind_result (api.read_pod_log pod name)
        (λ log. ok (concat (name ∷ ": :\n " ∷ log ∷ "\n" ∷ reason_line st.terminated ∷ [])))
    else ok (waiting_message name st.waiting)

-- container.state is read as an object: None raises
add_container : Api → String → Container → Result String
unfolding container_log
add_container api pod c = elim c.state [
  | none ↦ raised attribute_error
  | some st ↦ container_log api pod c.name st
]

-- the `for` loop, with `pod_logs` so far
append_logs : Api → String → String → List Container → Result String
unfolding add_container
append_logs api pod pod_logs [] = ok pod_logs
append_logs api pod pod_logs (c ∷ cs) =
    bind_result (add_container api pod c)
      (λ log. append_logs api pod (concat (pod_logs ∷ log ∷ [])) cs)

-- both `except` clauses return None
abbrev or_none : Result String → Option String
or_none (ok logs) = some logs
or_none (raised e) = none

unfoldable pub get_containers_logs : Api → Pod → Option String
unfolding append_logs container_statuses
get_containers_logs api pod = or_none (append_logs api pod.name "" (container_statuses pod))

-- The literal text "{message}" is what the code appends: the string is no f-string.
add_deadline : Option String → Option String → Option String
add_deadline none logs = logs
add_deadline (some reason) logs =
    if reason == "DeadlineExceeded"
    then some (concat (elim logs [ none ↦ "" | some l ↦ l ] ∷ "\n{message}\n" ∷ []))
    else logs

pod_logs : Api → Pod → Option String
unfolding get_containers_logs add_deadline
pod_logs api pod = add_deadline pod.reason (get_containers_logs api pod)

-- `job_pod` among the keyword arguments, and the assertion on it
logs_of_pod : Api → String → Pod → Result (Option String)
unfolding pod_logs
logs_of_pod api backend_job_id pod =
    if pod.job_name == backend_job_id then ok (pod_logs api pod) else raised assertion_error

logs_of_pods : Api → List Pod → Result (Option String)
unfolding pod_logs
logs_of_pods api [] = ok none
logs_of_pods api (pod ∷ pods) = ok (pod_logs api pod)

unfoldable pub get_logs : Api → String → Option Pod → Result (Option String)
unfolding logs_of_pod logs_of_pods
get_logs api backend_job_id (some pod) = logs_of_pod api backend_job_id pod
get_logs api backend_job_id none = bind_result (api.list_pods backend_job_id) (logs_of_pods api)

-- The assertion holds for a pod under its own job name, and nothing else raises.
pub get_logs-pod :
    (api : Api) (pod : Pod)
    → (logs : Option String) × (get_logs api pod.job_name (some pod) ≡ ok logs)
unfolding get_logs logs_of_pod
get_logs-pod api pod = (pod_logs api pod, rw eq_refl)
