-- ===== src/Kubernetes/Status.antt =====
-- JobMonitorKubernetes.get_job_status of reana_job_controller/job_monitor.py.
use reana_job_controller.Prelude.{
  All, Bool, List, Option, String, [], contains, if◌then◌else◌, none, some, true, ◌==◌, ◌||◌, ◌∷◌,
  ◌≡◌, ◌≢◌, ◌⊎◌,
}
use reana_job_controller.Kubernetes.{Container, Detail, Pod, container_statuses}

abbrev reason_of : Option Detail → Option String
reason_of none = none
reason_of (some d) = d.reason

-- container.state.terminated.reason; an AttributeError on the way gives None
abbrev pub termination_reason : Container → Option String
termination_reason c = elim c.state [ none ↦ none | some st ↦ reason_of st.terminated ]

abbrev pub waiting_reason : Container → Option String
waiting_reason c = elim c.state [ none ↦ none | some st ↦ reason_of st.waiting ]

-- the status after one container of a succeeded pod
abbrev after_success : Option String → Option String → Option String
after_success none status = status
after_success (some reason) status =
    if reason == "" then status else if reason == "Completed" then status else some "failed"

-- the loop over the containers of a succeeded pod
scan_succeeded : List Container → Option String → Option String
scan_succeeded [] status = status
scan_succeeded (c ∷ cs) status = scan_succeeded cs (after_success (termination_reason c) status)

abbrev after_wait : Option String → Option String → Option String
after_wait none status = status
after_wait (some reason) status =
    if reason == ""
    then status
    else if contains reason "ErrImagePull"
    then some "failed"
    else if contains reason "InvalidImageName"
    then some "failed"
    else if contains reason "CreateContainerConfigError"
    then some "failed"
    else status

-- the loop over the containers of a pending pod
scan_pending : List Container → Option String → Option String
scan_pending [] status = status
scan_pending (c ∷ cs) status = scan_pending cs (after_wait (waiting_reason c) status)

-- `if not status: status = finished`
abbrev or_finished : Option String → Option String
or_finished none = some "finished"
or_finished (some status) = if status == "" then some "finished" else some status

unfoldable pub get_job_status : Pod → Option String
unfolding scan_succeeded scan_pending container_statuses
get_job_status pod =
    let containers = container_statuses pod in
    if pod.phase == "Succeeded"
    then or_finished (scan_succeeded containers none)
    else if pod.phase == "Failed"
    then some "failed"
    else if pod.phase == "Pending"
    then scan_pending containers none
    else none

-- A container of a succeeded pod counts as successful.
abbrev pub EndedWell : Container → Type 0
EndedWell c =
    (termination_reason c ≡ none)
    ⊎ (termination_reason c ≡ some "")
    ⊎ (termination_reason c ≡ some "Completed")

abbrev pub names_fault : String → Bool
names_fault reason =
    contains reason "ErrImagePull"
    || contains reason "InvalidImageName"
    || contains reason "CreateContainerConfigError"

-- A container of a pending pod waits for a reason that does not go away.
abbrev pub IsBroken : Container → Type 0
IsBroken c =
    (reason : String) × (waiting_reason c ≡ some reason)
    × (reason ≢ "")
    × (names_fault reason ≡ true)

abbrev pub NoneBroken : List Container → Type 0
NoneBroken = All (λ c. ¬ IsBroken c)

abbrev pub OtherPhase : String → Type 0
OtherPhase phase = (phase ≢ "Succeeded") × (phase ≢ "Failed") × (phase ≢ "Pending")
