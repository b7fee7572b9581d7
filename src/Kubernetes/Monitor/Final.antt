-- ===== src/Kubernetes/Monitor/Final.antt =====
-- Proofs on JobMonitorKubernetes.watch_jobs (reana_job_controller/job_monitor.py): jobs with a final
-- status, and events whose pod has no list of conditions.
use reana_job_controller.Prelude.{
  Bool, Bool-cases, List, String, [], inl, inr, some, some_inj, sym, ◌∙◌, ◌∷◌, ◌≡◌, none, true,
}
use reana_job_controller.Text.{}
use reana_job_controller.Dict.{Dict, lookup}
use reana_job_controller.Dict.Laws.{}
use reana_job_controller.Python.{
  for_each, Action, Result, continue, handle, ok, pure, raised, type_error,
}
use reana_job_controller.JobDb.{Job, State}
use reana_job_controller.JobDb.Laws.{}
use reana_job_controller.Kubernetes.{Api, Pod}
use reana_job_controller.Kubernetes.Status.{get_job_status}
use reana_job_controller.Kubernetes.Logs.{get_logs-pod}
use reana_job_controller.Kubernetes.Monitor.{
  handle_event, should_process_job, watch_jobs, watch_stream, log_disruption, log_failure,
  process_job,
}
use reana_job_controller.Kubernetes.Monitor.Remaining.{IsSound}
use reana_job_controller.Kubernetes.Monitor.Confined.{}
use reana_job_controller.Kubernetes.Monitor.Processing.{IsFinal, process_job-Confined}
use reana_job_controller.Kubernetes.Monitor.Once.{should_process_job-Stands, Stands-any}

-- The database is sound and holds `job` under `k`.
abbrev Keeps : String → Job → Dict Job → Type 0
Keeps k job db = IsSound db × (lookup k db ≡ some job)

module _ (api : Api) (should_cleanup : String → Bool) (k : String) (job : Job)
    (final : IsFinal job) where
  handle_event-Keeps :
      (pod : Pod) (s : State)
      → Keeps k job s.job_db
      → Keeps k job (handle_event api should_cleanup pod s).1.job_db
  unfolding handle_event
  handle_event-Keeps pod s (v, found) = elim (Bool-cases (should_process_job pod s.job_db)) [
    | inr ignored ↦ rw ignored (v, found)
    | inl h ↦
        let (id, st, known, completed) = should_process_job-Stands pod s.job_db v h in
        let t = (process_job-Confined api should_cleanup pod).at s v (Stands-any st) in
        rw h (
          t.sound,
          t.others k (λ p. cc (some_inj (sym found ∙ rw (← p) at st.found), final, st.holds))
              ∙ found,
        )
  ]

  continue-Keeps :
      (r : Result (Unit {0})) (m : Action State (Unit {0})) (s : State)
      → Keeps k job (m s).1.job_db
      → Keeps k job s.job_db
      → Keeps k job (continue r (λ _. m) s).1.job_db
  continue-Keeps (ok a) m s after h = after
  continue-Keeps (raised e) m s after h = h

  handle-Keeps :
      (r : Result (Unit {0})) (s : State)
      → Keeps k job s.job_db
      → Keeps k job (handle r (λ e. pure tt) s).1.job_db
  handle-Keeps (ok a) s h = h
  handle-Keeps (raised e) s h = h

  for_each-Keeps :
      (pods : List Pod) (s : State)
      → Keeps k job s.job_db
      → Keeps k job (for_each pods (handle_event api should_cleanup) s).1.job_db
  unfolding for_each
  for_each-Keeps [] s h = h
  for_each-Keeps (pod ∷ pods) s h =
      let (r, s') = handle_event api should_cleanup pod s in
      continue-Keeps r (for_each pods (handle_event api should_cleanup)) s'
        (for_each-Keeps pods s' (handle_event-Keeps pod s h)) (handle_event-Keeps pod s h)

  watch_stream-Keeps :
      (pods : List Pod) (s : State)
      → Keeps k job s.job_db
      → Keeps k job (watch_stream api should_cleanup pods s).1.job_db
  unfolding watch_stream
  watch_stream-Keeps pods s h =
      let (r, s') = for_each pods (handle_event api should_cleanup) s in
      handle-Keeps r s' (for_each-Keeps pods s h)

  watch_jobs-Keeps :
      (streams : List (List Pod)) (s : State)
      → Keeps k job s.job_db
      → Keeps k job (watch_jobs api should_cleanup streams s).job_db
  unfolding watch_jobs
  watch_jobs-Keeps [] s h = h
  watch_jobs-Keeps (pods ∷ streams) s h =
      watch_jobs-Keeps streams (watch_stream api should_cleanup pods s).1
        (watch_stream-Keeps pods s h)

-- Whatever pod events the API server streams, in whatever order and however the calls to the API
-- end, a job that has a final status stays in JOB_DB exactly as it is, logs included, and JOB_DB
-- stays sound.
pub watch_jobs-final :
    (api : Api) (should_cleanup : String → Bool) (streams : List (List Pod)) (s : State)
    (k : String) (job : Job)
    → IsSound s.job_db
    → lookup k s.job_db ≡ some job
    → IsFinal job
    → let after = (watch_jobs api should_cleanup streams s).job_db in
      IsSound after × (lookup k after ≡ some job)
watch_jobs-final api should_cleanup streams s k job v found final =
    watch_jobs-Keeps api should_cleanup k job final streams s (v, found)

-- An event of a failed pod that has no list of conditions is not recorded: log_disruption raises
-- before the logs and the status are stored, and the state is left as it was.
pub handle_event-conditions_none :
    (api : Api) (should_cleanup : String → Bool) (pod : Pod) (s : State)
    → IsSound s.job_db
    → should_process_job pod s.job_db ≡ true
    → get_job_status pod ≡ some "failed"
    → pod.conditions ≡ none
    → handle_event api should_cleanup pod s ≡ (raised type_error, s)
unfolding handle_event process_job log_failure log_disruption
handle_event-conditions_none api should_cleanup pod s v h failed absent =
    let (id, st, known, completed) = should_process_job-Stands pod s.job_db v h in
    let (logs, read) = get_logs-pod api pod in simp (h, known, failed, read, absent)
