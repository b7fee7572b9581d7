-- ===== src/Kubernetes/Monitor/Once.antt =====
-- Proofs on one event of JobMonitorKubernetes.watch_jobs (reana_job_controller/job_monitor.py).
use mathlib.Core.Path.{subst}
use reana_job_controller.Prelude.{
  Bool, Bool-cases, List, Option, Option-cases, String, arith, false, inl, inr, none, one_of, refl,
  some, some_inj, sym, true, ◌&&◌, ◌==◌, ◌∙◌, ◌≡◌,
}
use reana_job_controller.Text.{}
use reana_job_controller.Dict.{Dict, has_key, lookup}
use reana_job_controller.Dict.Laws.{has_key_lem}
use reana_job_controller.Python.{ok}
use reana_job_controller.JobDb.{Job, State}
use reana_job_controller.JobDb.Laws.{}
use reana_job_controller.Kubernetes.{Api, Condition, Pod}
use reana_job_controller.Kubernetes.Status.{get_job_status}
use reana_job_controller.Kubernetes.Logs.{get_logs-pod}
use reana_job_controller.Kubernetes.Monitor.{
  final_statuses, get_reana_job_id, get_remaining_jobs, handle_event, is_completed, log_disruption,
  log_failure, process_job, should_process_job, store_result,
}
use reana_job_controller.Kubernetes.Monitor.Remaining.{
  IsSound, Remains-Stands, Stands, remaining-Remains,
}
use reana_job_controller.Kubernetes.Monitor.Confined.{Touches}
use reana_job_controller.Kubernetes.Monitor.Processing.{AnyJob, IsFinal, store_result-IsFinal}

abbrev pub IsOpen : Job → Type 0
IsOpen job = one_of job.status final_statuses ≡ false

&&-true : {a b : Bool} → (a && b) ≡ true → (a ≡ true) × (b ≡ true)
&&-true h = ground arith

has_key→lookup :
    (k : String) (m : Dict String) → has_key k m ≡ true → (v : String) × (lookup k m ≡ some v)
has_key→lookup k m h = elim (Option-cases (lookup k m)) [
  | inl n ↦ cc (has_key_lem k m, n)
  | inr found ↦ found
]

is_completed→status :
    (o : Option String)
    → is_completed o ≡ true
    → (status : String) × (o ≡ some status) × (one_of status final_statuses ≡ true)
is_completed→status none h = cc
is_completed→status (some status) h = (status, refl, ground arith)

-- The job that an event is processed for is the one Kubernetes job of its backend job id, and its
-- status is not final.
pub should_process_job-Stands :
    (pod : Pod) (db : Dict Job)
    → IsSound db
    → should_process_job pod db ≡ true
    → (id : String) × Stands IsOpen pod.job_name id db
      × (get_reana_job_id pod.job_name db ≡ ok id)
      × ((status : String) × (get_job_status pod ≡ some status)
          × (one_of status final_statuses ≡ true))
unfolding should_process_job
should_process_job-Stands pod db v h =
    let (remains, completed) = &&-true h in
    let (x, e) = has_key→lookup pod.job_name (get_remaining_jobs final_statuses db) remains in
    let (stands, known) =
      Remains-Stands pod.job_name x db v final_statuses
        (remaining-Remains pod.job_name x db v final_statuses e) in
    (x, stands, known, is_completed→status (get_job_status pod) completed)

module _ (api : Api) (should_cleanup : String → Bool) (pod : Pod) (s : State) where
  -- What is written for a processed event, when the pod has a list of conditions.
  process_job-known :
      (id status : String) (cs : List Condition)
      → get_reana_job_id pod.job_name s.job_db ≡ ok id
      → get_job_status pod ≡ some status
      → pod.conditions ≡ some cs
      → (logs : Option String) × (process_job api should_cleanup pod s
          ≡ store_result api should_cleanup id pod.job_name logs status s)
  unfolding process_job log_failure log_disruption
  process_job-known id status cs known completed listed =
      let (logs, read) = get_logs-pod api pod in
      (
        logs,
        elim (Bool-cases (status == "failed")) [
          | inl f ↦ simp (known, completed, listed, read, f)
          | inr f ↦ simp (known, completed, listed, read, f)
        ],
      )

pub Stands-any :
    {P : Job → Type 0} {b id : String} {db : Dict Job} → Stands P b id db → Stands AnyJob b id db
Stands-any st = record {
  job = st.job;
  found = st.found;
  here = st.here;
  named = st.named;
  holds = tt;
}

open-final :
    {b i j : String} {db : Dict Job} → IsSound db → Stands IsOpen b i db → Stands IsFinal b j db → ⊥
open-final {b} {i} {j} {db} v o f =
    let p : i ≡ j =
      v.unique i j o.job f.job o.found f.found o.here f.here (o.named ∙ sym f.named) in
    let q : o.job ≡ f.job = some_inj (sym o.found ∙ rw (← p) at f.found) in cc (q, o.holds, f.holds)

-- An event that is to be processed, for a pod with a list of conditions, gives the one job of the
-- pod's backend job id a final status, changes no other job and keeps JOB_DB sound; no later event
-- of a pod of that backend job id is processed, whatever state that pod is in.
pub handle_event_once :
    (api : Api) (should_cleanup : String → Bool) (pod : Pod) (cs : List Condition) (s : State)
    → IsSound s.job_db
    → should_process_job pod s.job_db ≡ true
    → pod.conditions ≡ some cs
    → let after = (handle_event api should_cleanup pod s).1.job_db in
      ((id : String) × Touches IsFinal pod.job_name id s.job_db after)
      × ((later : Pod) → later.job_name ≡ pod.job_name → should_process_job later after ≡ false)
unfolding handle_event
handle_event_once api should_cleanup pod cs s v h listed =
    let (id, st, known, (status, completed, final)) = should_process_job-Stands pod s.job_db v h in
    let (logs, done) =
      process_job-known api should_cleanup pod s id status cs known completed listed in
    let t : Touches IsFinal pod.job_name id s.job_db
        (process_job api should_cleanup pod s).1.job_db =
      rw done (store_result-IsFinal api should_cleanup pod logs status s final v (Stands-any st)) in
    rw h (
      (id, t),
      λ later same.
          elim (Bool-cases
            (should_process_job later (process_job api should_cleanup pod s).1.job_db)) [
              | inr never ↦ never
              | inl again ↦
                  let (other, o, known', completed') =
                    should_process_job-Stands later _ t.sound again in
                  absurd (
                    open-final t.sound
                      (subst
                        (λ n. Stands IsOpen n other (process_job api should_cleanup pod s).1.job_db)
                        same o)
                      t.stands)
            ],
    )
