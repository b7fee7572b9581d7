-- ===== src/Kubernetes/Monitor/Processing.antt =====
-- Proofs on the processing of one event (reana_job_controller/job_monitor.py): which job is written.
use reana_job_controller.Prelude.{
  Bool, Option, String, [], one_of, refl, some, sym, true, ◌++◌, ◌∙◌, ◌∷◌, ◌≡◌,
}
use reana_job_controller.Text.{}
use reana_job_controller.Dict.{Dict, insert, lookup}
use reana_job_controller.Dict.Laws.{lookup-insert_ne, lookup-insert_self}
use reana_job_controller.Python.{}
use reana_job_controller.JobDb.{
  Job, State, call, mark_deleted, modify_job, session_logs, session_status, store_job_logs,
  update_job_status,
}
use reana_job_controller.JobDb.Laws.{store_job_logs-known, update_job_status-known}
use reana_job_controller.Kubernetes.{Api, Pod, stop}
use reana_job_controller.Kubernetes.Status.{}
use reana_job_controller.Kubernetes.Logs.{}
use reana_job_controller.Kubernetes.Monitor.{
  clean_after, clean_job, final_statuses, process_job, store_result,
}
use reana_job_controller.Kubernetes.Monitor.Remaining.{IsSound, Stands}
use reana_job_controller.Kubernetes.Monitor.Confined.{
  Confined, Confined-bind, Confined-call, Confined-modify_job, Confined-with_id, Touches,
  confined_rules, insert-IsSound,
}

abbrev pub IsFinal : Job → Type 0
IsFinal job = one_of job.status final_statuses ≡ true

-- nothing is asked of the job
abbrev pub AnyJob : Job → Type 0
AnyJob job = Unit

module _ {P : Job → Type 0} {b id : String}
    (on_log : (job : Job) (logs : Option String) → P job → P (record job { log = logs }))
    (on_deleted : (job : Job) → P job → P (record job { deleted = true })) where
  store_job_logs-Confined : (logs : Option String) → Confined P b id (store_job_logs id logs)
  unfolding store_job_logs
  store_job_logs-Confined logs =
      Confined-bind (modify_job id (λ job. record job { log = logs }))
        (λ _. call (session_logs id logs))
        (Confined-modify_job (λ job. record job { log = logs }) (λ job. refl) (λ job. refl)
          (λ job h. on_log job logs h))
        (λ _. Confined-call (session_logs id logs))

  mark_deleted-Confined : Confined P b id (mark_deleted id)
  unfolding mark_deleted
  mark_deleted-Confined =
      Confined-modify_job (λ job. record job { deleted = true }) (λ job. refl) (λ job. refl)
        on_deleted

  module _ (api : Api) (should_cleanup : String → Bool) where
    clean_job-Confined : Confined P b id (clean_job api should_cleanup b)
    unfolding clean_job stop
    clean_job-Confined = search (confined_rules, mark_deleted-Confined)

any_on_log : (job : Job) (logs : Option String) → AnyJob job → AnyJob (record job { log = logs })
any_on_log job logs h = tt

any_on_deleted : (job : Job) → AnyJob job → AnyJob (record job { deleted = true })
any_on_deleted job h = tt

module _ (api : Api) (should_cleanup : String → Bool) {b id : String} where
  update_job_status-Confined :
      (status : String) → Confined AnyJob b id (update_job_status id status)
  unfolding update_job_status
  update_job_status-Confined status =
      Confined-bind (modify_job id (λ job. record job { status = status }))
        (λ _. call (session_status id status))
        (Confined-modify_job (λ job. record job { status = status }) (λ job. refl) (λ job. refl)
          (λ job h. tt))
        (λ _. Confined-call (session_status id status))

  store_result-Confined :
      (logs : Option String) (status : String)
      → Confined AnyJob b id (store_result api should_cleanup id b logs status)
  unfolding store_result
  store_result-Confined logs status =
      search
        (
          confined_rules,
          store_job_logs-Confined any_on_log any_on_deleted logs,
          update_job_status-Confined,
          clean_job-Confined any_on_log any_on_deleted api should_cleanup,
        )
        depth 8

module _ (api : Api) (should_cleanup : String → Bool) (pod : Pod) {id : String} where
  -- An event of a pod touches no job but the one of the pod's backend job id.
  pub process_job-Confined : Confined AnyJob pod.job_name id (process_job api should_cleanup pod)
  unfolding process_job
  process_job-Confined = Confined-with_id _ (search (confined_rules, store_result-Confined) depth 8)

  clean_after-IsFinal :
      (status : String)
      → Confined IsFinal pod.job_name id (clean_after api should_cleanup status pod.job_name)
  unfolding clean_after
  clean_after-IsFinal status = search (
    confined_rules,
    clean_job-Confined {P = IsFinal} (λ job logs h. h) (λ job h. h) api should_cleanup,
  )

  -- Both writes succeed, and the job is left with the status that was given.
  pub store_result-IsFinal :
      (logs : Option String) (status : String) (s : State)
      → one_of status final_statuses ≡ true
      → IsSound s.job_db
      → Stands AnyJob pod.job_name id s.job_db
      → Touches IsFinal pod.job_name id s.job_db
          (store_result api should_cleanup id pod.job_name logs status s).1.job_db
  unfolding store_result
  store_result-IsFinal logs status s final v st =
      let j1 : Job = record st.job { log = logs } in
      let j2 : Job = record j1 { status = status } in
      let db1 : Dict Job = insert id j1 s.job_db in
      let s1 : State = record { job_db = db1; calls = s.calls ++ session_logs id logs ∷ [] } in
      let s2 : State = record {
        job_db = insert id j2 db1;
        calls = s1.calls ++ session_status id status ∷ [];
      } in
      let v1 : IsSound db1 = insert-IsSound id st.job j1 s.job_db st.found refl refl v in
      let found1 : lookup id db1 ≡ some j1 = lookup-insert_self id j1 s.job_db in
      let v2 : IsSound s2.job_db = insert-IsSound id j1 j2 db1 found1 refl refl v1 in
      let stands2 : Stands IsFinal pod.job_name id s2.job_db = record {
        job = j2;
        found = lookup-insert_self id j2 db1;
        here = st.here;
        named = st.named;
        holds = final;
      } in
      let done = (clean_after-IsFinal status).at s2 v2 stands2 in
      let whole : Touches IsFinal pod.job_name id s.job_db
          (clean_after api should_cleanup status pod.job_name s2).1.job_db =
        record {
          sound = done.sound;
          stands = done.stands;
          others = λ k n.
              done.others k n
              ∙ lookup-insert_ne id k j2 db1 (λ p. n (sym p))
              ∙ lookup-insert_ne id k j1 s.job_db (λ p. n (sym p));
        } in
      rw (store_job_logs-known id s st.found logs)
        (rw (update_job_status-known id s1 {job = j1} found1 status) whole)
