-- ===== src/Slurm/Results.antt =====
-- Proofs on JobMonitorSlurmCERN (reana_job_controller/job_monitor.py): which jobs are written, and
-- what for each state.
use reana_job_controller.Prelude.{
  String, Bool, List, [], if◌then◌else◌, some, true, ◌∷◌, ◌≡◌, Bool-cases, inl, inr, Option, none,
  one_of, refl, sym, ◌++◌, ◌∙◌, arith, eq_iff, false,
}
use reana_job_controller.Dict.{Dict, IsDict, insert, lookup}
use reana_job_controller.Dict.Laws.{
  lookup-head, lookup-tail, insert-insert, insert-same, lookup-insert_self,
}
use reana_job_controller.Python.{for_each, Result, ok}
use reana_job_controller.JobDb.{Job, State, call, sleep, get_outputs, session_status}
use reana_job_controller.JobDb.Laws.{
  mark_deleted-known, store_job_logs-known, update_job_status-known,
}
use reana_job_controller.JobDb.Frame.{
  changes_rules, Changes, AllIds, Changes-for_ids, Guarded, Guarded-Watched, Guarded-refl,
  Guarded-trans, Respects-call, Respects-try_except, Watched, insert-AllIds,
}
use reana_job_controller.Kubernetes.Monitor.Remaining.{}
use reana_job_controller.Kubernetes.Monitor.{collect_remaining, is_remaining}
use reana_job_controller.JobDb
use reana_job_controller.JobDb.Laws.{
  mark_deleted-known, store_job_logs-known, update_job_status-known,
}
use reana_job_controller.Managers
use reana_job_controller.Managers.Backends.{slurmcern}
use reana_job_controller.Slurm.{
  Submitter, record_end, settle_state, watch_job, jobs_to_watch, statuses_to_skip, watch_jobs,
  watch_pass, failed_states, finished_states,
}

module _ (submitter : Submitter) {P : String → Type 0} where
  record_end-Changes : (id b status : String) → P id → Changes P (record_end submitter id b status)
  unfolding record_end
  record_end-Changes id b status allowed = search changes_rules depth 14

  settle_state-Changes :
      (id b state : String) → P id → Changes P (settle_state submitter id b state)
  unfolding settle_state
  settle_state-Changes id b state allowed = search (changes_rules, record_end-Changes) depth 8

  watch_job-Changes : (b id : String) → P id → Changes P (watch_job submitter (b, id))
  unfolding watch_job
  watch_job-Changes b id allowed = search (changes_rules, settle_state-Changes) depth 8

abbrev pub is_watched : Job → Bool
is_watched job = is_remaining "slurmcern" statuses_to_skip job

pub collect_remaining-AllIds :
    (P : String → Type 0) (db : Dict Job) (found : Dict String)
    → IsDict db
    → ((id : String) (job : Job) → lookup id db ≡ some job → is_watched job ≡ true → P id)
    → AllIds P found
    → AllIds P (collect_remaining "slurmcern" statuses_to_skip db found)
unfolding collect_remaining lookup
collect_remaining-AllIds P [] found d each all = all
collect_remaining-AllIds P ((j, v) ∷ db) found d each all =
    collect_remaining-AllIds P db (if is_watched v then insert v.backend_job_id j found else found)
      d.1 (λ id job there h. each id job (lookup-tail j id v job db d.0 there) h)
      (elim (Bool-cases (is_watched v)) [
        | inl watched ↦
            rw watched
              (insert-AllIds P v.backend_job_id j found (each j v (lookup-head j v db) watched) all)
        | inr other ↦ rw other all
      ])

module _ (submitter : Submitter) where
  watch_pass-Guarded :
      (s : State) → IsDict s.job_db → Guarded is_watched s.job_db (watch_pass submitter s).1.job_db
  unfolding watch_pass jobs_to_watch call
  watch_pass-Guarded s d =
      let loop : Changes (Watched is_watched s.job_db)
          (for_each (jobs_to_watch s.job_db) (watch_job submitter)) =
        Changes-for_ids (jobs_to_watch s.job_db) (watch_job submitter) (watch_job-Changes submitter)
          (collect_remaining-AllIds (Watched is_watched s.job_db) s.job_db [] d
            (λ id job found h. (job, found, h)) tt) in
      Guarded-Watched
        ((Respects-try_except _ (λ e. call (sleep 120)) loop (λ e. Respects-call (sleep 120))).at s)

-- The Slurm monitor, pass after pass, whatever the submit node answers in each and whichever calls
-- raise: no job of JOB_DB is added, removed or reordered, a job of another backend, a deleted job
-- and a job with a final status stay exactly as they are, and of the others the status, the logs
-- and the mark `deleted` change at most. JOB_DB is a dictionary.
pub watch_jobs-Guarded_slurm :
    (answers : List Submitter) (s : State)
    → IsDict s.job_db
    → Guarded is_watched s.job_db (watch_jobs answers s).job_db
unfolding watch_jobs
watch_jobs-Guarded_slurm [] s d = Guarded-refl s.job_db
watch_jobs-Guarded_slurm (submitter ∷ later) s d =
    let one = watch_pass-Guarded submitter s d in
    Guarded-trans one (watch_jobs-Guarded_slurm later (watch_pass submitter s).1 (one.dict d))

finished-not_failed :
    (state : String) → one_of state finished_states ≡ true → one_of state failed_states ≡ false
finished-not_failed state h =
    let same : state ≡ "COMPLETED" = ground (arith, eq_iff state "COMPLETED") in rw same refl

-- The status that a state of Slurm asks for, if it asks for one, written out here state by state:
-- one state is a success, ten are failures, and the others leave the job running or waiting.
abbrev pub end_of : String → Option String
end_of state =
    if one_of state ("COMPLETED" ∷ [])
    then some "finished"
    else if one_of state (
        "BOOT_FAIL" ∷ "CANCELLED" ∷ "DEADLINE" ∷ "FAILED" ∷ "NODE_FAIL" ∷ "OUT_OF_MEMORY"
        ∷ "PREEMPTED" ∷ "TIMEOUT" ∷ "SUSPENDED" ∷ "STOPPED" ∷ [])
    then some "failed"
    else none

abbrev pub ended : Job → Option String → Option String → Job
ended job none logs = job
ended job (some status) logs = record job { status = status; log = logs; deleted = true }

module _ (submitter : Submitter) (b id : String) (s : State) (job : Job) (logs : Option String)
    (found : lookup id s.job_db ≡ some job) (transferred : submitter.transfer ≡ ok tt)
    (read : Managers.get_logs submitter.outside slurmcern b job.workflow_workspace ≡ ok logs) where
  Settled : Option String → Result (Unit {0}) × State → Type 0
  Settled status outcome =
      (outcome.0 ≡ ok tt) × (outcome.1.job_db ≡ insert id (ended job status logs) s.job_db)

  record_end_lem : (status : String) → Settled (some status) (record_end submitter id b status s)
  unfolding Settled record_end call JobDb.get_job
  record_end_lem status =
      let j1 : Job = record job { status = status } in
      let j2 : Job = record j1 { deleted = true } in
      let s0 : State = record s { calls = s.calls ++ get_outputs ∷ [] } in
      let s1 : State = record {
        job_db = insert id j1 s.job_db;
        calls = s0.calls ++ session_status id status ∷ [];
      } in
      let s2 : State = record s1 { job_db = insert id j2 s1.job_db } in
      rw
        (
          transferred,
          update_job_status-known id s0 found status,
          mark_deleted-known id s1 (lookup-insert_self id j1 s.job_db),
          lookup-insert_self id j2 s1.job_db,
          read,
          store_job_logs-known id s2 (lookup-insert_self id j2 s1.job_db) logs,
        )
        (
          refl,
          insert-insert id j2 (record j2 { log = logs }) s1.job_db
              ∙ insert-insert id j1 (record j2 { log = logs }) s.job_db,
        )

  -- What one round of the Slurm monitor makes of a job of JOB_DB, when Slurm answers with a state,
  -- the outputs are transferred and the logs can be read: with COMPLETED the job is finished, and
  -- with BOOT_FAIL, CANCELLED, DEADLINE, FAILED, NODE_FAIL, OUT_OF_MEMORY, PREEMPTED, TIMEOUT,
  -- SUSPENDED or STOPPED it is failed, with its logs and marked as deleted both times; in any other
  -- state it is left as it is. No exception is raised.
  pub watch_job_lem :
      (state : String)
      → submitter.job_state b ≡ ok state
      → ((watch_job submitter (b, id) s).0 ≡ ok tt)
        × ((watch_job submitter (b, id) s).1.job_db
            ≡ insert id (ended job (end_of state) logs) s.job_db)
  unfolding watch_job settle_state Settled
  watch_job_lem state answered = elim (Bool-cases (one_of state finished_states)) [
    | inl finished ↦
        let (done, written) = record_end_lem "finished" in
        rw (answered, finished, finished-not_failed state finished, done) (refl, written)
    | inr going ↦ elim (Bool-cases (one_of state failed_states)) [
      | inl failed ↦ rw (answered, going, failed) (record_end_lem "failed")
      | inr other ↦ rw (answered, going, other) (refl, sym (insert-same id job s.job_db found))
    ]
  ]
