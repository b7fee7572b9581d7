-- ===== src/Htcondor.antt =====
-- JobMonitorHTCondorCERN of reana_job_controller/job_monitor.py. The schedd that it queries, the
-- history of the schedd and the transfer of outputs are not part of the repository: they are the
-- fields of `Schedd`. The futures of the executor are awaited at once, so a submitted call is a call.
pub mod Frame
pub mod Query
pub mod Results
pub mod Submission
pub mod Tests
pub mod Visit
use reana_job_controller.Prelude.{
  Bool, List, Option, String, [], false, if◌then◌else◌, none, not, one_of, some, ℕ, ◌&&◌, ◌==◌,
  ◌||◌, ◌∷◌, nat_eq,
}
use reana_job_controller.Prelude.Int.{is_zero, ℤ}
use reana_job_controller.Text.{concat}
use reana_job_controller.Dict.{Dict, keys}
use reana_job_controller.Python.{
  Action, Result, continue, gets, lift, ok, pure, raised, try_except, ◌>>=◌, ◌>>◌,
}
use reana_job_controller.JobDb.{
  Job, State, call, mark_deleted, or_key_error, sleep, store_job_logs, update_job_status,
  spool_output,
}
use reana_job_controller.JobDb
use reana_job_controller.Managers.{Outside}
use reana_job_controller.Managers
use reana_job_controller.Managers.Backends.{htcondorcern}

-- A ClassAd of the query, with the attributes of its projection.
pub record Ad : Type 0 where
  pub cluster_id : String
  pub job_status : Option ℕ
  pub exit_code : Option ℤ
  pub exit_status : Option ℤ
  -- int(condor_job["HoldReasonCode"])
  pub hold_reason_code : Option ℕ

pub record Schedd : Type 0 where
  -- query_condor_jobs: the ads that the iterator yields before it ends or raises
  pub query : List String → Result (List Ad)
  -- find_job_in_history, and str() of the ad
  pub history : String → Result (Option String)
  -- schedd.retrieve
  pub retrieve : String → Result (Unit {0})
  pub outside : Outside

-- condorJobStatus["Completed"] and condorJobStatus["Held"]
abbrev pub completed : ℕ
completed = 4

abbrev pub held : ℕ
held = 5

abbrev pub statuses_to_skip : List String
statuses_to_skip = "finished" ∷ "failed" ∷ "stopped" ∷ []

-- the ids for the query
unfoldable pub queried_ids : Dict Job → List String
queried_ids [] = []
queried_ids ((id, job) ∷ db) =
    let rest = queried_ids db in
    if not job.deleted && job.compute_backend == "htcondorcern"
    then job.backend_job_id ∷ rest
    else rest

unfoldable pub is_skipped : Job → Bool
is_skipped job =
    job.deleted || not (job.compute_backend == "htcondorcern") || one_of job.status statuses_to_skip

-- next(job for job in condor_jobs if job["ClusterId"] == ...): condor_jobs is an iterator, so the
-- ads up to the one that is found, or all of them, are used up.
unfoldable pub next_ad : String → List Ad → Option Ad × List Ad
next_ad backend_job_id [] = (none, [])
next_ad backend_job_id (ad ∷ ads) =
    let rest = next_ad backend_job_id ads in
    if ad.cluster_id == backend_job_id then (some ad, ads) else rest

abbrev or_else : Option ℤ → Option ℤ → Option ℤ
or_else none default = default
or_else (some code) default = some code

-- condor_job.get("ExitCode", condor_job.get("ExitStatus"))
unfoldable pub exit_of : Ad → Option ℤ
exit_of ad = or_else ad.exit_code ad.exit_status

is_success : Option ℤ → Bool
is_success none = false
is_success (some code) = is_zero code

unfoldable pub completed_status : Ad → String
unfolding is_success
completed_status ad = if is_success (exit_of ad) then "finished" else "failed"

in_history : String → Option String → Action State (Unit {0})
in_history id none = pure tt
in_history id (some ad) = do
  update_job_status id "failed"
  store_job_logs id (some (concat ("Job was found in history. " ∷ ad ∷ [])))

is_kept_on_hold : ℕ → Bool
is_kept_on_hold code = nat_eq code 35 || nat_eq code 16

module _ (schedd : Schedd) where
  unfoldable pub not_in_schedd : String → Job → Action State (Unit {0})
  unfolding in_history
  not_in_schedd id job = do found ← lift (schedd.history job.backend_job_id); in_history id found

  unfoldable pub complete : String → Job → Ad → Action State (Unit {0})
  complete id job ad = do
    update_job_status id (completed_status ad)
    call (spool_output job.backend_job_id)
    lift (schedd.retrieve job.backend_job_id)
    logs ←
        lift
          (Managers.get_logs schedd.outside htcondorcern job.backend_job_id job.workflow_workspace)
    store_job_logs id logs
    mark_deleted id

  release : String → Ad → ℕ → Action State (Unit {0})
  unfolding is_kept_on_hold
  release id ad code =
      if is_kept_on_hold code
      then pure tt
      else do Managers.stop schedd.outside htcondorcern ad.cluster_id; mark_deleted id

  unfoldable pub hold : String → Ad → Action State (Unit {0})
  unfolding release
  hold id ad = do
    code ← lift (or_key_error "HoldReasonCode" ad.hold_reason_code)
    release id ad code

  settle_status : String → Job → Ad → ℕ → Action State (Unit {0})
  unfolding complete hold
  settle_status id job ad status =
      if nat_eq status completed
      then complete id job ad
      else if nat_eq status held
      then hold id ad
      else pure tt

  unfoldable pub settle : String → Job → Option Ad → Action State (Unit {0})
  unfolding not_in_schedd settle_status
  settle id job none = not_in_schedd id job
  settle id job (some ad) = do
    status ← lift (or_key_error "JobStatus" ad.job_status)
    settle_status id job ad status

  -- One round of the loop over JOB_DB, and the ads that are left.
  round_of : String → Result Job → List Ad → State → Result (List Ad) × State
  unfolding is_skipped next_ad settle
  round_of id (raised e) ads s = (raised e, s)
  round_of id (ok job) ads s =
      if is_skipped job
      then (ok ads, s)
      else let (ad, left) = next_ad job.backend_job_id ads in (do settle id job ad; pure left) s

  unfoldable pub watch_job : String → List Ad → Action State (List Ad)
  unfolding round_of
  watch_job id ads s = round_of id (JobDb.get_job id s.job_db) ads s

  unfoldable pub watch_all : List String → List Ad → Action State (List Ad)
  unfolding watch_job
  watch_all [] ads s = (ok ads, s)
  watch_all (id ∷ ids) ads s =
      let (r, s') = watch_job id ads s in continue r (λ left. watch_all ids left) s'

  -- One round of `while True`, which sleeps whether it raised or not.
  unfoldable pub watch_pass : Action State (Unit {0})
  unfolding queried_ids watch_all
  watch_pass =
      try_except
        (do
          db ← gets (λ s. s.job_db)
          ads ← lift (schedd.query (queried_ids db))
          watch_all (keys db) ads
          call (sleep 120))
        (λ e. call (sleep 120))

-- The passes one after another, each with what the schedd answers in it.
unfoldable pub watch_jobs : List Schedd → State → State
watch_jobs [] s = s
watch_jobs (schedd ∷ later) s = watch_jobs later (watch_pass schedd s).1
