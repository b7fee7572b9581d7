-- ===== src/Htcondor/Visit.antt =====
-- JobMonitorHTCondorCERN of reana_job_controller/job_monitor.py: the specification of the visit to a
-- job that the monitor looks after.
pub mod Ends
use reana_job_controller.Prelude.{
  All, ◌++◌, List, String, some, none, ◌≡◌, ◌∷◌, Option, ℕ, ◌≢◌, ◌⊎◌, true, zero, suc, [],
}
use reana_job_controller.Prelude.Int.{ℤ, pos, negsuc}
use reana_job_controller.Text.{concat}
use reana_job_controller.Dict.{Dict, insert}
use reana_job_controller.Python.{Exception, Result, ok, raised, key_error}
use reana_job_controller.JobDb.{Job}
use reana_job_controller.JobDb
use reana_job_controller.Managers
use reana_job_controller.Managers.Backends.{htcondorcern}
use reana_job_controller.Htcondor.{Ad, Schedd}

-- The search of the ad with a cluster id among the remaining ads: what it finds, and the ads that
-- remain for the jobs behind in JOB_DB. The ads before the one that it finds are used up, and after
-- a failed search all ads are.
pub data Searched (b : String) : List Ad → Option Ad → List Ad → Type 0 where
  hit :
      (front : List Ad) {left : List Ad} {ad : Ad}
      → All (λ x. x.cluster_id ≢ b) front
      → ad.cluster_id ≡ b
      → Searched b (front ++ ad ∷ left) (some ad) left
  miss : {ads : List Ad} → All (λ x. x.cluster_id ≢ b) ads → Searched b ads none []

-- The status for a pair of ExitCode and ExitStatus: finished if ExitCode is 0, or if there is none
-- and ExitStatus is 0; failed for any other exit code, and if the ad has none.
abbrev pub ended_as : Option ℤ → Option ℤ → String
ended_as (some (pos zero)) status = "finished"
ended_as (some (pos (suc n))) status = "failed"
ended_as (some (negsuc n)) status = "failed"
ended_as none (some (pos zero)) = "finished"
ended_as none (some (pos (suc n))) = "failed"
ended_as none (some (negsuc n)) = "failed"
ended_as none none = "failed"

abbrev pub read_logs : Schedd → Job → Result (Option String)
read_logs schedd job =
    Managers.get_logs schedd.outside htcondorcern job.backend_job_id job.workflow_workspace

-- The ends of a visit, each with what the ad says and what the schedd answers, the outcome with the
-- ads that are left, and JOB_DB afterwards.
pub data Visited (schedd : Schedd) (id : String) (job : Job) (left : List Ad) (db : Dict Job)
    : Option Ad → Result (List Ad) × Dict Job → Type 0 where
  history_raised :
      {e : Exception}
      → schedd.history job.backend_job_id ≡ raised e
      → Visited schedd id job left db none (raised e, db)
  unknown :
      schedd.history job.backend_job_id ≡ ok none → Visited schedd id job left db none (ok left, db)
  known :
      {old_ad : String}
      → schedd.history job.backend_job_id ≡ ok (some old_ad)
      → Visited schedd id job left db none (
        ok left,
        insert id
            (record job {
              status = "failed";
              log = some (concat ("Job was found in history. " ∷ old_ad ∷ []));
            })
            db,
      )
  no_status :
      {ad : Ad}
      → ad.job_status ≡ none
      → Visited schedd id job left db (some ad) (raised (key_error "JobStatus"), db)
  not_retrieved :
      {ad : Ad} {e : Exception}
      → ad.job_status ≡ some 4
      → schedd.retrieve job.backend_job_id ≡ raised e
      → Visited schedd id job left db
          (some ad)
          (raised e, insert id (record job { status = ended_as ad.exit_code ad.exit_status }) db)
  not_read :
      {ad : Ad} {e : Exception}
      → ad.job_status ≡ some 4
      → schedd.retrieve job.backend_job_id ≡ ok tt
      → read_logs schedd job ≡ raised e
      → Visited schedd id job left db
          (some ad)
          (raised e, insert id (record job { status = ended_as ad.exit_code ad.exit_status }) db)
  over :
      {ad : Ad} {logs : Option String}
      → ad.job_status ≡ some 4
      → schedd.retrieve job.backend_job_id ≡ ok tt
      → read_logs schedd job ≡ ok logs
      → Visited schedd id job left db (some ad) (
        ok left,
        insert id
            (record job {
              status = ended_as ad.exit_code ad.exit_status;
              log = logs;
              deleted = true;
            })
            db,
      )
  no_reason :
      {ad : Ad}
      → ad.job_status ≡ some 5
      → ad.hold_reason_code ≡ none
      → Visited schedd id job left db (some ad) (raised (key_error "HoldReasonCode"), db)
  kept_on_hold :
      {ad : Ad} {code : ℕ}
      → ad.job_status ≡ some 5
      → ad.hold_reason_code ≡ some code
      → (code ≡ 35) ⊎ (code ≡ 16)
      → Visited schedd id job left db (some ad) (ok left, db)
  removed :
      {ad : Ad} {code : ℕ}
      → ad.job_status ≡ some 5
      → ad.hold_reason_code ≡ some code
      → code ≢ 35
      → code ≢ 16
      → Visited schedd id job left db
          (some ad)
          (ok left, insert id (record job { deleted = true }) db)
  going :
      {ad : Ad} {status : ℕ}
      → ad.job_status ≡ some status
      → status ≢ 4
      → status ≢ 5
      → Visited schedd id job left db (some ad) (ok left, db)
