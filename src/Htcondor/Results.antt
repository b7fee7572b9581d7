-- ===== src/Htcondor/Results.antt =====
-- Proofs on JobMonitorHTCondorCERN (reana_job_controller/job_monitor.py): what the job of an ad is
-- left with after all later passes.
use reana_job_controller.Prelude.{
  List, String, [], false, inr, refl, some, ◌++◌, ◌∷◌, ◌≡◌, Bool-cases, ap, inl, true, ℕ, ◌∙◌, ◌≢◌,
  arith, nat_eq, ◌||◌,
}
use reana_job_controller.Prelude.Int.{}
use reana_job_controller.Text.{}
use reana_job_controller.Dict.{insert, lookup}
use reana_job_controller.Dict.Laws.{lookup-insert_self}
use reana_job_controller.Python.{◌>>=◌, Exception, pure, raised, ◌>>◌, lift}
use reana_job_controller.JobDb.{Job, State, call, or_key_error, stop_job}
use reana_job_controller.JobDb
use reana_job_controller.JobDb.Laws.{mark_deleted-known, update_job_status-known}
use reana_job_controller.JobDb.Frame.{}
use reana_job_controller.Htcondor.{
  Ad, Schedd, complete, completed, completed_status, is_skipped, next_ad, round_of, settle,
  settle_status, watch_job, held, watch_jobs, exit_of, hold, is_success, release, is_kept_on_hold,
}
use reana_job_controller.Htcondor.Visit.Ends.{stop_condor}
use reana_job_controller.Htcondor.Frame.{is_watched, watch_jobs-Guarded}

module _ (schedd : Schedd) (id : String) (s : State) (job : Job) (ads left : List Ad) (ad : Ad)
    (found : lookup id s.job_db ≡ some job) (watched : is_skipped job ≡ false)
    (chosen : next_ad job.backend_job_id ads ≡ (some ad, left)) where
  watch_job-settles : watch_job schedd id ads s ≡ (do settle schedd id job (some ad); pure left) s
  unfolding watch_job JobDb.get_job round_of
  watch_job-settles = rw (found, watched, chosen) refl

  module _ (ended : ad.job_status ≡ some completed) where
    settle-completed : settle schedd id job (some ad) ≡ complete schedd id job ad
    unfolding settle settle_status
    settle-completed =
        ap (λ o. lift (or_key_error "JobStatus" o) >>= settle_status schedd id job ad) ended

    abbrev final_job : Job
    final_job = record job { status = completed_status ad }

    complete-raised :
        (e : Exception)
        → schedd.retrieve job.backend_job_id ≡ raised e
        → (watch_job schedd id ads s).1.job_db ≡ insert id final_job s.job_db
    unfolding complete call
    complete-raised e failed =
        rw
          (
            watch_job-settles,
            settle-completed,
            update_job_status-known id s found (completed_status ad),
            failed,
          )
          refl

    completed-unwatched : is_watched final_job ≡ false
    unfolding is_skipped completed_status
    completed-unwatched = elim (Bool-cases (is_success (exit_of ad))) [
      | inl success ↦ rw success (ground arith)
      | inr failure ↦ rw failure (ground arith)
    ]

    -- An ad with the status Completed whose outputs cannot be retrieved: the status is written first,
    -- so whatever the schedd answers later, the job keeps it, its logs are never stored and it is
    -- never marked as deleted.
    pub watch_job-logs_lost :
        (e : Exception) (later : List Schedd)
        → schedd.retrieve job.backend_job_id ≡ raised e
        → lookup id (watch_jobs later (watch_job schedd id ads s).1).job_db ≡ some final_job
    watch_job-logs_lost e later failed =
        (watch_jobs-Guarded later (watch_job schedd id ads s).1).kept id final_job
          (rw (complete-raised e failed) (lookup-insert_self id final_job s.job_db))
          completed-unwatched

  settle-held :
      {code : ℕ}
      → ad.job_status ≡ some held
      → ad.hold_reason_code ≡ some code
      → settle schedd id job (some ad) ≡ release schedd id ad code
  unfolding settle settle_status hold
  settle-held on_hold reason =
      ap (λ o. lift (or_key_error "JobStatus" o) >>= settle_status schedd id job ad) on_hold
      ∙ ap (λ o. lift (or_key_error "HoldReasonCode" o) >>= release schedd id ad) reason

  marked-unwatched : is_watched (record job { deleted = true }) ≡ false
  unfolding is_skipped
  marked-unwatched = refl

  release-marks :
      (code : ℕ)
      → code ≢ 35
      → code ≢ 16
      → lookup id ((do release schedd id ad code; pure left) s).1.job_db
        ≡ some (record job { deleted = true })
  unfolding release is_kept_on_hold
  release-marks code no_spool no_input =
      let open_hold : nat_eq code 35 || nat_eq code 16 ≡ false = ground arith in
      let stopped : State = record s { calls = s.calls ++ stop_job ad.cluster_id ∷ [] } in
      rw (open_hold, stop_condor schedd ad.cluster_id s, mark_deleted-known id stopped found)
        (lookup-insert_self id (record job { deleted = true }) s.job_db)

  -- A job that is held for a reason other than 35 and 16 is marked as deleted, though its status is
  -- left as it was, and no later pass changes it.
  pub watch_job-held :
      (code : ℕ) (later : List Schedd)
      → ad.job_status ≡ some held
      → ad.hold_reason_code ≡ some code
      → code ≢ 35
      → code ≢ 16
      → lookup id (watch_jobs later (watch_job schedd id ads s).1).job_db
        ≡ some (record job { deleted = true })
  watch_job-held code later on_hold reason no_spool no_input =
      let marked : Job = record job { deleted = true } in
      (watch_jobs-Guarded later (watch_job schedd id ads s).1).kept id marked
        (rw (watch_job-settles, settle-held on_hold reason) (release-marks code no_spool no_input))
        marked-unwatched
