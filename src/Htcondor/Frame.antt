-- ===== src/Htcondor/Frame.antt =====
-- Proofs on JobMonitorHTCondorCERN (reana_job_controller/job_monitor.py): which jobs are written.
use reana_job_controller.Prelude.{
  String, Bool, List, Option, [], none, not, some, ◌∷◌, Bool-cases, Option-cases, inl, inr, refl,
  ◌≡◌, some_inj, sym, ◌∙◌,
}
use reana_job_controller.Text.{}
use reana_job_controller.Dict.{lookup}
use reana_job_controller.Python.{lift, ok, pure, ◌>>◌}
use reana_job_controller.JobDb.{Job, State}
use reana_job_controller.JobDb
use reana_job_controller.JobDb.Frame.{
  changes_rules, Changes, Respects-bind, Respects-lift, Respects-pure, Guarded, Guarded-refl,
  Guarded-trans, Respects, guarded, Guarded-Changed,
}
use reana_job_controller.Managers
use reana_job_controller.Managers.Backends.{htcondorcern}
use reana_job_controller.Htcondor.{
  Ad, Schedd, complete, hold, in_history, is_skipped, not_in_schedd, settle, watch_all, watch_job,
  watch_jobs, watch_pass, next_ad, round_of,
}

module _ {P : String → Type 0} (schedd : Schedd) (id : String) (allowed : P id) where
  stop-Changes : (b : String) → Changes P (Managers.stop schedd.outside htcondorcern b)
  unfolding Managers.stop
  stop-Changes b = search changes_rules depth 8

  complete-Changes : (job : Job) (ad : Ad) → Changes P (complete schedd id job ad)
  unfolding complete
  complete-Changes job ad = search changes_rules depth 12

  hold-Changes : (ad : Ad) → Changes P (hold schedd id ad)
  unfolding hold
  hold-Changes ad = search (changes_rules, stop-Changes) depth 10

  in_history-Changes : (found : Option String) → Changes P (in_history id found)
  unfolding in_history
  in_history-Changes none = Respects-pure tt
  in_history-Changes (some ad) = search changes_rules depth 8

  not_in_schedd-Changes : (job : Job) → Changes P (not_in_schedd schedd id job)
  unfolding not_in_schedd
  not_in_schedd-Changes job =
      Respects-bind (lift (schedd.history job.backend_job_id)) (in_history id) (Respects-lift _)
        (λ found. in_history-Changes found)

  settle-Changes : (job : Job) (ad : Option Ad) → Changes P (settle schedd id job ad)
  unfolding settle
  settle-Changes job none = not_in_schedd-Changes job
  settle-Changes job (some ad) = search (changes_rules, complete-Changes, hold-Changes) depth 8

-- the jobs that the monitor looks after
abbrev pub is_watched : Job → Bool
is_watched job = not (is_skipped job)

module _ (schedd : Schedd) where
  round_of-Guarded :
      (id : String) (job : Job) (ads : List Ad) (s : State)
      → lookup id s.job_db ≡ some job
      → Guarded is_watched s.job_db (round_of schedd id (ok job) ads s).1.job_db
  unfolding round_of
  round_of-Guarded id job ads s found = elim (Bool-cases (is_skipped job)) [
    | inl skipped ↦ rw skipped (Guarded-refl s.job_db)
    | inr watched ↦
        let (ad, left) = next_ad job.backend_job_id ads in
        let c : Changes (λ k. k ≡ id) (do settle schedd id job ad; pure left) =
          Respects-bind (settle schedd id job ad) (λ _. pure left)
            (settle-Changes schedd id refl job ad) (λ _. Respects-pure left) in
        rw watched (
          Guarded-Changed
            (λ k other there unwatched p.
              let same : job ≡ other = some_inj (sym found ∙ rw p at there) in
              cc (rw (← same, watched) at unwatched))
            (c.at s))
  ]

  watch_job-Respects :
      (id : String) (ads : List Ad) → Respects (guarded is_watched) (watch_job schedd id ads)
  unfolding watch_job JobDb.get_job round_of
  watch_job-Respects id ads = record {
    at = λ s. elim (Option-cases (lookup id s.job_db)) [
      | inl absent ↦ rw absent (Guarded-refl s.job_db)
      | inr (job, found) ↦ rw found (round_of-Guarded id job ads s found)
    ];
  }

  watch_all-Respects :
      (ids : List String) (ads : List Ad) → Respects (guarded is_watched) (watch_all schedd ids ads)
  unfolding watch_all
  watch_all-Respects [] ads = Respects-pure ads
  watch_all-Respects (id ∷ ids) ads =
      Respects-bind (watch_job schedd id ads) (watch_all schedd ids) (watch_job-Respects id ads)
        (watch_all-Respects ids)

  watch_pass-Respects : Respects (guarded is_watched) (watch_pass schedd)
  unfolding watch_pass
  watch_pass-Respects = search (changes_rules, watch_all-Respects) depth 10

-- Whatever the schedd answers in each pass, and whichever calls raise, the HTCondor monitor never
-- adds, removes or reorders a job of JOB_DB, leaves a job of another backend, a deleted job and a
-- job with a final status exactly as they are, and of the others changes the status, the logs and
-- the mark `deleted` at most.
pub watch_jobs-Guarded :
    (answers : List Schedd) (s : State) → Guarded is_watched s.job_db (watch_jobs answers s).job_db
unfolding watch_jobs
watch_jobs-Guarded [] s = Guarded-refl s.job_db
watch_jobs-Guarded (schedd ∷ later) s =
    Guarded-trans ((watch_pass-Respects schedd).at s)
      (watch_jobs-Guarded later (watch_pass schedd s).1)
