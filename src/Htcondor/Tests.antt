-- ===== src/Htcondor/Tests.antt =====
-- The HTCondor monitor on small inputs.
use reana_job_controller.Prelude.{
  Option, List, List, String, [], arith, none, refl, some, true, ℕ, ◌∷◌, ◌≡◌,
}
use reana_job_controller.Prelude.Int.{pos}
use reana_job_controller.Python.{Result, ok, raised, runtime_error}
use reana_job_controller.Dict.{lookup}
use reana_job_controller.JobDb.{Job, State}
use reana_job_controller.Managers.Backends.{}
use reana_job_controller.Rest.Samples.{job_on, outside}
use reana_job_controller.JobDb.Frame.{Guarded}
use reana_job_controller.Htcondor.{
  Ad, Schedd, completed_status, exit_of, is_skipped, next_ad, watch_job, watch_jobs,
}
use reana_job_controller.Htcondor.Frame.{is_watched, watch_jobs-Guarded}
use reana_job_controller.Htcondor.Visit.{Searched, Visited}
use reana_job_controller.Htcondor.Visit.Ends.{watch_job_lem_htcondor}
use reana_job_controller.Htcondor.Results.{watch_job-held, watch_job-logs_lost}

abbrev ad_of : String → ℕ → Ad
ad_of cluster_id status = record {
  cluster_id = cluster_id;
  job_status = some status;
  exit_code = none;
  exit_status = some (pos 0);
  hold_reason_code = some 26;
}

abbrev schedd_of : Result (Unit {0}) → Schedd
schedd_of retrieved = record {
  query = λ ids. ok (ad_of "a" 2 ∷ ad_of "b" 4 ∷ []);
  history = λ b. ok none;
  retrieve = λ b. retrieved;
  outside = outside;
}

abbrev one_job : State
one_job = record { job_db = ("j1", job_on "j1" "htcondorcern" "running") ∷ []; calls = [] }

abbrev done : Schedd
done = schedd_of (ok tt)

abbrev broken : Schedd
broken = schedd_of (raised runtime_error)

abbrev the_job : Job
the_job = job_on "j1" "htcondorcern" "running"

watch_jobs-Guarded_example :
    Guarded is_watched one_job.job_db (watch_jobs (done ∷ broken ∷ []) one_job).job_db
watch_jobs-Guarded_example = watch_jobs-Guarded (done ∷ broken ∷ []) one_job

-- The ads come in another order than the jobs: the second search finds nothing.
out_of_order : next_ad "a" (next_ad "b" (ad_of "a" 2 ∷ ad_of "b" 4 ∷ [])).1 ≡ (none, [])
unfolding next_ad
out_of_order = refl

abbrev ads : List Ad
ads = ad_of "a" 2 ∷ ad_of "b" 4 ∷ []

watch_job_lem_htcondor_example :
    let (outcome, after) = watch_job done "j1" ads one_job in
    (ad : Option Ad) × (left : List Ad) × Searched "b" ads ad left
    × Visited done "j1" the_job left one_job.job_db ad (outcome, after.job_db)
watch_job_lem_htcondor_example =
    watch_job_lem_htcondor done "j1" one_job the_job ads (unfold lookup in refl)
      (unfold is_skipped in refl)

succeeded : completed_status (ad_of "b" 4) ≡ "finished"
unfolding completed_status exit_of
succeeded = refl

watch_job-logs_lost_example :
    lookup "j1" (watch_jobs (done ∷ []) (watch_job broken "j1" ads one_job).1).job_db
    ≡ some (record the_job { status = completed_status (ad_of "b" 4) })
watch_job-logs_lost_example =
    watch_job-logs_lost broken "j1" one_job the_job ads [] (ad_of "b" 4) (unfold lookup in refl)
      (unfold is_skipped in refl) (unfold next_ad in refl) refl runtime_error (done ∷ []) refl

watch_job-held_example :
    lookup "j1" (watch_jobs (done ∷ []) (watch_job done "j1" (ad_of "b" 5 ∷ []) one_job).1).job_db
    ≡ some (record the_job { deleted = true })
watch_job-held_example =
    watch_job-held done "j1" one_job the_job (ad_of "b" 5 ∷ []) [] (ad_of "b" 5)
      (unfold lookup in refl) (unfold is_skipped in refl) (unfold next_ad in refl) 26 (done ∷ [])
      refl refl (omega arith) (omega arith)
