-- ===== src/Punch/Tests.antt =====
-- The Compute4PUNCH monitor on small inputs.
use reana_job_controller.Prelude.{String, [], refl, some, some_inj, ◌∷◌, ◌≡◌, eq_iff}
use reana_job_controller.Python.{ok}
use reana_job_controller.Text.{concat}
use reana_job_controller.Dict.{insert, lookup, Dict}
use reana_job_controller.JobDb.{Job, State}
use reana_job_controller.Managers.Backends.{}
use reana_job_controller.Rest.Samples.{job_on, outside}
use reana_job_controller.JobDb.Frame.{Guarded}
use reana_job_controller.Managers
use reana_job_controller.Punch.{
  LoginNode, Row, c4p_job_mapping, fill_queue, filter_jobs_to_watch, watch_jobs, watch_pass,
  watch_job,
}
use reana_job_controller.Punch.Rounds.{made_of, watch_job_lem_punch}
use reana_job_controller.Punch.Results.{watch_jobs-Guarded_punch, watch_pass-held}

abbrev row_of : String → String → Row
row_of status hold_reason_code = record {
  job_status = some status;
  cluster_id = some "7";
  proc_id = some "0";
  exit_code = some "0";
  hold_reason_code = some hold_reason_code;
}

abbrev node_of : Row → LoginNode
node_of row = record {
  hostname = "login";
  rows = λ ids. ok (row ∷ []);
  transfer = λ dest. ok tt;
  outside = outside;
}

abbrev the_job : Job
the_job = record (job_on "j1" "compute4punch" "running") { backend_job_id = "7.0" }

abbrev one_job : State
one_job = record { job_db = ("j1", the_job) ∷ []; calls = [] }

abbrev done : LoginNode
done = node_of (row_of "4" "0")

abbrev holding : LoginNode
holding = node_of (row_of "5" "26")

watch_jobs-Guarded_punch_example :
    Guarded filter_jobs_to_watch one_job.job_db (watch_jobs (holding ∷ done ∷ []) one_job).job_db
watch_jobs-Guarded_punch_example =
    watch_jobs-Guarded_punch (holding ∷ done ∷ []) one_job (unfold lookup in (refl, tt))

mapped : c4p_job_mapping one_job.job_db ≡ ("7.0", "j1") ∷ []
unfolding c4p_job_mapping filter_jobs_to_watch insert
mapped = refl

queued : lookup "7.0" (fill_queue (row_of "5" "26" ∷ []) []) ≡ some (row_of "5" "26")
unfolding fill_queue lookup insert concat
queued = refl

watch_pass-held_example : (watch_pass holding one_job).1.job_db ≡ one_job.job_db
watch_pass-held_example =
    watch_pass-held holding one_job "7.0" "j1" [] (row_of "5" "26" ∷ []) (row_of "5" "26") mapped
      refl queued refl (λ h. cc ((eq_iff "26" "16").1 (some_inj h)))

abbrev statuses : Dict Row
statuses = ("7.0", row_of "4" "0") ∷ []

watch_job_lem_punch_example :
    ((watch_job done statuses ("7.0", "j1") one_job).0 ≡ ok tt)
    × ((watch_job done statuses ("7.0", "j1") one_job).1.job_db
        ≡ insert "j1"
            (made_of done "7.0" (some "texttext") the_job (lookup "7.0" statuses))
            one_job.job_db)
watch_job_lem_punch_example =
    watch_job_lem_punch done "7.0" "j1" one_job the_job (some "texttext") (unfold lookup in refl)
      refl (unfold Managers.get_logs concat in refl) statuses (unfold lookup in refl)
