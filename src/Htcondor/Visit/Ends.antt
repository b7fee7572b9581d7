-- ===== src/Htcondor/Visit/Ends.antt =====
-- Proofs on JobMonitorHTCondorCERN (reana_job_controller/job_monitor.py): every end of the visit of
-- a job that the monitor looks after.
use reana_job_controller.Prelude.{
  eq_iff, sym, ◌==◌, ◌≢◌, List, String, some, none, ◌≡◌, ◌∷◌, Option, ℕ, refl, true, false,
  Bool-cases, inl, inr, arith, nat_eq, zero, suc, ap, ◌∙◌, ◌++◌, [], ◌||◌,
}
use reana_job_controller.Prelude.Int.{ℤ, pos, negsuc}
use reana_job_controller.Text.{concat}
use reana_job_controller.Dict.{Dict, insert, lookup}
use reana_job_controller.Dict.Laws.{insert-insert, lookup-insert_self}
use reana_job_controller.Python.{Action, Result, ok, raised, pure, ◌>>=◌, ◌>>◌, lift}
use reana_job_controller.JobDb.{
  Job, State, call, session_status, session_logs, spool_output, stop_job, or_key_error,
}
use reana_job_controller.JobDb
use reana_job_controller.JobDb.Laws.{
  mark_deleted-known, store_job_logs-known, update_job_status-known,
}
use reana_job_controller.Managers
use reana_job_controller.Managers.Backends.{htcondorcern}
use reana_job_controller.Htcondor.{
  Ad, Schedd, completed_status, complete, is_skipped, next_ad, settle, settle_status, watch_job,
  round_of, exit_of, is_success, in_history, not_in_schedd, hold, release, is_kept_on_hold,
}
use reana_job_controller.Htcondor.Visit.{
  Searched, hit, miss, Visited, ended_as, read_logs, history_raised, unknown, known, no_status,
  not_retrieved, not_read, over, no_reason, kept_on_hold, removed, going,
}

Searched-cons :
    {b : String} {x : Ad} {ads left : List Ad} {ad : Option Ad}
    → x.cluster_id ≢ b
    → Searched b ads ad left
    → Searched b (x ∷ ads) ad left
Searched-cons {x} other (hit front passed named) = hit (x ∷ front) (other, passed) named
Searched-cons other (miss passed) = miss (other, passed)

next_ad-Searched :
    (b : String) (ads : List Ad) → let (ad, left) = next_ad b ads in Searched b ads ad left
unfolding next_ad
next_ad-Searched b [] = miss tt
next_ad-Searched b (x ∷ ads) = elim (Bool-cases (x.cluster_id == b)) [
  | inl same ↦ rw same (hit [] tt ((eq_iff x.cluster_id b).0 same))
  | inr other ↦
      let differs : x.cluster_id ≢ b = λ e. cc (sym other ∙ (eq_iff x.cluster_id b).1 e) in
      rw other (Searched-cons differs (next_ad-Searched b ads))
]

abbrev view : Result (List Ad) × State → Result (List Ad) × Dict Job
view (outcome, s) = (outcome, s.job_db)

completed_status_lem : (ad : Ad) → completed_status ad ≡ ended_as ad.exit_code ad.exit_status
unfolding completed_status exit_of is_success
completed_status_lem ad = by_codes ad.exit_code ad.exit_status
  where
    by_codes :
        (code status : Option ℤ)
        → completed_status (record ad { exit_code = code; exit_status = status })
          ≡ ended_as code status
    by_codes (some (pos zero)) status = refl
    by_codes (some (pos (suc n))) status = refl
    by_codes (some (negsuc n)) status = refl
    by_codes none (some (pos zero)) = refl
    by_codes none (some (pos (suc n))) = refl
    by_codes none (some (negsuc n)) = refl
    by_codes none none = refl

-- `stop` returns, whatever the removal answers
pub stop_condor :
    (schedd : Schedd) (b : String) (s : State)
    → Managers.stop schedd.outside htcondorcern b s
      ≡ (ok tt, record s { calls = s.calls ++ stop_job b ∷ [] })
unfolding Managers.stop call
stop_condor schedd b s = ground arith

module _ (schedd : Schedd) (id : String) (s : State) (job : Job) (left : List Ad)
    (found : lookup id s.job_db ≡ some job) where
  -- The visit after the search of the ad.
  Ends : Option Ad → Action State (Unit {0}) → Type 0
  Ends ad act = Visited schedd id job left s.job_db ad (view ((do act; pure left) s))

  history_visit :
      (r : Result (Option String))
      → schedd.history job.backend_job_id ≡ r
      → Ends none (do old_ad ← lift r; in_history id old_ad)
  unfolding Ends in_history
  history_visit (raised e) h = history_raised h
  history_visit (ok none) h = unknown h
  history_visit (ok (some old_ad)) h =
      let msg = concat ("Job was found in history. " ∷ old_ad ∷ []) in
      let failed : Job = record job { status = "failed" } in
      let s1 : State = record {
        job_db = insert id failed s.job_db;
        calls = s.calls ++ session_status id "failed" ∷ [];
      } in
      rw
        (
          update_job_status-known id s found "failed",
          store_job_logs-known id s1 (lookup-insert_self id failed s.job_db) (some msg),
          insert-insert id failed (record failed { log = some msg }) s.job_db,
        )
        (known h)

  module _ (ad : Ad) where
    complete_visit :
        (retrieved : Result (Unit {0})) (read : Result (Option String))
        → ad.job_status ≡ some 4
        → schedd.retrieve job.backend_job_id ≡ retrieved
        → read_logs schedd job ≡ read
        → Ends (some ad) (complete schedd id job ad)
    unfolding Ends complete call
    complete_visit (raised e) read c h g =
        rw
          (
            completed_status_lem ad,
            update_job_status-known id s found (ended_as ad.exit_code ad.exit_status),
            h,
          )
          (not_retrieved c h)
    complete_visit (ok tt) (raised e) c h g =
        rw
          (
            completed_status_lem ad,
            update_job_status-known id s found (ended_as ad.exit_code ad.exit_status),
            h,
            g,
          )
          (not_read c h g)
    complete_visit (ok tt) (ok logs) c h g =
        let status = ended_as ad.exit_code ad.exit_status in
        let closed : Job = record job { status = status } in
        let logged : Job = record closed { log = logs } in
        let s1 : State = record {
          job_db = insert id closed s.job_db;
          calls =
              (s.calls ++ session_status id status ∷ []) ++ spool_output job.backend_job_id ∷ [];
        } in
        let s2 : State = record {
          job_db = insert id logged s1.job_db;
          calls = s1.calls ++ session_logs id logs ∷ [];
        } in
        rw
          (
            completed_status_lem ad,
            update_job_status-known id s found status,
            h,
            g,
            store_job_logs-known id s1 (lookup-insert_self id closed s.job_db) logs,
            mark_deleted-known id s2 (lookup-insert_self id logged s1.job_db),
            insert-insert id logged (record logged { deleted = true }) s1.job_db,
            insert-insert id closed (record logged { deleted = true }) s.job_db,
          )
          (over c h g)

    release_visit :
        (code : ℕ)
        → ad.job_status ≡ some 5
        → ad.hold_reason_code ≡ some code
        → Ends (some ad) (release schedd id ad code)
    unfolding Ends release is_kept_on_hold
    release_visit code c r = elim (Bool-cases (nat_eq code 35 || nat_eq code 16)) [
      | inl kept ↦ rw kept (kept_on_hold c r (ground arith))
      | inr gone ↦
          let stopped : State = record s { calls = s.calls ++ stop_job ad.cluster_id ∷ [] } in
          rw (gone, stop_condor schedd ad.cluster_id s, mark_deleted-known id stopped found)
            (removed c r (ground arith) (ground arith))
    ]

    hold_visit :
        (reason : Option ℕ)
        → ad.job_status ≡ some 5
        → ad.hold_reason_code ≡ reason
        → Ends
            (some ad)
            (do code ← lift (or_key_error "HoldReasonCode" reason); release schedd id ad code)
    unfolding Ends
    hold_visit none c r = no_reason c r
    hold_visit (some code) c r = release_visit code c r

    status_visit :
        (status : ℕ)
        → ad.job_status ≡ some status
        → Ends (some ad) (settle_status schedd id job ad status)
    unfolding Ends settle_status hold
    status_visit status c = elim (Bool-cases (nat_eq status 4)) [
      | inl is_over ↦
          let same : status ≡ 4 = ground arith in
          rw is_over (
            complete_visit (schedd.retrieve job.backend_job_id) (read_logs schedd job)
              (c ∙ ap (λ n. some n) same) refl refl)
      | inr other ↦ elim (Bool-cases (nat_eq status 5)) [
        | inl on_hold ↦
            let same : status ≡ 5 = ground arith in
            rw (other, on_hold) (hold_visit ad.hold_reason_code (c ∙ ap (λ n. some n) same) refl)
        | inr neither ↦ rw (other, neither) (going c (ground arith) (ground arith))
      ]
    ]

    ad_visit :
        (status : Option ℕ)
        → ad.job_status ≡ status
        → Ends
            (some ad)
            (do code ← lift (or_key_error "JobStatus" status); settle_status schedd id job ad code)
    unfolding Ends
    ad_visit none c = no_status c
    ad_visit (some status) c = status_visit status c

  settle_visit : (ad : Option Ad) → Ends ad (settle schedd id job ad)
  unfolding settle not_in_schedd
  settle_visit none = history_visit (schedd.history job.backend_job_id) refl
  settle_visit (some ad) = ad_visit ad ad.job_status refl

-- A visit of the HTCondor monitor to a job of JOB_DB that it does not skip, with some of the ads of
-- the schedd remaining. The job is matched with the first of them that has its cluster id, and those
-- behind that one remain for the next job; if there is none, no ad remains. Without an ad the job
-- fails, with the ad of the history as its log, if the history has it, and is left as it was if not.
-- With the status Completed it becomes finished if ExitCode is 0, or if there is no ExitCode and
-- ExitStatus is 0, and failed otherwise; then, if the outputs are retrieved and the logs are read, it
-- has these logs and is marked as deleted, and if one of the two raises, the visit raises that and
-- the new status is all that is written. With the status Held it is left as it was if the reason is
-- 35 or 16, and otherwise marked as deleted only. With any other status it is left as it was. If the
-- history raises, or the ad has no status or a held ad no reason, the visit raises and writes
-- nothing. Unless the visit raises, it gives the ads that remain. No other job of JOB_DB is written.
pub watch_job_lem_htcondor :
    (schedd : Schedd) (id : String) (s : State) (job : Job) (ads : List Ad)
    → lookup id s.job_db ≡ some job
    → is_skipped job ≡ false
    → let (outcome, after) = watch_job schedd id ads s in
      (ad : Option Ad) × (left : List Ad) × Searched job.backend_job_id ads ad left
      × Visited schedd id job left s.job_db ad (outcome, after.job_db)
unfolding watch_job JobDb.get_job round_of Ends
watch_job_lem_htcondor schedd id s job ads found watched =
    let (ad, left) = next_ad job.backend_job_id ads in
    (
      ad,
      left,
      next_ad-Searched job.backend_job_id ads,
      rw (found, watched) (settle_visit schedd id s job left found ad),
    )
