-- ===== src/Punch/Rounds.antt =====
-- Proofs on one round of JobMonitorCompute4PUNCH (reana_job_controller/job_monitor.py).
use reana_job_controller.Prelude.{
  Bool, Bool-cases, Option, String, [], false, if◌then◌else◌, inl, inr, none, not, refl, some, sym,
  true, ◌&&◌, ◌++◌, ◌∙◌, ◌∷◌, ◌≡◌,
}
use reana_job_controller.Text.{}
use reana_job_controller.Dict.{Dict, insert, lookup}
use reana_job_controller.Dict.Laws.{insert-insert, insert-same, lookup-insert_self}
use reana_job_controller.Python.{Result, ok}
use reana_job_controller.JobDb.{Job, State, call, get_outputs, session_status, text}
use reana_job_controller.JobDb
use reana_job_controller.JobDb.Laws.{
  mark_deleted-known, store_job_logs-known, update_job_status-known,
}
use reana_job_controller.Managers
use reana_job_controller.Managers.Backends.{compute4punch}
use reana_job_controller.Punch.{
  LoginNode, Row, finish, is_text, lose, lost_message, release, settle, watch_job,
}

-- held for a reason other than that the inputs are being spooled
abbrev pub is_stuck : Option Row → Bool
is_stuck none = false
is_stuck (some row) =
    not (is_text "4" row.job_status)
    && is_text "5" row.job_status
    && not (is_text "16" row.hold_reason_code)

abbrev pub exit_status : Row → String
exit_status row = if is_text "0" row.exit_code then "finished" else "failed"

abbrev pub made_of : LoginNode → String → Option String → Job → Option Row → Job
made_of node b logs job none = record job {
  status = "failed";
  log = some (lost_message node b);
  deleted = true;
}
made_of node b logs job (some row) =
    if is_text "4" row.job_status
    then record job { status = exit_status row; log = logs; deleted = true }
    else job

module _ (node : LoginNode) (b id : String) (s : State) (job : Job) (logs : Option String)
    (found : lookup id s.job_db ≡ some job)
    (transferred : node.transfer job.workflow_workspace ≡ ok tt)
    (read : Managers.get_logs node.outside compute4punch b job.workflow_workspace ≡ ok logs) where
  Made : Job → Result (Unit {0}) × State → Type 0
  Made new outcome = (outcome.0 ≡ ok tt) × (outcome.1.job_db ≡ insert id new s.job_db)

  finish_lem :
      (status : String)
      → Made
          (record job { status = status; log = logs; deleted = true })
          (finish node b id status s)
  unfolding Made finish call JobDb.get_job
  finish_lem status =
      let j1 : Job = record job { status = status } in
      let j2 : Job = record j1 { deleted = true } in
      let s0 : State = record s { calls = s.calls ++ get_outputs ∷ [] } in
      let s1 : State = record {
        job_db = insert id j1 s.job_db;
        calls = s0.calls ++ session_status id status ∷ [];
      } in
      let s2 : State = record s1 { job_db = insert id j2 s1.job_db } in
      rw
        (
          found,
          transferred,
          update_job_status-known id s0 found status,
          mark_deleted-known id s1 (lookup-insert_self id j1 s.job_db),
          read,
          store_job_logs-known id s2 (lookup-insert_self id j2 s1.job_db) logs,
        )
        (
          refl,
          insert-insert id j2 (record j2 { log = logs }) s1.job_db
              ∙ insert-insert id j1 (record j2 { log = logs }) s.job_db,
        )

  lose_lem : Made (made_of node b logs job none) (lose node b id s)
  unfolding Made lose
  lose_lem =
      let text = some (lost_message node b) in
      let j1 : Job = record job { status = "failed" } in
      let j2 : Job = record j1 { deleted = true } in
      let s1 : State = record {
        job_db = insert id j1 s.job_db;
        calls = s.calls ++ session_status id "failed" ∷ [];
      } in
      let s2 : State = record s1 { job_db = insert id j2 s1.job_db } in
      rw
        (
          update_job_status-known id s found "failed",
          mark_deleted-known id s1 (lookup-insert_self id j1 s.job_db),
          store_job_logs-known id s2 (lookup-insert_self id j2 s1.job_db) text,
        )
        (
          refl,
          insert-insert id j2 (record j2 { log = text }) s1.job_db
              ∙ insert-insert id j1 (record j2 { log = text }) s.job_db,
        )

  running_lem :
      (row : Row)
      → is_text "4" row.job_status ≡ false
      → is_stuck (some row) ≡ false
      → settle node b id (some row) s ≡ (ok tt, s)
  unfolding settle release
  running_lem row running free = elim (Bool-cases (is_text "5" row.job_status)) [
    | inr other ↦ rw (running, other) refl
    | inl holding ↦ elim (Bool-cases (is_text "16" row.hold_reason_code)) [
      | inl spooling ↦ rw (running, holding, spooling) refl
      | inr reason ↦ cc (rw (running, holding, reason) at free)
    ]
  ]

  settle_lem :
      (row : Option Row)
      → is_stuck row ≡ false
      → Made (made_of node b logs job row) (settle node b id row s)
  unfolding settle Made
  settle_lem none free = lose_lem
  settle_lem (some row) free = elim (Bool-cases (is_text "4" row.job_status)) [
    | inl ended ↦ rw ended (finish_lem (exit_status row))
    | inr running ↦
        rw (running_lem row running free, running) (refl, sym (insert-same id job s.job_db found))
  ]

  -- What one round of the Compute4PUNCH monitor makes of a job, when the outputs are transferred and
  -- the logs are read: a job that the login node does not know becomes failed, with a message as its
  -- logs; one with the status 4 becomes finished if its exit code is 0 and failed if it is not, with
  -- its logs; both are marked as deleted. A job in any other status is left as it is, provided that
  -- it is not held for a reason other than 16.
  pub watch_job_lem_punch :
      (statuses : Dict Row)
      → is_stuck (lookup b statuses) ≡ false
      → ((watch_job node statuses (b, id) s).0 ≡ ok tt)
        × ((watch_job node statuses (b, id) s).1.job_db
            ≡ insert id (made_of node b logs job (lookup b statuses)) s.job_db)
  unfolding watch_job Made
  watch_job_lem_punch statuses free = settle_lem (lookup b statuses) free
