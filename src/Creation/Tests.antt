-- ===== src/Creation/Tests.antt =====
-- The theorems on job creation at concrete interleavings.
use reana_job_controller.Prelude.{Bool, List, [], false, get_elem?, refl, some, true, ◌∷◌, ◌≡◌}
use reana_job_controller.Prelude.Int.{}
use reana_job_controller.Creation.{
  Event, System, begin, collect, collected, disabled, failed, finish, initial, refused, register,
  registered, run, start, step, test,
}
use reana_job_controller.Creation.Exclusion.{IsConsistent, run-IsConsistent}
use reana_job_controller.Creation.Coverage.{
  collected-eq-launched, launched, launched-run, register-missed,
}

-- One thread submits and writes its job, a second is still creating while the shutdown waits.
abbrev orderly : List Event
orderly = start 0 ∷ start 1 ∷ begin ∷ test ∷ finish 0 true ∷ register 0 ∷ finish 1 false ∷ test ∷ []

orderly_disables : (run orderly (initial 3)).shutdown ≡ disabled
unfolding run initial
orderly_disables = refl

-- The late thread is refused.
late_refused :
    (run (start 2 ∷ []) (run orderly (initial 3))).threads ≡ registered ∷ failed ∷ refused ∷ []
unfolding run initial
late_refused = refl

run-IsConsistent_example : IsConsistent (run orderly (initial 3))
run-IsConsistent_example = run-IsConsistent 3 orderly

launched-run_example :
    launched (run (start 2 ∷ []) (run orderly (initial 3))) ≡ launched (run orderly (initial 3))
launched-run_example = launched-run 3 orderly (start 2 ∷ []) (unfold initial run in tt)

collected-eq-launched_example :
    let t = run (start 2 ∷ []) (step collect (run orderly (initial 3))) in
    t.shutdown ≡ collected (launched t)
collected-eq-launched_example =
    collected-eq-launched 3 orderly (start 2 ∷ []) orderly_disables
      (unfold initial run in (refl, (refl, (refl, tt))))

abbrev submitted_only : System
submitted_only = run (start 0 ∷ finish 0 true ∷ []) (initial 1)

register-missed_example :
    let t = run (begin ∷ test ∷ collect ∷ register 0 ∷ []) submitted_only in
    (jobs : List Bool) × (t.shutdown ≡ collected jobs)
    × (get_elem? jobs 0 ≡ some false)
    × (get_elem? t.threads 0 ≡ some registered)
    × (t.condition.creation_permitted ≡ false)
register-missed_example =
    register-missed submitted_only 0 (unfold run initial in refl) (unfold run initial in refl)
      (unfold run initial in refl)
