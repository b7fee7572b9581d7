-- ===== src/Creation/Coverage.antt =====
-- Proofs on JobCreationCondition (reana_job_controller/rest.py): which jobs the shutdown collects.
use reana_job_controller.Prelude.{
  Bool, List, Option, [], arith, false, get_elem?, map, map-set_same, none, refl, some, true, ℕ,
  ◌∙◌, ◌∷◌, ◌≡◌, All, get_elem?-set_self, suc, zero, ◌++◌, ap, sym,
}
use reana_job_controller.Prelude.Int.{pos}
use reana_job_controller.Creation.{
  Condition, Event, Phase, Shutdown, System, begin, begin_shutdown, collect, collect_jobs,
  collected, creating, disable_creation, disabled, finish, finish_thread, idle, initial, refused,
  register, register_thread, registered, run, serving, start, start_creation, start_thread, step,
  submitted, test, test_result, test_shutdown, testing, waiting, is_registered,
}
use reana_job_controller.Creation.Exclusion.{
  IsConsistent, creations, run-IsConsistent, creations-set,
}

-- execute() has returned a backend job id
abbrev pub is_launched : Phase → Bool
is_launched submitted = true
is_launched registered = true
is_launched _ = false

abbrev pub launched : System → List Bool
launched s = map is_launched s.threads

abbrev pub IsOver : Shutdown → Type 0
IsOver disabled = Unit
IsOver (collected _) = Unit
IsOver _ = ⊥

record IsClosed (s : System) : Type 0 where
  refuses : s.condition.creation_permitted ≡ false
  quiet : creations s.threads ≡ 0

IsOver-IsClosed :
    (s : System) (p : Shutdown) → s.shutdown ≡ p → IsOver p → IsConsistent s → IsClosed s
IsOver-IsClosed s disabled e o v = let a = rw e at v.agrees in record { refuses = a.0; quiet = a.1 }
IsOver-IsClosed s (collected jobs) e o v =
    let a = rw e at v.agrees in record { refuses = a.0; quiet = a.1 }
IsOver-IsClosed s serving e o v = absurd o
IsOver-IsClosed s testing e o v = absurd o
IsOver-IsClosed s waiting e o v = absurd o

module _ (s : System) (v : IsClosed s) (i : ℕ) where
  abbrev Kept : System → Type 0
  Kept t = IsClosed t × (launched t ≡ launched s)

  start-Kept : (o : Option Phase) → get_elem? s.threads i ≡ o → Kept (start_thread o i s)
  unfolding start_thread start_creation
  start-Kept (some idle) h = simp v.refuses (
    record {
      refuses = v.refuses;
      quiet = omega (arith, v.quiet, creations-set s.threads i refused h);
    },
    map-set_same is_launched s.threads i refused idle h refl,
  )
  start-Kept _ h = (v, refl)

  finish-Kept :
      (succeeded : Bool) (o : Option Phase)
      → get_elem? s.threads i ≡ o
      → Kept (finish_thread o i succeeded s)
  unfolding finish_thread
  finish-Kept succeeded (some creating) h =
      absurd (omega (arith, v.quiet, creations-set s.threads i idle h))
  finish-Kept succeeded _ h = (v, refl)

  register-Kept : (o : Option Phase) → get_elem? s.threads i ≡ o → Kept (register_thread o i s)
  unfolding register_thread
  register-Kept (some submitted) h = (
    record {
      refuses = v.refuses;
      quiet = omega (arith, v.quiet, creations-set s.threads i registered h);
    },
    map-set_same is_launched s.threads i registered submitted h refl,
  )
  register-Kept _ h = (v, refl)

module _ (s : System) (v : IsClosed s) where
  begin-Kept : (p : Shutdown) → Kept s v 0 (begin_shutdown p s)
  unfolding begin_shutdown
  begin-Kept serving = (record { refuses = v.refuses; quiet = v.quiet }, refl)
  begin-Kept _ = (v, refl)

  collect-Kept : (p : Shutdown) → Kept s v 0 (collect_jobs p s)
  unfolding collect_jobs
  collect-Kept disabled = (record { refuses = v.refuses; quiet = v.quiet }, refl)
  collect-Kept _ = (v, refl)

  test_result-Kept :
      (o : Option Condition) → disable_creation s.condition ≡ o → Kept s v 0 (test_result o s)
  unfolding test_result disable_creation
  test_result-Kept none h = (record { refuses = v.refuses; quiet = v.quiet }, refl)
  test_result-Kept (some c) h = (record { refuses = ground arith; quiet = v.quiet }, refl)

  test-Kept : (p : Shutdown) → Kept s v 0 (test_shutdown p s)
  unfolding test_shutdown
  test-Kept testing = test_result-Kept (disable_creation s.condition) refl
  test-Kept _ = (v, refl)

step-Kept :
    (e : Event) (s : System) → IsClosed s → IsClosed (step e s) × (launched (step e s) ≡ launched s)
unfolding step
step-Kept (start i) s v = start-Kept s v i _ refl
step-Kept (finish i succeeded) s v = finish-Kept s v i succeeded _ refl
step-Kept (register i) s v = register-Kept s v i _ refl
step-Kept begin s v = begin-Kept s v s.shutdown
step-Kept test s v = test-Kept s v s.shutdown
step-Kept collect s v = collect-Kept s v s.shutdown

run-Kept : (es : List Event) (s : System) → IsClosed s → launched (run es s) ≡ launched s
unfolding run
run-Kept [] s v = refl
run-Kept (e ∷ es) s v = let (v', same) = step-Kept e s v in run-Kept es (step e s) v' ∙ same

-- Once the shutdown thread has passed disable_creation, in any interleaving, no further event of
-- any thread changes which threads have submitted a job, in the sense that their execute() has
-- returned.
pub launched-run :
    (n : ℕ) (before after : List Event)
    → IsOver (run before (initial n)).shutdown
    → launched (run after (run before (initial n))) ≡ launched (run before (initial n))
launched-run n before after o =
    let s = run before (initial n) in
    run-Kept after s (IsOver-IsClosed s s.shutdown refl o (run-IsConsistent n before))

run-append : (es fs : List Event) (s : System) → run (es ++ fs) s ≡ run fs (run es s)
unfolding run
run-append [] fs s = refl
run-append (e ∷ es) fs s = run-append es fs (step e s)

get_elem?-map :
    (ps : List Phase) (i : ℕ) {p : Phase}
    → get_elem? ps i ≡ some p
    → get_elem? (map is_registered ps) i ≡ some (is_registered p)
get_elem?-map [] i h = cc
get_elem?-map (x ∷ ps) zero h = cc
get_elem?-map (x ∷ ps) (suc i) h = get_elem?-map ps i h

-- A thread that has left the creation block and has not yet written JOB_DB does not hold the
-- shutdown up: from any such state in which no thread is creating, the shutdown thread disables
-- creation and reads a list of jobs without the job of that thread, which then enters JOB_DB.
pub register-missed :
    (s : System) (i : ℕ)
    → s.shutdown ≡ serving
    → s.condition.ongoing_creations ≡ pos 0
    → get_elem? s.threads i ≡ some submitted
    → let t = run (begin ∷ test ∷ collect ∷ register i ∷ []) s in
      (jobs : List Bool) × (t.shutdown ≡ collected jobs)
      × (get_elem? jobs i ≡ some false)
      × (get_elem? t.threads i ≡ some registered)
      × (t.condition.creation_permitted ≡ false)
unfolding run step begin_shutdown test_shutdown disable_creation test_result collect_jobs
    register_thread
register-missed s i e z h = (
  map is_registered s.threads,
  rw (e, z, h, register_thread),
  get_elem?-map s.threads i h,
  rw (e, z, h, register_thread) (get_elem?-set_self s.threads i registered h),
  rw (e, z, h, register_thread),
)

-- no thread stands between stop_creation and the write to JOB_DB
abbrev pub AllWritten : List Phase → Type 0
AllWritten = All (λ p. is_registered p ≡ is_launched p)

map-AllWritten : (ps : List Phase) → AllWritten ps → map is_registered ps ≡ map is_launched ps
map-AllWritten [] h = refl
map-AllWritten (p ∷ ps) h = cc (h.0, map-AllWritten ps h.1)

step-collected :
    (e : Event) (s : System) (jobs : List Bool)
    → s.shutdown ≡ collected jobs
    → (step e s).shutdown ≡ collected jobs
unfolding step start_thread finish_thread register_thread begin_shutdown test_shutdown collect_jobs
step-collected e s jobs h = ground arith

run-collected :
    (es : List Event) (s : System) (jobs : List Bool)
    → s.shutdown ≡ collected jobs
    → (run es s).shutdown ≡ collected jobs
unfolding run
run-collected [] s jobs h = h
run-collected (e ∷ es) s jobs h = run-collected es (step e s) jobs (step-collected e s jobs h)

shutdown-collect :
    (s : System)
    → s.shutdown ≡ disabled
    → (step collect s).shutdown ≡ collected (map is_registered s.threads)
unfolding step collect_jobs
shutdown-collect s e = rw (e, collect_jobs)

-- If no thread stands between stop_creation and its write to JOB_DB when the shutdown thread reads
-- the jobs, then the threads whose jobs it has read are, at any later time, all the threads whose
-- execute() has returned. A thread whose execute() raised is not among them, even if the exception
-- came after its job was submitted to the backend: such a job is never written to JOB_DB, and the
-- shutdown does not see it.
pub collected-eq-launched :
    (n : ℕ) (before after : List Event)
    → (run before (initial n)).shutdown ≡ disabled
    → AllWritten (run before (initial n)).threads
    → let t = run after (step collect (run before (initial n))) in
      t.shutdown ≡ collected (launched t)
collected-eq-launched n before after e w =
    let s = run before (initial n) in
    let v = IsOver-IsClosed s disabled e tt (run-IsConsistent n before) in
    let (v', same) = step-Kept collect s v in
    run-collected after (step collect s) (launched (run after (step collect s))) (
      shutdown-collect s e
      ∙ ap collected (map-AllWritten s.threads w ∙ sym (run-Kept after (step collect s) v' ∙ same)))
