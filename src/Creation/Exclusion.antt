-- ===== src/Creation/Exclusion.antt =====
-- Proofs on JobCreationCondition (reana_job_controller/rest.py): the counter, the permission and the
-- waiting of the shutdown thread.
use reana_job_controller.Prelude.{
  ℕ, zero, suc, ◌+◌, ◌<◌, ◌≡◌, Bool, true, false, Option, some, List, [], ◌∷◌, arith, get_elem?,
  set, Bool-cases, inl, inr, refl, ap, sym,
}
use reana_job_controller.Prelude.Int.{pos, is_zero}
use reana_job_controller.Creation.{
  Phase, idle, creating, Shutdown, serving, testing, waiting, disabled, collected, System,
  start_creation, start_thread, Condition, notified, refused, disable_creation, finish_thread,
  stop_creation, test_result, test_shutdown, Event, begin, begin_shutdown, collect, collect_jobs,
  failed, finish, idle_threads, initial, new, register, register_thread, registered, run, start,
  step, submitted, test,
}

abbrev pub weight : Phase → ℕ
weight creating = 1
weight _ = 0

-- the threads between start_creation and stop_creation
abbrev pub creations : List Phase → ℕ
creations [] = 0
creations (p ∷ ps) = weight p + creations ps

pub creations-set :
    (ps : List Phase) (i : ℕ) (p : Phase) {q : Phase}
    → get_elem? ps i ≡ some q
    → creations (set ps i p) + weight q ≡ creations ps + weight p
creations-set [] i p h = cc
creations-set (x ∷ ps) zero p h = ground arith
creations-set (x ∷ ps) (suc i) p h = omega (arith, creations-set ps i p h)

abbrev pub Agrees : Shutdown → Bool → ℕ → Type 0
Agrees serving permitted n = permitted ≡ true
Agrees testing permitted n = permitted ≡ true
Agrees waiting permitted n = (permitted ≡ true) × (0 < n)
Agrees disabled permitted n = (permitted ≡ false) × (n ≡ 0)
Agrees (collected _) permitted n = (permitted ≡ false) × (n ≡ 0)

-- `ongoing_creations` is the number of threads that are creating, creation is permitted until the
-- shutdown has disabled it, and a waiting shutdown waits for some creation.
pub record IsConsistent (s : System) : Type 0 where
  pub counted : s.condition.ongoing_creations ≡ pos (creations s.threads)
  pub agrees : Agrees s.shutdown s.condition.creation_permitted (creations s.threads)

Agrees-start : (p : Shutdown) (n : ℕ) → Agrees p true n → Agrees p true (suc n)
Agrees-start serving n h = h
Agrees-start testing n h = h
Agrees-start waiting n h = (refl, omega arith)
Agrees-start disabled n h = cc
Agrees-start (collected jobs) n h = cc

Agrees-finish :
    (p : Shutdown) (b : Bool) (n : ℕ)
    → Agrees p b (suc n)
    → Agrees (notified (is_zero (pos n)) p) b n
Agrees-finish serving b zero h = h
Agrees-finish serving b (suc n) h = h
Agrees-finish testing b zero h = h
Agrees-finish testing b (suc n) h = h
Agrees-finish waiting b zero h = h.0
Agrees-finish waiting b (suc n) h = (h.0, omega arith)
Agrees-finish disabled b n h = absurd (omega arith)
Agrees-finish (collected jobs) b n h = absurd (omega arith)

Agrees-disabled : (p : Shutdown) (n : ℕ) → Agrees p false n → n ≡ 0
Agrees-disabled serving n h = cc
Agrees-disabled testing n h = cc
Agrees-disabled waiting n h = cc
Agrees-disabled disabled n h = h.1
Agrees-disabled (collected jobs) n h = h.1

module _ (c : Condition) (ps : List Phase) (p : Shutdown) where
  start-IsConsistent :
      (i : ℕ) (o : Option Phase)
      → get_elem? ps i ≡ o
      → IsConsistent (record { condition = c; threads = ps; shutdown = p })
      → IsConsistent (start_thread o i (record { condition = c; threads = ps; shutdown = p }))
  unfolding start_thread start_creation
  start-IsConsistent i (some idle) h v = elim (Bool-cases c.creation_permitted) [
    | inl e ↦ rw e (record {
      counted = ground (arith, v.counted, creations-set ps i creating h);
      agrees =
          ground (arith, Agrees-start p (creations ps), creations-set ps i creating h, v.agrees);
    })
    | inr e ↦ rw e (record {
      counted = ground (arith, v.counted, creations-set ps i refused h);
      agrees = ground (arith, creations-set ps i refused h, v.agrees);
    })
  ]
  start-IsConsistent i _ h v = v

  finish-IsConsistent :
      (i : ℕ) (succeeded : Bool) (o : Option Phase)
      → get_elem? ps i ≡ o
      → IsConsistent (record { condition = c; threads = ps; shutdown = p })
      → IsConsistent
          (finish_thread o i succeeded (record { condition = c; threads = ps; shutdown = p }))
  unfolding finish_thread stop_creation
  finish-IsConsistent i true (some creating) h v =
      let n = creations (set ps i submitted) in
      let one : creations ps ≡ suc n = omega (arith, creations-set ps i submitted h) in
      record {
        counted = rw (v.counted, one);
        agrees = rw (v.counted, one) (Agrees-finish p c.creation_permitted n (rw one at v.agrees));
      }
  finish-IsConsistent i false (some creating) h v =
      let n = creations (set ps i failed) in
      let one : creations ps ≡ suc n = omega (arith, creations-set ps i failed h) in
      record {
        counted = rw (v.counted, one);
        agrees = rw (v.counted, one) (Agrees-finish p c.creation_permitted n (rw one at v.agrees));
      }
  finish-IsConsistent i succeeded _ h v = v

  register-IsConsistent :
      (i : ℕ) (o : Option Phase)
      → get_elem? ps i ≡ o
      → IsConsistent (record { condition = c; threads = ps; shutdown = p })
      → IsConsistent (register_thread o i (record { condition = c; threads = ps; shutdown = p }))
  unfolding register_thread
  register-IsConsistent i (some submitted) h v =
      let same : creations (set ps i registered) ≡ creations ps =
        omega (arith, creations-set ps i registered h) in
      record { counted = rw same v.counted; agrees = rw same v.agrees }
  register-IsConsistent i _ h v = v

module _ (c : Condition) (ps : List Phase) where
  begin-IsConsistent :
      (p : Shutdown)
      → IsConsistent (record { condition = c; threads = ps; shutdown = p })
      → IsConsistent (begin_shutdown p (record { condition = c; threads = ps; shutdown = p }))
  unfolding begin_shutdown
  begin-IsConsistent serving v = record { counted = v.counted; agrees = v.agrees }
  begin-IsConsistent _ v = v

  test-IsConsistent :
      (p : Shutdown)
      → IsConsistent (record { condition = c; threads = ps; shutdown = p })
      → IsConsistent (test_shutdown p (record { condition = c; threads = ps; shutdown = p }))
  unfolding test_shutdown test_result disable_creation
  test-IsConsistent testing v = tested (creations ps) refl
    where
      tested :
          (n : ℕ)
          → creations ps ≡ n
          → IsConsistent
              (test_shutdown testing (record { condition = c; threads = ps; shutdown = testing }))
      tested zero e = rw (v.counted, e) (record { counted = ap pos (sym e); agrees = (refl, e) })
      tested (suc n) e =
          rw (v.counted, e) (record { counted = ap pos (sym e); agrees = (v.agrees, omega arith) })
  test-IsConsistent _ v = v

  collect-IsConsistent :
      (p : Shutdown)
      → IsConsistent (record { condition = c; threads = ps; shutdown = p })
      → IsConsistent (collect_jobs p (record { condition = c; threads = ps; shutdown = p }))
  unfolding collect_jobs
  collect-IsConsistent disabled v = record { counted = v.counted; agrees = v.agrees }
  collect-IsConsistent _ v = v

pub step-IsConsistent : (e : Event) (s : System) → IsConsistent s → IsConsistent (step e s)
unfolding step
step-IsConsistent (start i) s v = start-IsConsistent s.condition s.threads s.shutdown i _ refl v
step-IsConsistent (finish i ok) s v =
    finish-IsConsistent s.condition s.threads s.shutdown i ok _ refl v
step-IsConsistent (register i) s v =
    register-IsConsistent s.condition s.threads s.shutdown i _ refl v
step-IsConsistent begin s v = begin-IsConsistent s.condition s.threads s.shutdown v
step-IsConsistent test s v = test-IsConsistent s.condition s.threads s.shutdown v
step-IsConsistent collect s v = collect-IsConsistent s.condition s.threads s.shutdown v

run_from-IsConsistent : (es : List Event) (s : System) → IsConsistent s → IsConsistent (run es s)
unfolding run
run_from-IsConsistent [] s v = v
run_from-IsConsistent (e ∷ es) s v = run_from-IsConsistent es (step e s) (step-IsConsistent e s v)

creations-idle_threads : (n : ℕ) → creations (idle_threads n) ≡ 0
creations-idle_threads zero = refl
creations-idle_threads (suc n) = omega (arith, creations-idle_threads n)

initial-IsConsistent : (n : ℕ) → IsConsistent (initial n)
unfolding initial new
initial-IsConsistent n = record { counted = ap pos (sym (creations-idle_threads n)); agrees = refl }

-- However the events of any number of threads interleave, the counter is the number of threads
-- between start_creation and stop_creation, creation is permitted exactly until the shutdown
-- thread has passed disable_creation, no thread is creating from then on, and while the shutdown
-- thread waits to be notified some thread is still creating.
pub run-IsConsistent : (n : ℕ) (es : List Event) → IsConsistent (run es (initial n))
run-IsConsistent n es = run_from-IsConsistent es (initial n) (initial-IsConsistent n)
