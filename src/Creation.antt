-- ===== src/Creation.antt =====
-- reana_job_controller/rest.py: JobCreationCondition, and the threads that use it.
-- Each `with self.condition` block is one atomic step. A thread in create_job goes from `idle` to
-- `creating` by start_creation, leaves by stop_creation when execute() has returned or raised, and
-- writes JOB_DB after that. The shutdown thread tests the counter, waits while it is not 0 (it
-- wakes by notify_all and tests again), and then reads the jobs to stop from JOB_DB.
pub mod Exclusion
pub mod Coverage
pub mod Tests
use reana_job_controller.Prelude.{
  ℕ, zero, suc, Bool, true, false, Option, none, some, List, [], ◌∷◌, map, if◌then◌else◌, get_elem?,
  set,
}
use reana_job_controller.Prelude.Int.{ℤ, pos, increment, decrement, is_zero}

pub record Condition : Type 0 where
  pub creation_permitted : Bool
  pub ongoing_creations : ℤ

unfoldable pub new : Condition
new = record { creation_permitted = true; ongoing_creations = pos 0 }

unfoldable pub start_creation : Condition → Bool × Condition
start_creation c =
    if c.creation_permitted
    then (true, record c { ongoing_creations = increment c.ongoing_creations })
    else (false, c)

-- The Boolean says that notify_all is called.
unfoldable pub stop_creation : Condition → Bool × Condition
stop_creation c =
    let ongoing = decrement c.ongoing_creations in
    (is_zero ongoing, record c { ongoing_creations = ongoing })

-- One round of the loop of disable_creation: `none` means that the thread waits.
unfoldable pub disable_creation : Condition → Option Condition
disable_creation c =
    if is_zero c.ongoing_creations then some (record c { creation_permitted = false }) else none

-- Where a thread of create_job stands.
pub data Phase : Type 0 where
  idle refused creating failed submitted registered : Phase

-- Where the shutdown thread stands; `collected` holds, for each thread, whether its job was in
-- JOB_DB when the shutdown read it.
pub data Shutdown : Type 0 where
  serving testing waiting disabled : Shutdown
  collected : List Bool → Shutdown

pub record System : Type 0 where
  pub condition : Condition
  pub threads : List Phase
  pub shutdown : Shutdown

pub data Event : Type 0 where
  start : ℕ → Event
  -- execute() returned (true) or raised (false), and the `finally` block ran
  finish : ℕ → Bool → Event
  register : ℕ → Event
  begin test collect : Event

abbrev pub is_registered : Phase → Bool
is_registered registered = true
is_registered _ = false

start_thread : Option Phase → ℕ → System → System
unfolding start_creation
start_thread (some idle) i s =
    let (granted, c) = start_creation s.condition in
    record s { condition = c; threads = set s.threads i (if granted then creating else refused) }
start_thread _ i s = s

abbrev notified : Bool → Shutdown → Shutdown
notified true waiting = testing
notified _ p = p

finish_thread : Option Phase → ℕ → Bool → System → System
unfolding stop_creation
finish_thread (some creating) i succeeded s =
    let (notify, c) = stop_creation s.condition in
    record {
      condition = c;
      threads = set s.threads i (if succeeded then submitted else failed);
      shutdown = notified notify s.shutdown;
    }
finish_thread _ i succeeded s = s

register_thread : Option Phase → ℕ → System → System
register_thread (some submitted) i s = record s { threads = set s.threads i registered }
register_thread _ i s = s

begin_shutdown : Shutdown → System → System
begin_shutdown serving s = record s { shutdown = testing }
begin_shutdown _ s = s

test_result : Option Condition → System → System
test_result none s = record s { shutdown = waiting }
test_result (some c) s = record s { condition = c; shutdown = disabled }

test_shutdown : Shutdown → System → System
unfolding disable_creation test_result
test_shutdown testing s = test_result (disable_creation s.condition) s
test_shutdown _ s = s

collect_jobs : Shutdown → System → System
collect_jobs disabled s = record s { shutdown = collected (map is_registered s.threads) }
collect_jobs _ s = s

-- An event that its thread cannot take changes nothing.
unfoldable pub step : Event → System → System
unfolding start_thread finish_thread register_thread begin_shutdown test_shutdown test_result
    collect_jobs
step (start i) s = start_thread (get_elem? s.threads i) i s
step (finish i succeeded) s = finish_thread (get_elem? s.threads i) i succeeded s
step (register i) s = register_thread (get_elem? s.threads i) i s
step begin s = begin_shutdown s.shutdown s
step test s = test_shutdown s.shutdown s
step collect s = collect_jobs s.shutdown s

-- An interleaving of the threads is the list of their events.
unfoldable pub run : List Event → System → System
unfolding step
run [] s = s
run (e ∷ es) s = run es (step e s)

abbrev idle_threads : ℕ → List Phase
idle_threads zero = []
idle_threads (suc n) = idle ∷ idle_threads n

unfoldable pub initial : ℕ → System
unfolding new
initial n = record { condition = new; threads = idle_threads n; shutdown = serving }
