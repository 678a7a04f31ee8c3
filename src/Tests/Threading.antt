-- ===== src/Tests/Threading.antt =====
-- Runs of src/threading.
use ji_tboy.Base.{◌+◌, ◌≡◌, ◌⊎◌, ◌<◌, refl, true, false}
use ji_tboy.Threading.WorkerPool.{
  WorkerPool, Owner, initial, Steps, stop, step, schedules, begins, tests, schedule_job,
  begin_shutdown, test_pending,
}
use ji_tboy.Threading.WorkerPool.Shutdown.{Steps-awaited}

-- A pool that is shut down while a job runs
abbrev shutting_down : WorkerPool
shutting_down = record initial {
  running = false;
  pending_jobs = 1;
  scheduled = 1;
  owner = Owner.waiting;
}

shutting_down-Steps : Steps initial shutting_down
unfolding schedule_job begin_shutdown test_pending
shutting_down-Steps = step (step (step stop (schedules _ refl)) (begins _ refl)) (tests _ refl)

Steps-awaited_example :
    (shutting_down.pending_jobs ≡ shutting_down.scheduled)
    × (shutting_down.owner ≡ Owner.waiting
        → (shutting_down.shutdown_done ≡ true)
          ⊎ (0 < shutting_down.scheduled + shutting_down.counted + shutting_down.closing))
Steps-awaited_example = Steps-awaited shutting_down shutting_down-Steps
