-- ===== src/Threading/WorkerPool.antt =====
-- The shutdown of a pool of workers: src/threading/worker_pool.hpp. The threads take turns at what they
-- read and write of the pool; what a job does for its caller is left out.
pub mod Shutdown
use ji_tboy.Base.{ℕ, zero, suc, ◌+◌, ◌-◌, Bool, true, false, ◌==◌, if◌then◌else◌, ◌≡◌}

-- Where the thread that owns the pool is: outside of `shutdown`, before the test of its loop, in the
-- wait of its loop, or behind it
pub data Owner : Type 0 where
  outside : Owner
  testing : Owner
  waiting : Owner
  over : Owner

-- `scheduled` jobs have not yet counted down. Of those that counted down to 0, `counted` have still to
-- read `_running`, `closing` to set `_shutdown_done`, and `notifying` to call `notify_one`.
pub record WorkerPool : Type 0 where
  pub running : Bool
  pub shutdown_done : Bool
  pub pending_jobs : ℕ
  pub scheduled : ℕ
  pub counted : ℕ
  pub closing : ℕ
  pub notifying : ℕ
  pub owner : Owner

-- The constructor
abbrev pub initial : WorkerPool
initial = record {
  running = true;
  shutdown_done = false;
  pending_jobs = 0;
  scheduled = 0;
  counted = 0;
  closing = 0;
  notifying = 0;
  owner = Owner.outside;
}

unfoldable pub schedule_job : WorkerPool → WorkerPool
schedule_job p = record p { pending_jobs = p.pending_jobs + 1; scheduled = p.scheduled + 1 }

-- `--_pending_jobs == 0`, by one of the scheduled jobs
unfoldable pub count_down : WorkerPool → WorkerPool
count_down p =
    let pending = p.pending_jobs - 1 in
    record p {
      pending_jobs = pending;
      scheduled = p.scheduled - 1;
      counted = if pending == 0 then p.counted + 1 else p.counted;
    }

-- `&& !_running`
unfoldable pub read_running : WorkerPool → WorkerPool
read_running p = record p {
  counted = p.counted - 1;
  closing = if p.running then p.closing else p.closing + 1;
}

-- `_shutdown_done = true`, under the lock
unfoldable pub close : WorkerPool → WorkerPool
close p = record p { closing = p.closing - 1; shutdown_done = true; notifying = p.notifying + 1 }

-- `_shutdown_cond.notify_one()`, the end of the job
unfoldable pub notify : WorkerPool → WorkerPool
notify p = record p { notifying = p.notifying - 1 }

-- `shutdown` up to its loop
unfoldable pub begin_shutdown : WorkerPool → WorkerPool
begin_shutdown p = record p { running = false; owner = Owner.testing }

-- `while (pending_jobs())`
unfoldable pub test_pending : WorkerPool → WorkerPool
test_pending p = record p { owner = if p.pending_jobs == 0 then Owner.over else Owner.waiting }

-- The end of `_shutdown_cond.wait`, whose condition is that the shutdown is done
unfoldable pub wake : WorkerPool → WorkerPool
wake p = record p { owner = Owner.testing }

-- One step of one of the threads
pub data Step : WorkerPool → WorkerPool → Type 0 where
  schedules : (p : WorkerPool) → p.owner ≡ Owner.outside → Step p (schedule_job p)
  counts : (p : WorkerPool) (n : ℕ) → p.scheduled ≡ suc n → Step p (count_down p)
  reads : (p : WorkerPool) (n : ℕ) → p.counted ≡ suc n → Step p (read_running p)
  closes : (p : WorkerPool) (n : ℕ) → p.closing ≡ suc n → Step p (close p)
  notifies : (p : WorkerPool) (n : ℕ) → p.notifying ≡ suc n → Step p (notify p)
  begins : (p : WorkerPool) → p.owner ≡ Owner.outside → Step p (begin_shutdown p)
  tests : (p : WorkerPool) → p.owner ≡ Owner.testing → Step p (test_pending p)
  wakes : (p : WorkerPool) → p.owner ≡ Owner.waiting → p.shutdown_done ≡ true → Step p (wake p)

pub data Steps : WorkerPool → WorkerPool → Type 0 where
  stop : {p : WorkerPool} → Steps p p
  step : {p q r : WorkerPool} → Steps p q → Step q r → Steps p r
