-- ===== src/Threading/WorkerPool/Shutdown.antt =====
-- The wait in `shutdown` of src/threading/worker_pool.hpp.
use ji_tboy.Base.{
  ◌+◌, ◌-◌, ◌≡◌, ◌≢◌, ◌<◌, ◌⊎◌, refl, arith, Bool-cases, inl, inr, true, false, ◌==◌,
}
use ji_tboy.Threading.WorkerPool.{
  Owner, WorkerPool, initial, schedule_job, count_down, read_running, close, notify, begin_shutdown,
  test_pending, wake, Step, Steps, stop, step, schedules, counts, reads, closes, notifies, begins,
  tests, wakes,
}

-- Nobody is in `shutdown` while the pool runs, and a thread that waits has a job or is done.
pub record IsSound (p : WorkerPool) : Type 0 where
  counted_right : p.pending_jobs ≡ p.scheduled
  stopped : (p.owner ≡ Owner.outside) ⊎ (p.running ≡ false)
  awaited :
      (p.owner ≢ Owner.waiting)
      ⊎ ((p.shutdown_done ≡ true) ⊎ (0 < p.scheduled + p.counted + p.closing))

outside_waiting : (p : WorkerPool) → p.owner ≡ Owner.outside → p.owner ≢ Owner.waiting
outside_waiting p e w = cc

Step-IsSound : (p q : WorkerPool) → Step p q → IsSound p → IsSound q
unfolding schedule_job count_down read_running close notify begin_shutdown test_pending wake
Step-IsSound _ _ (schedules p e) i = record {
  counted_right = omega (arith, i.counted_right);
  stopped = i.stopped;
  awaited = inl (outside_waiting p e);
}
Step-IsSound _ _ (counts p n e) i = record {
  counted_right = omega (arith, i.counted_right);
  stopped = i.stopped;
  awaited = elim i.awaited [
    | inl w ↦ inl w
    | inr (inl d) ↦ inr (inl d)
    | inr (inr more) ↦ inr (
        inr (elim (Bool-cases (p.pending_jobs - 1 == 0)) [
          | inl t ↦ rw t (omega arith)
          | inr t ↦ rw t (
              let some_left : p.pending_jobs - 1 ≢ 0 = ground (arith, t) in
              omega (arith, some_left, i.counted_right))
        ]))
  ];
}
Step-IsSound _ _ (reads p n e) i = record {
  counted_right = i.counted_right;
  stopped = i.stopped;
  awaited = elim i.stopped [
    | inl o ↦ inl (outside_waiting p o)
    | inr r ↦ elim i.awaited [
      | inl w ↦ inl w
      | inr (inl d) ↦ inr (inl d)
      | inr (inr more) ↦ inr (inr (rw r (omega (arith, e, more))))
    ]
  ];
}
Step-IsSound _ _ (closes p n e) i = record {
  counted_right = i.counted_right;
  stopped = i.stopped;
  awaited = inr (inl refl);
}
Step-IsSound _ _ (notifies p n e) i = record {
  counted_right = i.counted_right;
  stopped = i.stopped;
  awaited = i.awaited;
}
Step-IsSound _ _ (begins p e) i = record {
  counted_right = i.counted_right;
  stopped = inr refl;
  awaited = inl (λ w. cc);
}
Step-IsSound _ _ (tests p e) i = record {
  counted_right = i.counted_right;
  stopped = inr (elim i.stopped [ inl o ↦ absurd cc | inr r ↦ r ]);
  awaited = elim (Bool-cases (p.pending_jobs == 0)) [
    | inl t ↦ inl (rw t (λ w. cc))
    | inr t ↦ inr (
        inr (
          let some_left : p.pending_jobs ≢ 0 = ground (arith, t) in
          omega (arith, some_left, i.counted_right)))
  ];
}
Step-IsSound _ _ (wakes p e d) i = record {
  counted_right = i.counted_right;
  stopped = inr (elim i.stopped [ inl o ↦ absurd cc | inr r ↦ r ]);
  awaited = inr (inl d);
}

initial-IsSound : IsSound initial
initial-IsSound = record {
  counted_right = refl;
  stopped = inl refl;
  awaited = inl (outside_waiting initial refl);
}

Steps-IsSound : (p : WorkerPool) → Steps initial p → IsSound p
Steps-IsSound p stop = initial-IsSound
Steps-IsSound p (step {q = q} steps s) = Step-IsSound q p s (Steps-IsSound q steps)

-- In whatever order the threads take their steps, the count of pending jobs is the number of those that
-- have not counted down, and while the owner waits in `shutdown`, the condition that it waits for
-- holds or there is a job that has yet to count down, to read `_running` or to set the condition.
pub Steps-awaited :
    (p : WorkerPool)
    → Steps initial p
    → (p.pending_jobs ≡ p.scheduled)
      × (p.owner ≡ Owner.waiting
          → (p.shutdown_done ≡ true) ⊎ (0 < p.scheduled + p.counted + p.closing))
Steps-awaited p steps =
    let i = Steps-IsSound p steps in
    (i.counted_right, λ w. elim i.awaited [ inl n ↦ absurd (n w) | inr x ↦ x ])
