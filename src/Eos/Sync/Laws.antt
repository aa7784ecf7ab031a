-- ===== src/Eos/Sync/Laws.antt =====
-- What the semaphores of core/sync.c promise.
use snu_projects.Base.{
  ℕ, suc, ◌+◌, ◌-◌, ◌<◌, ◌%◌, ◌≡◌, refl, ap, ◌∙◌, true, false, [], ◌∷◌, ◌||◌, Option, some, arith,
  ltb, ◌==◌, if◌then◌else◌, Bool-cases, inl, inr, false,
}
use snu_projects.Base.Int.{ℤ, pos, negsuc}
use snu_projects.Eos.Queue.{Queue, Entry, carries, add_tail}
use snu_projects.Eos.Kernel.{Kernel, TaskId, word}
use snu_projects.Eos.Kernel.AlarmQueue.{carries-add}
use snu_projects.Eos.Kernel.Task.{sleep}
use snu_projects.Eos.Sync.{
  Semaphore, returned, switched, enqueue, wait_for, block, acquire_semaphore, resume_timed,
  wake_first, release_semaphore, after_switch,
}

pub acquire_free :
    (timeout : ℤ) (saved : Option ℕ) (sem : Semaphore) (k : Kernel)
    → 0 < sem.count
    → acquire_semaphore timeout saved sem k ≡ returned 1 (record sem { count = sem.count - 1 }) k
unfolding acquire_semaphore
acquire_free timeout saved sem k h = ground arith

pub acquire_empty :
    (saved : Option ℕ) (sem : Semaphore) (k : Kernel)
    → sem.count ≡ 0
    → acquire_semaphore (negsuc 0) saved sem k ≡ returned 0 sem k
unfolding acquire_semaphore block
acquire_empty saved sem k h = ground arith

pub release_alone :
    (saved : Option ℕ) (sem : Semaphore) (k : Kernel)
    → sem.wait_queue ≡ []
    → sem.count + 1 < word
    → release_semaphore saved sem k ≡ returned 0 (record sem { count = sem.count + 1 }) k
unfolding release_semaphore wake_first
release_alone saved sem k h w =
    ap (λ q. wake_first saved q (record sem { count = (sem.count + 1) % word }) k) h
    ∙ ap (λ c. returned 0 (record sem { count = c }) k) (omega arith)

-- With no task in the wait queue and a count below 2 ^ 32 - 1, a release wakes nobody, an acquire
-- behind it succeeds, and the two leave the semaphore as it was.
pub acquire-release :
    (saved saved' : Option ℕ) (timeout : ℤ) (sem : Semaphore) (k : Kernel)
    → sem.wait_queue ≡ []
    → sem.count + 1 < word
    → (sem' : Semaphore) × (release_semaphore saved sem k ≡ returned 0 sem' k)
      × (acquire_semaphore timeout saved' sem' k ≡ returned 1 sem k)
acquire-release saved saved' timeout sem k h w = (
  record sem { count = sem.count + 1 },
  release_alone saved sem k h w,
  acquire_free timeout saved' (record sem { count = sem.count + 1 }) k (omega arith)
      ∙ ap (λ c. returned 1 (record sem { count = c }) k) (omega arith),
)

carries-add_tail :
    (j : ℕ) (e : Entry) (q : Queue) → carries j (add_tail e q) ≡ (carries j q || (e.ptr_data == j))
carries-add_tail j e [] = ground arith
carries-add_tail j e (x ∷ q) = ground (arith, carries-add_tail j e q)

-- A task that has been queued stands in the wait queue, whatever the queue's type.
pub carries-enqueue :
    (t : TaskId) (k : Kernel) (sem : Semaphore) → carries t (enqueue t k sem).wait_queue ≡ true
unfolding enqueue
carries-enqueue t k sem = elim (Bool-cases (sem.queue_type == 0)) [
  | inl y ↦ rw y (
      ground (
        arith,
        carries-add_tail t (record { ptr_data = t; priority = (k.tcb t).priority }) sem.wait_queue,
      ))
  | inr n ↦ rw n (
      ground (
        arith,
        carries-add t (record { ptr_data = t; priority = (k.tcb t).priority }) sem.wait_queue,
      ))
]

count-enqueue : (t : TaskId) (k : Kernel) (sem : Semaphore) → (enqueue t k sem).count ≡ sem.count
unfolding enqueue
count-enqueue t k sem = refl

acquire_blocks :
    (timeout : ℤ) (saved : Option ℕ) (sem : Semaphore) (k : Kernel)
    → sem.count ≡ 0
    → acquire_semaphore timeout saved sem k ≡ block timeout saved sem k
unfolding acquire_semaphore
acquire_blocks timeout saved sem k e =
    ap
      (λ b.
        if b
        then returned 1 (record sem { count = sem.count - 1 }) k
        else block timeout saved sem k)
      (ltb_zero sem.count e)
  where
    ltb_zero : (n : ℕ) → n ≡ 0 → ltb 0 n ≡ false
    ltb_zero n e = ground arith

-- On a semaphore with no instance, a call that waits with a timeout puts the current task into the
-- wait queue and sleeps; when it is resumed with the semaphore as it was, it returns 0 and leaves
-- the task's node in the wait queue.
pub stale_waiter :
    (t : TaskId) (n : ℕ) (saved : Option ℕ) (sem : Semaphore) (k k' k'' : Kernel)
    → sem.count ≡ 0
    → k.current ≡ some t
    → sleep saved (suc n) k ≡ some k'
    → (sem' : Semaphore) × (acquire_semaphore (pos (suc n)) saved sem k ≡ switched sem' k')
      × (resume_timed sem' k'' ≡ returned 0 sem' k'')
      × (carries t sem'.wait_queue ≡ true)
unfolding block wait_for resume_timed
stale_waiter t n saved sem k k' k'' empty cur slept = (
  enqueue t k sem,
  acquire_blocks (pos (suc n)) saved sem k empty
      ∙ ap (λ c. wait_for (suc n) saved c sem k) cur
      ∙ ap (after_switch (enqueue t k sem)) slept,
  ground (arith, count-enqueue t k sem),
  carries-enqueue t k sem,
)
