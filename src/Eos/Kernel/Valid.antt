-- ===== src/Eos/Kernel/Valid.antt =====
-- The invariant of the scheduler, and what the functions of core/task.c do under it.
use snu_projects.Base.{
  ℕ, ◌<◌, ◌≤◌, ◌≡◌, ◌≢◌, refl, sym, ap, ◌∙◌, true, false, [], ◌∷◌, Option, none, some, arith, ◌==◌,
  inl, inr, Bool-cases, eq_of_==, ==-self, ==_of_ne, ltb, if◌then◌else◌,
}
use mathlib.Core.Bool.{false≢true}
use snu_projects.Eos.Bitmap.{lowest_priority, get_highest_priority}
use snu_projects.Eos.Bitmap.Laws
use snu_projects.Eos.Bitmap.Laws.{is_ready}
use snu_projects.Eos.Queue.{Queue, Entry}
use snu_projects.Eos.Kernel.{Kernel, Tcb, ready, running, TaskId, update}
use snu_projects.Eos.Kernel.Task.{push_ready, create_task, take_first, dispatch, wake}
use snu_projects.Eos.Kernel.Ready.{Agree, KeepsReady, Agree-push, Agree-pop, nonempty, Queued}

-- The current task is not ready, and its priority has a queue.
abbrev pub IsCurrent : (TaskId → Tcb) → Option TaskId → Type 0
IsCurrent tcb none = Unit {0}
IsCurrent tcb (some t) = ((tcb t).state ≢ ready) × ((tcb t).priority < 64)

pub record IsValid (k : Kernel) : Type 0 where
  pub agree : Agree k.tcb k.ready_queue k.bitmap
  pub runs : IsCurrent k.tcb k.current

-- A change of one task that was not ready leaves the ready tasks alone.
pub keeps_update :
    (tcb : TaskId → Tcb) (t : TaskId) (b : Tcb)
    → (tcb t).state ≢ ready
    → KeepsReady tcb (update tcb t b)
keeps_update tcb t b u j s = elim (Bool-cases (j == t)) [
  | inl c ↦ absurd (u (rw (← eq_of_== j t c) s))
  | inr c ↦ rw c (s, refl)
]

pub IsCurrent-update :
    (tcb : TaskId → Tcb) (t : TaskId) (b : Tcb) (c : Option TaskId)
    → IsCurrent tcb c
    → c ≢ some t
    → IsCurrent (update tcb t b) c
IsCurrent-update tcb t b none i ne = tt
IsCurrent-update tcb t b (some u) i ne =
    rw (==_of_ne u t (λ e. ne (ap {B = Option TaskId} some e))) i

-- `_os_wakeup_sleeping_task`, up to its call of `eos_schedule`, on a task of priority below 64
-- that is neither ready nor current, keeps a valid scheduler valid.
pub wake-IsValid :
    (k : Kernel) (t : TaskId)
    → IsValid k
    → (k.tcb t).state ≢ ready
    → (k.tcb t).priority < 64
    → k.current ≢ some t
    → IsValid (wake t k)
unfolding wake push_ready
wake-IsValid k t v u hp c = record {
  agree =
      Agree-push t (k.tcb t).priority v.agree hp u (rw (==-self t) refl) (rw (==-self t) refl)
        (keeps_update k.tcb t (record (k.tcb t) { state = ready }) u);
  runs = IsCurrent-update k.tcb t _ k.current v.runs c;
}

-- `eos_create_task` with a priority below 64, on a task that is neither ready nor current, keeps a
-- valid scheduler valid.
pub create_task-IsValid :
    (k : Kernel) (t : TaskId) (sp priority : ℕ)
    → IsValid k
    → (k.tcb t).state ≢ ready
    → priority < 64
    → k.current ≢ some t
    → IsValid (create_task t sp priority k)
unfolding create_task push_ready
create_task-IsValid k t sp priority v u hp c = record {
  agree =
      Agree-push t priority v.agree hp u (rw (==-self t) refl) (rw (==-self t) refl)
        (keeps_update k.tcb t _ u);
  runs = IsCurrent-update k.tcb t _ k.current v.runs c;
}

-- What `eos_schedule` has done with the TCBs and the ready queues when it restores a context: a task
-- runs, it was the first of the ready tasks of its priority, no ready task has a smaller priority,
-- its node alone has left the queues, and but for its state every TCB is as it was.
pub record Dispatched (tcb : TaskId → Tcb) (queues : ℕ → Queue) (k' : Kernel) : Type 0 where
  pub valid : IsValid k'
  pub node : Entry
  pub rest : Queue
  pub current : k'.current ≡ some (node.ptr_data)
  pub state : (k'.tcb node.ptr_data).state ≡ running
  pub same : k'.tcb node.ptr_data ≡ record (tcb node.ptr_data) { state = running }
  pub was_ready : (tcb node.ptr_data).state ≡ ready
  pub others : (j : TaskId) → j ≢ node.ptr_data → k'.tcb j ≡ tcb j
  pub first : queues (tcb node.ptr_data).priority ≡ node ∷ rest
  pub least : (p : ℕ) → p < 64 → nonempty (queues p) ≡ true → (tcb node.ptr_data).priority ≤ p
  pub taken :
      (p : ℕ) → k'.ready_queue p ≡ (if p == (tcb node.ptr_data).priority then rest else queues p)

module _ (k : Kernel) (v : IsValid k) (idle : k.current ≡ none) where
  abbrev h : ℕ
  h = get_highest_priority k.bitmap

  h-lt : h < 64
  h-lt = Laws.highest-lt k.bitmap v.agree.bitmap

  guard : ltb lowest_priority h ≡ false
  guard = ground (arith, h-lt)

  dispatch_first :
      (e : Entry) (q : Queue)
      → k.ready_queue h ≡ e ∷ q
      → ((p : ℕ) → p < 64 → nonempty (k.ready_queue p) ≡ true → h ≤ p)
      → (k' : Kernel) × (take_first h (e ∷ q) k ≡ some k') × Dispatched k.tcb k.ready_queue k'
  unfolding take_first
  dispatch_first e q full least = (
    _,
    refl,
    record {
      valid = record {
        agree = Agree-pop h e q v.agree h-lt full (λ j ne. rw (==_of_ne j e.ptr_data ne) refl);
        runs = rw (==-self e.ptr_data) ((λ c. cc), rw front.1 h-lt);
      };
      node = e;
      rest = q;
      current = refl;
      state = rw (==-self e.ptr_data) refl;
      same = rw (==-self e.ptr_data) refl;
      was_ready = front.0;
      others = λ j ne. rw (==_of_ne j e.ptr_data ne) refl;
      first = rw front.1 full;
      least = rw front.1 least;
      taken = λ p. rw front.1 refl;
    },
  )
    where
      front : Queued k.tcb h (e ∷ q)
      front = rw full at (v.agree.queued h h-lt)

  -- With a ready task, `eos_schedule` runs one of the least priority.
  pub dispatch_lem :
      (p : ℕ)
      → p < 64
      → nonempty (k.ready_queue p) ≡ true
      → (k' : Kernel) × (dispatch k ≡ some k') × Dispatched k.tcb k.ready_queue k'
  unfolding dispatch
  dispatch_lem p hp full = rw guard (go (k.ready_queue h) refl)
    where
      found :
          (q : ℕ)
          → q < 64
          → nonempty (k.ready_queue q) ≡ true
          → (is_ready k.bitmap h ≡ true) × (h ≤ q)
      found q hq on = Laws.highest-is_ready k.bitmap v.agree.bitmap q hq (v.agree.linked q hq ∙ on)

      go :
          (q : Queue)
          → k.ready_queue h ≡ q
          → (k' : Kernel) × (take_first h (k.ready_queue h) k ≡ some k')
            × Dispatched k.tcb k.ready_queue k'
      go [] e =
          absurd
            (false≢true (sym (ap nonempty e) ∙ sym (v.agree.linked h h-lt) ∙ (found p hp full).0))
      go (e ∷ q) eq = rw eq (dispatch_first e q eq (λ q hq on. (found q hq on).1))

  -- On a valid scheduler with no current task and no ready task, `eos_schedule` reads through
  -- `NULL`: its test for an empty bitmap never passes.
  pub dispatch-fault : ((p : ℕ) → p < 64 → k.ready_queue p ≡ []) → dispatch k ≡ none
  unfolding dispatch take_first
  dispatch-fault none_ready = rw (guard, none_ready h h-lt) refl
