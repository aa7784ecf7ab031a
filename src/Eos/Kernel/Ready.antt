-- ===== src/Eos/Kernel/Ready.antt =====
-- The ready queues and the bitmap of priorities agree, whoever changes them.
use snu_projects.Base.{
  ℕ, ◌<◌, ◌≡◌, ◌≢◌, refl, sym, ap, ◌∙◌, Bool, true, false, ◌||◌, [], ◌∷◌, arith, ◌==◌, ◌⊎◌, inl,
  inr, Bool-cases, eq_of_==, ne_of_==, ==-self, ==_of_ne,
}
use snu_projects.Eos.Bitmap.{Bitmap, init_bitmap, set_ready}
use snu_projects.Eos.Bitmap.Laws
use snu_projects.Eos.Bitmap.Laws.{is_ready}
use snu_projects.Eos.Queue.{Queue, Entry, add_tail, carries}
use snu_projects.Eos.Kernel.Task.{clear_ready}
use snu_projects.Eos.Kernel.{Tcb, ready, TaskId, update}

abbrev pub nonempty : Queue → Bool
nonempty [] = false
nonempty (_ ∷ _) = true

-- Every node of the queue carries a ready task of priority `p`, and no task twice.
abbrev pub Queued : (TaskId → Tcb) → ℕ → Queue → Type 0
Queued tcb p [] = Unit {0}
Queued tcb p (e ∷ q) =
    ((tcb e.ptr_data).state ≡ ready)
    × ((tcb e.ptr_data).priority ≡ p)
    × (carries e.ptr_data q ≡ false)
    × Queued tcb p q

-- A priority's bit is set exactly when its queue has a node.
pub record Agree (tcb : TaskId → Tcb) (queues : ℕ → Queue) (b : Bitmap) : Type 0 where
  pub bitmap : Laws.IsValid b
  pub linked : (p : ℕ) → p < 64 → is_ready b p ≡ nonempty (queues p)
  pub queued : (p : ℕ) → p < 64 → Queued tcb p (queues p)

-- A ready task is as it was.
abbrev pub KeepsReady : (tcb tcb' : TaskId → Tcb) → Type 0
KeepsReady tcb tcb' =
    (j : TaskId)
    → (tcb j).state ≡ ready
    → ((tcb' j).state ≡ ready) × ((tcb' j).priority ≡ (tcb j).priority)

Queued-keep :
    (tcb tcb' : TaskId → Tcb) (p : ℕ) (q : Queue)
    → Queued tcb p q
    → ((j : TaskId)
        → carries j q ≡ true
        → (tcb j).state ≡ ready
        → ((tcb' j).state ≡ ready) × ((tcb' j).priority ≡ (tcb j).priority))
    → Queued tcb' p q
Queued-keep tcb tcb' p [] d keep = tt
Queued-keep tcb tcb' p (e ∷ q) d keep = (
  (keep e.ptr_data (ground arith) d.0).0,
  (keep e.ptr_data (ground arith) d.0).1 ∙ d.1,
  d.2,
  Queued-keep tcb tcb' p q d.3 (λ j c s. keep j (ground arith) s),
)

-- A task that is not ready stands in no queue.
carries_of_unready :
    (tcb : TaskId → Tcb) (p t : ℕ) (q : Queue)
    → Queued tcb p q
    → (tcb t).state ≢ ready
    → carries t q ≡ false
carries_of_unready tcb p t [] d u = refl
carries_of_unready tcb p t (e ∷ q) d u = ground (arith, carries_of_unready tcb p t q d.3 u)

-- A task of another priority stands in no queue of this one.
carries_of_priority :
    (tcb : TaskId → Tcb) (p t : ℕ) (q : Queue)
    → Queued tcb p q
    → (tcb t).priority ≢ p
    → carries t q ≡ false
carries_of_priority tcb p t [] d u = refl
carries_of_priority tcb p t (e ∷ q) d u = ground (arith, carries_of_priority tcb p t q d.3 u)

carries-tail :
    (j t p : ℕ) (q : Queue)
    → carries j (add_tail (record { ptr_data = t; priority = p }) q) ≡ (carries j q || (t == j))
carries-tail j t p [] = ground arith
carries-tail j t p (e ∷ q) = ground (arith, carries-tail j t p q)

Queued-tail :
    (tcb : TaskId → Tcb) (p t r : ℕ) (q : Queue)
    → Queued tcb p q
    → carries t q ≡ false
    → (tcb t).state ≡ ready
    → (tcb t).priority ≡ p
    → Queued tcb p (add_tail (record { ptr_data = t; priority = r }) q)
Queued-tail tcb p t r [] d o s e = (s, e, refl, tt)
Queued-tail tcb p t r (x ∷ q) d o s e = (
  d.0,
  d.1,
  ground (arith, carries-tail x.ptr_data t r q),
  Queued-tail tcb p t r q d.3 (ground arith) s e,
)

pub nonempty-tail : (e : Entry) (q : Queue) → nonempty (add_tail e q) ≡ true
nonempty-tail e [] = refl
nonempty-tail e (x ∷ q) = refl

-- Changes that spare the ready tasks.
pub Agree-keep :
    {tcb tcb' : TaskId → Tcb} {queues : ℕ → Queue} {b : Bitmap}
    → Agree tcb queues b
    → KeepsReady tcb tcb'
    → Agree tcb' queues b
Agree-keep {tcb} {tcb'} {queues} a keep = record {
  bitmap = a.bitmap;
  linked = a.linked;
  queued = λ p hp. Queued-keep tcb tcb' p (queues p) (a.queued p hp) (λ j _. keep j);
}

-- A task whose block is as it was.
same_ready :
    (tcb tcb' : TaskId → Tcb) (i : TaskId)
    → tcb' i ≡ tcb i
    → (tcb i).state ≡ ready
    → ((tcb' i).state ≡ ready) × ((tcb' i).priority ≡ (tcb i).priority)
same_ready tcb tcb' i e s = rw e (s, refl)

-- A task that was not ready becomes ready and goes to the tail of its queue.
pub Agree-push :
    {tcb tcb' : TaskId → Tcb} {queues : ℕ → Queue} {b : Bitmap} (t p : ℕ)
    → Agree tcb queues b
    → p < 64
    → (tcb t).state ≢ ready
    → (tcb' t).state ≡ ready
    → (tcb' t).priority ≡ p
    → KeepsReady tcb tcb'
    → Agree tcb'
        (update queues p (add_tail (record { ptr_data = t; priority = p }) (queues p)))
        (set_ready p b)
Agree-push {tcb} {tcb'} {queues} {b} t p a hp u s e keep = record {
  bitmap = Laws.set_ready-IsValid b a.bitmap p hp;
  linked = λ j hj. rw (Laws.is_ready-set_ready b a.bitmap p hp j hj) (link j hj);
  queued = λ j hj. place j hj (Bool-cases (j == p));
}
  where
    pushed : Queue
    pushed = add_tail (record { ptr_data = t; priority = p }) (queues p)

    link : (j : ℕ) → j < 64 → ((p == j) || is_ready b j) ≡ nonempty (update queues p pushed j)
    link j hj = elim (Bool-cases (j == p)) [
      | inl c ↦
          rw (c, eq_of_== j p c, ==-self)
            (sym (nonempty-tail (record { ptr_data = t; priority = p }) (queues p)))
      | inr c ↦ rw (c, ==_of_ne p j (λ e. ne_of_== j p c (sym e))) (a.linked j hj)
    ]

    place :
        (j : ℕ)
        → j < 64
        → ((j == p) ≡ true) ⊎ ((j == p) ≡ false)
        → Queued tcb' j (update queues p pushed j)
    place j hj (inl c) =
        rw (c, eq_of_== j p c)
          (Queued-tail tcb' p t p (queues p)
            (Queued-keep tcb tcb' p (queues p) (a.queued p hp) (λ i _. keep i))
            (carries_of_unready tcb p t (queues p) (a.queued p hp) u) s e)
    place j hj (inr c) = rw c (Queued-keep tcb tcb' j (queues j) (a.queued j hj) (λ i _. keep i))

-- The first task of a queue is taken out to run.
pub Agree-pop :
    {tcb tcb' : TaskId → Tcb} {queues : ℕ → Queue} {b : Bitmap} (p : ℕ) (e : Entry) (q : Queue)
    → Agree tcb queues b
    → p < 64
    → queues p ≡ e ∷ q
    → ((j : TaskId) → j ≢ e.ptr_data → tcb' j ≡ tcb j)
    → Agree tcb' (update queues p q) (clear_ready q p b)
unfolding clear_ready
Agree-pop {tcb} {tcb'} {queues} {b} p e q a hp full keep = record {
  bitmap = valid q;
  linked = λ j hj. link q j hj (Bool-cases (j == p));
  queued = λ j hj. place j hj (Bool-cases (j == p));
}
  where
    front : Queued tcb p (e ∷ q)
    front = rw full at (a.queued p hp)

    valid : (r : Queue) → Laws.IsValid (clear_ready r p b)
    valid [] = Laws.unset_ready-IsValid b a.bitmap p hp
    valid (_ ∷ _) = a.bitmap

    on : is_ready b p ≡ true
    on = a.linked p hp ∙ ap nonempty full

    link :
        (r : Queue) (j : ℕ)
        → j < 64
        → ((j == p) ≡ true) ⊎ ((j == p) ≡ false)
        → is_ready (clear_ready r p b) j ≡ nonempty (update queues p r j)
    link [] j hj (inl c) =
        rw (Laws.is_ready-unset_ready b a.bitmap p hp j hj, c, eq_of_== j p c, ==-self) refl
    link [] j hj (inr c) =
        rw
          (
            Laws.is_ready-unset_ready b a.bitmap p hp j hj,
            c,
            ==_of_ne p j (λ e. ne_of_== j p c (sym e)),
          )
          (a.linked j hj)
    link (x ∷ r) j hj (inl c) = rw (c, eq_of_== j p c) on
    link (x ∷ r) j hj (inr c) = rw c (a.linked j hj)

    place :
        (j : ℕ)
        → j < 64
        → ((j == p) ≡ true) ⊎ ((j == p) ≡ false)
        → Queued tcb' j (update queues p q j)
    place j hj (inl c) =
        rw (c, eq_of_== j p c)
          (Queued-keep tcb tcb' p q front.3
            (λ i m s. same_ready tcb tcb' i (keep i (ground (arith, front.2))) s))
    place j hj (inr c) = rw c (
        Queued-keep tcb tcb' j (queues j) (a.queued j hj) (λ i m s.
          same_ready tcb tcb' i
            (keep i (
              ground (
                arith,
                carries_of_priority tcb j e.ptr_data (queues j) (a.queued j hj),
                front.1,
                ne_of_== j p c,
              )))
            s))

-- No task is ready and no bit is set.
pub Agree-init : (tcb : TaskId → Tcb) → Agree tcb (λ p. []) init_bitmap
Agree-init tcb = record {
  bitmap = Laws.init_bitmap-IsValid;
  linked = λ p hp. Laws.init_bitmap-empty p hp;
  queued = λ p hp. tt;
}
