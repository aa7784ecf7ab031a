-- ===== src/Eos/Message/Refines.antt =====
-- A message queue of core/comm.c behaves as a bounded first-in-first-out queue, as long as no task
-- waits on its semaphores.
use snu_projects.Base.{
  ℕ, suc, ◌+◌, ◌-◌, ◌<◌, ◌≤◌, ◌^◌, ◌≡◌, refl, ap, ◌∙◌, ◌⊎◌, inl, inr, List, [], ◌∷◌, ◌++◌, Option,
  arith, ltb, length, length-append, get_or, set, length-set, get_or-set_self, get_or-set_ne,
  Bool-cases, lt_of_ltb, le_of_ltb, false,
}
use snu_projects.Base.Int.{negsuc}
use snu_projects.Eos.Kernel.{Kernel}
use snu_projects.Eos.Sync.{returned}
use snu_projects.Eos.Sync.Laws.{acquire_free, acquire_empty, release_alone}
use snu_projects.Eos.Message.{
  Message, Mqueue, init_mqueue, next_slot, put, get, finish_send, finish_receive, send_behind,
  send_message, receive_behind, receive_message,
}

-- The slots from `i` on hold the messages, going round at the end of the storage.
abbrev pub Window : (size : ℕ) → List Message → ℕ → List Message → Type 0
Window size slots i [] = Unit {0}
Window size slots i (x ∷ xs) = (get_or slots i [] ≡ x) × Window size slots (next_slot size i) xs

-- `n` slots on from `i` is `r`.
abbrev pub Apart : (size i n r : ℕ) → Type 0
Apart size i n r = (r ≡ i + n) ⊎ (r + size ≡ i + n)

-- The queue holds the messages `xs`, oldest first, its semaphores count the free and the used slots,
-- and no task waits.
pub record Holds (mq : Mqueue) (xs : List Message) : Type 0 where
  pub small : mq.queue_size < 2 ^ 16
  pub storage : length mq.slots ≡ mq.queue_size
  pub front_in : mq.front < mq.queue_size
  pub rear_in : mq.rear < mq.queue_size
  pub fits : length xs ≤ mq.queue_size
  pub apart : Apart mq.queue_size mq.front (length xs) mq.rear
  pub window : Window mq.queue_size mq.slots mq.front xs
  pub free : mq.putsem.count ≡ mq.queue_size - length xs
  pub used : mq.getsem.count ≡ length xs
  pub no_sender : mq.putsem.wait_queue ≡ []
  pub no_receiver : mq.getsem.wait_queue ≡ []

module _ (size : ℕ) where
  next_slot-lt : (i : ℕ) → i < size → next_slot size i < size
  unfolding next_slot
  next_slot-lt i h = ground arith

  -- One slot on from both ends of a stretch.
  Apart-next :
      (i n r : ℕ) → i < size → r < size → Apart size i (suc n) r → Apart size (next_slot size i) n r
  unfolding next_slot
  Apart-next i n r hi hr a = ground arith

  Apart-end :
      (i n r : ℕ)
      → n < size
      → i < size
      → r < size
      → Apart size i n r
      → Apart size i (n + 1) (next_slot size r)
  unfolding next_slot
  Apart-end i n r hn hi hr a = ground arith

  -- Writing the slot behind the window makes the window longer by that message.
  Window-set :
      (slots : List Message) (m : Message) (i r : ℕ) (xs : List Message)
      → length slots ≡ size
      → i < size
      → r < size
      → length xs < size
      → Apart size i (length xs) r
      → Window size slots i xs
      → Window size (set slots r m) i (xs ++ (m ∷ []))
  Window-set slots m i r [] hs hi hr hn a w = (
    ap (λ j. get_or (set slots r m) j []) (omega arith) ∙ get_or-set_self slots r m [] (rw hs hr),
    tt,
  )
  Window-set slots m i r (x ∷ xs) hs hi hr hn a w = (
    get_or-set_ne slots r i m [] (ground arith) ∙ w.0,
    Window-set slots m (next_slot size i) r xs hs (next_slot-lt i hi) hr (omega arith)
        (Apart-next i (length xs) r hi hr a) w.1,
  )

module _ (m : Message) (saved : Option ℕ) (mq : Mqueue) (xs : List Message) (k : Kernel)
    (h : Holds mq xs) where
  abbrev sent : Mqueue
  sent =
      record (put m (record mq { putsem = record (mq.putsem) { count = mq.putsem.count - 1 } })) {
        getsem = record (mq.getsem) { count = mq.getsem.count + 1 };
      }

  sent-Holds : length xs < mq.queue_size → Holds sent (xs ++ (m ∷ []))
  unfolding put
  sent-Holds room = record {
    small = h.small;
    storage = length-set mq.slots mq.rear m ∙ h.storage;
    front_in = h.front_in;
    rear_in = next_slot-lt mq.queue_size mq.rear h.rear_in;
    fits = omega (arith, longer);
    apart =
        rw longer
          (Apart-end mq.queue_size mq.front (length xs) mq.rear room h.front_in h.rear_in h.apart);
    window =
        Window-set mq.queue_size mq.slots m mq.front mq.rear xs h.storage h.front_in h.rear_in room
          h.apart h.window;
    free = omega (arith, h.free, longer);
    used = omega (arith, h.used, longer);
    no_sender = h.no_sender;
    no_receiver = h.no_receiver;
  }
    where
      longer : length (xs ++ (m ∷ [])) ≡ length xs + 1
      longer = length-append xs (m ∷ [])

  send_room : length xs < mq.queue_size → send_message m (negsuc 0) saved mq k ≡ returned 1 sent k
  unfolding send_message put
  send_room room =
      ap (send_behind m saved mq)
        (acquire_free (negsuc 0) saved mq.putsem k (omega (arith, h.free)))
      ∙ ap
          (finish_send
            (put m (record mq { putsem = record (mq.putsem) { count = mq.putsem.count - 1 } })))
          (release_alone saved mq.getsem k h.no_receiver (omega (arith, h.used, h.small)))

  send_full : length xs ≡ mq.queue_size → send_message m (negsuc 0) saved mq k ≡ returned 0 mq k
  unfolding send_message
  send_full full =
      ap (send_behind m saved mq) (acquire_empty saved mq.putsem k (omega (arith, h.free)))

  -- On a queue on which no task waits, `eos_send_message` that does not wait takes a message
  -- exactly when there is room, and then the message is the newest; otherwise it returns 0 and
  -- changes nothing.
  pub send_lem :
      ((length xs < mq.queue_size)
        × ((mq' : Mqueue) × (send_message m (negsuc 0) saved mq k ≡ returned 1 mq' k)
            × Holds mq' (xs ++ (m ∷ []))))
      ⊎ ((length xs ≡ mq.queue_size) × (send_message m (negsuc 0) saved mq k ≡ returned 0 mq k))
  send_lem = elim (Bool-cases (ltb (length xs) mq.queue_size)) [
    | inl y ↦
        inl (lt_of_ltb _ _ y, (sent, send_room (lt_of_ltb _ _ y), sent-Holds (lt_of_ltb _ _ y)))
    | inr n ↦ inr (full n, send_full (full n))
  ]
    where
      full : ltb (length xs) mq.queue_size ≡ false → length xs ≡ mq.queue_size
      full n = omega (arith, h.fits, le_of_ltb (length xs) mq.queue_size n)

module _ (m : Message) (saved : Option ℕ) (mq : Mqueue) (k : Kernel) where
  abbrev taken : Mqueue
  taken =
      record (get (record mq { getsem = record (mq.getsem) { count = mq.getsem.count - 1 } })).1 {
        putsem = record (mq.putsem) { count = mq.putsem.count + 1 };
      }

  -- On a queue that is not empty and on which no task waits, `eos_receive_message` that does not
  -- wait returns the oldest message and drops it.
  pub receive_lem :
      (x : Message) (xs : List Message)
      → Holds mq (x ∷ xs)
      → (mq' : Mqueue) × (receive_message m (negsuc 0) saved mq k ≡ returned 1 (x, mq') k)
        × Holds mq' xs
  unfolding receive_message get
  receive_lem x xs h = (
    taken,
    ap (receive_behind m saved mq)
          (acquire_free (negsuc 0) saved mq.getsem k (omega (arith, h.used)))
        ∙ ap (finish_receive (get_or mq.slots mq.front []) passed)
            (release_alone saved mq.putsem k h.no_sender (omega (arith, h.free, h.small)))
        ∙ ap (λ r. returned 1 (r, taken) k) h.window.0,
    record {
      small = h.small;
      storage = h.storage;
      front_in = next_slot-lt mq.queue_size mq.front h.front_in;
      rear_in = h.rear_in;
      fits = omega (arith, h.fits);
      apart = Apart-next mq.queue_size mq.front (length xs) mq.rear h.front_in h.rear_in h.apart;
      window = h.window.1;
      free = omega (arith, h.free, h.fits);
      used = omega (arith, h.used);
      no_sender = h.no_sender;
      no_receiver = h.no_receiver;
    },
  )
    where
      passed : Mqueue
      passed = (get (record mq { getsem = record (mq.getsem) { count = mq.getsem.count - 1 } })).1

  -- `eos_receive_message` that does not wait returns 0 on an empty queue and changes nothing.
  pub receive_empty : Holds mq [] → receive_message m (negsuc 0) saved mq k ≡ returned 0 (m, mq) k
  unfolding receive_message
  receive_empty h = ap (receive_behind m saved mq) (acquire_empty saved mq.getsem k h.used)

-- A queue that `eos_init_mqueue` has set up over storage of `queue_size` slots is empty.
pub init_mqueue-Holds :
    (slots : List Message) (queue_size msg_size queue_type : ℕ)
    → 0 < queue_size
    → queue_size < 2 ^ 16
    → length slots ≡ queue_size
    → Holds (init_mqueue slots queue_size msg_size queue_type) []
unfolding init_mqueue
init_mqueue-Holds slots queue_size msg_size queue_type pos small storage = record {
  small = small;
  storage = storage;
  front_in = pos;
  rear_in = pos;
  fits = omega arith;
  apart = inl refl;
  window = tt;
  free = omega arith;
  used = refl;
  no_sender = refl;
  no_receiver = refl;
}
