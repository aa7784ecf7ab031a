-- ===== src/Eos/Message/Tests.antt =====
-- Runs of a message queue with two slots of two bytes.
use snu_projects.Base.{◌<◌, ◌≡◌, refl, ◌⊎◌, inr, [], ◌∷◌, ◌++◌, List, none, some, arith, length}
use snu_projects.Base.Int.{negsuc}
use snu_projects.Eos.Bitmap.{init_bitmap}
use snu_projects.Eos.Kernel.{Kernel, running}
use snu_projects.Eos.Sync.{returned, init_semaphore}
use snu_projects.Eos.Message.{Message, Mqueue, init_mqueue, send_message, receive_message}
use snu_projects.Eos.Message.Refines.{Holds, init_mqueue-Holds, send_lem, receive_lem}

abbrev hello : Message
hello = 104 ∷ 105 ∷ []

abbrev empty_slots : List Message
empty_slots = (0 ∷ 0 ∷ []) ∷ (0 ∷ 0 ∷ []) ∷ []

abbrev two_slots : Mqueue
two_slots = init_mqueue empty_slots 2 2 0

two_slots-Holds : Holds two_slots []
two_slots-Holds = init_mqueue-Holds empty_slots 2 2 0 (omega arith) (omega arith) refl

abbrev one_message : Mqueue
one_message = record {
  queue_size = 2;
  msg_size = 2;
  slots = (0 ∷ 0 ∷ []) ∷ hello ∷ [];
  front = 1;
  rear = 0;
  queue_type = 0;
  putsem = init_semaphore 1 0;
  getsem = init_semaphore 1 0;
}

one_message-Holds : Holds one_message (hello ∷ [])
unfolding init_semaphore
one_message-Holds = record {
  small = omega arith;
  storage = refl;
  front_in = omega arith;
  rear_in = omega arith;
  fits = omega arith;
  apart = inr refl;
  window = (refl, tt);
  free = refl;
  used = refl;
  no_sender = refl;
  no_receiver = refl;
}

abbrev alone : Kernel
alone = record {
  current = some 9;
  tcb = λ j. record { state = running; priority = 63; period = 0; sp = 0; alarm = none };
  ready_queue = λ p. [];
  bitmap = init_bitmap;
  timer = record { tick = 0; alarm_queue = [] };
  alarm = λ a. record { timeout = 0; wakes = none };
  next_alarm = 0;
}

send_lem_example :
    ((length {A = Message} [] < two_slots.queue_size)
      × ((mq' : Mqueue) × (send_message hello (negsuc 0) none two_slots alone
            ≡ returned 1 mq' alone)
          × Holds mq' ([] ++ (hello ∷ []))))
    ⊎ ((length {A = Message} [] ≡ two_slots.queue_size)
        × (send_message hello (negsuc 0) none two_slots alone ≡ returned 0 two_slots alone))
send_lem_example = send_lem hello none two_slots [] alone two_slots-Holds

receive_lem_example :
    (mq' : Mqueue) × (receive_message [] (negsuc 0) none one_message alone
      ≡ returned 1 (hello, mq') alone)
    × Holds mq' []
receive_lem_example = receive_lem [] none one_message alone hello [] one_message-Holds
