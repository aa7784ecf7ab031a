-- ===== src/Eos/Message.antt =====
-- Message queues: MiniOS/eOS_student/core/comm.c. Slot `i` of the storage is the `msg_size` bytes
-- from `queue_start + i * msg_size` on; `memcpy` moves one slot.
pub mod Refines
mod Tests
use snu_projects.Base.{
  ℕ, zero, suc, ◌+◌, ◌-◌, ◌*◌, List, Option, none, some, ◌==◌, ltb, if◌then◌else◌, get_or, set, [],
}
use snu_projects.Base.Int.{ℤ}
use snu_projects.Eos.Kernel.{Kernel}
use snu_projects.Eos.Sync.{
  Semaphore, Outcome, returned, switched, faulted, init_semaphore, acquire_semaphore,
  release_semaphore,
}

-- The bytes of a message.
abbrev pub Message : Type 0
Message = List ℕ

-- `eos_mqueue_t` and the storage that it points to.
pub record Mqueue : Type 0 where
  pub queue_size : ℕ
  pub msg_size : ℕ
  pub slots : List Message
  pub front : ℕ
  pub rear : ℕ
  pub queue_type : ℕ
  pub putsem : Semaphore
  pub getsem : Semaphore

-- `eos_init_mqueue`
pub init_mqueue : List Message → (queue_size msg_size queue_type : ℕ) → Mqueue
unfolding init_semaphore
init_mqueue slots queue_size msg_size queue_type = record {
  queue_size = queue_size;
  msg_size = msg_size;
  slots = slots;
  front = 0;
  rear = 0;
  queue_type = queue_type;
  putsem = init_semaphore queue_size queue_type;
  getsem = init_semaphore 0 queue_type;
}

-- `rear` and `front` go to the next slot.
pub next_slot : (queue_size i : ℕ) → ℕ
next_slot queue_size i = if ltb i (queue_size - 1) then i + 1 else 0

-- The part of `eos_send_message` behind `putsem`: the message is stored and `rear` moves on.
pub put : Message → Mqueue → Mqueue
unfolding next_slot
put m mq = record mq { slots = set mq.slots mq.rear m; rear = next_slot mq.queue_size mq.rear }

-- The part of `eos_receive_message` behind `getsem`: `front` moves on.
pub get : Mqueue → Message × Mqueue
unfolding next_slot
get mq = (get_or mq.slots mq.front [], record mq { front = next_slot mq.queue_size mq.front })

-- The end of `eos_send_message`: `getsem` is released, and 1 is returned.
finish_send : Mqueue → Outcome Semaphore → Outcome Mqueue
finish_send mq (returned _ sem k) = returned 1 (record mq { getsem = sem }) k
finish_send mq (switched sem k) = switched (record mq { getsem = sem }) k
finish_send mq faulted = faulted

-- `eos_send_message`, once `putsem` has been asked for: behind a switch of context the call goes on
-- where the task is resumed.
pub send_behind : Message → (saved : Option ℕ) → Mqueue → Outcome Semaphore → Outcome Mqueue
unfolding put finish_send
send_behind m saved mq (returned zero sem k) = returned 0 (record mq { putsem = sem }) k
send_behind m saved mq (returned (suc _) sem k) =
    let mq' = put m (record mq { putsem = sem }) in
    finish_send mq' (release_semaphore saved mq'.getsem k)
send_behind m saved mq (switched sem k) = switched (record mq { putsem = sem }) k
send_behind m saved mq faulted = faulted

-- `eos_send_message`
pub send_message : Message → (timeout : ℤ) (saved : Option ℕ) → Mqueue → Kernel → Outcome Mqueue
unfolding send_behind
send_message m timeout saved mq k =
    send_behind m saved mq (acquire_semaphore timeout saved mq.putsem k)

finish_receive : Message → Mqueue → Outcome Semaphore → Outcome (Message × Mqueue)
finish_receive m mq (returned _ sem k) = returned 1 (m, record mq { putsem = sem }) k
finish_receive m mq (switched sem k) = switched (m, record mq { putsem = sem }) k
finish_receive m mq faulted = faulted

-- `eos_receive_message`, once `getsem` has been asked for. `m` is what the caller's buffer holds.
pub receive_behind :
    Message → (saved : Option ℕ) → Mqueue → Outcome Semaphore → Outcome (Message × Mqueue)
unfolding get finish_receive
receive_behind m saved mq (returned zero sem k) = returned 0 (m, record mq { getsem = sem }) k
receive_behind m saved mq (returned (suc _) sem k) =
    let (m', mq') = get (record mq { getsem = sem }) in
    finish_receive m' mq' (release_semaphore saved mq'.putsem k)
receive_behind m saved mq (switched sem k) = switched (m, record mq { getsem = sem }) k
receive_behind m saved mq faulted = faulted

-- `eos_receive_message`
pub receive_message :
    Message → (timeout : ℤ) (saved : Option ℕ) → Mqueue → Kernel → Outcome (Message × Mqueue)
unfolding receive_behind
receive_message m timeout saved mq k =
    receive_behind m saved mq (acquire_semaphore timeout saved mq.getsem k)
