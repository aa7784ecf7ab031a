-- ===== src/Structures/Deque/Array.antt =====
-- `ArrayDeque` of data-structure/01-deque/include/deque.hpp: a ring in an array that is doubled when
-- it is full. `T()` is 0, and an exception is `none`.
pub mod Slice
pub mod Grow
pub mod Laws
use snu_projects.Base.{
  ℕ, zero, suc, ◌+◌, ◌-◌, ◌*◌, ◌^◌, ◌%◌, Bool, true, false, not, ◌||◌, List, Option, none, some,
  ◌==◌, ltb, int_limit, if◌then◌else◌, set, get_or, replicate,
}

pub record ArrayDeque : Type 0 where
  pub arr : List ℕ
  pub front : ℕ
  pub back : ℕ
  pub size_ : ℕ
  pub capacity_ : ℕ

-- The constructor.
unfoldable pub empty_deque : ArrayDeque
empty_deque = record { arr = replicate 64 0; front = 63; back = 0; size_ = 0; capacity_ = 64 }

-- `i++` and `i--` on a `size_t`, and its greatest value, which `-1` is converted to.
abbrev pub plus_one : ℕ → ℕ
plus_one i = (i + 1) % 2 ^ 64

abbrev pub size_max : ℕ
size_max = 2 ^ 64 - 1

abbrev pub minus_one : ℕ → ℕ
minus_one i = (i + size_max) % 2 ^ 64

-- `i++; if(i == capacity_) i = 0;`
pub step_up : ℕ → ℕ → ℕ
step_up cap i = if plus_one i == cap then 0 else plus_one i

-- `front--; if(front == -1) front += capacity_;`
pub front_down : ℕ → ℕ → ℕ
front_down cap i = if minus_one i == size_max then (minus_one i + cap) % 2 ^ 64 else minus_one i

-- `back--; if(back == -1) back = capacity_ - 1;`
pub back_down : ℕ → ℕ → ℕ
back_down cap i = if minus_one i == size_max then minus_one cap else minus_one i

-- `for(int i = from; i < from + n; i++) to[i + offset] = arr[i];`: an `int` that is negative, or that
-- is counted past its greatest value and becomes negative, is no `size_t` below the bound, so the
-- loop ends.
pub copy : List ℕ → ℕ → ℕ → ℕ → List ℕ → List ℕ
copy arr offset from zero to = to
copy arr offset from (suc n) to =
    let further = copy arr offset (suc from) n (set to (from + offset) (get_or arr from 0)) in
    if ltb from int_limit then further else to

-- `int i = front`: the low 32 bits. From `2 ^ 31` on they stand for a negative number.
abbrev pub low_word : ℕ → ℕ
low_word i = i % 2 ^ 32

-- `resize`
pub resize : ArrayDeque → ArrayDeque
unfolding copy
resize d = record {
  arr =
      copy d.arr d.capacity_ (low_word d.front) (d.capacity_ - low_word d.front)
        (copy d.arr 0 0 d.front (replicate (2 * d.capacity_) 0));
  front = d.front + d.capacity_;
  back = d.back;
  size_ = d.size_;
  capacity_ = d.capacity_ * 2;
}

-- `if(front == back) resize();`
pub make_room : ArrayDeque → ArrayDeque
unfolding resize
make_room d = if d.front == d.back then resize d else d

put_front : ℕ → ArrayDeque → ArrayDeque
unfolding front_down
put_front item d = record {
  arr = set d.arr d.front item;
  front = front_down d.capacity_ d.front;
  back = d.back;
  size_ = plus_one d.size_;
  capacity_ = d.capacity_;
}

put_back : ℕ → ArrayDeque → ArrayDeque
unfolding step_up
put_back item d = record {
  arr = set d.arr d.back item;
  front = d.front;
  back = step_up d.capacity_ d.back;
  size_ = plus_one d.size_;
  capacity_ = d.capacity_;
}

-- `push_front`
pub push_front : ℕ → ArrayDeque → ArrayDeque
unfolding make_room put_front
push_front item d = put_front item (make_room d)

-- `push_back`
pub push_back : ℕ → ArrayDeque → ArrayDeque
unfolding make_room put_back
push_back item d = put_back item (make_room d)

-- `empty`, `size` and `capacity`
abbrev pub empty : ArrayDeque → Bool
empty d = d.size_ == 0

abbrev pub size : ArrayDeque → ℕ
size d = d.size_

abbrev pub capacity : ArrayDeque → ℕ
capacity d = d.capacity_

-- `remove_front`, with an element and as a whole
pub take_front : ArrayDeque → Option ℕ × ArrayDeque
unfolding step_up
take_front d =
    let front = step_up d.capacity_ d.front in
    (
      some (get_or d.arr front 0),
      record {
        arr = set d.arr front 0;
        front = front;
        back = d.back;
        size_ = minus_one d.size_;
        capacity_ = d.capacity_;
      },
    )

pub remove_front : ArrayDeque → Option ℕ × ArrayDeque
unfolding take_front
remove_front d = if empty d then (none, d) else take_front d

-- `remove_back`, with an element and as a whole
pub take_back : ArrayDeque → Option ℕ × ArrayDeque
unfolding back_down
take_back d =
    let back = back_down d.capacity_ d.back in
    (
      some (get_or d.arr back 0),
      record {
        arr = set d.arr back 0;
        front = d.front;
        back = back;
        size_ = minus_one d.size_;
        capacity_ = d.capacity_;
      },
    )

pub remove_back : ArrayDeque → Option ℕ × ArrayDeque
unfolding take_back
remove_back d = if empty d then (none, d) else take_back d

-- `operator[]`; the test `idx < 0` is false for a `size_t`.
pub at_index : ArrayDeque → ℕ → Option ℕ
at_index d idx =
    if ltb idx d.size_
    then some (get_or d.arr (plus_one ((idx + d.front) % 2 ^ 64) % d.capacity_) 0)
    else none
