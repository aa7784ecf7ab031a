-- ===== src/Structures/Deque/Array/Laws.antt =====
-- The array deque is a sequence: what its operations do to the elements from the front to the back.
use snu_projects.Base.{
  ℕ, zero, suc, ◌+◌, ◌-◌, ◌≤◌, ◌<◌, ◌^◌, ◌%◌, ◌≡◌, ◌≢◌, refl, sym, ap, ap₂, ◌∙◌, List, [], ◌∷◌,
  ◌++◌, arith, ◌==◌, ltb, set, get_or, length, get_or-set_self, length-set, ◌⊎◌, inl, inr, Option,
  none, some, get_elem?, Bool-cases, eq_of_==, ne_of_==, lt_of_ltb, le_of_ltb, int_limit,
}
use native.Mathlib.Nat.{mod-lt, mod-eq_of_lt, mod-eq-sub-mod}
use snu_projects.Structures.Deque.Array.{
  ArrayDeque, empty_deque, low_word, step_up, back_down, plus_one, minus_one, resize, make_room,
  put_front, put_back, push_front, push_back, take_front, remove_front, take_back, remove_back,
  at_index,
}
use snu_projects.Structures.Deque.Array.Slice.{
  next, slice, slice-set, slice-last, Ends, step_up_lem, next-front_down, back_down_lem,
  get_elem?-slice, get_elem?-slice_behind,
}
use snu_projects.Structures.Deque.Array.Grow.{length-grown, slice-grown}

-- The elements from the front to the back.
abbrev pub contents : ArrayDeque → List ℕ
contents d = slice d.arr d.capacity_ (next d.capacity_ d.front) d.size_

-- `back` is the place behind the last element, and one place at least is free.
abbrev pub IsRing : ArrayDeque → Type 0
IsRing d =
    (length d.arr ≡ d.capacity_)
    × (d.front < d.capacity_)
    × (d.back < d.capacity_)
    × (d.size_ < d.capacity_)
    × Ends d.capacity_ d.front (suc d.size_) d.back
    × (d.capacity_ ≤ 2 ^ 63)

-- A ring that can be doubled if it is full: an `int` counts its places.
abbrev pub HasRoom : ArrayDeque → Type 0
HasRoom d = (d.front ≡ d.back) → d.capacity_ < int_limit

abbrev IsOpen : ArrayDeque → Type 0
IsOpen d = IsRing d × (suc d.size_ < d.capacity_)

resize_lem :
    (d : ArrayDeque)
    → IsRing d
    → d.front ≡ d.back
    → HasRoom d
    → IsOpen (resize d) × (contents (resize d) ≡ contents d)
unfolding resize
resize_lem d (len, lf, lb, ls, ends, small) full room =
    let wide = room full in
    let same : low_word d.front ≡ d.front = mod-eq_of_lt (omega arith) in
    rw same (
      (
        (
          length-grown d.arr d.capacity_ d.front lf (omega arith) ∙ omega arith,
          omega arith,
          omega arith,
          omega arith,
          ground arith,
          omega arith,
        ),
        omega arith,
      ),
      slice-grown d.arr d.capacity_ d.front lf (omega arith) d.size_ (omega arith),
    )

make_room_lem :
    (d : ArrayDeque)
    → IsRing d
    → HasRoom d
    → IsOpen (make_room d) × (contents (make_room d) ≡ contents d)
unfolding make_room
make_room_lem d ring room = elim (Bool-cases (d.front == d.back)) [
  | inl e ↦ rw e (resize_lem d ring (eq_of_== d.front d.back e) room)
  | inr e ↦ let ne = ne_of_== d.front d.back e in rw e ((ring, ground arith), refl)
]

next_below : (cap i : ℕ) → i < cap → next cap i < cap
next_below cap i lt = ground arith

Ends-next :
    (cap front n e : ℕ)
    → front < cap
    → e < cap
    → Ends cap front (suc n) e
    → Ends cap (next cap front) n e
Ends-next cap front n e lf le ends = ground arith

plus_one_lem : (n cap : ℕ) → n < cap → cap < 2 ^ 64 → plus_one n ≡ suc n
plus_one_lem n cap lt small = omega arith

positive : (n : ℕ) → n ≢ 0 → (m : ℕ) × (n ≡ suc m)
positive zero ne = absurd (ne refl)
positive (suc m) ne = (m, refl)

minus_one_lem : (s n cap : ℕ) → s ≡ suc n → s < cap → cap < 2 ^ 64 → minus_one s ≡ n
minus_one_lem s n cap e lt small = omega arith

Ends-down :
    (cap front n back last : ℕ)
    → front < cap
    → back < cap
    → last < cap
    → Ends cap front (suc (suc n)) back
    → (suc last ≡ back) ⊎ ((suc last ≡ cap) × (back ≡ 0))
    → Ends cap front (suc n) last
Ends-down cap front n back last lf lb ll ends down = ground arith

put_front_lem :
    (item : ℕ) (d : ArrayDeque)
    → IsOpen d
    → IsRing (put_front item d) × (contents (put_front item d) ≡ item ∷ contents d)
unfolding put_front slice
put_front_lem item d ((len, lf, lb, ls, ends, small), free) =
    let (lt, up) = next-front_down d.capacity_ d.front lf (omega arith) in
    let more = plus_one_lem d.size_ d.capacity_ ls (omega arith) in
    (
      (length-set d.arr d.front item ∙ len, lt, lb, omega arith, ground arith, small),
      ap₂ (λ i n. slice (set d.arr d.front item) d.capacity_ i n) up more
          ∙ ap₂ ◌∷◌ (get_or-set_self d.arr d.front item 0 (omega arith)) (
              slice-set d.arr d.capacity_ (next d.capacity_ d.front) d.size_ d.front item
                (next_below d.capacity_ d.front lf) lf (ground arith) (ground arith)),
    )

put_back_lem :
    (item : ℕ) (d : ArrayDeque)
    → IsOpen d
    → IsRing (put_back item d) × (contents (put_back item d) ≡ contents d ++ (item ∷ []))
unfolding put_back
put_back_lem item d ((len, lf, lb, ls, ends, small), free) =
    let up = step_up_lem d.capacity_ d.back lb (omega arith) in
    let lt = next_below d.capacity_ d.back lb in
    let more = plus_one_lem d.size_ d.capacity_ ls (omega arith) in
    let first = next d.capacity_ d.front in
    let behind = Ends-next d.capacity_ d.front d.size_ d.back lf lb ends in
    let first_lt = next_below d.capacity_ d.front lf in
    (
      (length-set d.arr d.back item ∙ len, lf, omega arith, omega arith, ground arith, small),
      ap (λ n. slice (set d.arr d.back item) d.capacity_ first n) more
          ∙ slice-last (set d.arr d.back item) d.capacity_ first d.size_ d.back first_lt lb ls
              behind
          ∙ ap₂ (λ xs x. xs ++ (x ∷ []))
              (slice-set d.arr d.capacity_ first d.size_ d.back item first_lt lb (ground arith)
                (ground arith))
              (get_or-set_self d.arr d.back item 0 (omega arith)),
    )

-- `push_front` on a ring that, if it is full, has less than `2 ^ 31` places, which are doubled, leaves
-- a ring, in which the item comes before the elements.
pub push_front_lem :
    (item : ℕ) (d : ArrayDeque)
    → IsRing d
    → HasRoom d
    → IsRing (push_front item d) × (contents (push_front item d) ≡ item ∷ contents d)
unfolding push_front
push_front_lem item d ring room =
    let (open_, same) = make_room_lem d ring room in
    let (after, added) = put_front_lem item (make_room d) open_ in
    (after, added ∙ ap (λ xs. item ∷ xs) same)

-- `push_back` on a ring that, if it is full, has less than `2 ^ 31` places: the item comes behind the
-- elements.
pub push_back_lem :
    (item : ℕ) (d : ArrayDeque)
    → IsRing d
    → HasRoom d
    → IsRing (push_back item d) × (contents (push_back item d) ≡ contents d ++ (item ∷ []))
unfolding push_back
push_back_lem item d ring room =
    let (open_, same) = make_room_lem d ring room in
    let (after, added) = put_back_lem item (make_room d) open_ in
    (after, added ∙ ap (λ xs. xs ++ (item ∷ [])) same)

-- The first element of a sequence, and the rest.
abbrev pub take_first : List ℕ → Option ℕ × List ℕ
take_first [] = (none, [])
take_first (x ∷ xs) = (some x, xs)

-- What a removal at the front leaves.
abbrev pub FirstTaken : List ℕ → Option ℕ × ArrayDeque → Type 0
FirstTaken xs r = IsRing r.1 × ((r.0, contents r.1) ≡ take_first xs)

take_front_of :
    (d : ArrayDeque) (n : ℕ) → IsRing d → d.size_ ≡ suc n → FirstTaken (contents d) (take_front d)
unfolding take_front slice
take_front_of d n (len, lf, lb, ls, ends, small) e =
    let cap = d.capacity_ in
    let up = step_up_lem cap d.front lf (omega arith) in
    let lt = next_below cap d.front lf in
    let less = minus_one_lem d.size_ n cap e ls (omega arith) in
    (
      (
        length-set d.arr (step_up cap d.front) 0 ∙ len,
        omega arith,
        lb,
        omega arith,
        ground arith,
        small,
      ),
      ap₂ (λ x xs. (some x, xs)) (ap (λ i. get_or d.arr i 0) up)
            (ap₂ (λ i k. slice (set d.arr i 0) cap (next cap i) k) up less
              ∙ slice-set d.arr cap (next cap (next cap d.front)) n (next cap d.front) 0
                  (next_below cap (next cap d.front) lt) lt (ground arith) (ground arith))
          ∙ ap (λ k. take_first (slice d.arr cap (next cap d.front) k)) (sym e),
    )

-- `remove_front` on a ring leaves a ring: it returns the first element and takes it out, or
-- returns nothing when there is none.
pub remove_front_lem : (d : ArrayDeque) → IsRing d → FirstTaken (contents d) (remove_front d)
unfolding remove_front slice
remove_front_lem d ring = elim (Bool-cases (d.size_ == 0)) [
  | inl e ↦
      let none_left =
        ap (slice d.arr d.capacity_ (next d.capacity_ d.front)) (eq_of_== d.size_ 0 e) in
      rw (e, remove_front) ((ring, ap (λ xs. (none, xs)) none_left ∙ ap take_first (sym none_left)))
  | inr e ↦
      let (n, more) = positive d.size_ (ne_of_== d.size_ 0 e) in
      rw (e, remove_front) (take_front_of d n ring more)
]

abbrev pub TakesLast : List ℕ → Option ℕ → List ℕ → Type 0
TakesLast xs none ys = (xs ≡ []) × (ys ≡ [])
TakesLast xs (some x) ys = xs ≡ ys ++ (x ∷ [])

-- What a removal at the back leaves.
abbrev pub LastTaken : List ℕ → Option ℕ × ArrayDeque → Type 0
LastTaken xs r = IsRing r.1 × TakesLast xs r.0 (contents r.1)

take_back_of :
    (d : ArrayDeque) (n : ℕ) → IsRing d → d.size_ ≡ suc n → LastTaken (contents d) (take_back d)
unfolding take_back
take_back_of d n (len, lf, lb, ls, ends, small) e =
    let cap = d.capacity_ in
    let (lt, down) = back_down_lem cap d.back lb (omega arith) in
    let less = minus_one_lem d.size_ n cap e ls (omega arith) in
    let first = next cap d.front in
    let last = back_down cap d.back in
    let first_lt = next_below cap d.front lf in
    let ends_last = Ends-down cap d.front n d.back last lf lb lt (ground arith) down in
    let behind = Ends-next cap d.front n last lf lt ends_last in
    (
      (length-set d.arr last 0 ∙ len, lf, lt, omega arith, ground arith, small),
      ap (slice d.arr cap first) e
          ∙ slice-last d.arr cap first n last first_lt lt (omega arith) behind
          ∙ ap (λ xs. xs ++ (get_or d.arr last 0 ∷ []))
              (sym (slice-set d.arr cap first n last 0 first_lt lt (ground arith) (ground arith))
                ∙ ap (λ k. slice (set d.arr last 0) cap first k) (sym less)),
    )

-- `remove_back` on a ring leaves a ring: it returns the last element and takes it out, or
-- returns nothing when there is none.
pub remove_back_lem : (d : ArrayDeque) → IsRing d → LastTaken (contents d) (remove_back d)
unfolding remove_back slice
remove_back_lem d ring = elim (Bool-cases (d.size_ == 0)) [
  | inl e ↦
      let none_left =
        ap (slice d.arr d.capacity_ (next d.capacity_ d.front)) (eq_of_== d.size_ 0 e) in
      rw (e, remove_back) ((ring, (none_left, none_left)))
  | inr e ↦
      let (n, more) = positive d.size_ (ne_of_== d.size_ 0 e) in
      rw (e, remove_back) (take_back_of d n ring more)
]

-- A place that has been counted past the end once at most.
wrapped :
    (cap i : ℕ) → 0 < cap → i < cap + cap → (i % cap < cap) × ((i ≡ i % cap) ⊎ (i ≡ i % cap + cap))
wrapped cap i pos_cap lt = elim (Bool-cases (ltb i cap)) [
  | inl e ↦ (mod-lt i pos_cap, inl (sym (mod-eq_of_lt (lt_of_ltb i cap e))))
  | inr e ↦
      let le = le_of_ltb i cap e in
      let less = mod-eq_of_lt {n = i - cap} {m = cap} (omega arith) in
      let once = mod-eq-sub-mod {n = i} {m = cap} le in (mod-lt i pos_cap, inr (omega arith))
]

-- `operator[]` on a ring reads the element at that place of the sequence, and throws when there
-- is none.
pub at_index-get_elem? :
    (d : ArrayDeque) (idx : ℕ) → IsRing d → at_index d idx ≡ get_elem? (contents d) idx
unfolding at_index
at_index-get_elem? d idx (len, lf, lb, ls, ends, small) = elim (Bool-cases (ltb idx d.size_)) [
  | inl lt ↦
      let inside = lt_of_ltb idx d.size_ lt in
      let (below, place) =
        wrapped d.capacity_ (plus_one ((idx + d.front) % 2 ^ 64)) (omega arith) (omega arith) in
      rw lt (
        sym (
          get_elem?-slice d.arr d.capacity_ (next d.capacity_ d.front) d.size_ idx
            (plus_one ((idx + d.front) % 2 ^ 64) % d.capacity_) (next_below d.capacity_ d.front lf)
            below (omega arith) inside (ground arith)))
  | inr ge ↦ rw ge (
      sym (
        get_elem?-slice_behind d.arr d.capacity_ (next d.capacity_ d.front) d.size_ idx
          (le_of_ltb idx d.size_ ge)))
]

-- The empty deque.
pub empty_deque_lem : IsRing empty_deque × (contents empty_deque ≡ [])
unfolding empty_deque slice
empty_deque_lem = ((refl, omega arith, omega arith, omega arith, ground arith, omega arith), refl)
