-- ===== src/Structures/Deque/Tests.antt =====
-- Runs of the deques, and instances of their theorems.
use snu_projects.Base.{◌≡◌, refl, [], ◌∷◌, arith, inr}
use snu_projects.Structures.Deque.Array.{ArrayDeque, push_front, remove_back}
use snu_projects.Structures.Deque.Array.Laws.{
  IsRing, HasRoom, contents, LastTaken, push_front_lem, remove_back_lem,
}

-- Three elements in four places: the ring is full.
abbrev full : ArrayDeque
full = record { arr = 7 ∷ (8 ∷ (0 ∷ (9 ∷ []))); front = 2; back = 2; size_ = 3; capacity_ = 4 }

full-IsRing : IsRing full
full-IsRing = (refl, omega arith, omega arith, omega arith, inr refl, omega arith)

full-HasRoom : HasRoom full
full-HasRoom e = omega arith

push_front_lem_example :
    IsRing (push_front 6 full) × (contents (push_front 6 full) ≡ 6 ∷ contents full)
push_front_lem_example = push_front_lem 6 full full-IsRing full-HasRoom

remove_back_lem_example : LastTaken (contents full) (remove_back full)
remove_back_lem_example = remove_back_lem full full-IsRing
