-- ===== src/Eos/Bitmap/Tests.antt =====
-- Runs of the bitmap: priorities 20 and 63 are made ready.
use snu_projects.Base.{◌≤◌, ◌≡◌, refl, true, arith}
use snu_projects.Eos.Bitmap.{Bitmap, init_bitmap, set_ready, unset_ready, get_highest_priority}
use snu_projects.Eos.Bitmap.Laws

abbrev two_ready : Bitmap
two_ready = set_ready 63 (set_ready 20 init_bitmap)

two_ready-IsValid : Laws.IsValid two_ready
two_ready-IsValid =
    Laws.set_ready-IsValid (set_ready 20 init_bitmap)
      (Laws.set_ready-IsValid init_bitmap Laws.init_bitmap-IsValid 20 (omega arith)) 63
      (omega arith)

two_ready-highest : get_highest_priority two_ready ≡ 20
unfolding get_highest_priority set_ready init_bitmap
two_ready-highest = refl

two_ready-unset : get_highest_priority (unset_ready 20 two_ready) ≡ 63
unfolding get_highest_priority set_ready unset_ready init_bitmap
two_ready-unset = refl

highest-is_ready_example :
    (Laws.is_ready two_ready (get_highest_priority two_ready) ≡ true)
    × (get_highest_priority two_ready ≤ 63)
unfolding set_ready init_bitmap Laws.is_ready
highest-is_ready_example = Laws.highest-is_ready two_ready two_ready-IsValid 63 (omega arith) refl
