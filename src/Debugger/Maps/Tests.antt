-- ===== src/Debugger/Maps/Tests.antt =====
-- Runs of `make_perms` on `r-xp` and `rw-s`.
use snu_projects.Base.{◌≡◌, refl, [], ◌∷◌}
use snu_projects.Debugger.Maps.{make_perms}

make_perms_code : make_perms (114 ∷ 45 ∷ 120 ∷ 112 ∷ []) ≡ 13
unfolding make_perms
make_perms_code = refl

make_perms_data : make_perms (114 ∷ 119 ∷ 45 ∷ 115 ∷ []) ≡ 19
unfolding make_perms
make_perms_data = refl
