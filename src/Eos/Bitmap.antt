-- ===== src/Eos/Bitmap.antt =====
-- The bitmap of ready priorities and the scheduler lock: MiniOS/eOS_student/core/scheduler.c.
-- A byte is a number below 256; `~m` on a byte is `255 - m`.
mod Bytes
pub mod Laws
mod Tests
use snu_projects.Base.{
  ℕ, ◌+◌, ◌-◌, ◌*◌, ◌/◌, ◌%◌, bit_and, bit_or, List, [], ◌∷◌, ◌++◌, ◌==◌, if◌then◌else◌, get_or,
  set, replicate,
}

-- `LOWEST_PRIORITY`
abbrev pub lowest_priority : ℕ
lowest_priority = 63

-- `READY_TABLE_SIZE`
abbrev pub ready_table_size : ℕ
ready_table_size = lowest_priority / 8 + 1

-- `_os_map_table`
abbrev pub map_table : List ℕ
map_table = 0x01 ∷ 0x02 ∷ 0x04 ∷ 0x08 ∷ 0x10 ∷ 0x20 ∷ 0x40 ∷ 0x80 ∷ []

-- Sixteen entries of `_os_unmap_table`, which differ only in the first.
abbrev row : ℕ → List ℕ
row n = n ∷ 0 ∷ 1 ∷ 0 ∷ 2 ∷ 0 ∷ 1 ∷ 0 ∷ 3 ∷ 0 ∷ 1 ∷ 0 ∷ 2 ∷ 0 ∷ 1 ∷ 0 ∷ []

-- `_os_unmap_table`: the position of the lowest bit that is set.
abbrev pub unmap_table : List ℕ
unmap_table =
    row 0
    ++ row 4
    ++ row 5
    ++ row 4
    ++ row 6
    ++ row 4
    ++ row 5
    ++ row 4
    ++ row 7
    ++ row 4
    ++ row 5
    ++ row 4
    ++ row 6
    ++ row 4
    ++ row 5
    ++ row 4

-- `_os_ready_group` and `_os_ready_table`
pub record Bitmap : Type 0 where
  pub group : ℕ
  pub table : List ℕ

-- `_os_init_scheduler`, the part that clears the bitmap.
unfoldable pub init_bitmap : Bitmap
init_bitmap = record { group = 0; table = replicate ready_table_size 0 }

-- `_os_get_highest_priority`
unfoldable pub get_highest_priority : Bitmap → ℕ
get_highest_priority b =
    let y = get_or unmap_table b.group 0 in (y * 8) + get_or unmap_table (get_or b.table y 0) 0

-- `_os_set_ready`; the parameter is an `int8u_t`.
unfoldable pub set_ready : ℕ → Bitmap → Bitmap
set_ready priority b =
    let p = priority % 256 in
    let y = p / 8 in
    record {
      group = bit_or b.group (get_or map_table y 0);
      table = set b.table y (bit_or (get_or b.table y 0) (get_or map_table (bit_and p 0x07) 0));
    }

-- `_os_unset_ready`
pub unset_ready : ℕ → Bitmap → Bitmap
unset_ready priority b =
    let p = priority % 256 in
    let y = p / 8 in
    let e = bit_and (get_or b.table y 0) (255 - get_or map_table (bit_and p 0x07) 0) in
    record {
      group = if e == 0 then bit_and b.group (255 - get_or map_table y 0) else b.group;
      table = set b.table y e;
    }
