-- ===== src/Structures/HashTable/Tests.antt =====
-- Runs of the hash table, and instances of its theorems.
use snu_projects.Base.{ℕ, ◌≡◌, ◌≢◌, refl, true, false, none, some, [], ◌∷◌, arith}
use snu_projects.Structures.HashTable.{
  HashSlot, HashTable, fresh_slot, linear_probe, quad_probe, hash_number, hash_string, get, place,
  put, remove,
}
use snu_projects.Structures.HashTable.Laws.{IsTable, get-place, get-remove_other, linear_probe-lt}

abbrev full_slot : ℕ → ℕ → HashSlot
full_slot key value = record { key = key; value = value; is_empty = false; is_removed = false }

-- A table of four slots in which 1 and 5 collide.
abbrev two_keys : HashTable
two_keys = record {
  table = fresh_slot ∷ (full_slot 1 10 ∷ (full_slot 5 50 ∷ (fresh_slot ∷ [])));
  table_size = 4;
  size = 2;
}

abbrev one_key : HashTable
one_key = record {
  table = fresh_slot ∷ (full_slot 1 10 ∷ (fresh_slot ∷ (fresh_slot ∷ [])));
  table_size = 4;
  size = 1;
}

abbrev removed_slot : HashSlot
removed_slot = record { key = 1; value = 10; is_empty = true; is_removed = true }

abbrev after_removal : HashTable
after_removal = record {
  table = fresh_slot ∷ (removed_slot ∷ (full_slot 5 50 ∷ (fresh_slot ∷ [])));
  table_size = 4;
  size = 1;
}

two_keys-IsTable : IsTable linear_probe two_keys
two_keys-IsTable = (refl, omega arith, λ pos step. linear_probe-lt 4 pos step (omega arith))

one_key-IsTable : IsTable linear_probe one_key
one_key-IsTable = (refl, omega arith, λ pos step. linear_probe-lt 4 pos step (omega arith))

placed : place hash_number linear_probe one_key 5 50 ≡ some (2, two_keys)
unfolding place linear_probe
placed = refl

removal : remove hash_number linear_probe two_keys 1 ≡ some (1, after_removal)
unfolding remove linear_probe
removal = refl

found : get hash_number linear_probe two_keys 5 ≡ some (50, 2)
unfolding get linear_probe
found = refl

-- The loop of `remove` stops at the slot that 1 has left: it does not find 5, which `get` finds.
remove_behind_removed : remove hash_number linear_probe after_removal 5 ≡ none
unfolding remove linear_probe
remove_behind_removed = refl

get_behind_removed : get hash_number linear_probe after_removal 5 ≡ some (50, 2)
unfolding get linear_probe
get_behind_removed = refl

-- `put` stops there as well, and puts 5 into the table a second time.
put_twice :
    place hash_number linear_probe after_removal 5 51
    ≡ some (
      1,
      record {
        table = fresh_slot ∷ (full_slot 5 51 ∷ (full_slot 5 50 ∷ (fresh_slot ∷ [])));
        table_size = 4;
        size = 2;
      },
    )
unfolding place linear_probe
put_twice = refl

-- The third key makes the table grow.
grown : put hash_number quad_probe 2 two_keys 3 30 ≡ (
  some 1,
  record {
    table =
        fresh_slot
        ∷ (full_slot 1 10
            ∷ (fresh_slot
                ∷ (full_slot 3 30
                    ∷ (fresh_slot ∷ (full_slot 5 50 ∷ (fresh_slot ∷ (fresh_slot ∷ [])))))));
    table_size = 8;
    size = 3;
  },
)
unfolding put quad_probe
grown = refl

hashed : hash_string (97 ∷ (98 ∷ [])) 0 ≡ 195
unfolding hash_string
hashed = refl

first_found : get hash_number linear_probe one_key 1 ≡ some (10, 1)
unfolding get linear_probe
first_found = refl

five_one : (n : ℕ) → n ≡ 5 → n ≢ 1
five_one n e f = omega arith

get-place_example : get hash_number linear_probe two_keys 5 ≡ some (50, 2)
get-place_example =
    get-place hash_number linear_probe one_key two_keys 5 50 2 one_key-IsTable placed

get-remove_other_example : get hash_number linear_probe after_removal 5 ≡ some (50, 2)
get-remove_other_example =
    get-remove_other hash_number linear_probe two_keys after_removal 1 5 1 (50, 2) two_keys-IsTable
      (λ e. omega arith) removal found
