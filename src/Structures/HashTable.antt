-- ===== src/Structures/HashTable.antt =====
-- The hash table with open addressing of data-structure/05-hashtable/include/{hash_table,hash_slot,
-- hash_funcs}.hpp, with numbers as keys and values. The value `-1` of an operation is `none`.
pub mod Probe
pub mod Laws
mod Tests
use snu_projects.Base.{
  ℕ, zero, suc, ◌+◌, ◌-◌, ◌*◌, ◌/◌, ◌^◌, ◌%◌, Bool, true, false, not, ◌&&◌, ◌||◌, List, [], ◌∷◌,
  Option, none, some, ◌==◌, ltb, if◌then◌else◌, set, get_or, replicate,
}

-- `HashSlot`; the constructor leaves key and value open, which are 0 here.
pub record HashSlot : Type 0 where
  pub key : ℕ
  pub value : ℕ
  pub is_empty : Bool
  pub is_removed : Bool

abbrev pub fresh_slot : HashSlot
fresh_slot = record { key = 0; value = 0; is_empty = true; is_removed = false }

-- `HashTable`
pub record HashTable : Type 0 where
  pub table : List HashSlot
  pub table_size : ℕ
  pub size : ℕ

-- `INITIAL_TABLE_SIZE`, and the constructor
abbrev pub initial_table_size : ℕ
initial_table_size = 64

pub make_table : ℕ → HashTable
make_table n = record { table = replicate n fresh_slot; table_size = n; size = 0 }

abbrev pub slot_at : HashTable → ℕ → HashSlot
slot_at t pos = get_or t.table pos fresh_slot

-- `DefaultHashFunc::hash`, of a number that is not negative and of the characters of a string.
abbrev pub hash_number : ℕ → ℕ
hash_number k = k

unfoldable pub hash_string : List ℕ → ℕ → ℕ
hash_string [] hash = hash
hash_string (c ∷ cs) hash = hash_string cs ((hash + c) % 2 ^ 64)

-- `LinearProbeHashTable::get_next_pos` and `QuadProbeHashTable::get_next_pos`
unfoldable pub linear_probe : ℕ → ℕ → ℕ → ℕ
linear_probe table_size pos step = ((pos + step) % 2 ^ 64) % table_size

unfoldable pub quad_probe : ℕ → ℕ → ℕ → ℕ
quad_probe table_size pos step =
    ((pos + ((step * ((step + 1) % 2 ^ 64)) % 2 ^ 64) / 2) % 2 ^ 64) % table_size

-- The condition of the loop in `get` without the count, and the one in `put` and `remove`.
abbrev pub get_goes_on : ℕ → HashSlot → Bool
get_goes_on key s = (not s.is_empty || s.is_removed) && not (s.key == key)

abbrev pub put_goes_on : ℕ → HashSlot → Bool
put_goes_on key s = not s.is_empty && not (s.key == key)

-- Is the key in this slot?
abbrev pub hits : ℕ → HashSlot → Bool
hits key s = not s.is_empty && (s.key == key)

abbrev pub got : HashTable → ℕ → ℕ × ℕ → Option (ℕ × ℕ)
got t key at = if hits key (slot_at t at.0) then some ((slot_at t at.0).value, at.1) else none

-- `table[pos].set_key_value(key, value)` and what follows up to `size++`
abbrev pub fill : HashTable → ℕ → ℕ → ℕ → HashTable
fill t pos key value = record {
  table =
      set t.table pos (record { key = key; value = value; is_empty = false; is_removed = false });
  table_size = t.table_size;
  size = (t.size + 1) % 2 ^ 64;
}

abbrev pub placed : HashTable → ℕ → ℕ → ℕ × ℕ → Option (ℕ × HashTable)
placed t key value at =
    if (slot_at t at.0).is_empty then some (at.1, fill t at.0 key value) else none

-- `get_load_factor() > 0.5`
abbrev pub is_loaded : HashTable → Bool
is_loaded t = ltb t.table_size (2 * t.size)

-- What `put` does for a slot of the old table in `enlarge_table`.
abbrev pub put_again : (HashTable → ℕ → ℕ → Option ℕ × HashTable) → HashSlot → HashTable → HashTable
put_again put_one s t = if s.is_empty then t else (put_one t s.key s.value).1

unfoldable pub put_all :
    (HashTable → ℕ → ℕ → Option ℕ × HashTable) → List HashSlot → HashTable → HashTable
put_all put_one [] t = t
put_all put_one (s ∷ ss) t = put_all put_one ss (put_again put_one s t)

-- `enlarge_table`, for the `put` that it calls
pub enlarge_table : (HashTable → ℕ → ℕ → Option ℕ × HashTable) → HashTable → HashTable
unfolding put_all make_table
enlarge_table put_one t = put_all put_one t.table (make_table (2 * t.table_size))

pub finish_put : (HashTable → HashTable) → HashTable → Option (ℕ × HashTable) → Option ℕ × HashTable
finish_put enlarge t none = (none, t)
finish_put enlarge t (some r) = (some r.0, if is_loaded r.1 then enlarge r.1 else r.1)

abbrev pub empty_slot : HashTable → ℕ → HashTable
empty_slot t pos = record {
  table = set t.table pos (record {
    key = (slot_at t pos).key;
    value = (slot_at t pos).value;
    is_empty = true;
    is_removed = true;
  });
  table_size = t.table_size;
  size = (t.size + (2 ^ 64 - 1)) % 2 ^ 64;
}

abbrev pub removed : HashTable → ℕ → ℕ × ℕ → Option (ℕ × HashTable)
removed t key at = if hits key (slot_at t at.0) then some (at.1, empty_slot t at.0) else none

-- The two virtual functions are parameters.
module _ (hash : ℕ → ℕ) (get_next_pos : ℕ → ℕ → ℕ → ℕ) where
  -- `get_pos`
  abbrev pub get_pos : HashTable → ℕ → ℕ
  get_pos t key = hash key % t.table_size

  -- The loop of `get`, `put` and `remove`, with the number of further steps that
  -- `step < table_size` allows.
  unfoldable pub probe : (HashSlot → Bool) → HashTable → ℕ → ℕ → ℕ → ℕ → ℕ × ℕ
  probe goes_on t init zero pos step = (pos, step)
  probe goes_on t init (suc left) pos step =
      let further = probe goes_on t init left (get_next_pos t.table_size init step) (step + 1) in
      if goes_on (slot_at t pos) then further else (pos, step)

  abbrev pub probe_from_start : (HashSlot → Bool) → HashTable → ℕ → ℕ × ℕ
  probe_from_start goes_on t key =
      probe goes_on t (get_pos t key) (t.table_size - 1) (get_pos t key) 1

  -- `get`: the value and the number of steps.
  unfoldable pub get : HashTable → ℕ → Option (ℕ × ℕ)
  unfolding probe
  get t key = got t key (probe_from_start (get_goes_on key) t key)

  -- `put` up to the test of the load factor
  unfoldable pub place : HashTable → ℕ → ℕ → Option (ℕ × HashTable)
  unfolding probe
  place t key value = placed t key value (probe_from_start (put_goes_on key) t key)

  -- `put` and `enlarge_table`, which call each other: the fuel bounds how often the table is
  -- enlarged within one call.
  unfoldable pub put : ℕ → HashTable → ℕ → ℕ → Option ℕ × HashTable
  unfolding place enlarge_table finish_put
  put zero t key value = finish_put (λ u. u) t (place t key value)
  put (suc fuel) t key value = finish_put (enlarge_table (put fuel)) t (place t key value)

  -- `remove`
  unfoldable pub remove : HashTable → ℕ → Option (ℕ × HashTable)
  unfolding probe
  remove t key = removed t key (probe_from_start (put_goes_on key) t key)
