-- ===== src/Simulator/CacheBase.antt =====
-- The set-associative cache of CPU-cache/WonhoLee_Lab4/cache_base/cache_base.cc. The numbers of sets
-- and of bytes in a line are powers of two, given by their logarithms; an address has 64 bits.
pub mod Lookup
pub mod Sound
pub mod Fill
pub mod Tags
pub mod Access
pub mod Runs
mod Tests
use snu_projects.Base.{
  ℕ, zero, suc, ◌+◌, ◌-◌, ◌*◌, ◌/◌, ◌%◌, ◌^◌, Bool, true, false, not, ◌&&◌, ◌||◌, ◌==◌,
  if◌then◌else◌, List, [], ◌∷◌, Option, none, some,
}
use snu_projects.Structures.Keys.{remove_key}

pub data RequestType : Type 0 where
  read write inst_fetch write_back : RequestType

abbrev pub is_write : RequestType → Bool
is_write write = true
is_write _ = false

abbrev pub is_write_back : RequestType → Bool
is_write_back write_back = true
is_write_back _ = false

pub record CacheEntry : Type 0 where
  pub valid : Bool
  pub dirty : Bool
  pub tag : ℕ

-- The ways of a set, from 0 to `assoc`, and the numbers of the ways from the most to the least
-- recently used.
pub record CacheSet : Type 0 where
  pub entry : ℕ → CacheEntry
  pub assoc : ℕ
  pub lru : List ℕ

abbrev pub matches : ℕ → CacheEntry → Bool
matches tag e = (e.tag == tag) && e.valid

-- The way that the loop of `access` stops at, and the last invalid way if it does not stop.
unfoldable pub find_way : (ℕ → CacheEntry) → ℕ → ℕ → ℕ → Option ℕ
find_way entry tag j zero = none
find_way entry tag j (suc m) =
    let later = find_way entry tag (suc j) m in if matches tag (entry j) then some j else later

unfoldable pub invalid_way : (ℕ → CacheEntry) → ℕ → ℕ → Option ℕ → Option ℕ
invalid_way entry j zero seen = seen
invalid_way entry j (suc m) seen =
    invalid_way entry (suc j) m (if (entry j).valid then seen else some j)

unfoldable pub put : (ℕ → CacheEntry) → ℕ → CacheEntry → (ℕ → CacheEntry)
put entry j e i = if i == j then e else entry i

-- `LRU.back()` and `pop_back`
unfoldable pub back : List ℕ → ℕ
back [] = 0
back (x ∷ []) = x
back (x ∷ y ∷ xs) = back (y ∷ xs)

unfoldable pub pop_back : List ℕ → List ℕ
pop_back [] = []
pop_back (x ∷ []) = []
pop_back (x ∷ y ∷ xs) = x ∷ pop_back (y ∷ xs)

-- A hit. A write-back does not count as a use.
unfoldable pub use_way : RequestType → CacheSet → ℕ → CacheSet
unfolding put
use_way type s j = record {
  entry =
      if is_write type || is_write_back type
      then put s.entry j (record (s.entry j) { dirty = true })
      else s.entry;
  assoc = s.assoc;
  lru = if is_write_back type then s.lru else j ∷ remove_key j s.lru;
}

-- The line filled into a way, which is then the most recently used.
unfoldable pub fill_way : RequestType → ℕ → CacheSet → ℕ → List ℕ → CacheSet
unfolding put
fill_way type tag s j others = record {
  entry = put s.entry j (record { valid = true; dirty = is_write type; tag = tag });
  assoc = s.assoc;
  lru = j ∷ others;
}

-- A fill: into an invalid way, or in place of the least recently used one. With it the entry that
-- is thrown out.
unfoldable pub fill_set : RequestType → ℕ → CacheSet → Option ℕ → CacheSet × Option CacheEntry
unfolding fill_way back pop_back
fill_set type tag s (some j) = (fill_way type tag s j s.lru, none)
fill_set type tag s none =
    let j = back s.lru in (fill_way type tag s j (pop_back s.lru), some (s.entry j))

-- What `access` does to the set of the address: the set after it, the hit and the victim.
unfoldable pub missed : RequestType → ℕ → Bool → CacheSet → CacheSet × Option CacheEntry
unfolding invalid_way fill_set
missed type tag is_fill s =
    if is_fill then fill_set type tag s (invalid_way s.entry 0 s.assoc none) else (s, none)

unfoldable pub access_way :
    RequestType → ℕ → Bool → CacheSet → Option ℕ → CacheSet × Option CacheEntry × Bool
unfolding use_way missed
access_way type tag is_fill s (some j) = (use_way type s j, none, true)
access_way type tag is_fill s none =
    let (after, victim) = missed type tag is_fill s in (after, victim, false)

unfoldable pub access_set : RequestType → ℕ → Bool → CacheSet → CacheSet × Option CacheEntry × Bool
unfolding find_way access_way
access_set type tag is_fill s = access_way type tag is_fill s (find_way s.entry tag 0 s.assoc)

pub record Cache : Type 0 where
  pub set_bits : ℕ
  pub line_bits : ℕ
  pub sets : ℕ → CacheSet
  pub addr_victim : ℕ
  pub addr_d_victim : ℕ
  pub num_accesses : ℕ
  pub num_hits : ℕ
  pub num_misses : ℕ
  pub num_writes : ℕ
  pub num_writebacks : ℕ

unfoldable pub tag_of : Cache → ℕ → ℕ
tag_of c address = address / 2 ^ (c.set_bits + c.line_bits)

unfoldable pub index_of : Cache → ℕ → ℕ
index_of c address = (address / 2 ^ c.line_bits) % 2 ^ c.set_bits

-- The addresses of a victim: the line's, and the same if the line is dirty. No victim is address 0.
unfoldable pub victim_address : Cache → ℕ → Option CacheEntry → ℕ
victim_address c index none = 0
victim_address c index (some e) =
    (e.tag * 2 ^ (c.set_bits + c.line_bits) + index * 2 ^ c.line_bits) % 2 ^ 64

abbrev pub is_dirty : Option CacheEntry → Bool
is_dirty none = false
is_dirty (some e) = e.dirty

abbrev pub counted : Bool → ℕ
counted true = 1
counted false = 0

-- `access`
unfoldable pub access : ℕ → RequestType → Bool → Cache → Cache × Bool
unfolding tag_of index_of victim_address access_set
access address type is_fill c =
    let index = index_of c address in
    let (after, victim, hit) = access_set type (tag_of c address) is_fill (c.sets index) in
    let gone = victim_address c index victim in
    let counts = (hit && not is_fill) || (is_fill && not (is_write_back type)) in
    (
      record {
        set_bits = c.set_bits;
        line_bits = c.line_bits;
        sets = λ i. if i == index then after else c.sets i;
        addr_victim = gone;
        addr_d_victim = if is_dirty victim then gone else 0;
        num_accesses = c.num_accesses + counted counts;
        num_hits = c.num_hits + counted (hit && counts);
        num_misses = c.num_misses + counted (not hit && counts);
        num_writes = c.num_writes + counted (is_write type && counts);
        num_writebacks = c.num_writebacks + counted (is_dirty victim);
      },
      hit,
    )

-- `back_invalidation`: whether the line was there, and whether it was dirty. The list of uses keeps
-- the way.
unfoldable pub invalidate_way : CacheSet → Option ℕ → CacheSet × Bool × Bool
unfolding put
invalidate_way s none = (s, false, false)
invalidate_way s (some j) =
    let old = s.entry j in
    (
      record s { entry = put s.entry j (record { valid = false; dirty = false; tag = old.tag }) },
      true,
      old.dirty,
    )

unfoldable pub back_invalidation : ℕ → Cache → Cache × Bool × Bool
unfolding tag_of index_of find_way invalidate_way
back_invalidation address c =
    let index = index_of c address in
    let s = c.sets index in
    let (after, hit, dirty) = invalidate_way s (find_way s.entry (tag_of c address) 0 s.assoc) in
    (record c { sets = λ i. if i == index then after else c.sets i }, hit, dirty)

-- The constructors of a set, whose entries the cache's constructor sets, and of the cache.
unfoldable pub new_set : ℕ → CacheSet
new_set assoc = record {
  entry = λ j. record { valid = false; dirty = false; tag = 0 };
  assoc = assoc;
  lru = [];
}

unfoldable pub new_cache : ℕ → ℕ → ℕ → Cache
unfolding new_set
new_cache set_bits assoc line_bits = record {
  set_bits = set_bits;
  line_bits = line_bits;
  sets = λ i. new_set assoc;
  addr_victim = 0;
  addr_d_victim = 0;
  num_accesses = 0;
  num_hits = 0;
  num_misses = 0;
  num_writes = 0;
  num_writebacks = 0;
}
