-- ===== src/Simulator/CacheBase/Tests.antt =====
-- Runs of the cache, and instances of its theorems: two sets of two ways, lines of four bytes.
use snu_projects.Base.{ℕ, ◌≡◌, refl, true, ◌==◌, if◌then◌else◌, List, [], ◌∷◌, arith}
use snu_projects.Structures.Keys.{has_key}
use snu_projects.Simulator.CacheBase.{
  read, write, Cache, access, back_invalidation, new_cache, tag_of, index_of,
}
use snu_projects.Simulator.CacheBase.Access.{residents, access_tags}
use snu_projects.Simulator.CacheBase.Runs.{
  Request, run, run_tags, AllSound, new_cache-AllSound, access_lem, run_lem,
}

abbrev fill_read : ℕ → Request
fill_read address = record { type = read; address = address; is_fill = true }

abbrev three_fills : List Request
three_fills = fill_read 0 ∷ fill_read 8 ∷ fill_read 16 ∷ []

abbrev small_cache : Cache
small_cache = new_cache 1 2 2

-- Three lines of one set: the first is thrown out.
least_used_goes : residents ((run three_fills small_cache).sets 0) ≡ 2 ∷ 1 ∷ []
unfolding run residents new_cache
least_used_goes = refl

-- A line that is invalidated stays in the list of uses, and is in it twice when it is filled again.
twice_listed :
    ((access 0 read true (back_invalidation 0 (run (fill_read 0 ∷ []) small_cache)).0).0.sets 0).lru
    ≡ 1 ∷ 1 ∷ []
unfolding run access back_invalidation new_cache
twice_listed = refl

access_lem_example :
    AllSound 2 (access 8 write true small_cache).0
    × ((i : ℕ)
        → residents ((access 8 write true small_cache).0.sets i) ≡ (
            if i == index_of small_cache 8
            then access_tags write (tag_of small_cache 8) true 2 (residents (small_cache.sets i))
            else residents (small_cache.sets i)))
    × ((access 8 write true small_cache).1
        ≡ has_key (tag_of small_cache 8) (residents (small_cache.sets (index_of small_cache 8))))
access_lem_example = access_lem 2 (omega arith) small_cache (new_cache-AllSound 1 2 2) 8 write true

run_lem_example :
    AllSound 2 (run three_fills small_cache)
    × ((i : ℕ)
        → residents ((run three_fills small_cache).sets i)
          ≡ run_tags small_cache i 2 three_fills (residents (small_cache.sets i)))
run_lem_example = run_lem 2 three_fills small_cache (omega arith) (new_cache-AllSound 1 2 2)
