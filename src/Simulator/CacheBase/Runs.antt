-- ===== src/Simulator/CacheBase/Runs.antt =====
-- Any number of accesses to a cache of CPU-cache/WonhoLee_Lab4/cache_base/cache_base.cc, one after
-- the other.
use snu_projects.Base.{
  ℕ, ◌<◌, ◌≡◌, refl, sym, ap, subst, ◌∙◌, Bool, ◌==◌, if◌then◌else◌, List, [], ◌∷◌, arith, inl, inr,
  Bool-cases, eq_of_==,
}
use snu_projects.Structures.Keys.{has_key}
use snu_projects.Simulator.CacheBase.{
  RequestType, CacheSet, Cache, access, access_set, access_way, use_way, missed, fill_set, fill_way,
  new_set, new_cache, tag_of, index_of,
}
use snu_projects.Simulator.CacheBase.Sound.{IsSound}
use snu_projects.Simulator.CacheBase.Access.{residents, access_tags, access_set_lem}

pub record Request : Type 0 where
  pub type : RequestType
  pub address : ℕ
  pub is_fill : Bool

unfoldable pub run : List Request → Cache → Cache
unfolding access
run [] c = c
run (r ∷ rs) c = run rs (access r.address r.type r.is_fill c).0

-- The tags of one set, as the requests to it should leave them.
unfoldable pub run_tags : Cache → ℕ → ℕ → List Request → List ℕ → List ℕ
unfolding access_tags tag_of index_of
run_tags c index assoc [] tags = tags
run_tags c index assoc (r ∷ rs) tags = run_tags c index assoc rs (
    if index == index_of c r.address
    then access_tags r.type (tag_of c r.address) r.is_fill assoc tags
    else tags)

abbrev pub AllSound : ℕ → Cache → Type 0
AllSound assoc c = (i : ℕ) → ((c.sets i).assoc ≡ assoc) × IsSound (c.sets i)

new_set-IsSound : (assoc : ℕ) → IsSound (new_set assoc)
unfolding new_set
new_set-IsSound assoc = record {
  listed = λ j h. ground arith;
  known = λ j lt v. ground arith;
  distinct = tt;
  tags = λ i j hi hj e. ground arith;
}

pub new_cache-AllSound :
    (set_bits assoc line_bits : ℕ) → AllSound assoc (new_cache set_bits assoc line_bits)
unfolding new_cache
new_cache-AllSound set_bits assoc line_bits i = (refl, new_set-IsSound assoc)

access_set-assoc :
    (type : RequestType) (tag : ℕ) (is_fill : Bool) (s : CacheSet)
    → (access_set type tag is_fill s).0.assoc ≡ s.assoc
unfolding access_set access_way use_way missed fill_set fill_way
access_set-assoc type tag is_fill s = ground arith

module _ (assoc : ℕ) (pos : 0 < assoc) (c : Cache) (w : AllSound assoc c) (address : ℕ)
    (type : RequestType) (is_fill : Bool) where
  at_place :
      IsSound (access_set type (tag_of c address) is_fill (c.sets (index_of c address))).0
      × (residents (access_set type (tag_of c address) is_fill (c.sets (index_of c address))).0
          ≡ access_tags type
              (tag_of c address)
              is_fill
              (c.sets (index_of c address)).assoc
              (residents (c.sets (index_of c address))))
      × ((access_set type (tag_of c address) is_fill (c.sets (index_of c address))).2
          ≡ has_key (tag_of c address) (residents (c.sets (index_of c address))))
  at_place =
      access_set_lem type (tag_of c address) is_fill (c.sets (index_of c address))
        (subst (λ n. 0 < n) (sym (w (index_of c address)).0) pos) (w (index_of c address)).1

  access-AllSound : AllSound assoc (access address type is_fill c).0
  unfolding access
  access-AllSound i = elim (Bool-cases (i == index_of c address)) [
    | inl e ↦ rw e (
      access_set-assoc type (tag_of c address) is_fill (c.sets (index_of c address))
          ∙ (w (index_of c address)).0,
      at_place.0,
    )
    | inr e ↦ rw e (w i)
  ]

  access-residents :
      (i : ℕ)
      → residents ((access address type is_fill c).0.sets i) ≡ (
          if i == index_of c address
          then access_tags type (tag_of c address) is_fill assoc (residents (c.sets i))
          else residents (c.sets i))
  unfolding access
  access-residents i = elim (Bool-cases (i == index_of c address)) [
    | inl e ↦ rw e (
        at_place.1
        ∙ ap
            (λ n.
              access_tags type (tag_of c address) is_fill n
                (residents (c.sets (index_of c address))))
            (w (index_of c address)).0
        ∙ ap (λ x. access_tags type (tag_of c address) is_fill assoc (residents (c.sets x)))
            (sym (eq_of_== i (index_of c address) e)))
    | inr e ↦ rw e (refl)
  ]

  access-hit :
      (access address type is_fill c).1
      ≡ has_key (tag_of c address) (residents (c.sets (index_of c address)))
  unfolding access
  access-hit = at_place.2

  -- In a cache all of whose sets have `assoc` ways (at least one) and a list of uses that is sound, an
  -- access keeps that; it hits if and only if the set of the address holds its tag; it changes the
  -- tags of that set as a list in the order of uses, and those of no other set.
  pub access_lem :
      AllSound assoc (access address type is_fill c).0
      × ((i : ℕ)
          → residents ((access address type is_fill c).0.sets i) ≡ (
              if i == index_of c address
              then access_tags type (tag_of c address) is_fill assoc (residents (c.sets i))
              else residents (c.sets i)))
      × ((access address type is_fill c).1
          ≡ has_key (tag_of c address) (residents (c.sets (index_of c address))))
  access_lem = (access-AllSound, access-residents, access-hit)

run_tags_same :
    (c c' : Cache) (index assoc : ℕ) (rs : List Request) (tags : List ℕ)
    → ((a : ℕ) → tag_of c' a ≡ tag_of c a)
    → ((a : ℕ) → index_of c' a ≡ index_of c a)
    → run_tags c' index assoc rs tags ≡ run_tags c index assoc rs tags
unfolding run_tags
run_tags_same c c' index assoc [] tags same_tag same_index = refl
run_tags_same c c' index assoc (r ∷ rs) tags same_tag same_index =
    rw (same_tag r.address, same_index r.address)
      (run_tags_same c c' index assoc rs _ same_tag same_index)

-- From a cache all of whose sets have `assoc` ways (at least one) and a sound list of uses, any
-- sequence of accesses leaves it so, and leaves in every set the tags that a list in the order of
-- uses holds after the accesses to that set, one after the other.
pub run_lem :
    (assoc : ℕ) (rs : List Request) (c : Cache)
    → 0 < assoc
    → AllSound assoc c
    → AllSound assoc (run rs c)
      × ((i : ℕ) → residents ((run rs c).sets i) ≡ run_tags c i assoc rs (residents (c.sets i)))
unfolding run run_tags access tag_of index_of
run_lem assoc [] c pos w = (w, λ i. refl)
run_lem assoc (r ∷ rs) c pos w =
    let after = (access r.address r.type r.is_fill c).0 in
    let (sound, order, hit) = access_lem assoc pos c w r.address r.type r.is_fill in
    let (sound', order') = run_lem assoc rs after pos sound in
    (
      sound',
      λ i.
          order' i
          ∙ ap (run_tags after i assoc rs) (order i)
          ∙ run_tags_same c after i assoc rs _ (λ a. refl) (λ a. refl),
    )
