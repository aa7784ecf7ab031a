-- ===== src/Simulator/CacheBase/Access.antt =====
-- `access` of CPU-cache/WonhoLee_Lab4/cache_base/cache_base.cc on the set of an address: the tags in
-- the order of their uses.
use snu_projects.Base.{
  ℕ, ◌<◌, ◌≡◌, ◌≢◌, refl, sym, ap, ap₂, subst, ◌∙◌, Bool, true, false, ◌||◌, ◌==◌, ltb,
  if◌then◌else◌, List, ◌∷◌, Option, none, some, arith, inl, inr, Bool-cases, eq_of_==, length, map,
  ◌⊎◌,
}
use mathlib.Core.Bool.{true≢false}
use snu_projects.Structures.Keys.{has_key, remove_key}
use snu_projects.Simulator.CacheBase.{
  RequestType, CacheEntry, CacheSet, matches, find_way, invalid_way, put, back, pop_back, use_way,
  fill_way, fill_set, missed, access_way, access_set, is_write, is_write_back,
}
use snu_projects.Simulator.CacheBase.Lookup.{
  IsFound, find_way_lem, IsSeen, invalid_way_lem, pop_back-IsDistinct,
}
use snu_projects.Simulator.CacheBase.Sound.{IsSound, use_way-IsSound, put-tag}
use snu_projects.Simulator.CacheBase.Fill.{fill_set-IsSound, put_here, put_other}
use snu_projects.Simulator.CacheBase.Tags.{
  length_le, length_ge, length-map, map-same, map-pop_back, map-remove_key, has_key-map,
  not_has_key-map,
}

-- The tags of the lines that a set holds, the most recently used first.
unfoldable pub residents : CacheSet → List ℕ
residents s = map (λ j. (s.entry j).tag) s.lru

-- What an access should do to them.
unfoldable pub access_tags : RequestType → ℕ → Bool → ℕ → List ℕ → List ℕ
access_tags type tag is_fill assoc tags =
    if has_key tag tags
    then if is_write_back type then tags else tag ∷ remove_key tag tags
    else if is_fill
    then tag ∷ (if ltb (length tags) assoc then tags else pop_back tags)
    else tags

module _ (type : RequestType) (tag : ℕ) (is_fill : Bool) (s : CacheSet) (pos : 0 < s.assoc)
    (w : IsSound s) where
  abbrev tag_at : ℕ → ℕ
  tag_at j = (s.entry j).tag

  -- Whether the set holds the tag, as the loop finds it.
  held_way :
      (j : ℕ) → IsFound s.entry tag 0 s.assoc (some j) → (has_key j s.lru ≡ true) × (tag_at j ≡ tag)
  held_way j found = held (s.entry j) found.2
    where
      held :
          (e : CacheEntry)
          → matches tag (s.entry j) ≡ true
          → (has_key j s.lru ≡ true) × (tag_at j ≡ tag)
      held e m = (w.known j (omega arith) (ground arith), eq_of_== (tag_at j) tag (ground arith))

  missing : IsFound s.entry tag 0 s.assoc none → (j : ℕ) → has_key j s.lru ≡ true → tag_at j ≢ tag
  missing found j h =
      let (lt, v) = w.listed j h in let off = found j (omega arith) (omega arith) in ground arith

  -- An invalid way is free, and without one the set is full.
  free_way :
      (j : ℕ) → j < s.assoc → (s.entry j).valid ≡ false → ltb (length (residents s)) s.assoc ≡ true
  unfolding residents
  free_way j lt invalid =
      let count =
        length_le s.assoc (j ∷ s.lru) (out (Bool-cases (has_key j s.lru)), w.distinct)
          (λ x h. within x h (Bool-cases (x == j))) in
      let same = length-map tag_at s.lru in ground arith
    where
      out : (has_key j s.lru ≡ true) ⊎ (has_key j s.lru ≡ false) → has_key j s.lru ≡ false
      out (inl h) = absurd (true≢false (sym (w.listed j h).1 ∙ invalid))
      out (inr h) = h

      within :
          (x : ℕ)
          → has_key x (j ∷ s.lru) ≡ true
          → ((x == j) ≡ true) ⊎ ((x == j) ≡ false)
          → x < s.assoc
      within x h (inl e) = subst (λ y. y < s.assoc) (sym (eq_of_== x j e)) lt
      within x h (inr e) = (w.listed x (ground arith)).0

  no_way :
      ((j : ℕ) → j < s.assoc → (s.entry j).valid ≡ true)
      → ltb (length (residents s)) s.assoc ≡ false
  unfolding residents
  no_way full =
      let count = length_ge s.assoc s.lru (λ x lt. w.known x lt (full x lt)) in
      let same = length-map tag_at s.lru in ground arith

  residents-map : residents s ≡ map tag_at s.lru
  unfolding residents
  residents-map = refl

  residents-fill_way :
      (j : ℕ) (others : List ℕ)
      → ((x : ℕ) → has_key x others ≡ true → x ≢ j)
      → residents (fill_way type tag s j others) ≡ tag ∷ map tag_at others
  unfolding residents fill_way
  residents-fill_way j others off =
      ap₂ (λ x l. x ∷ l) (ap (λ e. e.tag) (put_here s.entry j line))
        (map-same (λ i. (put s.entry j line i).tag) tag_at others
          (λ x h. ap (λ e. e.tag) (put_other s.entry j line x (off x h))))
    where
      line : CacheEntry
      line = record { valid = true; dirty = is_write type; tag = tag }

  residents-fill_set :
      (o : Option ℕ)
      → IsSeen s.entry s.assoc o
      → residents (fill_set type tag s o).0
        ≡ tag ∷ (if ltb (length (residents s)) s.assoc then residents s else pop_back (residents s))
  unfolding fill_set
  residents-fill_set (some j) (lt, invalid) =
      residents-fill_way j s.lru
        (λ x h e. true≢false (sym (w.listed x h).1 ∙ ap (λ y. (s.entry y).valid) e ∙ invalid))
      ∙ ap (λ l. tag ∷ l) (sym (rw (free_way j lt invalid) (residents-map)))
  residents-fill_set none full =
      residents-fill_way (back s.lru) (pop_back s.lru) (λ x h e.
        true≢false (
          sym h
          ∙ ap (λ y. has_key y (pop_back s.lru)) e
          ∙ (pop_back-IsDistinct s.lru w.distinct).1))
      ∙ ap (λ l. tag ∷ l)
          (map-pop_back tag_at s.lru
            ∙ ap pop_back (sym residents-map)
            ∙ sym (rw (no_way full) (refl)))

  residents-use_way :
      (j : ℕ)
      → has_key j s.lru ≡ true
      → tag_at j ≡ tag
      → residents (use_way type s j)
        ≡ (if is_write_back type then residents s else tag ∷ remove_key tag (residents s))
  unfolding residents use_way
  residents-use_way j held here =
      map-same (λ i. (uses (is_write type || is_write_back type) i).tag) tag_at
        (if is_write_back type then s.lru else j ∷ remove_key j s.lru)
        (λ x h. same_tag (is_write type || is_write_back type) x)
      ∙ moved (is_write_back type)
    where
      uses : Bool → ℕ → CacheEntry
      uses b = if b then put s.entry j (record (s.entry j) { dirty = true }) else s.entry

      same_tag : (b : Bool) (x : ℕ) → (uses b x).tag ≡ tag_at x
      same_tag true x = put-tag s.entry j true x
      same_tag false x = refl

      moved :
          (b : Bool)
          → map tag_at (if b then s.lru else j ∷ remove_key j s.lru)
            ≡ (if b then map tag_at s.lru else tag ∷ remove_key tag (map tag_at s.lru))
      moved true = refl
      moved false =
          ap₂ (λ x l. x ∷ l) here
            (map-remove_key tag_at j s.lru (λ x h e. w.tags x j h held e)
              ∙ ap (λ t. remove_key t (map tag_at s.lru)) here)

  -- By what the loop finds.
  by_way :
      (o : Option ℕ)
      → IsFound s.entry tag 0 s.assoc o
      → IsSound (access_way type tag is_fill s o).0
        × (residents (access_way type tag is_fill s o).0
            ≡ access_tags type tag is_fill s.assoc (residents s))
        × ((access_way type tag is_fill s o).2 ≡ has_key tag (residents s))
  unfolding access_way access_tags missed
  by_way (some j) found =
      let (held, here) = held_way j found in
      let there : has_key tag (residents s) ≡ true =
        ap (has_key tag) residents-map
        ∙ ap (λ t. has_key t (map tag_at s.lru)) (sym here)
        ∙ has_key-map tag_at j s.lru held in
      (
        use_way-IsSound type s j held w,
        residents-use_way j held here ∙ sym (rw there (refl)),
        sym there,
      )
  by_way none found =
      let absent : has_key tag (residents s) ≡ false =
        ap (has_key tag) residents-map ∙ not_has_key-map tag_at tag s.lru (missing found) in
      (sound is_fill, order is_fill ∙ sym (rw absent (refl)), sym absent)
    where
      sound :
          (b : Bool)
          → IsSound
              (if b then fill_set type tag s (invalid_way s.entry 0 s.assoc none) else (s, none)).0
      sound true =
          fill_set-IsSound type tag s (invalid_way s.entry 0 s.assoc none) pos w (missing found)
            (invalid_way_lem s.entry s.assoc)
      sound false = w

      order :
          (b : Bool)
          → residents
              (if b then fill_set type tag s (invalid_way s.entry 0 s.assoc none) else (s, none)).0
            ≡ (if b
                then tag
                  ∷ (if ltb (length (residents s)) s.assoc
                      then residents s
                      else pop_back (residents s))
                else residents s)
      order true =
          residents-fill_set (invalid_way s.entry 0 s.assoc none) (invalid_way_lem s.entry s.assoc)
      order false = refl

  -- In a set with at least one way whose list of uses holds the valid ways, each once and with
  -- different tags, an access keeps that; it hits if and only if the set holds the tag; and the tags
  -- in the order of their uses change as in a list with the most recently used first: a hit other
  -- than a write-back moves the tag to the front, a fill of a tag that is missing puts it there, and
  -- drops the last if the set is full.
  pub access_set_lem :
      IsSound (access_set type tag is_fill s).0
      × (residents (access_set type tag is_fill s).0
          ≡ access_tags type tag is_fill s.assoc (residents s))
      × ((access_set type tag is_fill s).2 ≡ has_key tag (residents s))
  unfolding access_set
  access_set_lem = by_way (find_way s.entry tag 0 s.assoc) (find_way_lem s.entry tag 0 s.assoc)
