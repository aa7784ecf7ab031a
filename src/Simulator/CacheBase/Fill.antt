-- ===== src/Simulator/CacheBase/Fill.antt =====
-- A line filled into a way, in `access` of CPU-cache/WonhoLee_Lab4/cache_base/cache_base.cc.
use snu_projects.Base.{
  ℕ, ◌<◌, ◌≡◌, ◌≢◌, refl, sym, ap, subst, ◌∙◌, true, false, ◌==◌, List, [], ◌∷◌, Option, none, some,
  arith, inl, inr, Bool-cases, eq_of_==, ne_of_==, ==_of_ne, ◌⊎◌,
}
use mathlib.Core.Bool.{true≢false}
use snu_projects.Structures.Keys.{has_key}
use snu_projects.Simulator.CacheBase.{
  RequestType, CacheEntry, CacheSet, put, back, pop_back, fill_way, fill_set, is_write,
}
use snu_projects.Simulator.CacheBase.Lookup.{
  IsSeen, IsDistinct, has_key-back, has_key-pop_back, has_key-pop_back_ne, pop_back-IsDistinct,
}
use snu_projects.Simulator.CacheBase.Sound.{IsSound}

pub put_here : (entry : ℕ → CacheEntry) (j : ℕ) (e : CacheEntry) → put entry j e j ≡ e
unfolding put
put_here entry j e = ground arith

pub put_other :
    (entry : ℕ → CacheEntry) (j : ℕ) (e : CacheEntry) (i : ℕ) → i ≢ j → put entry j e i ≡ entry i
unfolding put
put_other entry j e i ne = rw (==_of_ne i j ne) (refl)

-- The others are the ways that stay in the list, the way filled is not one of them.
module _ (type : RequestType) (tag : ℕ) (s : CacheSet) (w : IsSound s)
    (missing : (i : ℕ) → has_key i s.lru ≡ true → (s.entry i).tag ≢ tag) (j : ℕ) (lt : j < s.assoc)
    (others : List ℕ) (distinct : IsDistinct others) (out : has_key j others ≡ false)
    (stay : (i : ℕ) → has_key i others ≡ true → has_key i s.lru ≡ true)
    (all : (i : ℕ) → i ≢ j → has_key i s.lru ≡ true → has_key i others ≡ true) where
  abbrev line : CacheEntry
  line = record { valid = true; dirty = is_write type; tag = tag }

  member : (i : ℕ) → has_key i (j ∷ others) ≡ true → (i ≡ j) ⊎ ((i ≢ j) × (has_key i others ≡ true))
  member i h = elim (Bool-cases (i == j)) [
    | inl e ↦ inl (eq_of_== i j e)
    | inr e ↦ inr (ne_of_== i j e, ground arith)
  ]

  tag_other : (i : ℕ) → i ≢ j → has_key i others ≡ true → (put s.entry j line i).tag ≢ tag
  tag_other i ne h e =
      missing i (stay i h) (ap (λ x. x.tag) (sym (put_other s.entry j line i ne)) ∙ e)

  pub fill_way-IsSound : IsSound (fill_way type tag s j others)
  unfolding fill_way
  fill_way-IsSound = record {
    listed = λ i h. listed_at i (member i h);
    known = λ i below v. known_at i below v (Bool-cases (i == j));
    distinct = (out, distinct);
    tags = λ i k hi hk e. tags_at i k (member i hi) (member k hk) e;
  }
    where
      listed_at :
          (i : ℕ)
          → (i ≡ j) ⊎ ((i ≢ j) × (has_key i others ≡ true))
          → (i < s.assoc) × ((put s.entry j line i).valid ≡ true)
      listed_at i (inl e) = (
        subst (λ x. x < s.assoc) (sym e) lt,
        subst (λ x. (put s.entry j line x).valid ≡ true) (sym e)
            (ap (λ x. x.valid) (put_here s.entry j line)),
      )
      listed_at i (inr (ne, h)) =
          let (below, v) = w.listed i (stay i h) in
          (below, ap (λ x. x.valid) (put_other s.entry j line i ne) ∙ v)

      known_at :
          (i : ℕ)
          → i < s.assoc
          → (put s.entry j line i).valid ≡ true
          → ((i == j) ≡ true) ⊎ ((i == j) ≡ false)
          → has_key i (j ∷ others) ≡ true
      known_at i below v (inl e) = ground arith
      known_at i below v (inr e) =
          let ne = ne_of_== i j e in
          let held =
            all i ne
              (w.known i below (ap (λ x. x.valid) (sym (put_other s.entry j line i ne)) ∙ v)) in
          ground arith

      tags_at :
          (i k : ℕ)
          → (i ≡ j) ⊎ ((i ≢ j) × (has_key i others ≡ true))
          → (k ≡ j) ⊎ ((k ≢ j) × (has_key k others ≡ true))
          → (put s.entry j line i).tag ≡ (put s.entry j line k).tag
          → i ≡ k
      tags_at i k (inl ei) (inl ek) e = ei ∙ sym ek
      tags_at i k (inl ei) (inr (ne, h)) e = absurd (
          tag_other k ne h (
            sym e
            ∙ ap (λ x. (put s.entry j line x).tag) ei
            ∙ ap (λ x. x.tag) (put_here s.entry j line)))
      tags_at i k (inr (ne, h)) (inl ek) e = absurd (
          tag_other i ne h (
            e
            ∙ ap (λ x. (put s.entry j line x).tag) ek
            ∙ ap (λ x. x.tag) (put_here s.entry j line)))
      tags_at i k (inr (ne, h)) (inr (ne', h')) e = w.tags i k (stay i h) (stay k h') (
          ap (λ x. x.tag) (sym (put_other s.entry j line i ne))
          ∙ e
          ∙ ap (λ x. x.tag) (put_other s.entry j line k ne'))

-- A fill of a line that no way holds.
pub fill_set-IsSound :
    (type : RequestType) (tag : ℕ) (s : CacheSet) (o : Option ℕ)
    → 0 < s.assoc
    → IsSound s
    → ((i : ℕ) → has_key i s.lru ≡ true → (s.entry i).tag ≢ tag)
    → IsSeen s.entry s.assoc o
    → IsSound (fill_set type tag s o).0
unfolding fill_set
fill_set-IsSound type tag s (some j) pos w missing (lt, invalid) =
    fill_way-IsSound type tag s w missing j lt s.lru w.distinct
      (absent (Bool-cases (has_key j s.lru))) (λ i h. h) (λ i ne h. h)
  where
    absent : (has_key j s.lru ≡ true) ⊎ (has_key j s.lru ≡ false) → has_key j s.lru ≡ false
    absent (inl h) = absurd (true≢false (sym (w.listed j h).1 ∙ invalid))
    absent (inr h) = h
fill_set-IsSound type tag s none pos w missing full =
    let (rest, out) = pop_back-IsDistinct s.lru w.distinct in
    fill_way-IsSound type tag s w missing (back s.lru) (w.listed (back s.lru) last_held).0
      (pop_back s.lru) rest out (λ i h. has_key-pop_back i s.lru h)
      (λ i ne h. has_key-pop_back_ne i s.lru h ne)
  where
    last : (xs : List ℕ) → has_key 0 xs ≡ true → has_key (back xs) xs ≡ true
    last [] h = h
    last (x ∷ xs) h = has_key-back x xs

    last_held : has_key (back s.lru) s.lru ≡ true
    last_held = last s.lru (w.known 0 pos (full 0 pos))
