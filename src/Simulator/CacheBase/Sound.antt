-- ===== src/Simulator/CacheBase/Sound.antt =====
-- The list of uses of a set in CPU-cache/WonhoLee_Lab4/cache_base/cache_base.cc, beside its entries,
-- and a hit.
use snu_projects.Base.{
  ℕ, ◌<◌, ◌≡◌, refl, sym, ap, subst, ◌∙◌, Bool, true, false, ◌||◌, ◌==◌, if◌then◌else◌, List, ◌∷◌,
  arith, inl, inr, Bool-cases, eq_of_==, ne_of_==,
}
use snu_projects.Structures.Keys.{has_key, remove_key}
use snu_projects.Simulator.CacheBase.{
  RequestType, CacheEntry, CacheSet, put, use_way, is_write, is_write_back,
}
use snu_projects.Simulator.CacheBase.Lookup.{
  IsDistinct, has_key-remove_self, has_key-remove_ne, remove_key-IsDistinct,
}

-- The list of uses of a set: the valid ways, each once, with different tags.
pub record IsSound (s : CacheSet) : Type 0 where
  pub listed : (j : ℕ) → has_key j s.lru ≡ true → (j < s.assoc) × ((s.entry j).valid ≡ true)
  pub known : (j : ℕ) → j < s.assoc → (s.entry j).valid ≡ true → has_key j s.lru ≡ true
  pub distinct : IsDistinct s.lru
  pub tags :
      (i j : ℕ)
      → has_key i s.lru ≡ true
      → has_key j s.lru ≡ true
      → (s.entry i).tag ≡ (s.entry j).tag
      → i ≡ j

-- A set whose entries keep their tags and their valid bits, and whose list holds the same ways.
pub IsSound-same :
    (s s' : CacheSet)
    → s'.assoc ≡ s.assoc
    → ((j : ℕ) → (s'.entry j).valid ≡ (s.entry j).valid)
    → ((j : ℕ) → (s'.entry j).tag ≡ (s.entry j).tag)
    → ((j : ℕ) → has_key j s'.lru ≡ has_key j s.lru)
    → IsDistinct s'.lru
    → IsSound s
    → IsSound s'
IsSound-same s s' ways valid tag held d w = record {
  listed = λ j h.
      let (lt, v) = w.listed j (sym (held j) ∙ h) in
      (subst (λ n. j < n) (sym ways) lt, valid j ∙ v);
  known = λ j lt v. held j ∙ w.known j (subst (λ n. j < n) ways lt) (sym (valid j) ∙ v);
  distinct = d;
  tags =
      λ i j hi hj e. w.tags i j (sym (held i) ∙ hi) (sym (held j) ∙ hj) (sym (tag i) ∙ e ∙ tag j);
}

put-valid :
    (entry : ℕ → CacheEntry) (j : ℕ) (d : Bool) (i : ℕ)
    → (put entry j (record (entry j) { dirty = d }) i).valid ≡ (entry i).valid
unfolding put
put-valid entry j d i = elim (Bool-cases (i == j)) [
  | inl e ↦ rw e (ap (λ x. (entry x).valid) (sym (eq_of_== i j e)))
  | inr e ↦ rw e (refl)
]

pub put-tag :
    (entry : ℕ → CacheEntry) (j : ℕ) (d : Bool) (i : ℕ)
    → (put entry j (record (entry j) { dirty = d }) i).tag ≡ (entry i).tag
unfolding put
put-tag entry j d i = elim (Bool-cases (i == j)) [
  | inl e ↦ rw e (ap (λ x. (entry x).tag) (sym (eq_of_== i j e)))
  | inr e ↦ rw e (refl)
]

has_key-front :
    (j : ℕ) (lru : List ℕ)
    → IsDistinct lru
    → has_key j lru ≡ true
    → (i : ℕ) → has_key i (j ∷ remove_key j lru) ≡ has_key i lru
has_key-front j lru d held i = elim (Bool-cases (i == j)) [
  | inl e ↦ rw (eq_of_== i j e) (ground arith)
  | inr e ↦ rw e (has_key-remove_ne i j lru (ne_of_== i j e))
]

-- A hit moves the way to the front.
pub use_way-IsSound :
    (type : RequestType) (s : CacheSet) (j : ℕ)
    → has_key j s.lru ≡ true
    → IsSound s
    → IsSound (use_way type s j)
unfolding use_way
use_way-IsSound type s j held w =
    IsSound-same s (use_way type s j) refl (λ i. valid_at (is_write type || is_write_back type) i)
      (λ i. tag_at (is_write type || is_write_back type) i) (λ i. order (is_write_back type) i)
      (once (is_write_back type)) w
  where
    valid_at :
        (b : Bool) (i : ℕ)
        → ((if b then put s.entry j (record (s.entry j) { dirty = true }) else s.entry) i).valid
          ≡ (s.entry i).valid
    valid_at true i = put-valid s.entry j true i
    valid_at false i = refl

    tag_at :
        (b : Bool) (i : ℕ)
        → ((if b then put s.entry j (record (s.entry j) { dirty = true }) else s.entry) i).tag
          ≡ (s.entry i).tag
    tag_at true i = put-tag s.entry j true i
    tag_at false i = refl

    order :
        (b : Bool) (i : ℕ)
        → has_key i (if b then s.lru else j ∷ remove_key j s.lru) ≡ has_key i s.lru
    order true i = refl
    order false i = has_key-front j s.lru w.distinct held i

    once : (b : Bool) → IsDistinct (if b then s.lru else j ∷ remove_key j s.lru)
    once true = w.distinct
    once false = (has_key-remove_self j s.lru w.distinct, remove_key-IsDistinct j s.lru w.distinct)
