-- ===== src/Structures/BTree/Search.antt =====
-- search of data-structure/04-btree/include/btree.hpp, on a tree whose leaves' slots past their keys
-- do not hold the key: search reads those slots too.
use snu_projects.Base.{
  ℕ, zero, suc, ◌+◌, ◌-◌, ◌*◌, ◌≤◌, ◌<◌, ◌≡◌, ◌≢◌, refl, sym, ap, subst, ◌∙◌, List, ◌∷◌, ◌++◌,
  arith, ltb, ◌==◌, Bool, true, false, inl, inr, Bool-cases, Option, none, some, eq_of_==,
}
use snu_projects.Structures.Keys.{
  has_key, IsAscending, IsAscending-split, has_key-here, has_key-left, has_key-right,
}
use snu_projects.Structures.BTree.{
  leaf, internal, Node, null, node, for_all, rest_from, keys_from, search, search_slots,
  search_from, found,
}
use snu_projects.Structures.BTree.Shape.{IsTree, leaves, inner, below, for_all-rest}

-- `node->keys[i]` of the pair that search returns.
unfoldable pub slot : Node → ℕ → ℕ
slot null i = 0
slot (node type n keys edges) i = keys i

-- The pair found is where the key stands, and none is found if the key is in no node.
abbrev pub Answers : ℕ → Option (Node × ℕ) → Bool → Type 0
Answers t none held = held ≡ false
Answers t (some (q, i)) held = (slot q i ≡ t) × (held ≡ true)

module _ (t : ℕ) (keys : ℕ → ℕ) (p : Node) (own : (i : ℕ) → slot p i ≡ keys i) where
  stale_search :
      (i m : ℕ) → ((j : ℕ) → i ≤ j → j < i + m → keys j ≢ t) → search_slots t keys i m ≡ none
  unfolding search_slots
  stale_search i zero off = refl
  stale_search i (suc m) off =
      let here = off i (omega arith) (omega arith) in
      rw (not_eq (keys i) here)
        (stale_search (suc i) m (λ j ge lt. off j (omega arith) (omega arith)))
    where
      not_eq : (x : ℕ) → x ≢ t → (t == x) ≡ false
      not_eq x ne = ground arith

  slots_lem :
      (i n m : ℕ)
      → n ≤ m
      → ((j : ℕ) → i + n ≤ j → j < i + m → keys j ≢ t)
      → Answers t (found p (search_slots t keys i m)) (has_key t (keys_from i n keys))
  unfolding search_slots found keys_from
  slots_lem i zero m le off = rw (stale_search i m (λ j ge lt. off j (omega arith) lt)) (refl)
  slots_lem i (suc n) zero le off = absurd (omega arith)
  slots_lem i (suc n) (suc m) le off = elim (Bool-cases (t == keys i)) [
    | inl e ↦ rw e ((own i ∙ sym (eq_of_== t (keys i) e), refl))
    | inr e ↦
        rw e (slots_lem (suc i) n m (omega arith) (λ j ge lt. off j (omega arith) (omega arith)))
  ]

  from_lem :
      (beneath : ℕ → Option (Node × ℕ)) (s : ℕ → List ℕ) (i m : ℕ)
      → IsAscending (rest_from i m keys s)
      → ((j : ℕ) → j ≤ i + m → IsAscending (s j) → Answers t (beneath j) (has_key t (s j)))
      → Answers t (search_from t keys p beneath i m) (has_key t (rest_from i m keys s))
  unfolding search_from rest_from
  from_lem beneath s i zero asc each = each i (omega arith) asc
  from_lem beneath s i (suc m) asc each =
      let (front, low, high, back) =
        IsAscending-split (s i) (keys i) (rest_from (suc i) m keys s) asc in
      elim (Bool-cases (t == keys i)) [
        | inl e ↦ rw e (
            (
              own i ∙ sym (eq_of_== t (keys i) e),
              ap (λ x. has_key x (s i ++ (keys i ∷ rest_from (suc i) m keys s)))
                    (eq_of_== t (keys i) e)
                  ∙ has_key-here (keys i) (s i) (rest_from (suc i) m keys s),
            ))
        | inr ne ↦ elim (Bool-cases (ltb t (keys i))) [
          | inl lt ↦
              rw (ne, lt)
                (subst (Answers t (beneath i))
                  (sym (
                    has_key-left t (keys i) (s i) (rest_from (suc i) m keys s) (ground arith) high))
                  (each i (omega arith) front))
          | inr ge ↦
              rw (ne, ge)
                (subst (Answers t (search_from t keys p beneath (suc i) m))
                  (sym (
                    has_key-right t (keys i) (s i) (rest_from (suc i) m keys s) (ground arith) low))
                  (from_lem beneath s (suc i) m back (λ j le a. each j (omega arith) a)))
        ]
      ]

-- On a B-tree with ascending keys, for a key that no slot past a leaf's keys holds, search returns a
-- node and an index where the key stands if the tree holds it, and a null pointer if it does not.
pub search_lem :
    (B t h : ℕ) (p : Node)
    → IsTree (λ x. x ≢ t) B h p
    → IsAscending (for_all p)
    → Answers t (search B p t) (has_key t (for_all p))
unfolding search for_all slot below
search_lem B t h p (leaves n keys edges le stale) asc =
    slots_lem t keys (node leaf n keys edges) (λ i. refl) 0 n (2 * B - 1) le
      (λ j ge lt. stale j (omega arith) (omega arith))
search_lem B t h p (inner h' n keys edges pos le trees filled) asc =
    subst (Answers t (search B (node internal n keys edges) t))
      (ap (has_key t) (sym (for_all-rest internal n keys edges pos)))
      (from_lem t keys (node internal n keys edges) (λ i. refl) (λ i. search B (edges i) t)
        (below internal edges) 0 n (subst IsAscending (for_all-rest internal n keys edges pos) asc)
        (λ j le asc. search_lem B t h' (edges j) (trees j (omega arith)) asc))
