-- ===== src/Structures/BTree/Insert/Opened.antt =====
-- The arrays of a parent after split_child of data-structure/04-btree/include/btree.hpp, place by
-- place, and where get_index then points to.
use snu_projects.Base.{
  ℕ, zero, suc, ◌+◌, ◌≤◌, ◌<◌, ◌≡◌, refl, sym, ap, subst, ◌∙◌, ◌∷◌, ◌++◌, arith, ltb, ◌==◌, inl,
  inr, Bool-cases, eq_of_==, ◌⊎◌,
}
use snu_projects.Structures.BTree.{internal, Node, for_all, count, get_index, assign, move_range}
use snu_projects.Structures.BTree.Insert.{opened_keys, opened_edges}
use snu_projects.Structures.BTree.Sides.{get_index-le, get_index-below, get_index-above}
use snu_projects.Structures.BTree.Shape.{below}

module _ (n : ℕ) (keys : ℕ → ℕ) (idx t : ℕ) where
  pub opened_keys_before : (j : ℕ) → j < idx → opened_keys n keys idx t j ≡ keys j
  unfolding opened_keys assign move_range
  opened_keys_before j lt = ground arith

  pub opened_keys_here : opened_keys n keys idx t idx ≡ t
  unfolding opened_keys assign
  opened_keys_here = ground arith

  pub opened_keys_after : (j : ℕ) → idx ≤ j → j < n → opened_keys n keys idx t (suc j) ≡ keys j
  unfolding opened_keys assign move_range
  opened_keys_after j ge lt = ground arith

  pub opened_keys_past : (j : ℕ) → n < j → idx ≤ n → opened_keys n keys idx t j ≡ keys j
  unfolding opened_keys assign move_range
  opened_keys_past j gt le = ground arith

module _ (n : ℕ) (edges : ℕ → Node) (idx : ℕ) (old new : Node) where
  pub opened_edges_before : (j : ℕ) → j < idx → opened_edges n edges idx old new j ≡ edges j
  unfolding opened_edges assign move_range
  opened_edges_before j lt = ground arith

  pub opened_edges_here : opened_edges n edges idx old new idx ≡ old
  unfolding opened_edges assign
  opened_edges_here = ground arith

  pub opened_edges_next : opened_edges n edges idx old new (suc idx) ≡ new
  unfolding opened_edges assign
  opened_edges_next = ground arith

  pub opened_edges_after :
      (j : ℕ) → idx < j → j ≤ n → opened_edges n edges idx old new (suc j) ≡ edges j
  unfolding opened_edges assign move_range
  opened_edges_after j gt le = ground arith

  pub opened_edges_half :
      (m i : ℕ)
      → count old ≡ m
      → count new ≡ m
      → (i ≡ idx) ⊎ (i ≡ suc idx)
      → count (opened_edges n edges idx old new i) ≡ m
  opened_edges_half m i of_old of_new (inl e) = rw (e, opened_edges_here) (of_old)
  opened_edges_half m i of_old of_new (inr e) = rw (e, opened_edges_next) (of_new)

  -- What holds of every child holds of them all after the split.
  pub opened_edges_all :
      (Q : Node → Type 0)
      → ((j : ℕ) → j ≤ n → Q (edges j))
      → Q old
      → Q new
      → (j : ℕ) → j ≤ suc n
      → idx ≤ n
      → Q (opened_edges n edges idx old new j)
  opened_edges_all Q each of_old of_new zero le in_range = elim (Bool-cases (0 == idx)) [
    | inl e ↦
        subst Q (sym (ap (opened_edges n edges idx old new) (eq_of_== 0 idx e) ∙ opened_edges_here))
          of_old
    | inr e ↦ subst Q (sym (opened_edges_before 0 (ground arith))) (each 0 (omega arith))
  ]
  opened_edges_all Q each of_old of_new (suc j) le in_range = elim (Bool-cases (ltb (suc j) idx)) [
    | inl e ↦
        subst Q (sym (opened_edges_before (suc j) (ground arith))) (each (suc j) (ground arith))
    | inr ge ↦ elim (Bool-cases (suc j == idx)) [
      | inl e ↦
          subst Q
            (sym
              (ap (opened_edges n edges idx old new) (eq_of_== (suc j) idx e) ∙ opened_edges_here))
            of_old
      | inr ne ↦ elim (Bool-cases (j == idx)) [
        | inl e ↦
            subst Q
              (sym (
                ap (λ i. opened_edges n edges idx old new (suc i)) (eq_of_== j idx e)
                ∙ opened_edges_next))
              of_new
        | inr off ↦
            subst Q (sym (opened_edges_after j (ground arith) (omega arith))) (each j (omega arith))
      ]
    ]
  ]

  pub below_opened :
      (keys : ℕ → ℕ) (t : ℕ)
      → below internal (opened_edges n edges idx old new) idx
          ++ (opened_keys n keys idx t idx
              ∷ below internal (opened_edges n edges idx old new) (suc idx))
        ≡ for_all old ++ (t ∷ for_all new)
  unfolding below
  below_opened keys t =
      rw (opened_edges_here, opened_edges_next, opened_keys_here n keys idx t) (refl)

pub below-eq :
    (e e' : ℕ → Node) (j j' : ℕ) → e j ≡ e' j' → below internal e j ≡ below internal e' j'
unfolding below
below-eq e e' j j' same = ap for_all same

pub below-at :
    (edges : ℕ → Node) (j : ℕ) (c : Node) → c ≡ edges j → for_all c ≡ below internal edges j
unfolding below
below-at edges j c same = ap for_all same

-- The index of a key moves by one at most.
pub get_index_opened :
    (n : ℕ) (keys : ℕ → ℕ) (x t idx : ℕ)
    → idx ≡ get_index n keys t
    → (get_index (n + 1) (opened_keys n keys idx x) t ≡ idx)
      ⊎ (get_index (n + 1) (opened_keys n keys idx x) t ≡ suc idx)
get_index_opened n keys x t idx e = elim (Bool-cases (ltb next idx)) [
  | inl low ↦ absurd (too_low (ground arith))
  | inr ge ↦ elim (Bool-cases (ltb (suc idx) next)) [
    | inl high ↦ absurd (too_high (ground arith))
    | inr le ↦ ground arith
  ]
]
  where
    next : ℕ
    next = get_index (n + 1) (opened_keys n keys idx x) t

    in_range : idx ≤ n
    in_range = subst (λ i. i ≤ n) (sym e) (get_index-le n keys t)

    too_low : next < idx → ⊥
    too_low lt =
        let above =
          get_index-above (n + 1) (opened_keys n keys idx x) t (omega (arith, in_range)) in
        let same = opened_keys_before n keys idx x next lt in
        let under = get_index-below n keys t next (subst (λ i. next < i) e lt) in omega arith

    too_high : suc idx < next → ⊥
    too_high gt =
        let top = get_index-le (n + 1) (opened_keys n keys idx x) t in
        let under = get_index-below (n + 1) (opened_keys n keys idx x) t (suc idx) gt in
        let same = opened_keys_after n keys idx x idx (omega arith) (omega (arith, top)) in
        let above =
          subst (λ i. t ≤ keys i) (sym e)
            (get_index-above n keys t (subst (λ i. i < n) e (omega (arith, top)))) in
        omega arith
