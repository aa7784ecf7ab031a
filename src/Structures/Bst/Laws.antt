-- ===== src/Structures/Bst/Laws.antt =====
-- The search tree of BST.hpp holds a sorted set of keys.
use snu_projects.Base.{ℕ, ◌≡◌, refl, ap, subst, sym, ◌∙◌, not, List, [], ◌∷◌, ◌++◌, arith}
use mathlib.Core.List.{append-nil, append_assoc}
use snu_projects.Structures.Keys.{
  insert_key, remove_key, has_key, AllBelow, AllAbove, IsAscending, IsAscending-split,
  insert_key-left, insert_key-right, insert_key-there, remove_key-left, remove_key-right,
  remove_key-here, has_key-left, has_key-right, has_key-here,
}
use snu_projects.Structures.Bst.{
  Tree, leaf, node, insert, search, find_rightmost_key, drop_root, remove,
}

-- The keys from left to right.
abbrev pub keys : Tree → List ℕ
keys leaf = []
keys (node l x r) = keys l ++ (x ∷ keys r)

-- `search` finds exactly the keys of an ordered tree.
pub search-has_key :
    (t : Tree) (key : ℕ) → IsAscending (keys t) → search t key ≡ has_key key (keys t)
unfolding search
search-has_key leaf key s = refl
search-has_key (node l x r) key s =
    let (asc_l, below, above, asc_r) = IsAscending-split (keys l) x (keys r) s in
    ground (
      arith,
      search-has_key l key asc_l,
      search-has_key r key asc_r,
      has_key-left key x (keys l) (keys r),
      has_key-right key x (keys l) (keys r),
      has_key-here x (keys l) (keys r),
    )

-- `insert` on an ordered tree adds the key to the sorted keys, and returns whether it is new.
pub insert-insert_key :
    (t : Tree) (key : ℕ)
    → IsAscending (keys t)
    → (keys (insert t key).1 ≡ insert_key key (keys t))
      × ((insert t key).0 ≡ not (has_key key (keys t)))
unfolding insert insert_key
insert-insert_key leaf key s = (refl, refl)
insert-insert_key (node l x r) key s =
    let (asc_l, below, above, asc_r) = IsAscending-split (keys l) x (keys r) s in
    ground (
      arith,
      insert-insert_key l key asc_l,
      insert-insert_key r key asc_r,
      insert_key-left key x (keys l) (keys r),
      insert_key-right key x (keys l) (keys r),
      insert_key-there x (keys l) (keys r),
      has_key-left key x (keys l) (keys r),
      has_key-right key x (keys l) (keys r),
      has_key-here x (keys l) (keys r),
    )

-- The rightmost key is the last one.
keys-find_rightmost_key :
    (l : Tree) (x : ℕ) (r : Tree)
    → (front : List ℕ) × (keys (node l x r) ≡ front ++ (find_rightmost_key (node l x r) ∷ []))
unfolding find_rightmost_key
keys-find_rightmost_key l x leaf = (keys l, refl)
keys-find_rightmost_key l x (node rl y rr) =
    let (front, eq) = keys-find_rightmost_key rl y rr in
    (
      keys l ++ (x ∷ front),
      ap (λ ks. keys l ++ (x ∷ ks)) eq
          ∙ sym (append_assoc (keys l) (x ∷ front) (find_rightmost_key (node rl y rr) ∷ [])),
    )

-- The last key of an ascending list, taken out and put behind it.
last_again :
    (ks front : List ℕ) (m : ℕ)
    → ks ≡ front ++ (m ∷ [])
    → IsAscending ks
    → remove_key m ks ++ (m ∷ []) ≡ ks
last_again ks front m e s =
    ap (λ l. remove_key m l ++ (m ∷ [])) e
    ∙ ap (λ l. l ++ (m ∷ [])) (remove_key-here m front [] split.1 ∙ append-nil front)
    ∙ sym e
  where
    split : IsAscending front × AllBelow m front × AllAbove m [] × IsAscending []
    split = IsAscending-split front m [] (subst IsAscending e s)

keys-drop_root :
    (l r without : Tree)
    → IsAscending (keys l)
    → keys without ≡ remove_key (find_rightmost_key l) (keys l)
    → keys (drop_root l r without) ≡ keys l ++ keys r
unfolding drop_root
keys-drop_root leaf leaf without s e = refl
keys-drop_root leaf (node rl y rr) without s e = refl
keys-drop_root (node ll y lr) leaf without s e = sym (append-nil (keys (node ll y lr)))
keys-drop_root (node ll y lr) (node rl z rr) without s e =
    let (front, eq) = keys-find_rightmost_key ll y lr in
    let m = find_rightmost_key (node ll y lr) in
    ap (λ ks. ks ++ (m ∷ keys (node rl z rr))) e
    ∙ sym (append_assoc (remove_key m (keys (node ll y lr))) (m ∷ []) (keys (node rl z rr)))
    ∙ ap (λ ks. ks ++ keys (node rl z rr)) (last_again (keys (node ll y lr)) front m eq s)

-- `remove` on an ordered tree takes the key out of the sorted keys, and returns whether it was
-- there.
pub remove-remove_key :
    (t : Tree) (key : ℕ)
    → IsAscending (keys t)
    → (keys (remove t key).1 ≡ remove_key key (keys t)) × ((remove t key).0 ≡ has_key key (keys t))
unfolding remove remove_key
remove-remove_key leaf key s = (refl, refl)
remove-remove_key (node l x r) key s =
    let (asc_l, below, above, asc_r) = IsAscending-split (keys l) x (keys r) s in
    ground (
      arith,
      remove-remove_key l key asc_l,
      remove-remove_key r key asc_r,
      keys-drop_root l r (remove l (find_rightmost_key l)).1 asc_l
          (remove-remove_key l (find_rightmost_key l) asc_l).0,
      remove_key-left key x (keys l) (keys r),
      remove_key-right key x (keys l) (keys r),
      remove_key-here x (keys l) (keys r),
      has_key-left key x (keys l) (keys r),
      has_key-right key x (keys l) (keys r),
      has_key-here x (keys l) (keys r),
    )
