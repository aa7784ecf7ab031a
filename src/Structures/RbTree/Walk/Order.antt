-- ===== src/Structures/RbTree/Walk/Order.antt =====
-- The search and the traversal of the red-black tree.
use snu_projects.Base.{ℕ, ◌≡◌, sym, ap, ◌∙◌, true, not, List, [], ◌∷◌, ◌++◌, arith}
use mathlib.Core.List.{append-nil, append_assoc}
use snu_projects.Structures.RbTree.{Tree, leaf, node, contains}
use snu_projects.Structures.RbTree.Keys.{keys}
use snu_projects.Structures.RbTree.Remove.{is_null, key_of}
use snu_projects.Structures.RbTree.Walk.{
  SearchPath, down_left, down_right, search, traverse_inorder,
}

-- `search` finds a node, from whatever path it starts, exactly when `contains` says so, and the node
-- has the key.
pub search-contains :
    (t : Tree) (key : ℕ) (sp : SearchPath)
    → (is_null (search t key sp).0 ≡ not (contains t key))
      × (contains t key ≡ true → key_of (search t key sp).0 ≡ key)
unfolding search contains
search-contains leaf key sp = ground arith
search-contains (node c l k r) key sp =
    ground (arith, search-contains l key (down_left sp c), search-contains r key (down_right sp c))

-- `traverse_inorder` visits the keys in order: with a function that writes down the key of every
-- node it comes to, it gives the keys from left to right, behind what was written before.
pub traverse_inorder-keys :
    (t : Tree) (written : List ℕ)
    → traverse_inorder (λ n ks. ks ++ (key_of n ∷ [])) t written ≡ written ++ keys t
unfolding traverse_inorder
traverse_inorder-keys leaf written = sym (append-nil written)
traverse_inorder-keys (node c l k r) written =
    traverse_inorder-keys r (traverse_inorder (λ n ks. ks ++ (key_of n ∷ [])) l written ++ (k ∷ []))
    ∙ append_assoc (traverse_inorder (λ n ks. ks ++ (key_of n ∷ [])) l written) (k ∷ []) (keys r)
    ∙ ap (λ ks. ks ++ (k ∷ keys r)) (traverse_inorder-keys l written)
    ∙ append_assoc written (keys l) (k ∷ keys r)
