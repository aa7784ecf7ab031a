-- ===== src/Eos/Node/Unlink.antt =====
-- What the pointer writes of `_os_remove_node` do to a ring.
use snu_projects.Base.{◌≡◌, ◌≢◌, false, List, [], ◌∷◌, ◌++◌, arith, ◌==◌, if◌then◌else◌}
use snu_projects.Eos.Node.{Ptr, null, Heap, bypass, forget}
use snu_projects.Eos.Node.Ring.{
  has, Distinct, Links, has-append, Links-frame, previous-has, next-has,
}

-- `g` is `h` with `c` taken out from between `p` and `q`, and its pointers cleared.
pub record Unlinked (h g : Heap) (p c q : Ptr) : Type 0 where
  pub nexts : (a : Ptr) → (g a).next ≡ (if a == c then null else if a == p then q else (h a).next)
  pub previouses :
      (a : Ptr) → (g a).previous ≡ (if a == c then null else if a == q then p else (h a).previous)
  pub payload : (a : Ptr) → ((g a).priority ≡ (h a).priority) × ((g a).ptr_data ≡ (h a).ptr_data)

pub bypass-Unlinked :
    (h : Heap) (c : Ptr)
    → c ≢ (h c).previous
    → c ≢ (h c).next
    → Unlinked h (forget c (bypass c h)) (h c).previous c (h c).next
unfolding bypass forget
bypass-Unlinked h c cp cq = record {
  nexts = λ a. ground arith;
  previouses = λ a. ground arith;
  payload = λ a. ground arith;
}

module _ {h g : Heap} {p c q : Ptr} (u : Unlinked h g p c q) where
  -- Links that follow neither the pointer of `p` nor that of `q` stay.
  Links-rest :
      (a : Ptr) (zs : List Ptr) (b : Ptr)
      → Links h a zs b
      → has c (a ∷ zs) ≡ false
      → has p (a ∷ zs) ≡ false
      → has q zs ≡ false
      → q ≢ b
      → c ≢ b
      → Links g a zs b
  Links-rest a zs b l oc op oq qb cb =
      Links-frame h g a zs b l (λ d e. ground (arith, u.nexts d))
        (λ d e. ground (arith, u.previouses d))

  -- Taking `c` out from between `a ∷ ys` and `zs`.
  pub unlink-Links :
      (a : Ptr) (ys zs : List Ptr) (b : Ptr)
      → Links h a (ys ++ (c ∷ zs)) b
      → Distinct (a ∷ (ys ++ (c ∷ zs)))
      → has b (ys ++ (c ∷ zs)) ≡ false
      → p ≡ (h c).previous
      → q ≡ (h c).next
      → Links g a (ys ++ zs) b
  unlink-Links a [] [] b l d ob ep eq = (ground (arith, u.nexts a), ground (arith, u.previouses b))
  unlink-Links a [] (z ∷ zs) b l d ob ep eq = (
    ground (arith, u.nexts a),
    ground (arith, u.previouses z),
    Links-rest z zs b l.2.2 (ground arith) (ground arith) (ground arith) (ground arith)
        (ground arith),
  )
  unlink-Links a (y ∷ ys) zs b l d ob ep eq = (
    ground (
      arith,
      u.nexts a,
      previous-has h y ys (c ∷ zs) b l.2,
      has-append p ys (c ∷ zs),
      has-append c ys (c ∷ zs),
    ),
    ground (arith, u.previouses y, next-has h y ys c zs b l.2, has-append c ys (c ∷ zs)),
    unlink-Links y ys zs b l.2 d.1 (ground arith) ep eq,
  )
