-- ===== src/Eos/Node/Insert.antt =====
-- What the pointer writes of `_os_add_node_tail` and `_os_add_node_priority` do to a ring.
use snu_projects.Base.{◌≡◌, ◌≢◌, false, List, [], ◌∷◌, ◌++◌, arith, ◌==◌, if◌then◌else◌}
use snu_projects.Eos.Node.{Ptr, Heap, link_before}
use snu_projects.Eos.Node.Ring.{
  has, Distinct, Links, first, has-append, Links-frame, previous-has, first-has,
}

-- `g` is `h` with `n` linked between `p` and `c`.
pub record Inserted (h g : Heap) (n p c : Ptr) : Type 0 where
  pub nexts : (a : Ptr) → (g a).next ≡ (if a == n then c else if a == p then n else (h a).next)
  pub previouses :
      (a : Ptr) → (g a).previous ≡ (if a == c then n else if a == n then p else (h a).previous)
  pub payload : (a : Ptr) → ((g a).priority ≡ (h a).priority) × ((g a).ptr_data ≡ (h a).ptr_data)

pub link_before-Inserted :
    (h : Heap) (n c : Ptr)
    → n ≢ c
    → n ≢ (h c).previous
    → Inserted h (link_before n c h) n (h c).previous c
unfolding link_before
link_before-Inserted h n c nc np = record {
  nexts = λ a. ground arith;
  previouses = λ a. ground arith;
  payload = λ a. ground arith;
}

module _ {h g : Heap} {n p c : Ptr} (i : Inserted h g n p c) where
  -- Links that follow neither the pointer of `p` nor that of `c` stay.
  Links-rest :
      (a : Ptr) (zs : List Ptr) (b : Ptr)
      → Links h a zs b
      → has n (a ∷ zs) ≡ false
      → has p (a ∷ zs) ≡ false
      → has c zs ≡ false
      → c ≢ b
      → n ≢ b
      → Links g a zs b
  Links-rest a zs b l on op oc cb nb =
      Links-frame h g a zs b l (λ d e. ground (arith, i.nexts d))
        (λ d e. ground (arith, i.previouses d))

  -- Linking a node in front of the first of `zs`, or of `b` behind them.
  pub insert-Links :
      (a : Ptr) (ys zs : List Ptr) (b : Ptr)
      → Links h a (ys ++ zs) b
      → Distinct (a ∷ (ys ++ zs))
      → has b (ys ++ zs) ≡ false
      → has n (a ∷ (ys ++ zs)) ≡ false
      → n ≢ b
      → c ≡ first zs b
      → p ≡ (h c).previous
      → Links g a (ys ++ (n ∷ zs)) b
  insert-Links a [] [] b l d ob on nb ec ep = (
    ground (arith, i.nexts a),
    ground (arith, i.previouses n),
    (ground (arith, i.nexts n), ground (arith, i.previouses b)),
  )
  insert-Links a [] (z ∷ zs) b l d ob on nb ec ep = (
    ground (arith, i.nexts a),
    ground (arith, i.previouses n),
    (
      ground (arith, i.nexts n),
      ground (arith, i.previouses z),
      Links-rest z zs b l.2 (ground arith) (ground arith) (ground arith) (ground arith) nb,
    ),
  )
  insert-Links a (y ∷ ys) zs b l d ob on nb ec ep = (
    ground (arith, i.nexts a, previous-has h y ys zs b l.2, has-append p ys zs),
    ground (arith, i.previouses y, first-has zs b ys),
    insert-Links y ys zs b l.2 d.1 (ground arith) (ground arith) nb ec ep,
  )
