-- ===== src/RbTree/Insertion/Order.antt =====
-- An insertion puts the node into the order of the nodes, and changes nothing else there.
use mathlib.Core.List.{append_assoc, append-nil}
use mtcp_lua.Base.{
  ℕ, ◌≤◌, ◌<◌, ◌≡◌, refl, ◌∙◌, Bool, true, false, ◌∷◌, ◌++◌, arith, ltb, Bool-cases, inl, inr,
}
use mtcp_lua.RbTree.{Ptr, Side, left, right, InsertPt, goes_left}
use mtcp_lua.RbTree.Shape.{Tree, leaf, node, build, count, Place, top, under, plug, inorder}
use mtcp_lua.RbTree.Order.{
  before, after, inorder-plug, inorder-plug_eq, Sorted, Sorted-left, Sorted-right, Sorted-below,
  insert_sorted, insert_sorted_left, insert_sorted_right,
}
use mtcp_lua.RbTree.Insertion.Fix.{blacken, lift, insert_fix}
use mtcp_lua.RbTree.Insertion.Attach.{descend, descend-left, descend-right}
use mtcp_lua.RbTree.Insertion.Whole.{insert_tree}

pub inorder-blacken : (x : Tree) → inorder (blacken x) ≡ inorder x
inorder-blacken leaf = refl
inorder-blacken (node c p l r) = refl

-- Colours do not matter to the order.
inorder-recolored :
    (d d' : Side) (c : Bool) (p g : Ptr) (x w u : Tree)
    → inorder (build d' true g (build d false p x w) (blacken u))
      ≡ inorder (build d' c g (build d true p x w) u)
inorder-recolored left left c p g x w u = rw inorder-blacken
inorder-recolored left right c p g x w u = rw inorder-blacken
inorder-recolored right left c p g x w u = rw inorder-blacken
inorder-recolored right right c p g x w u = rw inorder-blacken

inorder-lift :
    (d d' : Side) (c cn : Bool) (n p g : Ptr) (a b w u : Tree)
    → inorder (lift d d' p g (node cn n a b) w u)
      ≡ inorder (build d' c g (build d true p (node cn n a b) w) u)
inorder-lift left left c cn n p g a b w u = simp append_assoc
inorder-lift right right c cn n p g a b w u = simp append_assoc
inorder-lift right left c cn n p g a b w u = simp append_assoc
inorder-lift left right c cn n p g a b w u = simp append_assoc

inorder-insert_fix :
    (n : Ptr) (a b : Tree) (k : Place)
    → inorder (insert_fix (node true n a b) k) ≡ inorder (plug (node true n a b) k)
unfolding insert_fix
inorder-insert_fix n a b top = refl
inorder-insert_fix n a b (under d false p w k) = refl
inorder-insert_fix n a b (under d true p w top) = refl
inorder-insert_fix n a b (under d true p w (under d' c g leaf k)) =
    inorder-plug_eq (lift d d' p g (node true n a b) w leaf)
      (build d' c g (build d true p (node true n a b) w) leaf) k
      (inorder-lift d d' c true n p g a b w leaf)
inorder-insert_fix n a b (under d true p w (under d' c g (node false q ua ub) k)) =
    inorder-plug_eq (lift d d' p g (node true n a b) w (node false q ua ub))
      (build d' c g (build d true p (node true n a b) w) (node false q ua ub)) k
      (inorder-lift d d' c true n p g a b w (node false q ua ub))
inorder-insert_fix n a b (under d true p w (under left c g (node true q ua ub) k)) =
    let x = node true n a b in
    let u = node true q ua ub in
    inorder-insert_fix g (build d false p x w) (node false q ua ub) k
    ∙ inorder-plug_eq (build left true g (build d false p x w) (blacken u))
        (build left c g (build d true p x w) u) k (inorder-recolored d left c p g x w u)
inorder-insert_fix n a b (under d true p w (under right c g (node true q ua ub) k)) =
    let x = node true n a b in
    let u = node true q ua ub in
    inorder-insert_fix g (node false q ua ub) (build d false p x w) k
    ∙ inorder-plug_eq (build right true g (build d false p x w) (blacken u))
        (build right c g (build d true p x w) u) k (inorder-recolored d right c p g x w u)

-- The test of the insertion compares the values `f` of the nodes of a tree.
abbrev pub Compares : InsertPt → (Ptr → ℕ) → ℕ → (Ptr → ℕ) → ℕ → Tree → Type 0
Compares i key v f fv x = (p : Ptr) → 0 < count p x → goes_left i v (key p) ≡ ltb fv (f p)

module _ (i : InsertPt) (key : Ptr → ℕ) (v : ℕ) (f : Ptr → ℕ) (fv : ℕ) (c : Bool) (n : Ptr) where
  abbrev new : Tree
  new = node c n leaf leaf

  inorder-descend :
      (x : Tree) (k : Place)
      → Compares i key v f fv x
      → Sorted f (inorder x)
      → inorder (plug new (descend i key v x k))
        ≡ before k ++ insert_sorted f n fv (inorder x) ++ after k
  inorder-descend leaf k cmp s = unfold descend insert_sorted in inorder-plug new k
  inorder-descend (node c' p l r) k cmp s = elim (Bool-cases (goes_left i v (key p))) [
    | inl e ↦
        let lt : fv < f p = ground (arith, here) in
        rw (descend-left i key v c' p l r k e) (
          inorder-descend l (under left c' p r k) (λ q m. cmp q (omega arith))
            (Sorted-left f (inorder l) (p ∷ inorder r) s)
          ∙ rw (insert_sorted_left f n fv (inorder l) p (inorder r) lt) (simp append_assoc))
    | inr e ↦
        let le : f p ≤ fv = ground (arith, here) in
        rw (descend-right i key v c' p l r k e) (
          inorder-descend r (under right c' p l k) (λ q m. cmp q (omega arith))
            (Sorted-right f (inorder l) (p ∷ inorder r) s).1
          ∙ rw
              (insert_sorted_right f n fv (inorder l) p (inorder r) le
                (Sorted-below f (inorder l) p (inorder r) s))
              (simp append_assoc))
  ]
    where
      here : goes_left i v (key p) ≡ ltb fv (f p)
      here = cmp p (ground arith)

-- In the order of the nodes the new one stands behind the last node that is not greater.
pub inorder-insert_tree :
    (i : InsertPt) (key : Ptr → ℕ) (v : ℕ) (f : Ptr → ℕ) (fv : ℕ) (n : Ptr) (x : Tree)
    → Compares i key v f fv x
    → Sorted f (inorder x)
    → inorder (insert_tree i key v n x) ≡ insert_sorted f n fv (inorder x)
unfolding insert_tree
inorder-insert_tree i key v f fv n leaf cmp s = unfold insert_sorted in refl
inorder-insert_tree i key v f fv n (node c p l r) cmp s =
    let k = descend i key v (node c p l r) top in
    inorder-blacken (insert_fix (node true n leaf leaf) k)
    ∙ inorder-insert_fix n leaf leaf k
    ∙ inorder-descend i key v f fv true n (node c p l r) top cmp s
    ∙ append-nil (insert_sorted f n fv (inorder (node c p l r)))
