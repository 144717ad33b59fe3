-- ===== src/RbTree/Minimum.antt =====
-- `rbtree_min` finds the first node.
use mtcp_lua.Base.{
  ℕ, zero, suc, ◌+◌, ◌*◌, ◌^◌, ◌≤◌, ◌<◌, ◌≡◌, refl, sym, ap, ◌∙◌, Bool, some, List, [], ◌∷◌, ◌++◌,
  arith, length, ==_of_eq, ==_of_ne,
}
use mtcp_lua.RbTree.{Ptr, Store, rbtree_min}
use mtcp_lua.RbTree.Shape.{Tree, leaf, node, inorder, Holds}
use mtcp_lua.RbTree.Insertion.Attach.{height}
use mtcp_lua.RbTree.Focus.{IsTree}
use mtcp_lua.RbTree.Sequence.{Represents, height-lt}

-- The leftmost node of a tree with root `q` and left subtree `l`.
unfoldable pub leftmost : Ptr → Tree → Ptr
leftmost q leaf = q
leftmost q (node c q' l r) = leftmost q' l

inorder-leftmost :
    (q : Ptr) (l : Tree) (ps : List Ptr)
    → (qs : List Ptr) × (inorder l ++ q ∷ ps ≡ leftmost q l ∷ qs)
unfolding leftmost
inorder-leftmost q leaf ps = (ps, refl)
inorder-leftmost q (node c q' l r) ps =
    let (qs, e) = inorder-leftmost q' l (inorder r) in
    (qs ++ q ∷ ps, ap (λ (xs : List Ptr). xs ++ q ∷ ps) e)

pub rbtree_min-Holds :
    (s : Ptr) (t : Store) (par : Ptr) (c : Bool) (q : Ptr) (l r : Tree) (fuel : ℕ)
    → Holds s t par (node c q l r)
    → height (node c q l r) ≤ fuel
    → rbtree_min s fuel t q ≡ some (leftmost q l)
unfolding rbtree_min leftmost height
rbtree_min-Holds s t par c q l r zero h high = absurd (omega arith)
rbtree_min-Holds s t par c q leaf r (suc fuel) h high = rw (==_of_eq (t.lefts q) s h.2)
rbtree_min-Holds s t par c q (node c' q' l r') r (suc fuel) h high =
    rw (h.2, ==_of_ne q' s h.5.0) (rbtree_min-Holds s t q c' q' l r' fuel h.5 (omega arith))

first_eq : {p q : Ptr} {ps qs : List Ptr} → p ∷ ps ≡ q ∷ qs → p ≡ q
first_eq e = cc

-- In a tree of fewer than `2 ^ m - 1` nodes, the first of which is `p`, `rbtree_min` from the root
-- finds `p` within `2 * m` rounds.
pub rbtree_min-Represents :
    (f : Ptr → ℕ) (s p m fuel : ℕ) (t : Store) (ps : List Ptr)
    → Represents f s t (p ∷ ps)
    → length (p ∷ ps) + 1 < 2 ^ m
    → 2 * m ≤ fuel
    → rbtree_min s fuel t t.root ≡ some p
rbtree_min-Represents f s p m fuel t ps r few enough =
    find r.tree r.is_tree r.nodes (omega (arith, height-lt f s t (p ∷ ps) m r few))
  where
    find :
        (x : Tree)
        → IsTree s t x
        → inorder x ≡ p ∷ ps
        → height x ≤ fuel
        → rbtree_min s fuel t t.root ≡ some p
    find leaf z e h = cc
    find (node c q l y) (over, z) e h =
        let (qs, e') = inorder-leftmost q l (inorder y) in
        let same : leftmost q l ≡ p = first_eq (sym e' ∙ e) in
        simp z.around (rbtree_min-Holds s t over c q l y fuel z.holds h ∙ ap some same)

-- The tree is empty exactly when its root is the sentinel.
pub root-sentinel :
    (f : Ptr → ℕ) (s : Ptr) (t : Store) (ps : List Ptr)
    → Represents f s t ps
    → ((t.root ≡ s) → ps ≡ []) × (ps ≡ [] → t.root ≡ s)
root-sentinel f s t ps r = look r.tree r.is_tree r.nodes
  where
    look :
        (x : Tree)
        → IsTree s t x
        → inorder x ≡ ps
        → ((t.root ≡ s) → ps ≡ []) × (ps ≡ [] → t.root ≡ s)
    look leaf (over, z) e = ((λ _. sym e), λ _. z.around)
    look (node c q l y) (over, z) e = (
      (λ h. absurd (z.holds.0 (sym z.around ∙ h))),
      λ h. let (qs, e') = inorder-leftmost q l (inorder y) in absurd (not_nil (sym h ∙ sym e ∙ e')),
    )
      where
        not_nil : {a : Ptr} {bs : List Ptr} → [] ≡ a ∷ bs → ⊥
        not_nil h = cc
