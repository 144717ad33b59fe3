-- ===== src/RbTree/Printing.antt =====
-- What `rbtree_traverse` prints in a memory that holds a tree.
use mathlib.Core.Path.{subst}
use mathlib.Core.List.{append_assoc, append-nil}
use mtcp_lua.Base.{
  ℕ, zero, suc, ap, ◌+◌, ◌*◌, ◌^◌, ◌≤◌, ◌<◌, ◌≡◌, ◌≢◌, refl, sym, ◌∙◌, Bool, false, List, [], ◌∷◌,
  ◌++◌, arith, leb, length, ==_of_eq, ==_of_ne,
}
use mtcp_lua.RbTree.{Ptr, Store, Traversal, returned, visit, rbtree_traverse}
use mtcp_lua.RbTree.Shape.{Tree, leaf, node, ptr, count, inorder, Holds}
use mtcp_lua.RbTree.Order.{Sorted, Sorted-left, Sorted-right, Sorted-below}
use mtcp_lua.RbTree.Sequence.{occurs, occurs-inorder, Represents, height-lt}
use mtcp_lua.RbTree.Insertion.Attach.{height}
use mtcp_lua.RbTree.Walks.{All-occurs}

abbrev pub keys_of : (Ptr → ℕ) → List Ptr → List ℕ
keys_of f [] = []
keys_of f (p ∷ ps) = f p ∷ keys_of f ps

keys_of-append :
    (f : Ptr → ℕ) (xs ys : List Ptr) → keys_of f (xs ++ ys) ≡ keys_of f xs ++ keys_of f ys
keys_of-append f [] ys = refl
keys_of-append f (x ∷ xs) ys = ap (λ (ks : List ℕ). f x ∷ ks) (keys_of-append f xs ys)

-- No two nodes of the tree have the same value.
abbrev pub DistinctKeys : (Ptr → ℕ) → Tree → Type 0
DistinctKeys f x = (p q : Ptr) → 0 < count p x → 0 < count q x → f p ≡ f q → p ≡ q

module _ (s : Ptr) (t : Store) where
  visit-returned :
      (n : Ptr) (x : Tree) (wrong : Bool) (out : List ℕ) (rest : Traversal)
      → Holds s t n x
      → (0 < count (ptr s x) x → wrong ≡ false)
      → rest ≡ returned (out ++ keys_of t.key (inorder x))
      → visit s (ptr s x) wrong out rest ≡ returned (out ++ keys_of t.key (inorder x))
  visit-returned n leaf wrong out rest h ok e = rw (==_of_eq s s refl, append-nil out) refl
  visit-returned n (node c q a b) wrong out rest h ok e = rw (==_of_ne q s h.0, ok (ground arith)) e

  root_in : (x : Tree) (p : Ptr) → ptr s x ≡ p → p ≢ s → 0 < count p x
  root_in leaf p e ne = absurd (ne (sym e))
  root_in (node c q a b) p e ne = ground arith

  less : (a b : ℕ) → a ≤ b → a ≢ b → leb b a ≡ false
  less a b l ne = ground arith

  traverse-Holds :
      (par : Ptr) (x : Tree) (fuel : ℕ) (out : List ℕ)
      → Holds s t par x
      → Sorted t.key (inorder x)
      → ((p : Ptr) → count p x ≤ 1)
      → DistinctKeys t.key x
      → height x < fuel
      → rbtree_traverse s fuel t (ptr s x) out ≡ returned (out ++ keys_of t.key (inorder x))
  unfolding rbtree_traverse height
  traverse-Holds par x zero out h so once dk high = absurd (omega (arith, high))
  traverse-Holds par leaf (suc fuel) out h so once dk high =
      rw (==_of_eq s s refl, append-nil out) refl
  traverse-Holds par (node c n l r) (suc fuel) out h so once dk high =
      let out1 = out ++ keys_of t.key (inorder l) in
      let out2 = out1 ++ t.key n ∷ [] in
      let on_left =
        traverse-Holds n l fuel out h.5 (Sorted-left t.key (inorder l) (n ∷ inorder r) so)
          (λ p. omega (arith, once p)) (λ p q i j. dk p q (omega (arith, i)) (omega (arith, j)))
          (omega (arith, high)) in
      let on_right =
        traverse-Holds n r fuel out2 h.6 (Sorted-right t.key (inorder l) (n ∷ inorder r) so).1
          (λ p. omega (arith, once p)) (λ p q i j. dk p q (omega (arith, i)) (omega (arith, j)))
          (omega (arith, high)) in
      let v1 =
        visit-returned n l (leb (t.key n) (t.key (ptr s l))) out
          (rbtree_traverse s fuel t (ptr s l) out) h.5 less_left on_left in
      let v2 =
        visit-returned n r (leb (t.key (ptr s r)) (t.key n)) out2
          (rbtree_traverse s fuel t (ptr s r) out2) h.6 less_right on_right in
      rw (==_of_ne n s h.0, h.2, h.3, v1, v2) (ap returned joined)
    where
      joined :
          out ++ keys_of t.key (inorder l) ++ t.key n ∷ [] ++ keys_of t.key (inorder r)
          ≡ out ++ keys_of t.key (inorder l ++ n ∷ inorder r)
      joined = rw (keys_of-append t.key (inorder l) (n ∷ inorder r)) (simp append_assoc)

      apart : (p : Ptr) → 0 < count p l + count p r → p ≢ n
      apart p i e = ground (arith, once n, subst (λ (q : Ptr). 0 < count q l + count q r) e i)

      less_left : 0 < count (ptr s l) l → leb (t.key n) (t.key (ptr s l)) ≡ false
      less_left i =
          less (t.key (ptr s l)) (t.key n)
            (All-occurs (λ q. t.key q ≤ t.key n) (ptr s l) (inorder l)
              (Sorted-below t.key (inorder l) n (inorder r) so)
              (omega (arith, i, occurs-inorder (ptr s l) l)))
            (λ e.
              apart (ptr s l) (omega (arith, i))
                (dk (ptr s l) n (omega (arith, i)) (ground arith) e))

      less_right : 0 < count (ptr s r) r → leb (t.key (ptr s r)) (t.key n) ≡ false
      less_right i =
          less (t.key n) (t.key (ptr s r))
            (All-occurs (λ q. t.key n ≤ t.key q) (ptr s r) (inorder r)
              (Sorted-right t.key (inorder l) (n ∷ inorder r) so).0
              (omega (arith, i, occurs-inorder (ptr s r) r)))
            (λ e.
              apart (ptr s r) (omega (arith, i))
                (dk (ptr s r) n (omega (arith, i)) (ground arith) (sym e)))

-- In a tree that is ordered by its keys, has no key twice and has fewer than `2 ^ m - 1` nodes,
-- `rbtree_traverse` from the root returns with calls at most `2 * m` deep, and has printed the keys of
-- all nodes in their order.
pub rbtree_traverse-Represents :
    (s m fuel : ℕ) (t : Store) (ps : List Ptr)
    → Represents t.key s t ps
    → ((p q : Ptr) → 0 < occurs p ps → 0 < occurs q ps → t.key p ≡ t.key q → p ≡ q)
    → length ps + 1 < 2 ^ m
    → 2 * m ≤ fuel
    → rbtree_traverse s fuel t t.root [] ≡ returned (keys_of t.key ps)
rbtree_traverse-Represents s m fuel t ps r dk few enough =
    let z = r.is_tree.1 in
    let inside = (λ (p : Ptr) (i : 0 < count p r.tree).
      let j : 0 < occurs p ps = omega (arith, i, occurs-inorder p r.tree, ap (occurs p) r.nodes) in
      j) in
    ap (λ v. rbtree_traverse s fuel t v []) z.around
    ∙ traverse-Holds s t r.is_tree.0 r.tree fuel [] z.holds
        (subst (λ qs. Sorted t.key qs) (sym r.nodes) r.sorted) (λ p. omega (arith, z.once p))
        (λ p q i j. dk p q (inside p i) (inside q j))
        (omega (arith, height-lt t.key s t ps m r few, enough))
    ∙ ap (λ qs. returned (keys_of t.key qs)) r.nodes
