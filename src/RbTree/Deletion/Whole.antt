-- ===== src/RbTree/Deletion/Whole.antt =====
-- `rbtree_delete` as a whole.
use mathlib.Core.Path.{subst}
use mathlib.Core.List.{append-nil}
use mtcp_lua.Base.{
  ℕ, suc, ap, ◌+◌, ◌*◌, ◌^◌, ◌≤◌, ◌<◌, ◌≡◌, ◌≢◌, refl, sym, ◌∙◌, Bool, false, some, List, [], ◌∷◌,
  ◌++◌, arith, length, ==_of_eq, ==_of_ne,
}
use mtcp_lua.RbTree.{
  Ptr, left, right, Store, update, rbtree_min, unlink, unlink_successor, rbtree_delete,
}
use mtcp_lua.RbTree.Shape.{
  Tree, leaf, node, ptr, count, Place, top, under, plug, inorder, count_place,
}
use mtcp_lua.RbTree.Focus.{IsAt, IsTree, down, turn, is_red}
use mtcp_lua.RbTree.Balance.{Balanced, BalancedAt}
use mtcp_lua.RbTree.Order.{before, after, inorder-plug}
use mtcp_lua.RbTree.Insertion.Attach.{height}
use mtcp_lua.RbTree.Insertion.Loop.{depth}
use mtcp_lua.RbTree.Minimum.{leftmost, rbtree_min-Holds}
use mtcp_lua.RbTree.Sequence.{Represents, occurs, occurs-inorder, height-lt}
use mtcp_lua.RbTree.Remove.{remove, remove-plug, remove-Sorted}
use mtcp_lua.RbTree.Deletion.Graft.{
  graft, graft-top, plug-graft, down_all, open_balance, depth-lt-height, height-below,
}
use mtcp_lua.RbTree.Deletion.Way.{find, lowest}
use mtcp_lua.RbTree.Deletion.Finish.{Deleted, transport-Deleted}
use mtcp_lua.RbTree.Deletion.Direct.{direct_Deleted}
use mtcp_lua.RbTree.Deletion.Replace.{successor_Deleted}

module _ (s over : Ptr) (fuel : ℕ) (t : Store) (c : Bool) (n : Ptr) (k : Place) where
  -- The node found, in a tree that keeps the rules.
  abbrev Gone : Tree → Tree → Type 0
  Gone l r =
      Deleted s (rbtree_delete s fuel n t) (update t.key n 0)
        (remove n (inorder (plug (node c n l r) k)))

  out_of : (l r : Tree) → IsAt s over t (node c n l r) k → count n l + count_place n k ≡ 0
  out_of l r z = ground (arith, z.once n)

  no_left :
      (r : Tree) (h : ℕ)
      → IsAt s over t (node c n leaf r) k
      → Balanced (node c n leaf r) h
      → BalancedAt k h
      → suc (depth k) < fuel
      → Gone leaf r
  no_left r h z b bk enough =
      let run : rbtree_delete s fuel n t ≡ unlink s fuel n n (ptr s r) t =
        unfold rbtree_delete in
        (rw (==_of_eq (t.lefts n) s z.holds.2) refl
          ∙ ap (λ (q : Ptr). unlink s fuel n n q t) z.holds.3) in
      transport-Deleted s (unlink s fuel n n (ptr s r) t) (rbtree_delete s fuel n t)
        (update t.key n 0) (update t.key n 0) (inorder (plug r k))
        (remove n (inorder (plug (node c n leaf r) k))) run refl
        (inorder-plug r k ∙ sym (remove-plug n c leaf r k (out_of leaf r z)))
        (direct_Deleted s over fuel t right c n r k h z b bk enough)

  no_right :
      (cl : Bool) (q : Ptr) (a b' : Tree) (h : ℕ)
      → IsAt s over t (node c n (node cl q a b') leaf) k
      → Balanced (node c n (node cl q a b') leaf) h
      → BalancedAt k h
      → suc (depth k) < fuel
      → Gone (node cl q a b') leaf
  no_right cl q a b' h z b bk enough =
      let l = node cl q a b' in
      let full : t.lefts n ≢ s = (λ e. z.holds.5.0 (sym z.holds.2 ∙ e)) in
      let run : rbtree_delete s fuel n t ≡ unlink s fuel n n q t =
        unfold rbtree_delete in
        (rw (==_of_ne (t.lefts n) s full, ==_of_eq (t.rights n) s z.holds.3) refl
          ∙ ap (λ (p : Ptr). unlink s fuel n n p t) z.holds.2) in
      transport-Deleted s (unlink s fuel n n q t) (rbtree_delete s fuel n t) (update t.key n 0)
        (update t.key n 0) (inorder (plug l k)) (remove n (inorder (plug (node c n l leaf) k))) run
        refl
        (inorder-plug l k
          ∙ ap (λ (xs : List Ptr). before k ++ xs ++ after k) (sym (append-nil (inorder l)))
          ∙ sym (remove-plug n c l leaf k (out_of l leaf z)))
        (direct_Deleted s over fuel t left c n l k h z b bk enough)

  both :
      (l r : Tree) (cm : Bool) (m : Ptr) (y : Tree) (j : Place) (h : ℕ)
      → ptr s l ≢ s
      → ptr s r ≢ s
      → rbtree_min s fuel t (ptr s r) ≡ some m
      → plug (node cm m leaf y) j ≡ r
      → before j ≡ []
      → IsAt s over t (node c n l r) k
      → Balanced (plug (node c n l r) k) h
      → is_red (plug (node c n l r) k) ≡ false
      → height (plug (node c n l r) k) < fuel
      → Gone l r
  both l r cm m y j h fl fr low same first z b black enough =
      let i = graft j (under right c n l k) in
      let below = down_all s over t (node cm m leaf y) j (under right c n l k) (
        turn s over t r (plug (node cm m leaf y) j) (under right c n l k) (sym same)
          (down s over t right c n r l k z)) in
      let whole : plug (node c n l r) k ≡ plug (node cm m leaf y) i =
        ap (λ (x : Tree). plug (node c n l x) k) (sym same)
        ∙ sym (plug-graft (node cm m leaf y) j (under right c n l k)) in
      let (h', bm, bk, fits) =
        open_balance (node cm m leaf y) i h (subst (λ x. Balanced x h) whole b)
          (sym (ap is_red whole) ∙ black) in
      transport-Deleted s (unlink s fuel n m (ptr s y) t) (rbtree_delete s fuel n t)
        (update t.key n 0) (update t.key n 0) (inorder (plug (node c m l (plug y j)) k))
        (remove n (inorder (plug (node c n l r) k))) (run below) refl
        (inorder-plug (node c m l (plug y j)) k
          ∙ ap (λ (xs : List Ptr). before k ++ (inorder l ++ xs) ++ after k) order
          ∙ sym (remove-plug n c l r k (out_of l r z)))
        (successor_Deleted s over t c n l k cm m y j fuel h' below z.holds.0 bm bk
          (omega (arith, enough, ap height whole, depth-lt-height cm m leaf y i)))
    where
      order : m ∷ inorder (plug y j) ≡ inorder r
      order =
          ap (λ (xs : List Ptr). m ∷ xs)
            (inorder-plug y j ∙ ap (λ (xs : List Ptr). xs ++ inorder y ++ after j) first)
          ∙ sym (ap (λ (xs : List Ptr). xs ++ (m ∷ inorder y) ++ after j) first)
          ∙ sym (inorder-plug (node cm m leaf y) j)
          ∙ ap inorder same

      run :
          IsAt s over t (node cm m leaf y) (graft j (under right c n l k))
          → rbtree_delete s fuel n t ≡ unlink s fuel n m (ptr s y) t
      run a =
          let ne_left : t.lefts n ≢ s = (λ e. fl (sym z.holds.2 ∙ e)) in
          let ne_right : t.rights n ≢ s = (λ e. fr (sym z.holds.3 ∙ e)) in
          let min : rbtree_min s fuel t (t.rights n) ≡ some m =
            ap (rbtree_min s fuel t) z.holds.3 ∙ low in
          unfold rbtree_delete unlink_successor in
          (rw
              (
                ==_of_ne (t.lefts n) s ne_left,
                ==_of_ne (t.rights n) s ne_right,
                min,
                ==_of_eq (t.lefts m) s a.holds.2,
              )
              refl
            ∙ ap (λ (q : Ptr). unlink s fuel n m q t) a.holds.3)

  -- The node at the place.
  gone :
      (l r : Tree) (h : ℕ)
      → IsAt s over t (node c n l r) k
      → Balanced (plug (node c n l r) k) h
      → is_red (plug (node c n l r) k) ≡ false
      → height (plug (node c n l r) k) < fuel
      → Gone l r
  gone leaf r h z b black enough =
      let (h', bn, bk, fits) = open_balance (node c n leaf r) k h b black in
      no_left r h' z bn bk (omega (arith, enough, depth-lt-height c n leaf r k))
  gone (node cl q a b') leaf h z b black enough =
      let (h', bn, bk, fits) = open_balance (node c n (node cl q a b') leaf) k h b black in
      no_right cl q a b' h' z bn bk
        (omega (arith, enough, depth-lt-height c n (node cl q a b') leaf k))
  gone (node cl q a b') (node cr p d e) h z b black enough =
      let w = lowest cr p d e in
      both (node cl q a b') (node cr p d e) w.color (leftmost p d) w.upper w.place h z.holds.5.0
        z.holds.6.0
        (rbtree_min-Holds s t n cr p d e fuel z.holds.6
          (omega (arith, enough, height-below c n (node cl q a b') (node cr p d e) k)))
        w.same w.first z b black enough

-- In a memory that holds a red-black tree with the node `n`, `rbtree_delete` ends, when its loops
-- may run more rounds than the tree is high. The memory then holds a red-black tree with the other
-- nodes in the same order, and the node's key is zero.
pub rbtree_delete-Deleted :
    (s fuel n : ℕ) (t : Store) (x : Tree) (h : ℕ)
    → IsTree s t x
    → Balanced x h
    → is_red x ≡ false
    → 0 < count n x
    → height x < fuel
    → Deleted s (rbtree_delete s fuel n t) (update t.key n 0) (remove n (inorder x))
rbtree_delete-Deleted s fuel n t x h (over, z) b black i enough =
    let w = find n x top i in
    let y = node w.color n w.lower_left w.lower_right in
    let z' =
      subst (λ k. IsAt s over t y k) (graft-top w.place)
        (down_all s over t y w.place top (turn s over t x (plug y w.place) top (sym w.same) z)) in
    transport-Deleted s (rbtree_delete s fuel n t) (rbtree_delete s fuel n t) (update t.key n 0)
      (update t.key n 0) (remove n (inorder (plug y w.place))) (remove n (inorder x)) refl refl
      (ap (λ (v : Tree). remove n (inorder v)) w.same)
      (gone s over fuel t w.color n w.place w.lower_left w.lower_right h z'
        (subst (λ v. Balanced v h) (sym w.same) b) (ap is_red w.same ∙ black)
        (omega (arith, enough, ap height w.same)))

-- `rbtree_delete` of a node of a tree of fewer than `2 ^ m - 1` nodes ends when each of its loops may
-- run `2 * m` rounds. The memory then holds a red-black tree with the other nodes, in the same
-- order, the removed node has the key 0, and no other key has changed.
pub rbtree_delete-Represents :
    (f : Ptr → ℕ) (s n m fuel : ℕ) (t : Store) (ps : List Ptr)
    → Represents f s t ps
    → 0 < occurs n ps
    → length ps + 1 < 2 ^ m
    → 2 * m ≤ fuel
    → (t' : Store) × (rbtree_delete s fuel n t ≡ some t')
      × Represents f s t' (remove n ps)
      × (t'.key ≡ update t.key n 0)
rbtree_delete-Represents f s n m fuel t ps r i few enough =
    let d =
      rbtree_delete-Deleted s fuel n t r.tree r.black_height r.is_tree r.balanced r.black
        (omega (arith, i, occurs-inorder n r.tree, ap (occurs n) r.nodes))
        (omega (arith, height-lt f s t ps m r few, enough)) in
    (
      d.store,
      d.run,
      record {
        tree = d.tree;
        black_height = d.height;
        is_tree = d.is_tree;
        balanced = d.balanced;
        black = d.black;
        nodes = d.nodes ∙ ap (remove n) r.nodes;
        sorted = remove-Sorted f n ps r.sorted;
      },
      d.keys,
    )
