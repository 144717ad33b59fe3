-- ===== src/RbTree/Deletion/Direct.antt =====
-- `rbtree_delete` of a node with at most one child.
use mathlib.Core.Path.{subst}
use mtcp_lua.Base.{ℕ, suc, ap, ◌+◌, ◌<◌, ◌≡◌, ◌≢◌, refl, sym, ◌∙◌, Bool, true, false, arith, ◌==◌}
use mtcp_lua.RbTree.{
  Ptr, Side, Store, update, rbtree_black, set_root, set_parent, clear_node, unlink,
}
use mtcp_lua.RbTree.Shape.{
  Tree, leaf, node, build, ptr, count, Place, top, under, plug, inorder, HoldsAt, count_place,
  one_if,
}
use mtcp_lua.RbTree.Frames.{Holds-frame, ptr-build, count-build}
use mtcp_lua.RbTree.Links.{link_at, link_at-parent, side-link_at}
use mtcp_lua.RbTree.Focus.{IsAt, open_at}
use mtcp_lua.RbTree.Balance.{Balanced, BalancedAt}
use mtcp_lua.RbTree.Insertion.Loop.{depth}
use mtcp_lua.RbTree.Insertion.Fix.{blacken}
use mtcp_lua.RbTree.Insertion.Whole.{blacken-IsAt}
use mtcp_lua.RbTree.Insertion.Balance.{blacken-Balanced}
use mtcp_lua.RbTree.Insertion.Order.{inorder-blacken}
use mtcp_lua.RbTree.Deletion.Hangs.{Hangs}
use mtcp_lua.RbTree.Deletion.Lift.{below}
use mtcp_lua.RbTree.Deletion.Cut.{cut, cut-Cut, clear-IsAt, clear-Hangs}
use mtcp_lua.RbTree.Deletion.Finish.{
  Deleted, transport-Deleted, red_child, black_child, finish_Deleted, end_of, unlink_root,
  unlink_self,
}

count-blacken : (n : Ptr) (x : Tree) → count n (blacken x) ≡ count n x
count-blacken n leaf = refl
count-blacken n (node c p l r) = refl

some_height :
    (d : Side) (c : Bool) (n : Ptr) (y : Tree) (h : ℕ)
    → Balanced (build d c n y leaf) h
    → (h' : ℕ) × Balanced y h'
some_height d true n y h b = (h, (red_child d n y h b).1)
some_height d false n y h b = let (h', by, e) = black_child d n y h b in (h', by)

module _ (s over : Ptr) (fuel : ℕ) (t : Store) (d : Side) (c : Bool) (n : Ptr) (y : Tree) where
  direct_root :
      (h : ℕ)
      → IsAt s over t (build d c n y leaf) top
      → Balanced (build d c n y leaf) h
      → Deleted s (unlink s fuel n n (ptr s y) t) (update t.key n 0) (inorder y)
  direct_root h z b =
      let u = set_root (ptr s y) t in
      let o = open_at s over t d c n y leaf top z in
      let (h', by) = some_height d c n y h b in
      let (h'', b'', black) = blacken-Balanced y h' by in
      let w : IsAt s n u y top = record {
        holds =
            Holds-frame s t u n y
              (λ p i. record { lefts = refl; rights = refl; parent = refl; red = refl }) o.5;
        around = refl;
        once = λ p. omega (arith, z.once p, count-build d c n y leaf p);
        black = z.black;
      } in
      record {
        store = clear_node n (rbtree_black (ptr s y) u);
        tree = blacken y;
        height = h'';
        run = unlink_root s fuel n (ptr s y) n t (sym (z.around ∙ ptr-build s d c n y leaf));
        is_tree = (
          n,
          clear-IsAt s n n (rbtree_black (ptr s y) u) (blacken y) top o.0
              (omega (arith, count-blacken n y, out)) (blacken-IsAt s n u y w),
        );
        nodes = inorder-blacken y;
        balanced = b'';
        black = black;
        keys = unfold clear_node in refl;
      }
    where
      out : count n y ≡ 0
      out = ground (arith, z.once n, count-build d c n y leaf n)

  direct_under :
      (e : Side) (cp : Bool) (p : Ptr) (w : Tree) (k : Place) (h : ℕ)
      → IsAt s over t (build d c n y leaf) (under e cp p w k)
      → Balanced (build d c n y leaf) h
      → BalancedAt (under e cp p w k) h
      → suc (suc (depth k)) < fuel
      → Deleted s
          (unlink s fuel n n (ptr s y) t)
          (update t.key n 0)
          (inorder (plug y (under e cp p w k)))
  direct_under e cp p w k h z b bk enough =
      let j = under e cp p w k in
      let o = open_at s over t d c n y leaf j z in
      let r = cut-Cut s over p t d c n y j z in
      let t1 = link_at j (ptr s y) t in
      let at_n = subst (λ q. HoldsAt s over t q j) (ptr-build s d c n y leaf) z.around in
      let far : n ≢ t.root =
        subst (λ q. q ≢ t.root) (ptr-build s d c n y leaf)
          (below s over t (build d c n y leaf) e cp p w k z) in
      let u = cut s p y j t in
      let hung : Hangs s over u y j = record {
        at = record { holds = r.holds; around = r.around; once = r.once; black = r.black };
        link = r.link;
      } in
      transport-Deleted s (end_of s fuel n (ptr s y) c u) (unlink s fuel n n (ptr s y) t)
        (clear_node n u).key (update t.key n 0) (inorder (plug y j)) (inorder (plug y j))
        (unlink_self s fuel n (ptr s y) t t1 far
            (side-link_at s over n (ptr s y) e cp p w k t o.0 (omega (arith, total)) o.1 at_n)
          ∙ ap (λ (b : Bool). end_of s fuel n (ptr s y) b (set_parent (ptr s y) (t1.parent n) t1))
              o.4
          ∙ ap (λ (v : Ptr). end_of s fuel n (ptr s y) c (set_parent (ptr s y) v t1))
              (ap (λ (f : Ptr → Ptr). f n) (link_at-parent j (ptr s y) t) ∙ o.1))
        (unfold clear_node in ap (λ (f : Ptr → ℕ). update f n 0) r.keys) refl
        (finish_Deleted s over fuel (clear_node n u) c d n y j h
          (clear-Hangs s over n u y j o.0 (omega (arith, total)) hung) b bk enough)
    where
      total : count n y + one_if (n == p) + count n w + count_place n k ≡ 0
      total = ground (arith, z.once n, count-build d c n y leaf n)

  -- The node at any place.
  pub direct_Deleted :
      (k : Place) (h : ℕ)
      → IsAt s over t (build d c n y leaf) k
      → Balanced (build d c n y leaf) h
      → BalancedAt k h
      → suc (depth k) < fuel
      → Deleted s (unlink s fuel n n (ptr s y) t) (update t.key n 0) (inorder (plug y k))
  direct_Deleted top h z b bk enough = direct_root h z b
  direct_Deleted (under e cp p w k) h z b bk enough = direct_under e cp p w k h z b bk enough
