-- ===== src/RbTree/Deletion/Replace.antt =====
-- `rbtree_delete` of a node with two children, to its end.
use mtcp_lua.Base.{ℕ, suc, ap, ◌+◌, ◌<◌, ◌≡◌, ◌≢◌, refl, sym, ◌∙◌, Bool, arith}
use mtcp_lua.RbTree.{Ptr, right, Store, update, clear_node, unlink, take_place}
use mtcp_lua.RbTree.Shape.{
  Tree, leaf, node, ptr, count, Place, top, under, plug, inorder, count_place, parent_at, Holds,
}
use mtcp_lua.RbTree.Focus.{down}
use mtcp_lua.RbTree.Balance.{Balanced, BalancedAt}
use mtcp_lua.RbTree.Insertion.Loop.{depth}
use mtcp_lua.RbTree.Deletion.Hangs.{Hangs}
use mtcp_lua.RbTree.Deletion.Place.{take_place-placed}
use mtcp_lua.RbTree.Deletion.Placed.{placed_key, placed_sentinel}
use mtcp_lua.RbTree.Deletion.Ends.{take_place-IsAt}
use mtcp_lua.RbTree.Deletion.Graft.{
  graft, plug-graft, count_place-graft, depth-graft, down_all, BalancedAt-renamed,
}
use mtcp_lua.RbTree.Deletion.Cut.{clear-Hangs}
use mtcp_lua.RbTree.Deletion.Finish.{Deleted, transport-Deleted, finish_Deleted, end_of}
use mtcp_lua.RbTree.Deletion.Successor.{hook, Below, cut_at, run, severed, once_in, ready}

-- The sentinel's parent, for a place whose parent is known.
link-of :
    (s over par : Ptr) (t : Store) (y : Tree)
    → Holds s t par y
    → (ptr s y ≡ s → t.parent s ≡ par)
    → t.parent (ptr s y) ≡ par
link-of s over par t leaf h e = e refl
link-of s over par t (node c p l r) h e = h.1

hook-parent :
    (over m : Ptr) (c : Bool) (l : Tree) (j k : Place)
    → hook m j ≡ parent_at over (graft j (under right c m l k))
unfolding graft
hook-parent over m c l top k = refl
hook-parent over m c l (under d c' q w j) k = refl

module _ (s over : Ptr) (t : Store) (c : Bool) (n : Ptr) (l : Tree) (k : Place) (cm : Bool)
    (m : Ptr) (y : Tree) (j : Place) where
  abbrev Stands : Type 0
  Stands = Below s over t c n l k cm m y j

  -- The successor has taken the place.
  abbrev replaced : Store
  replaced = take_place s m n (cut_at s over t c n l k cm m y j)

  replaced-keys : Stands → replaced.key ≡ t.key
  replaced-keys z =
      let (par, rd) = ready s over t c n l k cm m y j z in
      let u = cut_at s over t c n l k cm m y j in
      ap (λ (v : Store). v.key) (take_place-placed s over u n m par c l (plug y j) k rd)
      ∙ placed_key s over u n m l (plug y j) k
      ∙ (severed s over t c n l k cm m y j z).keys

  replaced-Hangs : Stands → Hangs s over replaced y (graft j (under right c m l k))
  replaced-Hangs z =
      let (par, rd) = ready s over t c n l k cm m y j z in
      let u = cut_at s over t c n l k cm m y j in
      let at = take_place-IsAt s over u n m par c l (plug y j) k rd in
      let in_place =
        down_all s over replaced y j (under right c m l k)
          (down s over replaced right c m (plug y j) l k at) in
      record {
        at = in_place;
        link =
            link-of s over (parent_at over (graft j (under right c m l k))) replaced y
              in_place.holds
              (λ e.
                ap (λ (v : Store). v.parent s)
                  (take_place-placed s over u n m par c l (plug y j) k rd)
                ∙ placed_sentinel s over u n m l (plug y j) k rd.ms
                ∙ ap u.parent (sym e)
                ∙ (severed s over t c n l k cm m y j z).link
                ∙ hook-parent over m c l j k);
      }

  pub successor_Deleted :
      (fuel h : ℕ)
      → Stands
      → n ≢ s
      → Balanced (node cm m leaf y) h
      → BalancedAt (graft j (under right c n l k)) h
      → suc (depth (graft j (under right c n l k))) < fuel
      → Deleted s
          (unlink s fuel n m (ptr s y) t)
          (update t.key n 0)
          (inorder (plug (node c m l (plug y j)) k))
  successor_Deleted fuel h z ns b bk enough =
      let i = graft j (under right c m l k) in
      let out : count n y + count_place n i ≡ 0 = ground (
        arith,
        once_in s over t c n l k cm m y j z n,
        count_place-graft n j (under right c m l k),
      ) in
      transport-Deleted s (end_of s fuel n (ptr s y) cm replaced) (unlink s fuel n m (ptr s y) t)
        (clear_node n replaced).key (update t.key n 0) (inorder (plug y i))
        (inorder (plug (node c m l (plug y j)) k)) (run s over t c n l k cm m y fuel j z)
        (unfold clear_node in ap (λ (f : Ptr → ℕ). update f n 0) (replaced-keys z))
        (ap inorder (plug-graft y j (under right c m l k)))
        (finish_Deleted s over fuel (clear_node n replaced) cm right m y i h
          (clear-Hangs s over n replaced y i ns out (replaced-Hangs z)) b
          (BalancedAt-renamed j k right c n m l h bk)
          (omega (
            arith,
            enough,
            depth-graft j (under right c n l k),
            depth-graft j (under right c m l k),
          )))
