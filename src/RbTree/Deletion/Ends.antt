-- ===== src/RbTree/Deletion/Ends.antt =====
-- What the end of `rbtree_delete` and the replacement of a node leave in the memory.
use mathlib.Core.Path.{subst}
use mtcp_lua.Base.{ℕ, suc, ◌<◌, ◌≡◌, sym, Bool, false, some}
use mtcp_lua.RbTree.{Ptr, Store, delete_loop, take_place}
use mtcp_lua.RbTree.Shape.{Tree, node, Place, top, ptr, plug, inorder}
use mtcp_lua.RbTree.Focus.{IsAt, is_red}
use mtcp_lua.RbTree.Balance.{Balanced, BalancedAt}
use mtcp_lua.RbTree.Deletion.Hangs.{Hangs}
use mtcp_lua.RbTree.Insertion.Loop.{depth}
use mtcp_lua.RbTree.Deletion.Repair.{delete_loop_Repaired}
use mtcp_lua.RbTree.Deletion.Place.{placed-IsAt, take_place-placed}
use mtcp_lua.RbTree.Deletion.Placed.{Ready}

-- From a tree `x` whose paths meet one black node less than its place `k` asks for, the loop at the
-- end of `rbtree_delete` returns when it may run two rounds more than the place is deep. The memory
-- then holds a red-black tree with a black root and the same nodes in the same order, and no key
-- has changed.
pub delete_loop-restores :
    (s over : Ptr) (k : Place) (x : Tree) (t : Store) (h fuel : ℕ)
    → Hangs s over t x k
    → Balanced x h
    → BalancedAt k (suc h)
    → suc (depth k) < fuel
    → (t' : Store) × (y : Tree) × (height : ℕ) × (delete_loop s fuel (ptr s x) t ≡ some t')
      × IsAt s over t' y top
      × (inorder y ≡ inorder (plug x k))
      × Balanced y height
      × (is_red y ≡ false)
      × (t'.key ≡ t.key)
delete_loop-restores s over k x t h fuel z b bk enough =
    let r = delete_loop_Repaired s over k x t h fuel z b bk enough in
    (r.store, r.tree, r.height, r.run, r.at, r.nodes, r.balanced, r.black, r.keys)

-- When a node `m` outside the tree takes the place of `n`, the memory holds the same tree with `m`
-- in the place of `n`: its colour, both its subtrees and its surroundings.
pub take_place-IsAt :
    (s over : Ptr) (t : Store) (n m par : Ptr) (c : Bool) (l r : Tree) (k : Place)
    → Ready s over t n m par c l r k
    → IsAt s over (take_place s m n t) (node c m l r) k
take_place-IsAt s over t n m par c l r k z =
    subst (λ (u : Store). IsAt s over u (node c m l r) k)
      (sym (take_place-placed s over t n m par c l r k z)) (placed-IsAt s over t n m par c l r k z)
