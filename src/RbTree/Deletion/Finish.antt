-- ===== src/RbTree/Deletion/Finish.antt =====
-- The end of `rbtree_delete`, after a node is cut out.
use mathlib.Core.Path.{subst}
use mtcp_lua.Base.{
  ℕ, zero, suc, ◌<◌, ◌≡◌, ◌≢◌, inl, refl, ◌∙◌, Bool, true, false, Option, some, List, if◌then◌else◌,
  ==_of_eq, ==_of_ne,
}
use mtcp_lua.RbTree.{
  Ptr, Side, left, right, Store, rbtree_black, set_parent, set_child, set_root, side_in_parent,
  delete_loop, clear_node, unlink, take_place, move_temp,
}
use mtcp_lua.RbTree.Shape.{Tree, leaf, build, ptr, Place, plug, inorder}
use mtcp_lua.RbTree.Focus.{IsTree, is_red, plug-IsAt}
use mtcp_lua.RbTree.Balance.{Balanced, BalancedAt, plug-Balanced}
use mtcp_lua.RbTree.Insertion.Loop.{depth}
use mtcp_lua.RbTree.Deletion.Hangs.{Hangs}
use mtcp_lua.RbTree.Deletion.Goal.{plug-black}
use mtcp_lua.RbTree.Deletion.Repair.{delete_loop_Repaired}

-- A run ends with a memory that holds a red-black tree with a black root and the nodes `xs` in
-- order, and the keys `key`.
pub record Deleted (s : Ptr) (o : Option Store) (key : Ptr → ℕ) (xs : List Ptr) : Type 0 where
  pub store : Store
  pub tree : Tree
  pub height : ℕ
  pub run : o ≡ some store
  pub is_tree : IsTree s store tree
  pub nodes : inorder tree ≡ xs
  pub balanced : Balanced tree height
  pub black : is_red tree ≡ false
  pub keys : store.key ≡ key

pub transport-Deleted :
    (s : Ptr) (o o' : Option Store) (key key' : Ptr → ℕ) (xs ys : List Ptr)
    → o' ≡ o
    → key ≡ key'
    → xs ≡ ys
    → Deleted s o key xs
    → Deleted s o' key' ys
transport-Deleted s o o' key key' xs ys e f g r = record {
  store = r.store;
  tree = r.tree;
  height = r.height;
  run = e ∙ r.run;
  is_tree = r.is_tree;
  nodes = r.nodes ∙ g;
  balanced = r.balanced;
  black = r.black;
  keys = r.keys ∙ f;
}

-- The child of a node that keeps the rules, under the same black height but for the node's own.
pub red_child :
    (d : Side) (m : Ptr) (y : Tree) (h : ℕ)
    → Balanced (build d true m y leaf) h
    → (is_red y ≡ false) × Balanced y h
red_child left m y h b = (b.0, b.2)
red_child right m y h b = (b.1, b.3)

pub black_child :
    (d : Side) (m : Ptr) (y : Tree) (h : ℕ)
    → Balanced (build d false m y leaf) h
    → (h' : ℕ) × Balanced y h' × (h ≡ suc h')
black_child left m y zero b = absurd b
black_child right m y zero b = absurd b
black_child left m y (suc h) b = (h, b.0, refl)
black_child right m y (suc h) b = (h, b.1, refl)

-- The last test of the code: a red node is gone without more ado, a black one leaves a path short.
pub finish_Deleted :
    (s over : Ptr) (fuel : ℕ) (t : Store) (c : Bool) (d : Side) (m : Ptr) (y : Tree) (k : Place)
    (h : ℕ)
    → Hangs s over t y k
    → Balanced (build d c m y leaf) h
    → BalancedAt k h
    → suc (depth k) < fuel
    → Deleted s (if c then some t else delete_loop s fuel (ptr s y) t) t.key (inorder (plug y k))
finish_Deleted s over fuel t true d m y k h z b bk enough =
    let (ry, by) = red_child d m y h b in
    let (h', b') = plug-Balanced y k h (inl ry) by bk in
    record {
      store = t;
      tree = plug y k;
      height = h';
      run = refl;
      is_tree = (over, plug-IsAt s over t y k z.at);
      nodes = refl;
      balanced = b';
      black = plug-black y k h (inl ry) bk;
      keys = refl;
    }
finish_Deleted s over fuel t false d m y k h z b bk enough =
    let (h', by, e) = black_child d m y h b in
    let r =
      delete_loop_Repaired s over k y t h' fuel z by (subst (λ i. BalancedAt k i) e bk) enough in
    record {
      store = r.store;
      tree = r.tree;
      height = r.height;
      run = r.run;
      is_tree = (over, r.at);
      nodes = r.nodes;
      balanced = r.balanced;
      black = r.black;
      keys = r.keys;
    }

module _ (s : Ptr) (fuel : ℕ) (n temp : Ptr) where
  -- The code after the link to the removed node is set, and before the loop.
  abbrev pub end_of : Bool → Store → Option Store
  end_of c t2 = if c then some (clear_node n t2) else delete_loop s fuel temp (clear_node n t2)

  pub unlink_root :
      (m : Ptr) (t : Store)
      → m ≡ t.root
      → unlink s fuel n m temp t ≡ some (clear_node n (rbtree_black temp (set_root temp t)))
  unfolding unlink
  unlink_root m t e = rw (==_of_eq m t.root e)

  pub unlink_self :
      (t t1 : Store)
      → n ≢ t.root
      → set_child (side_in_parent n t) (t.parent n) temp t ≡ t1
      → unlink s fuel n n temp t ≡ end_of (t.red n) (set_parent temp (t1.parent n) t1)
  unfolding unlink
  unlink_self t t1 ne e = rw (==_of_ne n t.root ne, e, ==_of_eq n n refl)

  pub unlink_other :
      (m : Ptr) (t t1 : Store)
      → m ≢ t.root
      → m ≢ n
      → set_child (side_in_parent m t) (t.parent m) temp t ≡ t1
      → unlink s fuel n m temp t ≡ end_of (t.red m) (take_place s m n (move_temp temp m n t1))
  unfolding unlink
  unlink_other m t t1 ne far e = rw (==_of_ne m t.root ne, e, ==_of_ne m n far)
