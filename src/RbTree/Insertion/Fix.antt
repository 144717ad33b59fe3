-- ===== src/RbTree/Insertion/Fix.antt =====
-- The repair of an insertion, on trees: what the loop of `rbtree_insert` does to the tree.
use mtcp_lua.Base.{◌+◌, ◌≡◌, true, false, arith}
use mtcp_lua.RbTree.{Ptr, Side, left, right}
use mtcp_lua.RbTree.Shape.{Tree, leaf, node, build, count, Place, top, under, plug, count_place}
use mtcp_lua.RbTree.Frames.{count-build}
use mtcp_lua.RbTree.Focus.{is_red}

abbrev pub blacken : Tree → Tree
blacken leaf = leaf
blacken (node c p l r) = node false p l r

-- The subtree at the place of `g` after the rotations: the red node `x` hangs on side `d` of the
-- red node `p`, which hangs on side `d'` of `g`; `w` and `u` are the siblings of `x` and `p`.
abbrev pub lift : Side → Side → Ptr → Ptr → Tree → Tree → Tree → Tree
lift left left p g x w u = build left false p x (build left true g w u)
lift right right p g x w u = build right false p x (build right true g w u)
lift right left p g leaf w u = leaf
lift right left p g (node c n a b) w u =
    build left false n (build left true p w a) (build left true g b u)
lift left right p g leaf w u = leaf
lift left right p g (node c n a b) w u =
    build right false n (build right true p w b) (build right true g a u)

unfoldable pub insert_fix : Tree → Place → Tree
insert_fix x top = x
insert_fix x (under d false p w k) = plug x (under d false p w k)
insert_fix x (under d true p w top) = build d true p x w
insert_fix x (under d true p w (under d' c g u k)) = elim (is_red u) [
  | true ↦ insert_fix (build d' true g (build d false p x w) (blacken u)) k
  | false ↦ plug (lift d d' p g x w u) k
]

pub count-plug : (x : Tree) (k : Place) (p : Ptr) → count p (plug x k) ≡ count p x + count_place p k
count-plug x top p = omega arith
count-plug x (under d c q u k) p =
    omega (arith, count-plug (build d c q x u) k p, count-build d c q x u p)
