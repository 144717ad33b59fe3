-- ===== src/RbTree/Rotate.antt =====
-- `rbtree_left_rotate` and `rbtree_right_rotate`.
use mtcp_lua.Base.{◌==◌, if◌then◌else◌}
use mtcp_lua.RbTree.Memory.{
  Ptr, Side, left, right, opposite, Store, child, set_child, set_parent, set_root,
}

-- The link that leads to `old`, from its parent or the root, is made to lead to `new`.
unfoldable pub replace_link : Ptr → Ptr → Store → Store
replace_link old new t =
    if old == t.root
    then set_root new t
    else if old == t.lefts (t.parent old)
    then set_child left (t.parent old) new t
    else set_child right (t.parent old) new t

-- `if (q != sentinel) q->parent = p`
unfoldable pub adopt : Ptr → Ptr → Ptr → Store → Store
adopt s q p t = if q == s then t else set_parent q p t

-- `rotate s left` is `rbtree_left_rotate` with the sentinel `s`, `rotate s right` its mirror image.
unfoldable pub rotate : Ptr → Side → Ptr → Store → Store
rotate s d node t =
    let temp = child (opposite d) t node in
    let t1 = set_child (opposite d) node (child d t temp) t in
    let t2 = adopt s (child d t1 temp) node t1 in
    let t3 = set_parent temp (t2.parent node) t2 in
    let t4 = replace_link node temp t3 in
    let t5 = set_child d temp node t4 in set_parent node temp t5
