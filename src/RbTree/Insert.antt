-- ===== src/RbTree/Insert.antt =====
-- `rbtree_insert`, `rbtree_insert_value` and `rbtree_insert_timer_value`.
use mtcp_lua.Base.{ℕ, zero, suc, Bool, not, ◌&&◌, Option, none, some, ◌==◌, ltb, if◌then◌else◌}
use mtcp_lua.Base.Int.{pos, ltb_ℤ, signed64, sub64}
use mtcp_lua.RbTree.Memory.{
  Ptr, null, Side, left, right, opposite, Store, InsertPt, insert_value, insert_timer_value, child,
  set_child, set_parent, set_root, rbtree_red, rbtree_black,
}
use mtcp_lua.RbTree.Rotate.{rotate}

-- The test by which an insertion goes left: `node->key < temp->key`, or the sign of the
-- difference of the two 64-bit keys.
unfoldable pub goes_left : InsertPt → ℕ → ℕ → Bool
goes_left insert_value k j = ltb k j
goes_left insert_timer_value k j = ltb_ℤ (signed64 (sub64 k j)) (pos 0)

unfoldable pub side_of : InsertPt → ℕ → ℕ → Side
unfolding goes_left
side_of i k j = if goes_left i k j then left else right

-- The last lines of both functions, when the loop has stopped at `temp`.
unfoldable pub attach : Ptr → Side → Ptr → Ptr → Store → Store
attach s d temp node t =
    let t1 = set_child d temp node t in
    let t2 = set_parent node temp t1 in
    let t3 = set_child left node s t2 in let t4 = set_child right node s t3 in rbtree_red node t4

-- The loop of both functions from `temp`, with a bound on its rounds.
unfoldable pub insert_at : InsertPt → Ptr → ℕ → Ptr → Ptr → Store → Option Store
unfolding side_of attach
insert_at i s zero temp node t = none
insert_at i s (suc fuel) temp node t =
    let d = side_of i (t.key node) (t.key temp) in
    let rest = insert_at i s fuel (child d t temp) node t in
    if child d t temp == s then some (attach s d temp node t) else rest

-- One round of the loop that restores the colours. The parent of `node` is the child on side `d`
-- of its own parent; the result has the next `node`.
unfoldable pub insert_round : Ptr → Side → Ptr → Store → Store × Ptr
insert_round s d node t =
    let temp = child (opposite d) t (t.parent (t.parent node)) in
    if t.red temp
    then (let t1 = rbtree_black (t.parent node) t in
        let t2 = rbtree_black temp t1 in
        let t3 = rbtree_red (t2.parent (t2.parent node)) t2 in (t3, t3.parent (t3.parent node)))
    else (let inner = node == child (opposite d) t (t.parent node) in
        let node' = if inner then t.parent node else node in
        let t1 = if inner then rotate s d (t.parent node) t else t in
        let t2 = rbtree_black (t1.parent node') t1 in
        let t3 = rbtree_red (t2.parent (t2.parent node')) t2 in
        (rotate s (opposite d) (t3.parent (t3.parent node')) t3, node'))

-- `node->parent == node->parent->parent->left`
unfoldable pub parent_side : Ptr → Store → Side
parent_side node t = if t.parent node == t.lefts (t.parent (t.parent node)) then left else right

-- The loop, with a bound on its rounds.
unfoldable pub insert_loop : Ptr → ℕ → Ptr → Store → Option Store
insert_loop s zero node t = none
insert_loop s (suc fuel) node t =
    let next = insert_round s (parent_side node t) node t in
    let rest = insert_loop s fuel next.1 next.0 in
    if not (node == t.root) && t.red (t.parent node) then rest else some t

-- `rbtree_black(*root)`, when the loop has ended.
unfoldable pub blacken_root : Option Store → Option Store
blacken_root none = none
blacken_root (some t) = some (rbtree_black t.root t)

unfoldable pub rebalance : Ptr → ℕ → Ptr → Option Store → Option Store
rebalance s fuel node none = none
rebalance s fuel node (some t) = blacken_root (insert_loop s fuel node t)

-- `rbtree_insert`; each of its two loops runs on `fuel`.
unfoldable pub rbtree_insert : InsertPt → Ptr → ℕ → Ptr → Store → Option Store
rbtree_insert i s fuel node t =
    if t.root == s
    then (let t1 = set_parent node null t in
        let t2 = set_child left node s t1 in
        let t3 = set_child right node s t2 in
        let t4 = rbtree_black node t3 in some (set_root node t4))
    else rebalance s fuel node (insert_at i s fuel t.root node t)
