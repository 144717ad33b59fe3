-- ===== src/RbTree/Delete.antt =====
-- `rbtree_delete`.
use mtcp_lua.Base.{ℕ, zero, suc, not, ◌&&◌, Option, none, some, ◌==◌, if◌then◌else◌}
use mtcp_lua.RbTree.Memory.{
  Ptr, null, Side, left, right, opposite, Store, child, set_child, set_parent, set_root, set_key,
  rbtree_red, rbtree_black, rbtree_copy_color, rbtree_min,
}
use mtcp_lua.RbTree.Rotate.{rotate, replace_link, adopt}

-- In a round `temp` is the child on side `d` of its parent, and its sibling is read anew where the
-- code reads it again.
unfoldable pub sibling : Side → Ptr → Store → Ptr
sibling d temp t = child (opposite d) t (t.parent temp)

-- The branch for a red sibling.
unfoldable pub turn_sibling : Ptr → Side → Ptr → Store → Store
turn_sibling s d temp t =
    let w = sibling d temp t in
    let t1 = rbtree_black w t in
    let t2 = rbtree_red (t1.parent temp) t1 in if t.red w then rotate s d (t2.parent temp) t2 else t

-- The branch for a sibling `w` with a black child on the far side.
unfoldable pub raise_near : Ptr → Side → Ptr → Store → Store
raise_near s d w t =
    let t1 = rbtree_black (child d t w) t in
    let t2 = rbtree_red w t1 in
    if t.red (child (opposite d) t w) then t else rotate s (opposite d) w t2

-- The last lines of the branch for a sibling `w` with a red child.
unfoldable pub finish_round : Ptr → Side → Ptr → Ptr → Store → Store
finish_round s d temp w t =
    let t1 = rbtree_copy_color w (t.parent temp) t in
    let t2 = rbtree_black (t1.parent temp) t1 in
    let t3 = rbtree_black (child (opposite d) t2 w) t2 in rotate s d (t3.parent temp) t3

-- The round from the second test on; the result has the next `temp`.
unfoldable pub push_black : Ptr → Side → Ptr → Store → Store × Ptr
push_black s d temp t =
    let w = sibling d temp t in
    let t1 = raise_near s d w t in
    let t2 = finish_round s d temp (sibling d temp t1) t1 in
    if not (t.red (t.lefts w)) && not (t.red (t.rights w))
    then (rbtree_red w t, t.parent temp)
    else (t2, t2.root)

-- One round of the loop that restores the colours.
unfoldable pub delete_round : Ptr → Side → Ptr → Store → Store × Ptr
delete_round s d temp t = push_black s d temp (turn_sibling s d temp t)

-- `temp == temp->parent->left`
unfoldable pub side_in_parent : Ptr → Store → Side
side_in_parent temp t = if temp == t.lefts (t.parent temp) then left else right

-- The loop with the line `rbtree_black(temp)` behind it, with a bound on its rounds.
unfoldable pub delete_loop : Ptr → ℕ → Ptr → Store → Option Store
delete_loop s zero temp t = none
delete_loop s (suc fuel) temp t =
    let next = delete_round s (side_in_parent temp t) temp t in
    let rest = delete_loop s fuel next.1 next.0 in
    if not (temp == t.root) && not (t.red temp) then rest else some (rbtree_black temp t)

-- `node->left = NULL; node->right = NULL; node->parent = NULL; node->key = 0`
unfoldable pub clear_node : Ptr → Store → Store
clear_node node t =
    set_key node 0 (set_parent node null (set_child right node null (set_child left node null t)))

-- `subst` takes the place of `node`: its links, colour and the links that lead to it.
unfoldable pub take_place : Ptr → Ptr → Ptr → Store → Store
take_place s subst node t =
    let t2 = set_child left subst (t.lefts node) t in
    let t3 = set_child right subst (t2.rights node) t2 in
    let t4 = set_parent subst (t3.parent node) t3 in
    let t5 = rbtree_copy_color subst node t4 in
    let t6 = replace_link node subst t5 in
    let t7 = adopt s (t6.lefts subst) subst t6 in adopt s (t7.rights subst) subst t7

-- The parent of `temp`, for `subst` other than `node`.
unfoldable pub move_temp : Ptr → Ptr → Ptr → Store → Store
move_temp temp subst node t =
    if t.parent subst == node then set_parent temp subst t else set_parent temp (t.parent subst) t

-- From the choice of `subst` and `temp` on.
unfoldable pub unlink : Ptr → ℕ → Ptr → Ptr → Ptr → Store → Option Store
unlink s fuel node subst temp t =
    if subst == t.root
    then some (clear_node node (rbtree_black temp (set_root temp t)))
    else (let t1 = set_child (side_in_parent subst t) (t.parent subst) temp t in
        let t2 =
          if subst == node
          then set_parent temp (t1.parent subst) t1
          else take_place s subst node (move_temp temp subst node t1) in
        let t3 = clear_node node t2 in if t.red subst then some t3 else delete_loop s fuel temp t3)

-- The successor found, its child that moves up.
unfoldable pub unlink_successor : Ptr → ℕ → Ptr → Option Ptr → Store → Option Store
unlink_successor s fuel node none t = none
unlink_successor s fuel node (some subst) t =
    unlink s fuel node subst (if t.lefts subst == s then t.rights subst else t.lefts subst) t

-- `rbtree_delete`; each of its loops runs on `fuel`.
unfoldable pub rbtree_delete : Ptr → ℕ → Ptr → Store → Option Store
rbtree_delete s fuel node t =
    if t.lefts node == s
    then unlink s fuel node node (t.rights node) t
    else if t.rights node == s
    then unlink s fuel node node (t.lefts node) t
    else unlink_successor s fuel node (rbtree_min s fuel t (t.rights node)) t
