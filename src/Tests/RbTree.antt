-- ===== src/Tests/RbTree.antt =====
-- rbtree.c at small trees: the sentinel is the node 1, the others are 2, 3, ….
use mtcp_lua.Base.{
  ◌*◌, ◌<◌, ◌++◌, ◌==◌, ℕ, zero, suc, ◌≡◌, refl, true, false, Option, none, some, List, [], ◌∷◌,
  arith,
}
use mtcp_lua.RbTree.{
  Ptr, null, update, Side, left, right, Store, InsertPt, insert_value, insert_timer_value,
  rbtree_init, rbtree_min, replace_link, adopt, rotate, goes_left, side_of, attach, insert_at,
  insert_round, parent_side, insert_loop, blacken_root, rebalance, rbtree_insert, sibling,
  turn_sibling, raise_near, finish_round, push_black, move_temp, delete_round, side_in_parent,
  delete_loop, clear_node, take_place, unlink, unlink_successor, rbtree_delete, set_key,
  rbtree_find, returned, rbtree_traverse,
}
use mtcp_lua.RbTree.Shape.{Tree, leaf, node, top}
use mtcp_lua.RbTree.Focus.{IsAt}
use mtcp_lua.RbTree.Sequence.{Represents, occurs, rbtree_insert-Represents}
use mtcp_lua.RbTree.Minimum.{rbtree_min-Represents}
use mtcp_lua.RbTree.Order.{insert_sorted}
use mtcp_lua.RbTree.Sequence.{goes_left-insert_timer_value}
use mtcp_lua.RbTree.Rotation.Shape.{rotate_lem}
use mtcp_lua.RbTree.Insertion.Whole.{Inserted, rbtree_insert_lem}
use mtcp_lua.RbTree.Balance.{Balanced}
use mtcp_lua.RbTree.Focus.{is_red}
use mtcp_lua.RbTree.Shape.{under, inorder, Holds, HoldsAt}
use mtcp_lua.RbTree.Deletion.Ends.{delete_loop-restores}
use mtcp_lua.RbTree.Remove.{remove}
use mtcp_lua.RbTree.Deletion.Whole.{rbtree_delete-Represents}
use mtcp_lua.RbTree.Walks.{rbtree_find-Represents}
use mtcp_lua.RbTree.Printing.{rbtree_traverse-Represents}
use mtcp_lua.Tests.Data.{single, single-IsTree, single-Represents, lopsided}

abbrev blank : Store
blank = record {
  root = 1;
  key = λ p. p * 10;
  lefts = λ p. 0;
  rights = λ p. 0;
  parent = λ p. 0;
  red = λ p. false;
}

insert_all : List Ptr → Option Store → Option Store
unfolding goes_left side_of attach replace_link adopt rotate insert_at insert_round parent_side
    insert_loop blacken_root rebalance rbtree_insert
insert_all [] o = o
insert_all (p ∷ ps) none = none
insert_all (p ∷ ps) (some t) = insert_all ps (rbtree_insert insert_timer_value 1 20 p t)

delete_all : List Ptr → Option Store → Option Store
unfolding rbtree_min replace_link adopt rotate sibling turn_sibling raise_near finish_round
    push_black move_temp delete_round side_in_parent delete_loop clear_node take_place unlink
    unlink_successor rbtree_delete
delete_all [] o = o
delete_all (p ∷ ps) none = none
delete_all (p ∷ ps) (some t) = delete_all ps (rbtree_delete 1 20 p t)

walk : ℕ → Ptr → Store → List Ptr
walk zero p t = []
walk (suc k) p t = elim (p == 1) [
  | true ↦ []
  | false ↦ walk k (t.lefts p) t ++ p ∷ walk k (t.rights p) t
]

nodes : Option Store → List Ptr
unfolding walk
nodes none = []
nodes (some t) = walk 10 t.root t

insert_sorts :
    nodes (insert_all (5 ∷ 2 ∷ 9 ∷ 3 ∷ 7 ∷ 4 ∷ 8 ∷ 6 ∷ []) (some blank))
    ≡ 2 ∷ 3 ∷ 4 ∷ 5 ∷ 6 ∷ 7 ∷ 8 ∷ 9 ∷ []
unfolding insert_all nodes
insert_sorts = refl

delete_keeps :
    nodes (
      delete_all
        (5 ∷ 2 ∷ 9 ∷ 6 ∷ [])
        (insert_all (5 ∷ 2 ∷ 9 ∷ 3 ∷ 7 ∷ 4 ∷ 8 ∷ 6 ∷ []) (some blank)))
    ≡ 3 ∷ 4 ∷ 7 ∷ 8 ∷ []
unfolding insert_all delete_all nodes
delete_keeps = refl

delete_empties :
    nodes (delete_all (3 ∷ 5 ∷ 4 ∷ 6 ∷ 2 ∷ []) (insert_all (2 ∷ 3 ∷ 4 ∷ 5 ∷ 6 ∷ []) (some blank)))
    ≡ []
unfolding insert_all delete_all nodes
delete_empties = refl

rbtree_insert-Represents_example :
    (t' : Store) × (rbtree_insert insert_value 1 4 3 single ≡ some t')
    × Represents (λ p. p * 10) 1 t' (insert_sorted (λ p. p * 10) 3 30 (2 ∷ []))
    × (t'.key ≡ single.key)
unfolding goes_left
rbtree_insert-Represents_example =
    rbtree_insert-Represents insert_value (λ p. p * 10) 1 3 2 4 single (2 ∷ [])
      (single-Represents (λ p. p * 10)) (omega arith) refl (λ p i. refl) (omega arith) (omega arith)

rbtree_min-Represents_example : rbtree_min 1 4 single single.root ≡ some 2
rbtree_min-Represents_example =
    rbtree_min-Represents (λ p. p * 10) 1 2 2 4 single [] (single-Represents (λ p. p * 10))
      (omega arith) (omega arith)

goes_left-insert_timer_value_example : goes_left insert_timer_value 30 20 ≡ false
goes_left-insert_timer_value_example =
    goes_left-insert_timer_value 10 30 20 (omega arith) (omega arith) (omega arith) (omega arith)
      (omega arith)

rbtree_insert_lem_example : Inserted insert_value 1 4 3 single (node false 2 leaf leaf)
unfolding mtcp_lua.RbTree.Insertion.Attach.height
rbtree_insert_lem_example =
    rbtree_insert_lem insert_value 1 4 3 (omega arith) single (node false 2 leaf leaf) single-IsTree
      refl refl (omega arith)

rotate_lem_example :
    Holds 1 (rotate 1 left 3 lopsided) 0 (node false 4 (node false 3 leaf leaf) leaf)
    × HoldsAt 1 0 (rotate 1 left 3 lopsided) 4 top
    × ((rotate 1 left 3 lopsided).red ≡ lopsided.red)
    × ((rotate 1 left 3 lopsided).key ≡ lopsided.key)
rotate_lem_example =
    rotate_lem 1 0 false false 3 4 leaf leaf leaf top lopsided left (λ p. ground arith)
      (omega arith, refl, refl, refl, refl, tt, (omega arith, refl, refl, refl, refl, tt, tt)) refl

delete_loop-restores_example :
    (t' : Store) × (y : Tree) × (height : ℕ) × (delete_loop 1 3 1 lopsided ≡ some t')
    × IsAt 1 0 t' y top
    × (inorder y ≡ 3 ∷ 4 ∷ [])
    × Balanced y height
    × (is_red y ≡ false)
    × (t'.key ≡ lopsided.key)
delete_loop-restores_example =
    delete_loop-restores 1 0 (under left false 3 (node false 4 leaf leaf) top) leaf lopsided 0 3
      (record {
        at = record {
          holds = tt;
          around = (
            omega arith,
            refl,
            refl,
            refl,
            refl,
            (omega arith, refl, refl, refl, refl, tt, tt),
            refl,
          );
          once = λ p. ground arith;
          black = refl;
        };
        link = refl;
      })
      tt ((tt, tt), tt) (omega arith)

rbtree_delete-Represents_example :
    (t' : Store) × (rbtree_delete 1 4 2 single ≡ some t')
    × Represents (λ p. p * 10) 1 t' []
    × (t'.key ≡ update single.key 2 0)
unfolding remove
rbtree_delete-Represents_example =
    rbtree_delete-Represents (λ p. p * 10) 1 2 2 4 single (2 ∷ []) (single-Represents (λ p. p * 10))
      (omega arith) (omega arith) (omega arith)

rbtree_find-Represents_example :
    (q : Ptr) × (rbtree_find 4 20 single ≡ some q) × (0 < occurs q (2 ∷ [])) × (q * 10 ≡ 20)
rbtree_find-Represents_example =
    rbtree_find-Represents 1 2 2 4 single (2 ∷ []) (single-Represents (λ p. p * 10)) refl
      (omega arith) (omega arith) (omega arith)

rbtree_traverse-Represents_example : rbtree_traverse 1 4 single 2 [] ≡ returned (20 ∷ [])
rbtree_traverse-Represents_example =
    rbtree_traverse-Represents 1 2 4 single (2 ∷ []) (single-Represents (λ p. p * 10))
      (λ p q i j e. omega (arith, e)) (omega arith) (omega arith)
