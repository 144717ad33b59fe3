-- ===== src/RbTree/Sequence.antt =====
-- What the tree promises: a sequence of nodes in the order of their keys.
use native.Mathlib.Nat.{pow-le-pow_right}
use native.Mathlib.Decide.{dec_lt}
use mtcp_lua.Base.{
  ℕ, ◌+◌, ◌*◌, ◌^◌, ◌≤◌, ◌<◌, ◌≡◌, ◌≢◌, refl, ap, ◌∙◌, false, some, List, [], ◌∷◌, ◌++◌, arith, ltb,
  ◌==◌, length, length-append,
}
use mtcp_lua.Base.Int.{sub64}
use mtcp_lua.RbTree.{
  Ptr, Store, InsertPt, insert_value, insert_timer_value, goes_left, rbtree_insert,
}
use mtcp_lua.RbTree.Shape.{Tree, leaf, node, one_if, count, inorder}
use mtcp_lua.RbTree.Focus.{IsTree, is_red}
use mtcp_lua.RbTree.Balance.{Balanced, size, height-le, pow-le-size}
use mtcp_lua.RbTree.Order.{Sorted, insert_sorted, insert_sorted-Sorted}
use mtcp_lua.RbTree.Insertion.Attach.{height}
use mtcp_lua.RbTree.Insertion.Whole.{insert_tree, rbtree_insert_lem}
use mtcp_lua.RbTree.Insertion.Balance.{insert_tree-Balanced}
use mtcp_lua.RbTree.Insertion.Order.{Compares, inorder-insert_tree}

-- How often an address occurs in a list.
abbrev pub occurs : Ptr → List Ptr → ℕ
occurs p [] = 0
occurs p (q ∷ qs) = one_if (p == q) + occurs p qs

-- The memory holds a red-black tree with the nodes `ps` from left to right, which stand in the
-- order of their values `f`.
pub record Represents (f : Ptr → ℕ) (s : Ptr) (t : Store) (ps : List Ptr) : Type 0 where
  pub tree : Tree
  pub black_height : ℕ
  pub is_tree : IsTree s t tree
  pub balanced : Balanced tree black_height
  pub black : is_red tree ≡ false
  pub nodes : inorder tree ≡ ps
  pub sorted : Sorted f ps

pub occurs-append : (p : Ptr) (xs ys : List Ptr) → occurs p (xs ++ ys) ≡ occurs p xs + occurs p ys
occurs-append p [] ys = omega arith
occurs-append p (x ∷ xs) ys = omega (arith, occurs-append p xs ys)

pub occurs-inorder : (p : Ptr) (x : Tree) → occurs p (inorder x) ≡ count p x
occurs-inorder p leaf = refl
occurs-inorder p (node c q l r) =
    omega
      (arith, occurs-append p (inorder l) (q ∷ inorder r), occurs-inorder p l, occurs-inorder p r)

pub size-inorder : (x : Tree) → length (inorder x) ≡ size x
unfolding size
size-inorder leaf = refl
size-inorder (node c q l r) =
    omega (arith, length-append (inorder l) (q ∷ inorder r), size-inorder l, size-inorder r)

pub lt-of_pow : (h m : ℕ) → 2 ^ h < 2 ^ m → h < m
lt-of_pow h m l = elim (dec_lt h m) [
  | yes lt ↦ lt
  | no ge ↦ absurd (omega (arith, pow-le-pow_right {n = 2} (omega arith) (le_of_not ge)))
]
  where
    le_of_not : ¬ (h < m) → m ≤ h
    le_of_not ge = omega arith

-- With room for `2 ^ m` nodes the tree is less than `2 * m` high.
pub height-lt :
    (f : Ptr → ℕ) (s : Ptr) (t : Store) (ps : List Ptr) (m : ℕ) (r : Represents f s t ps)
    → length ps + 1 < 2 ^ m
    → height r.tree + 1 < 2 * m
height-lt f s t ps m r few =
    let n = ap length r.nodes in
    let p = pow-le-size r.tree r.black_height r.balanced in
    let h = lt-of_pow r.black_height m (omega (arith, p, n, size-inorder r.tree)) in
    let e = height-le r.tree r.black_height r.balanced in
    let z = ap one_if r.black in omega (arith, e, h, z)

-- The values by which the nodes are ordered are those that the test of the insertion compares.
abbrev pub KeyOrder : InsertPt → (Ptr → ℕ) → (Ptr → ℕ) → Ptr → List Ptr → Type 0
KeyOrder i key f n ps = (p : Ptr) → 0 < occurs p ps → goes_left i (key n) (key p) ≡ ltb (f n) (f p)

-- `rbtree_insert` of a new node into a tree of fewer than `2 ^ m - 1` nodes ends within `2 * m`
-- rounds of each loop. The memory then holds a red-black tree with the old nodes and the new one,
-- which stands behind the last node that is not greater. No key changes.
pub rbtree_insert-Represents :
    (i : InsertPt) (f : Ptr → ℕ) (s n m fuel : ℕ) (t : Store) (ps : List Ptr)
    → Represents f s t ps
    → n ≢ s
    → occurs n ps ≡ 0
    → KeyOrder i t.key f n ps
    → length ps + 1 < 2 ^ m
    → 2 * m ≤ fuel
    → (t' : Store) × (rbtree_insert i s fuel n t ≡ some t')
      × Represents f s t' (insert_sorted f n (f n) ps)
      × (t'.key ≡ t.key)
rbtree_insert-Represents i f s n m fuel t ps r ns fresh order few enough =
    let out : count n r.tree ≡ 0 =
      omega (arith, occurs-inorder n r.tree, ap (occurs n) r.nodes, fresh) in
    let high = height-lt f s t ps m r few in
    let (t', run, at, keys) =
      rbtree_insert_lem i s fuel n ns t r.tree r.is_tree r.black out (omega (arith, high)) in
    let (h', bal, black) =
      insert_tree-Balanced i t.key (t.key n) n r.tree r.black_height r.black r.balanced in
    let cmp : Compares i t.key (t.key n) f (f n) r.tree =
      (λ p q. order p (omega (arith, occurs-inorder p r.tree, ap (occurs p) r.nodes, q))) in
    let e = inorder-insert_tree i t.key (t.key n) f (f n) n r.tree cmp (rw r.nodes r.sorted) in
    (
      t',
      run,
      record {
        tree = insert_tree i t.key (t.key n) n r.tree;
        black_height = h';
        is_tree = at;
        balanced = bal;
        black = black;
        nodes = e ∙ ap (insert_sorted f n (f n)) r.nodes;
        sorted = insert_sorted-Sorted f n ps r.sorted;
      },
      keys,
    )

-- `rbtree_insert_value` compares the keys themselves.
pub goes_left-insert_value : (k j : ℕ) → goes_left insert_value k j ≡ ltb k j
unfolding goes_left
goes_left-insert_value k j = refl

-- Of two keys less than 2 ^ 63 behind a time `base`, modulo 2 ^ 64, the insertion of timers goes left
-- for the one that is nearer to `base`, also when the clock wraps around between them.
pub goes_left-insert_timer_value :
    (base k j : ℕ)
    → base < 2 ^ 64
    → k < 2 ^ 64
    → j < 2 ^ 64
    → sub64 k base < 2 ^ 63
    → sub64 j base < 2 ^ 63
    → goes_left insert_timer_value k j ≡ ltb (sub64 k base) (sub64 j base)
unfolding goes_left
goes_left-insert_timer_value base k j hb hk hj wk wj = ground arith
