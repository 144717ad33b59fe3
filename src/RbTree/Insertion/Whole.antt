-- ===== src/RbTree/Insertion/Whole.antt =====
-- `rbtree_insert` as a whole.
use mathlib.Core.Path.{subst}
use mtcp_lua.Base.{
  ℕ, ◌+◌, ◌≤◌, ◌<◌, ◌≡◌, ◌≢◌, refl, sym, ◌∙◌, Bool, true, false, some, arith, ==_of_eq, ==_of_ne,
  Bool-cases, inl, inr,
}
use mtcp_lua.RbTree.{
  Ptr, null, Side, left, right, Store, InsertPt, update, goes_left, insert_at, insert_loop,
  blacken_root, rebalance, rbtree_insert, rbtree_black,
}
use mtcp_lua.RbTree.Shape.{Tree, leaf, node, count, Place, top, under}
use mtcp_lua.RbTree.Focus.{IsAt, IsTree, recolor, recolor-IsAt, is_red}
use mtcp_lua.RbTree.Insertion.Fix.{blacken, insert_fix}
use mtcp_lua.RbTree.Insertion.Loop.{depth, RootBlack, insert_loop_Ends}
use mtcp_lua.RbTree.Insertion.Descent.{insert_at_Hung}
use mtcp_lua.RbTree.Insertion.Attach.{descend, descend-left, descend-right, height, once_new}

-- The insertion of the node `n` with key `v` into a tree whose nodes have the keys `key`.
unfoldable pub insert_tree : InsertPt → (Ptr → ℕ) → ℕ → Ptr → Tree → Tree
insert_tree i key v n leaf = node false n leaf leaf
insert_tree i key v n (node c p l r) =
    blacken (insert_fix (node true n leaf leaf) (descend i key v (node c p l r) top))

-- The way down is no longer than the tree is high, and does not meet a red root.
descend-depth :
    (i : InsertPt) (key : Ptr → ℕ) (v : ℕ) (x : Tree) (k : Place)
    → depth (descend i key v x k) ≤ height x + depth k
unfolding height
descend-depth i key v leaf k = unfold descend in omega arith
descend-depth i key v (node c p l r) k = elim (Bool-cases (goes_left i v (key p))) [
  | inl e ↦
      rw (descend-left i key v c p l r k e)
        (omega (arith, descend-depth i key v l (under left c p r k)))
  | inr e ↦
      rw (descend-right i key v c p l r k e)
        (omega (arith, descend-depth i key v r (under right c p l k)))
]

descend-RootBlack :
    (i : InsertPt) (key : Ptr → ℕ) (v : ℕ) (x : Tree) (d : Side) (c : Bool) (p : Ptr) (w : Tree)
    (k : Place)
    → RootBlack (under d c p w k)
    → RootBlack (descend i key v x (under d c p w k))
descend-RootBlack i key v leaf d c p w k h = unfold descend in h
descend-RootBlack i key v (node c' q l r) d c p w k h = elim (Bool-cases (goes_left i v (key q))) [
  | inl e ↦
      rw (descend-left i key v c' q l r (under d c p w k) e)
        (descend-RootBlack i key v l left c' q r (under d c p w k) h)
  | inr e ↦
      rw (descend-right i key v c' q l r (under d c p w k) e)
        (descend-RootBlack i key v r right c' q l (under d c p w k) h)
]

descend-RootBlack_node :
    (i : InsertPt) (key : Ptr → ℕ) (v : ℕ) (c : Bool) (p : Ptr) (l r : Tree)
    → c ≡ false
    → RootBlack (descend i key v (node c p l r) top)
descend-RootBlack_node i key v c p l r h = elim (Bool-cases (goes_left i v (key p))) [
  | inl e ↦ rw (descend-left i key v c p l r top e) (descend-RootBlack i key v l left c p r top h)
  | inr e ↦ rw (descend-right i key v c p l r top e) (descend-RootBlack i key v r right c p l top h)
]

module _ (s over : Ptr) where
  -- The last line of `rbtree_insert`.
  pub blacken-IsAt :
      (t : Store) (x : Tree)
      → IsAt s over t x top
      → IsAt s over (rbtree_black t.root t) (blacken x) top
  blacken-IsAt t leaf z = record {
    holds = tt;
    around = z.around;
    once = z.once;
    black = ground (arith, z.black);
  }
  blacken-IsAt t (node c p l r) z =
      subst (λ q. IsAt s over (recolor q false t) (node false p l r) top) (sym z.around)
        (recolor-IsAt s over t left c false p l r top z)

-- An insertion into a tree with a black root ends without a fault, and the memory holds the tree
-- that `insert_tree` gives; no key changes.
abbrev pub Inserted : InsertPt → Ptr → ℕ → Ptr → Store → Tree → Type 0
Inserted i s fuel n t x =
    (t' : Store) × (rbtree_insert i s fuel n t ≡ some t')
    × IsTree s t' (insert_tree i t.key (t.key n) n x)
    × (t'.key ≡ t.key)

module _ (i : InsertPt) (s : Ptr) (fuel : ℕ) (n : Ptr) (ns : n ≢ s) where
  insert_first : (t : Store) → IsTree s t leaf → Inserted i s fuel n t leaf
  unfolding rbtree_insert insert_tree
  insert_first t (over, z) = (
    record t {
      root = n;
      parent = update t.parent n null;
      lefts = update t.lefts n s;
      rights = update t.rights n s;
      red = update t.red n false;
    },
    rw (==_of_eq t.root s z.around),
    (
      null,
      record {
        holds = (ns, ground arith, ground arith, ground arith, ground arith, tt, tt);
        around = refl;
        once = λ q. once_new n q top refl (omega arith);
        black = ground (arith, z.black);
      },
    ),
    refl,
  )

  insert_run :
      (t t1 t2 : Store) (p : Ptr)
      → p ≢ s
      → t.root ≡ p
      → insert_at i s fuel p n t ≡ some t1
      → insert_loop s fuel n t1 ≡ some t2
      → rbtree_insert i s fuel n t ≡ some (rbtree_black t2.root t2)
  unfolding rbtree_insert rebalance blacken_root
  insert_run t t1 t2 p full e run1 run2 = simp (e, ==_of_ne p s full, run1, run2)

  insert_more :
      (t : Store) (p : Ptr) (l r : Tree)
      → IsTree s t (node false p l r)
      → count n (node false p l r) ≡ 0
      → height (node false p l r) < fuel
      → Inserted i s fuel n t (node false p l r)
  unfolding insert_tree
  insert_more t p l r (over, z) fresh high =
      let x = node false p l r in
      let k = descend i t.key (t.key n) x top in
      let (t1, run1, z1, keys1) =
        insert_at_Hung i s over n ns fuel false p l r top t (omega arith) (omega arith) z in
      let deep = descend-depth i t.key (t.key n) x top in
      let rb = descend-RootBlack_node i t.key (t.key n) false p l r refl in
      let (t2, run2, z2, keys2) =
        insert_loop_Ends s over fuel t1 n leaf leaf k (omega arith) rb z1 in
      (
        rbtree_black t2.root t2,
        insert_run t t1 t2 p z.holds.0 z.around run1 run2,
        (over, blacken-IsAt s over t2 (insert_fix (node true n leaf leaf) k) z2),
        keys2 ∙ keys1,
      )

  -- `rbtree_insert` into a tree with a black root and without the node ends, when its loops may run
  -- more rounds than the tree is high, and leaves in the memory the tree of the reference insertion
  -- `insert_tree`, with every key as before.
  pub rbtree_insert_lem :
      (t : Store) (x : Tree)
      → IsTree s t x
      → is_red x ≡ false
      → count n x ≡ 0
      → height x < fuel
      → Inserted i s fuel n t x
  rbtree_insert_lem t leaf z black fresh high = insert_first t z
  rbtree_insert_lem t (node false p l r) z black fresh high = insert_more t p l r z fresh high
  rbtree_insert_lem t (node true p l r) z black fresh high = cc
