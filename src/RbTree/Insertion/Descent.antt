-- ===== src/RbTree/Insertion/Descent.antt =====
-- The loops of `rbtree_insert_value` and `rbtree_insert_timer_value`: the way down.
use mtcp_lua.Base.{
  ℕ, zero, suc, ◌+◌, ◌≤◌, ◌≡◌, ◌≢◌, refl, Bool, true, false, some, arith, ==_of_eq, ==_of_ne,
  Bool-cases, inl, inr,
}
use mtcp_lua.RbTree.{
  Ptr, Side, left, right, Store, InsertPt, child, goes_left, side_of, attach, insert_at,
}
use mtcp_lua.RbTree.Shape.{Tree, leaf, node, count, Place, under, count_place}
use mtcp_lua.RbTree.Focus.{IsAt, down}
use mtcp_lua.RbTree.Insertion.Attach.{descend, descend-left, descend-right, height, attach-IsAt}

module _ (i : InsertPt) (s over : Ptr) (n : Ptr) (ns : n ≢ s) where
  -- The loop ends with the node hung where `descend` says.
  abbrev pub Hung : ℕ → Ptr → Store → Tree → Place → Type 0
  Hung fuel p t x k =
      (t' : Store) × (insert_at i s fuel p n t ≡ some t')
      × IsAt s over t' (node true n leaf leaf) (descend i t.key (t.key n) x k)
      × (t'.key ≡ t.key)

  abbrev Fresh : Tree → Place → Type 0
  Fresh x k = count n x + count_place n k ≡ 0

  insert_at_here :
      (fuel : ℕ) (d : Side) (p : Ptr) (t : Store)
      → side_of i (t.key n) (t.key p) ≡ d
      → child d t p ≡ s
      → insert_at i s (suc fuel) p n t ≡ some (attach s d p n t)
  unfolding insert_at
  insert_at_here fuel d p t e h = rw (e, ==_of_eq (child d t p) s h)

  insert_at_below :
      (fuel : ℕ) (d : Side) (p q : Ptr) (t : Store)
      → side_of i (t.key n) (t.key p) ≡ d
      → child d t p ≡ q
      → q ≢ s
      → insert_at i s (suc fuel) p n t ≡ insert_at i s fuel q n t
  unfolding insert_at
  insert_at_below fuel d p q t e h ne = rw (e, h, ==_of_ne q s ne)

  attach-key : (d : Side) (p : Ptr) (t : Store) → (attach s d p n t).key ≡ t.key
  unfolding attach
  attach-key left p t = refl
  attach-key right p t = refl

  Hung_leaf :
      (fuel : ℕ) (d : Side) (c : Bool) (p : Ptr) (w : Tree) (k : Place) (t : Store)
      → side_of i (t.key n) (t.key p) ≡ d
      → Fresh leaf (under d c p w k)
      → IsAt s over t leaf (under d c p w k)
      → (t' : Store) × (insert_at i s (suc fuel) p n t ≡ some t')
        × IsAt s over t' (node true n leaf leaf) (under d c p w k)
        × (t'.key ≡ t.key)
  Hung_leaf fuel d c p w k t e fresh z = (
    attach s d p n t,
    insert_at_here fuel d p t e z.around.1,
    attach-IsAt s over n ns d c p w k t (omega arith) z,
    attach-key d p t,
  )

  side-goes_left : (v j : ℕ) → goes_left i v j ≡ true → side_of i v j ≡ left
  unfolding side_of
  side-goes_left v j e = rw e

  side-goes_right : (v j : ℕ) → goes_left i v j ≡ false → side_of i v j ≡ right
  unfolding side_of
  side-goes_right v j e = rw e

  Hung-below :
      (x : Tree) (fuel : ℕ) (d : Side) (c : Bool) (p : Ptr) (w : Tree) (k : Place) (t : Store)
      → side_of i (t.key n) (t.key p) ≡ d
      → height x ≤ fuel
      → Fresh x (under d c p w k)
      → IsAt s over t x (under d c p w k)
      → Hung (suc fuel) p t x (under d c p w k)
  unfolding height
  Hung-below leaf fuel d c p w k t e h fresh z =
      unfold descend in Hung_leaf fuel d c p w k t e fresh z
  Hung-below (node c' q l r) zero d c p w k t e h fresh z = absurd (omega arith)
  Hung-below (node c' q l r) (suc fuel) d c p w k t e h fresh z =
      let k' = under d c p w k in
      let run = insert_at_below (suc fuel) d p q t e z.around.1 z.holds.0 in
      elim (Bool-cases (goes_left i (t.key n) (t.key q))) [
        | inl b ↦
            rw (run, descend-left i t.key (t.key n) c' q l r k' b)
              (Hung-below l fuel left c' q r k' t (side-goes_left (t.key n) (t.key q) b)
                (omega arith) (omega arith) (down s over t left c' q l r k' z))
        | inr b ↦
            rw (run, descend-right i t.key (t.key n) c' q l r k' b)
              (Hung-below r fuel right c' q l k' t (side-goes_right (t.key n) (t.key q) b)
                (omega arith) (omega arith) (down s over t right c' q r l k' z))
      ]

  -- With fuel for the height of the tree the way down ends, and the new node hangs, red, where
  -- `descend` says.
  pub insert_at_Hung :
      (fuel : ℕ) (c : Bool) (p : Ptr) (l r : Tree) (k : Place) (t : Store)
      → height (node c p l r) ≤ fuel
      → Fresh (node c p l r) k
      → IsAt s over t (node c p l r) k
      → Hung fuel p t (node c p l r) k
  unfolding height
  insert_at_Hung zero c p l r k t h fresh z = absurd (omega arith)
  insert_at_Hung (suc fuel) c p l r k t h fresh z =
      elim (Bool-cases (goes_left i (t.key n) (t.key p))) [
        | inl b ↦ rw (descend-left i t.key (t.key n) c p l r k b) (
            Hung-below l fuel left c p r k t (side-goes_left (t.key n) (t.key p) b) (omega arith)
              (omega arith) (down s over t left c p l r k z))
        | inr b ↦ rw (descend-right i t.key (t.key n) c p l r k b) (
            Hung-below r fuel right c p l k t (side-goes_right (t.key n) (t.key p) b) (omega arith)
              (omega arith) (down s over t right c p r l k z))
      ]
