-- ===== src/RbTree/Deletion/Push.antt =====
-- The first half of a round of `rbtree_delete`: the sibling's turn and the push of the black.
use mtcp_lua.Base.{ap, ◌≡◌, refl, ◌∙◌, Bool, true, false, not, ◌&&◌, arith}
use mtcp_lua.RbTree.{
  Ptr, Side, left, right, opposite, Store, child, rotate, sibling, turn_sibling, raise_near,
  finish_round, push_black,
}
use mtcp_lua.RbTree.Shape.{Tree, build, ptr, Place, under}
use mtcp_lua.RbTree.Frames.{HoldsNode, open_build, ptr-build}
use mtcp_lua.RbTree.Focus.{IsAt, recolor, up, down, rotate-IsAt, is_red, red-ptr}
use mtcp_lua.RbTree.Deletion.Hangs.{
  Hangs, hang, recolor_sibling, recolor_parent, rotate_at-sentinel,
}

module _ (s over : Ptr) where
  -- The sibling is read from the memory.
  pub sibling-at :
      (t : Store) (x : Tree) (d : Side) (c : Bool) (p : Ptr) (w : Tree) (k : Place)
      → Hangs s over t x (under d c p w k)
      → sibling d (ptr s x) t ≡ ptr s w
  unfolding sibling
  sibling-at t x d c p w k z = rw z.link z.at.around.2

  -- The subtree at the sibling.
  pub sibling-node :
      (t : Store) (x : Tree) (d : Side) (c : Bool) (p : Ptr) (cq : Bool) (q : Ptr) (a b : Tree)
      (k : Place)
      → IsAt s over t x (under d c p (build d cq q a b) k)
      → HoldsNode s t d p cq q a b
  sibling-node t x d c p cq q a b k z = open_build s t d p cq q a b z.around.5

  -- The turn of a red sibling: `x` gets the sibling's near child as its sibling.
  pub turn_red :
      (t : Store) (x : Tree) (d : Side) (c : Bool) (p q : Ptr) (na fa : Tree) (k : Place)
      → Hangs s over t x (under d c p (build d true q na fa) k)
      → let t' = turn_sibling s d (ptr s x) t in
        Hangs s over t' x (under d true p na (under d false q fa k)) × (t'.key ≡ t.key)
  turn_red t x d c p q na fa k z = rw run (
    hang s over t t3 x (under d c p (build d true q na fa) k)
        (under d true p na (under d false q fa k)) z
        (down s over t3 d true p x na (under d false q fa k)
          (down s over t3 d false q (build d true p x na) fa k z3.0))
        refl (rotate_at-sentinel s over t2 d true false p q x na fa k z2'),
    z3.1,
  )
    where
      t1 : Store
      t1 = recolor q false t

      t2 : Store
      t2 = recolor p true t1

      t3 : Store
      t3 = rotate s d p t2

      z1 : IsAt s over t1 x (under d c p (build d false q na fa) k)
      z1 = recolor_sibling s over t x d c p d true false q na fa k z.at

      z2 : IsAt s over t2 x (under d true p (build d false q na fa) k)
      z2 = recolor_parent s over t1 x d c true p (build d false q na fa) k z1

      z2' : IsAt s over t2 (build d true p x (build d false q na fa)) k
      z2' = up s over t2 d true p x (build d false q na fa) k z2

      z3 : IsAt s over t3 (build d false q (build d true p x na) fa) k × (t3.key ≡ t2.key)
      z3 = rotate-IsAt s over t2 d true false p q x na fa k z2'

      run : turn_sibling s d (ptr s x) t ≡ t3
      run =
          go (sibling-at t x d c p (build d true q na fa) k z ∙ ptr-build s d true q na fa) z.link
            (sibling-node t x d c p true q na fa k z.at).4
        where
          go :
              sibling d (ptr s x) t ≡ q
              → t.parent (ptr s x) ≡ p
              → t.red q ≡ true
              → turn_sibling s d (ptr s x) t ≡ t3
          go e f r = unfold turn_sibling in rw (e, r, f)

  pub turn_black :
      (t : Store) (x : Tree) (d : Side) (c : Bool) (p : Ptr) (w : Tree) (k : Place)
      → Hangs s over t x (under d c p w k)
      → is_red w ≡ false
      → turn_sibling s d (ptr s x) t ≡ t
  unfolding turn_sibling
  turn_black t x d c p w k z b =
      rw (sibling-at t x d c p w k z, red-ptr s over t p w z.at.black z.at.around.5, b)

-- The test on the children of the sibling, in which the sides do not matter.
both_black :
    (t : Store) (d : Side) (q : Ptr)
    → t.red (child d t q) ≡ false
    → t.red (child (opposite d) t q) ≡ false
    → (not (t.red (t.lefts q)) && not (t.red (t.rights q))) ≡ true
both_black t left q a b = rw (a, b)
both_black t right q a b = rw (a, b)

far_red :
    (t : Store) (d : Side) (q : Ptr)
    → t.red (child (opposite d) t q) ≡ true
    → (not (t.red (t.lefts q)) && not (t.red (t.rights q))) ≡ false
far_red t left q b = ground arith
far_red t right q b = ground arith

near_red :
    (t : Store) (d : Side) (q : Ptr)
    → t.red (child d t q) ≡ true
    → (not (t.red (t.lefts q)) && not (t.red (t.rights q))) ≡ false
near_red t left q b = ground arith
near_red t right q b = ground arith

module _ (s over : Ptr) (t : Store) (x : Tree) (d : Side) (c : Bool) (p q : Ptr) (na fa : Tree)
    (k : Place) where
  -- The colours below the sibling.
  child_reds :
      IsAt s over t x (under d c p (build d false q na fa) k)
      → (t.red (child d t q) ≡ is_red na) × (t.red (child (opposite d) t q) ≡ is_red fa)
  child_reds z =
      let h = sibling-node s over t x d c p false q na fa k z in
      (
        ap t.red h.2 ∙ red-ptr s over t q na z.black h.5,
        ap t.red h.3 ∙ red-ptr s over t q fa z.black h.6,
      )

  -- Both children of the sibling are black: it turns red, and the parent is next.
  pub push_black-both :
      Hangs s over t x (under d c p (build d false q na fa) k)
      → is_red na ≡ false
      → is_red fa ≡ false
      → push_black s d (ptr s x) t ≡ (recolor q true t, p)
  unfolding push_black
  push_black-both z ra rb =
      let e =
        sibling-at s over t x d c p (build d false q na fa) k z ∙ ptr-build s d false q na fa in
      let r = child_reds z.at in rw (e, both_black t d q (r.0 ∙ ra) (r.1 ∙ rb), z.link)

  -- The far child of the sibling is red.
  raise_near-far :
      Hangs s over t x (under d c p (build d false q na fa) k)
      → is_red fa ≡ true
      → raise_near s d q t ≡ t
  unfolding raise_near
  raise_near-far z rb = rw ((child_reds z.at).1, rb)

  pub push_black-far :
      Hangs s over t x (under d c p (build d false q na fa) k)
      → is_red fa ≡ true
      → let t' = finish_round s d (ptr s x) q t in push_black s d (ptr s x) t ≡ (t', t'.root)
  unfolding push_black
  push_black-far z rb =
      let e =
        sibling-at s over t x d c p (build d false q na fa) k z ∙ ptr-build s d false q na fa in
      let r = child_reds z.at in rw (e, raise_near-far z rb, e, far_red t d q (r.1 ∙ rb))

  -- The near child of the sibling is red, and the far one is not.
  pub push_black-near :
      (m : Ptr)
      → Hangs s over t x (under d c p (build d false q na fa) k)
      → is_red na ≡ true
      → sibling d (ptr s x) (raise_near s d q t) ≡ m
      → let t' = finish_round s d (ptr s x) m (raise_near s d q t) in
        push_black s d (ptr s x) t ≡ (t', t'.root)
  unfolding push_black
  push_black-near m z ra e' =
      let e =
        sibling-at s over t x d c p (build d false q na fa) k z ∙ ptr-build s d false q na fa in
      let r = child_reds z.at in rw (e, e', near_red t d q (r.0 ∙ ra))
