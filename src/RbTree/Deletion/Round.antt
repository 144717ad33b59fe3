-- ===== src/RbTree/Deletion/Round.antt =====
-- One round of the loop of `rbtree_delete`.
use mathlib.Core.Path.{subst}
use mtcp_lua.Base.{ap, ◌≡◌, refl, sym, ◌∙◌, Bool, true, false}
use mtcp_lua.RbTree.{
  Ptr, Side, left, right, opposite, Store, child, rotate, raise_near, finish_round,
}
use mtcp_lua.RbTree.Shape.{Tree, build, ptr, Place, under}
use mtcp_lua.RbTree.Frames.{HoldsNode, ptr-build}
use mtcp_lua.RbTree.Focus.{
  IsAt, recolor, build-opposite, up, down, turn, recolor-IsAt, rotate-IsAt, is_red, red-ptr,
}
use mtcp_lua.RbTree.Deletion.Hangs.{Hangs, hang, recolor_sibling, recolor_parent, rotate_sibling}
use mtcp_lua.RbTree.Deletion.Push.{sibling-node}

-- The sibling and its far child read from the other side.
mirror :
    (s : Ptr) (d : Side) (cq cr : Bool) (q r : Ptr) (na ra rb : Tree)
    → build d cq q na (build d cr r ra rb)
      ≡ build (opposite d) cq q (build (opposite d) cr r rb ra) na
mirror s left cq cr q r na ra rb = refl
mirror s right cq cr q r na ra rb = refl

-- The assignments of the last lines, at known addresses.
finish_round_lem :
    (s : Ptr) (d : Side) (temp q p r : Ptr) (c : Bool) (t : Store)
    → t.parent temp ≡ p
    → t.red p ≡ c
    → child (opposite d) t q ≡ r
    → finish_round s d temp q t ≡ rotate s d p (recolor r false (recolor p false (recolor q c t)))
unfolding finish_round
finish_round_lem s left temp q p r c t e f g = rw (e, f, g)
finish_round_lem s right temp q p r c t e f g = rw (e, f, g)

-- Likewise for the rotation of the sibling.
raise_near_lem :
    (s : Ptr) (d : Side) (q m : Ptr) (t : Store)
    → t.red (child (opposite d) t q) ≡ false
    → child d t q ≡ m
    → raise_near s d q t ≡ rotate s (opposite d) q (recolor q true (recolor m false t))
unfolding raise_near
raise_near_lem s left q m t e f = rw (e, f)
raise_near_lem s right q m t e f = rw (e, f)

module _ (s over : Ptr) (t : Store) (x : Tree) (d : Side) (c : Bool) (p q : Ptr) (k : Place) where
  -- A colour two steps below the place's parent, on either side of the sibling.
  recolor_nephew :
      (e : Side) (cq cr cr' : Bool) (r : Ptr) (a b w : Tree)
      → IsAt s over t x (under d c p (build e cq q (build e cr r a b) w) k)
      → IsAt s over (recolor r cr' t) x (under d c p (build e cq q (build e cr' r a b) w) k)
  recolor_nephew e cq cr cr' r a b w z =
      let f = build e cr r a b in
      let f' = build e cr' r a b in
      let y = build e cq q f w in
      let y' = build e cq q f' w in
      let u = recolor r cr' t in
      let above = under (opposite d) c p x k in
      let z1 =
        turn s over t (build d c p x y) (build (opposite d) c p y x) k (build-opposite d c p x y)
          (up s over t d c p x y k z) in
      let z2 = down s over t e cq q f w above (down s over t (opposite d) c p y x k z1) in
      let z3 = recolor-IsAt s over t e cr cr' r a b (under e cq q w above) z2 in
      let z4 = up s over u (opposite d) c p y' x k (up s over u e cq q f' w above z3) in
      down s over u d c p x y' k (
        turn s over u (build (opposite d) c p y' x) (build d c p x y') k
          (sym (build-opposite d c p x y')) z4)

module _ (s over : Ptr) (t : Store) (x : Tree) (d : Side) (c : Bool) (p q : Ptr) (k : Place) where
  -- The last lines of the round, with a red far child `r` of the sibling `q`.
  pub finish_round-IsAt :
      (r : Ptr) (na ra rb : Tree)
      → Hangs s over t x (under d c p (build d false q na (build d true r ra rb)) k)
      → let t' = finish_round s d (ptr s x) q t in
        IsAt s over t' (build d c q (build d false p x na) (build d false r ra rb)) k
        × (t'.key ≡ t.key)
  finish_round-IsAt r na ra rb z = rw run (z4'.0, z4'.1)
    where
      o : Side
      o = opposite d

      fa : Tree
      fa = build d true r ra rb

      t1 : Store
      t1 = recolor q c t

      t2 : Store
      t2 = recolor p false t1

      t3 : Store
      t3 = recolor r false t2

      z1 : IsAt s over t1 x (under d c p (build d c q na fa) k)
      z1 = recolor_sibling s over t x d c p d false c q na fa k z.at

      z2 : IsAt s over t2 x (under d false p (build d c q na fa) k)
      z2 = recolor_parent s over t1 x d c false p (build d c q na fa) k z1

      z3 : IsAt s over t3 x (under d false p (build d c q na (build d false r ra rb)) k)
      z3 =
          subst (λ w. IsAt s over t3 x (under d false p w k))
            (sym (mirror s d c false q r na ra rb))
            (recolor_nephew s over t2 x d false p q k o c true false r rb ra na (
              subst (λ w. IsAt s over t2 x (under d false p w k)) (mirror s d c true q r na ra rb)
                z2))

      z4 : IsAt s over t3 (build d false p x (build d c q na (build d false r ra rb))) k
      z4 = up s over t3 d false p x (build d c q na (build d false r ra rb)) k z3

      z4' :
          IsAt s over
            (rotate s d p t3)
            (build d c q (build d false p x na) (build d false r ra rb))
            k
          × ((rotate s d p t3).key ≡ t3.key)
      z4' = rotate-IsAt s over t3 d false c p q x na (build d false r ra rb) k z4

      run : finish_round s d (ptr s x) q t ≡ rotate s d p t3
      run =
          finish_round_lem s d (ptr s x) q p r c t z.link z.at.around.3
            ((sibling-node s over t x d c p false q na fa k z.at).3 ∙ ptr-build s d true r ra rb)

  -- A red near child `m` of the sibling takes its place, with the old sibling as red far child.
  pub raise_near-at :
      (m : Ptr) (ma mb fa : Tree)
      → Hangs s over t x (under d c p (build d false q (build d true m ma mb) fa) k)
      → is_red fa ≡ false
      → let t' = raise_near s d q t in
        Hangs s over t' x (under d c p (build d false m ma (build d true q mb fa)) k)
        × (t'.key ≡ t.key)
  raise_near-at m ma mb fa z rb = rw run (
    hang s over t t3 x (under d c p (build d false q (build d true m ma mb) fa) k)
        (under d c p (build d false m ma (build d true q mb fa)) k) z
        (subst (λ w. IsAt s over t3 x (under d c p w k)) (sym (mirror s d false true m q ma mb fa))
          z3.0)
        refl z3.2,
    z3.1,
  )
    where
      o : Side
      o = opposite d

      na : Tree
      na = build d true m ma mb

      t1 : Store
      t1 = recolor m false t

      t2 : Store
      t2 = recolor q true t1

      t3 : Store
      t3 = rotate s o q t2

      z1 : IsAt s over t1 x (under d c p (build d false q (build d false m ma mb) fa) k)
      z1 = recolor_nephew s over t x d c p q k d false true false m ma mb fa z.at

      z2 : IsAt s over t2 x (under d c p (build d true q (build d false m ma mb) fa) k)
      z2 = recolor_sibling s over t1 x d c p d false true q (build d false m ma mb) fa k z1

      e : build d true q (build d false m ma mb) fa ≡ build o true q fa (build o false m mb ma)
      e =
          build-opposite d true q (build d false m ma mb) fa
          ∙ ap (λ v. build o true q fa v) (build-opposite d false m ma mb)

      z3 :
          IsAt s over t3 x (under d c p (build o false m (build o true q fa mb) ma) k)
          × (t3.key ≡ t2.key)
          × (t3.parent s ≡ t2.parent s)
      z3 =
          rotate_sibling s over t2 x d c p o true false q m fa mb ma k
            (subst (λ w. IsAt s over t2 x (under d c p w k)) e z2)

      h : HoldsNode s t d p false q na fa
      h = sibling-node s over t x d c p false q na fa k z.at

      run : raise_near s d q t ≡ t3
      run =
          raise_near_lem s d q m t (ap t.red h.3 ∙ red-ptr s over t q fa z.at.black h.6 ∙ rb)
            (h.2 ∙ ptr-build s d true m ma mb)
