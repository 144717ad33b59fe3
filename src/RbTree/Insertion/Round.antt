-- ===== src/RbTree/Insertion/Round.antt =====
-- One round of the loop of `rbtree_insert`.
use mathlib.Core.Path.{subst}
use mtcp_lua.Base.{
  ap, ◌≡◌, ◌≢◌, refl, sym, ◌∙◌, Bool, true, false, arith, ◌==◌, if◌then◌else◌, ==_of_eq, ==_of_ne,
}
use mtcp_lua.RbTree.{
  Ptr, Side, left, right, opposite, Store, child, rotate, insert_round, parent_side,
}
use mtcp_lua.RbTree.Shape.{Tree, node, build, ptr, count, Place, under}
use mtcp_lua.RbTree.Frames.{open_build, ptr-build}
use mtcp_lua.RbTree.Links.{ne-ptr}
use mtcp_lua.RbTree.Focus.{
  IsAt, recolor, build-opposite, open_at, up, down, turn, recolor-IsAt, rotate-IsAt, is_red,
  red-ptr,
}

module _ (s over : Ptr) (t : Store) where
  -- The uncle is red: three changes of colour.
  pub recolored :
      (d d' : Side) (c : Bool) (p g q : Ptr) (x w a b : Tree) (k : Place)
      → IsAt s over t x (under d true p w (under d' c g (node true q a b) k))
      → IsAt s over
          (recolor g true (recolor q false (recolor p false t)))
          (build d' true g (build d false p x w) (node false q a b))
          k
  recolored d d' c p g q x w a b k z =
      let z1 =
        recolor-IsAt s over t d true false p x w (under d' c g (node true q a b) k)
          (up s over t d true p x w (under d' c g (node true q a b) k) z) in
      let t1 = recolor p false t in
      let p' = build d false p x w in
      let z2 = up s over t1 d' c g p' (node true q a b) k z1 in
      let z3 =
        turn s over t1 (build d' c g p' (node true q a b))
          (build (opposite d') c g (node true q a b) p') k
          (build-opposite d' c g p' (node true q a b)) z2 in
      let z4 = down s over t1 (opposite d') c g (node true q a b) p' k z3 in
      let z5 = recolor-IsAt s over t1 left true false q a b (under (opposite d') c g p' k) z4 in
      let t2 = recolor q false t1 in
      let z6 = up s over t2 (opposite d') c g (node false q a b) p' k z5 in
      let z7 =
        turn s over t2 (build (opposite d') c g (node false q a b) p')
          (build d' c g p' (node false q a b)) k (sym (build-opposite d' c g p' (node false q a b)))
          z6 in
      recolor-IsAt s over t2 d' c true g p' (node false q a b) k z7

  -- The last lines of the other branch: `m` takes the place of `g`.
  pub lifted :
      (d : Side) (c cm : Bool) (m g : Ptr) (a b u : Tree) (k : Place)
      → IsAt s over t (build d c g (build d cm m a b) u) k
      → let t' = rotate s (opposite d) g (recolor g true (recolor m false t)) in
        IsAt s over t' (build d false m a (build d true g b u)) k × (t'.key ≡ t.key)
  lifted d c cm m g a b u k z =
      let z1 = down s over t d c g (build d cm m a b) u k z in
      let z2 = recolor-IsAt s over t d cm false m a b (under d c g u k) z1 in
      let t1 = recolor m false t in
      let z3 = up s over t1 d c g (build d false m a b) u k z2 in
      let z4 = recolor-IsAt s over t1 d c true g (build d false m a b) u k z3 in
      let t2 = recolor g true t1 in
      let e =
        build-opposite d true g (build d false m a b) u
        ∙ ap (λ v. build (opposite d) true g u v) (build-opposite d false m a b) in
      let z5 =
        turn s over t2 (build d true g (build d false m a b) u)
          (build (opposite d) true g u (build (opposite d) false m b a)) k e z4 in
      let r = rotate-IsAt s over t2 (opposite d) true false g m u b a k z5 in
      let e' =
        build-opposite d false m a (build d true g b u)
        ∙ ap (λ v. build (opposite d) false m v a) (build-opposite d true g b u) in
      (
        turn s over (rotate s (opposite d) g t2)
            (build (opposite d) false m (build (opposite d) true g u b) a)
            (build d false m a (build d true g b u)) k (sym e') r.0,
        r.1,
      )

-- The routine's tests and assignments, at a place whose shape is known.
module _ (s over : Ptr) (t : Store) (d d' : Side) (c cp : Bool) (n p g : Ptr) (a b w u : Tree)
    (k : Place) where
  abbrev Here : Type 0
  Here = IsAt s over t (node true n a b) (under d cp p w (under d' c g u k))

  parents : Here → (t.parent n ≡ p) × (t.parent p ≡ g)
  parents z = (z.holds.1, z.around.4)

  pub parent_side-at : Here → parent_side n t ≡ d'
  unfolding parent_side
  parent_side-at z = rw ((parents z).0, (parents z).1) (go d' z.around.6.1 z.around.6.2)
    where
      out : count p u ≡ 0
      out = ground (arith, z.once p)

      go :
          (e : Side)
          → child e t g ≡ p
          → child (opposite e) t g ≡ ptr s u
          → (if p == t.lefts g then left else right) ≡ e
      go left h h' = rw (==_of_eq p (t.lefts g) (sym h))
      go right h h' = rw (==_of_ne p (t.lefts g) (λ r. ne-ptr s p u z.around.0 out (r ∙ h')))

module _ (s over : Ptr) (t : Store) (d d' : Side) (c : Bool) (n p g : Ptr) (a b w : Tree)
    (k : Place) where
  pub insert_round-recolored :
      (q : Ptr) (ua ub : Tree)
      → IsAt s over t (node true n a b) (under d true p w (under d' c g (node true q ua ub) k))
      → insert_round s d' n t ≡ (recolor g true (recolor q false (recolor p false t)), g)
  unfolding insert_round
  insert_round-recolored q ua ub z =
      let e = parents s over t d d' c true n p g a b w (node true q ua ub) k z in
      let r : t.red q ≡ true = z.around.6.5.4 in rw (e.0, e.1, z.around.6.2, r)

-- No rotation comes first: `node` is on the outer side.
module _ (s over : Ptr) (t : Store) (d : Side) (c : Bool) (n p g : Ptr) (a b w u : Tree)
    (k : Place) where
  pub insert_round-outer :
      IsAt s over t (node true n a b) (under d true p w (under d c g u k))
      → is_red u ≡ false
      → insert_round s d n t ≡ (rotate s (opposite d) g (recolor g true (recolor p false t)), n)
  unfolding insert_round
  insert_round-outer z black =
      let e = parents s over t d d c true n p g a b w u k z in
      let r = red-ptr s over t g u z.black z.around.6.5 ∙ black in
      let out : count n w ≡ 0 = ground (arith, z.once n) in
      let miss : n ≢ child (opposite d) t p = (λ q. ne-ptr s n w z.holds.0 out (q ∙ z.around.2)) in
      rw (e.0, e.1, z.around.6.2, r, ==_of_ne n (child (opposite d) t p) miss, e.0, e.1)

-- `node` is on the inner side and is rotated above its parent first.
module _ (s over : Ptr) (t : Store) (e : Side) (c : Bool) (n p g : Ptr) (a b w u : Tree)
    (k : Place) where
  abbrev Inner : Type 0
  Inner = IsAt s over t (build e true n a b) (under (opposite e) true p w (under e c g u k))

  pub inner_rotated :
      Inner
      → IsAt s over (rotate s e p t) (build e true n (build e true p w a) b) (under e c g u k)
        × ((rotate s e p t).key ≡ t.key)
  inner_rotated z =
      let x = build e true n a b in
      let z1 = up s over t (opposite e) true p x w (under e c g u k) z in
      rotate-IsAt s over t e true true p n w a b (under e c g u k) (
        turn s over t (build (opposite e) true p x w) (build e true p w x) (under e c g u k)
          (sym (build-opposite e true p w x)) z1)

  pub insert_round-inner :
      Inner
      → is_red u ≡ false
      → insert_round s e n t
        ≡ (rotate s (opposite e) g (recolor g true (recolor n false (rotate s e p t))), p)
  unfolding insert_round
  insert_round-inner z black =
      let t1 = rotate s e p t in
      let f : t.parent n ≡ p =
        (open_at s over t e true n a b (under (opposite e) true p w (under e c g u k)) z).1 in
      let f2 : t.parent p ≡ g = z.around.4 in
      let r = red-ptr s over t g u z.black z.around.6.5 ∙ black in
      let hit : n ≡ child (opposite e) t p =
        (let q = z.around.1 in
          sym (
            subst (λ y. child (opposite e) t p ≡ y) (ptr-build s e true n a b)
              (subst (λ y. child (opposite e) t p ≡ y) refl q))) in
      let z1 = (inner_rotated z).0 in
      let o = open_at s over t1 e true n (build e true p w a) b (under e c g u k) z1 in
      let o2 = open_build s t1 e n true p w a o.5 in
      rw (f, f2, z.around.6.2, r, ==_of_eq n (child (opposite e) t p) hit, o2.1, o.1)
