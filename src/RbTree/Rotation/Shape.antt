-- ===== src/RbTree/Rotation/Shape.antt =====
-- `rbtree_left_rotate` and `rbtree_right_rotate` against the rotation of a tree at a place.
use mathlib.Core.Path.{sym, ◌∙◌}
use mtcp_lua.Base.{ap, ◌<◌, ◌≡◌, ◌≢◌, refl, Bool, arith, ==_of_eq, ==_of_ne}
use mtcp_lua.RbTree.{Ptr, Side, left, right, opposite, Store, child, set_child, rotate}
use mtcp_lua.RbTree.Shape.{
  Tree, build, ptr, count, Place, count_place, parent_at, Distinct, Holds, HoldsAt,
}
use mtcp_lua.RbTree.Frames.{
  HoldsNode, open_build, close_build, ptr-build, Agree, Holds-frame, Holds-adopted,
}
use mtcp_lua.RbTree.Links.{ne-ptr}
use mtcp_lua.RbTree.Rotation.{
  rotated-parent, rotated-child, adopt_self, adopt-parent, adopt-sentinel,
}
use mtcp_lua.RbTree.Rotation.Turn.{
  after, after-red, after-key, rotate-after, spare, spare-Agree, after-HoldsAt, Apart,
  Apart-Distinct, ne_of_count,
}

module _ (s over : Ptr) (x y : Ptr) (b : Tree) (k : Place) (t : Store) (d : Side) where
  abbrev u : Store
  u = after s over x y b k t d

  -- The two nodes of the rotation, and the parent of what changes its parent.
  after-parents :
      x ≢ s
      → y ≢ s
      → x ≢ y
      → count x b ≡ 0
      → count y b ≡ 0
      → (u.parent x ≡ y) × (u.parent y ≡ parent_at over k) × (ptr s b ≢ s → u.parent (ptr s b) ≡ x)
  unfolding after
  after-parents sx sy xy xb yb = (
    ground (arith, rotated-parent s over x y q k t d x),
    ground (arith, rotated-parent s over x y q k t d y),
    λ ne.
        let nx = ne-ptr s x b sx xb in
        let ny = ne-ptr s y b sy yb in
        ground (
          arith,
          rotated-parent s over x y q k t d q,
          adopt_self s q x (set_child (opposite d) x q t) ne,
        ),
  )
    where
      q : Ptr
      q = ptr s b

  after-children :
      x ≢ y
      → count_place x k ≡ 0
      → count_place y k ≡ 0
      → (child d u x ≡ child d t x)
        × (child (opposite d) u x ≡ ptr s b)
        × (child d u y ≡ x)
        × (child (opposite d) u y ≡ child (opposite d) t y)
  unfolding after
  after-children xy xk yk =
      let cx = rotated-child s over x y (ptr s b) k t d x xk in
      let cy = rotated-child s over x y (ptr s b) k t d y yk in
      (
        cx.0 ∙ rw (==_of_ne x y xy),
        cx.1 ∙ rw (==_of_eq x x refl),
        cy.0 ∙ rw (==_of_eq y y refl),
        cy.1 ∙ rw (==_of_ne y x (λ e. xy (sym e))),
      )

  -- The sentinel's parent is not written.
  after-parent_sentinel : x ≢ s → y ≢ s → u.parent s ≡ t.parent s
  unfolding after
  after-parent_sentinel nx ny = ground (
    arith,
    rotated-parent s over x y (ptr s b) k t d s,
    adopt-sentinel s (ptr s b) x (set_child (opposite d) x (ptr s b) t),
    set_child-parent d,
  )
    where
      set_child-parent : (d : Side) → (set_child (opposite d) x (ptr s b) t).parent s ≡ t.parent s
      set_child-parent left = refl
      set_child-parent right = refl

  after-parent_inside : (p : Ptr) → p ≢ x → p ≢ y → p ≢ ptr s b → u.parent p ≡ t.parent p
  unfolding after
  after-parent_inside p nx ny nq = ground (
    arith,
    rotated-parent s over x y (ptr s b) k t d p,
    adopt-parent s (ptr s b) x (set_child (opposite d) x (ptr s b) t) p nq,
    set_child-parent d p,
  )
    where
      set_child-parent :
          (d : Side) (p : Ptr) → (set_child (opposite d) x (ptr s b) t).parent p ≡ t.parent p
      set_child-parent left p = refl
      set_child-parent right p = refl

module _ (s over : Ptr) (cx cy : Bool) (x y : Ptr) (a b e : Tree) (k : Place) (t : Store) where
  rotated-Holds :
      (d : Side)
      → Apart x y a b e k
      → HoldsNode s t d (parent_at over k) cx x a (build d cy y b e)
      → HoldsNode s t d x cy y b e
      → Holds s (after s over x y b k t d) (parent_at over k) (build d cy y (build d cx x a b) e)
  rotated-Holds d apart hx hy = close_build s v d (parent_at over k) cy y (build d cx x a b) e (
    hy.0,
    ps.1,
    cs.2 ∙ sym (ptr-build s d cx x a b),
    cs.3 ∙ hy.3,
    red y ∙ hy.4,
    close_build s v d y cx x a b (hx.0, ps.0, cs.0 ∙ hx.2, cs.1, red x ∙ hx.4, ha, hb),
    he,
  )
    where
      v : Store
      v = after s over x y b k t d

      ps :
          (v.parent x ≡ y)
          × (v.parent y ≡ parent_at over k)
          × (ptr s b ≢ s → v.parent (ptr s b) ≡ x)
      ps = after-parents s over x y b k t d hx.0 hy.0 apart.xy apart.xb apart.yb

      cs :
          (child d v x ≡ child d t x)
          × (child (opposite d) v x ≡ ptr s b)
          × (child d v y ≡ x)
          × (child (opposite d) v y ≡ child (opposite d) t y)
      cs = after-children s over x y b k t d apart.xy apart.xk apart.yk

      red : (p : Ptr) → v.red p ≡ t.red p
      red p = ap (λ (f : Ptr → Bool). f p) (after-red s over x y b k t d)

      other :
          (p : Ptr) (z : Tree)
          → 0 < count p z
          → count x z ≡ 0
          → count y z ≡ 0
          → count_place p k ≡ 0
          → count p b ≡ 0
          → Agree t v p
      other p z i zx zy =
          spare-Agree s over x y b k t d p (ne_of_count p x z i zx) (ne_of_count p y z i zy)

      ha : Holds s v x a
      ha =
          Holds-frame s t v x a
            (λ p i.
              other p a i apart.xa apart.ya (omega (arith, apart.all p))
                (omega (arith, apart.all p)))
            hx.5

      he : Holds s v y e
      he =
          Holds-frame s t v y e
            (λ p i.
              other p e i apart.xe apart.ye (omega (arith, apart.all p))
                (omega (arith, apart.all p)))
            hy.6

      hb : Holds s v x b
      hb =
          Holds-adopted s t v y x b (λ p. omega (arith, apart.all p)) ps.2
            (λ p i.
              spare s over x y b k t d p (ne_of_count p x b i apart.xb)
                (ne_of_count p y b i apart.yb) (omega (arith, apart.all p)))
            (λ p i ne.
              after-parent_inside s over x y b k t d p (ne_of_count p x b i apart.xb)
                (ne_of_count p y b i apart.yb) ne)
            hy.5

  -- The rotation towards side `d` lifts the child on the other side. The tree at the place is
  -- rotated, its surroundings stay, and so do all colours and keys.
  pub rotate_lem :
      (d : Side)
      → Distinct (build d cx x a (build d cy y b e)) k
      → Holds s t (parent_at over k) (build d cx x a (build d cy y b e))
      → HoldsAt s over t x k
      → let v = rotate s d x t in
        Holds s v (parent_at over k) (build d cy y (build d cx x a b) e)
        × HoldsAt s over v y k
        × (v.red ≡ t.red)
        × (v.key ≡ t.key)
  rotate_lem d once h hk = rw same (
    rotated-Holds d apart hx hy,
    after-HoldsAt s over x y b k t d apart.xk apart.yk (λ p. omega (arith, apart.all p)) hk,
    after-red s over x y b k t d,
    after-key s over x y b k t d,
  )
    where
      apart : Apart x y a b e k
      apart = Apart-Distinct d cx cy x y a b e k once

      hx : HoldsNode s t d (parent_at over k) cx x a (build d cy y b e)
      hx = open_build s t d (parent_at over k) cx x a (build d cy y b e) h

      hy : HoldsNode s t d x cy y b e
      hy = open_build s t d x cy y b e hx.6

      same : rotate s d x t ≡ after s over x y b k t d
      same =
          rotate-after s over x y b k t d hx.0 apart.xy (ne-ptr s x b hx.0 apart.xb) apart.xk
            apart.yk (λ p. omega (arith, apart.all p)) hx.1 (hx.3 ∙ ptr-build s d cy y b e) hy.2 hk

  pub rotate-sentinel :
      (d : Side)
      → Distinct (build d cx x a (build d cy y b e)) k
      → Holds s t (parent_at over k) (build d cx x a (build d cy y b e))
      → HoldsAt s over t x k
      → (rotate s d x t).parent s ≡ t.parent s
  rotate-sentinel d once h hk =
      ap (λ (w : Store). w.parent s) same ∙ after-parent_sentinel s over x y b k t d hx.0 hy.0
    where
      apart : Apart x y a b e k
      apart = Apart-Distinct d cx cy x y a b e k once

      hx : HoldsNode s t d (parent_at over k) cx x a (build d cy y b e)
      hx = open_build s t d (parent_at over k) cx x a (build d cy y b e) h

      hy : HoldsNode s t d x cy y b e
      hy = open_build s t d x cy y b e hx.6

      same : rotate s d x t ≡ after s over x y b k t d
      same =
          rotate-after s over x y b k t d hx.0 apart.xy (ne-ptr s x b hx.0 apart.xb) apart.xk
            apart.yk (λ p. omega (arith, apart.all p)) hx.1 (hx.3 ∙ ptr-build s d cy y b e) hy.2 hk
