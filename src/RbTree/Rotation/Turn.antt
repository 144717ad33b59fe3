-- ===== src/RbTree/Rotation/Turn.antt =====
-- What a rotation changes in the memory, and what it spares.
use mtcp_lua.Base.{ap, ◌+◌, ◌≤◌, ◌<◌, ◌≡◌, ◌≢◌, refl, Bool, arith, ◌==◌}
use mtcp_lua.RbTree.{Ptr, Side, left, right, opposite, Store, child, set_child, rotate}
use mtcp_lua.RbTree.Shape.{
  Tree, build, ptr, one_if, count, Place, count_place, parent_at, Distinct, HoldsAt,
}
use mtcp_lua.RbTree.Frames.{count-build, Agree, HoldsAt-frame}
use mtcp_lua.RbTree.Links.{link_at, link_at-HoldsAt}
use mtcp_lua.RbTree.Rotation.{
  before_link, rotated, rotated-red, rotated-key, rotated-parent, rotated-child,
  before_link-HoldsAt, rotate-rotated, adopt_outside,
}

module _ (s over : Ptr) (x y : Ptr) (b : Tree) (k : Place) (t : Store) where
  -- The result, for `b` the tree that changes its parent.
  unfoldable pub after : Side → Store
  after d = rotated s over d x y (ptr s b) k t

  pub after-red : (d : Side) → (after d).red ≡ t.red
  unfolding after
  after-red d = rotated-red s over x y (ptr s b) k t d

  pub after-key : (d : Side) → (after d).key ≡ t.key
  unfolding after
  after-key d = rotated-key s over x y (ptr s b) k t d

  pub rotate-after :
      (d : Side)
      → x ≢ s
      → x ≢ y
      → x ≢ ptr s b
      → count_place x k ≡ 0
      → count_place y k ≡ 0
      → ((p : Ptr) → count p b + count_place p k ≤ 1)
      → t.parent x ≡ parent_at over k
      → child (opposite d) t x ≡ y
      → child d t y ≡ ptr s b
      → HoldsAt s over t x k
      → rotate s d x t ≡ after d
  unfolding after
  rotate-after = rotate-rotated s over x y b k t

  pub spare :
      (d : Side) (p : Ptr)
      → p ≢ x
      → p ≢ y
      → count_place p k ≡ 0
      → (child left (after d) p ≡ child left t p)
        × (child right (after d) p ≡ child right t p)
        × ((after d).red p ≡ t.red p)
  unfolding after
  spare left p nx ny out =
      let c = rotated-child s over x y (ptr s b) k t left p out in
      let r = ap (λ (f : Ptr → Bool). f p) (rotated-red s over x y (ptr s b) k t left) in
      (ground arith, ground arith, r)
  spare right p nx ny out =
      let c = rotated-child s over x y (ptr s b) k t right p out in
      let r = ap (λ (f : Ptr → Bool). f p) (rotated-red s over x y (ptr s b) k t right) in
      (ground arith, ground arith, r)

  spare-parent :
      (d : Side) (p : Ptr) → p ≢ x → p ≢ y → count p b ≡ 0 → (after d).parent p ≡ t.parent p
  unfolding after
  spare-parent left p nx ny out = ground (
    arith,
    rotated-parent s over x y (ptr s b) k t left p,
    adopt_outside s x b (set_child right x (ptr s b) t) p out,
  )
  spare-parent right p nx ny out = ground (
    arith,
    rotated-parent s over x y (ptr s b) k t right p,
    adopt_outside s x b (set_child left x (ptr s b) t) p out,
  )

  pub spare-Agree :
      (d : Side) (p : Ptr)
      → p ≢ x
      → p ≢ y
      → count_place p k ≡ 0
      → count p b ≡ 0
      → Agree t (after d) p
  spare-Agree d p nx ny out outb =
      let c = spare d p nx ny out in
      record { lefts = c.0; rights = c.1; red = c.2; parent = spare-parent d p nx ny outb }

  pub after-HoldsAt :
      (d : Side)
      → count_place x k ≡ 0
      → count_place y k ≡ 0
      → ((p : Ptr) → count p b + count_place p k ≤ 1)
      → HoldsAt s over t x k
      → HoldsAt s over (after d) y k
  unfolding after rotated
  after-HoldsAt d nx ny once hk =
      let bl = before_link s over d x y (ptr s b) k t in
      let low =
        link_at-HoldsAt s over x y k bl (λ p. omega (arith, once p))
          (before_link-HoldsAt s over x y b k t d nx ny once hk) in
      HoldsAt-frame s (link_at k y bl) (after d) over y k (keep d) (root d) low
    where
      root :
          (d : Side) → (after d).root ≡ (link_at k y (before_link s over d x y (ptr s b) k t)).root
      root left = refl
      root right = refl

      keep :
          (d : Side) (p : Ptr)
          → 0 < count_place p k
          → Agree (link_at k y (before_link s over d x y (ptr s b) k t)) (after d) p
      keep left p i =
          let px : p ≢ x = (λ e. ground arith) in
          let py : p ≢ y = (λ e. ground arith) in
          record { lefts = ground arith; rights = refl; parent = ground arith; red = refl }
      keep right p i =
          let px : p ≢ x = (λ e. ground arith) in
          let py : p ≢ y = (λ e. ground arith) in
          record { lefts = refl; rights = ground arith; parent = ground arith; red = refl }

-- What distinctness says of the nodes of a rotation.
pub record Apart (x y : Ptr) (a b e : Tree) (k : Place) : Type 0 where
  pub xy : x ≢ y
  pub xa : count x a ≡ 0
  pub xb : count x b ≡ 0
  pub xe : count x e ≡ 0
  pub xk : count_place x k ≡ 0
  pub ya : count y a ≡ 0
  pub yb : count y b ≡ 0
  pub ye : count y e ≡ 0
  pub yk : count_place y k ≡ 0
  pub all : (p : Ptr) → count p a + count p b + count p e + count_place p k ≤ 1

Apart-numbers :
    (x y : Ptr) (a b e : Tree) (k : Place)
    → ((p : Ptr)
        → one_if (p == x) + count p a + (one_if (p == y) + count p b + count p e) + count_place p k
          ≤ 1)
    → Apart x y a b e k
Apart-numbers x y a b e k once = record {
  xy = λ q. ground (arith, once x);
  xa = ground (arith, once x);
  xb = ground (arith, once x);
  xe = ground (arith, once x);
  xk = ground (arith, once x);
  ya = ground (arith, once y);
  yb = ground (arith, once y);
  ye = ground (arith, once y);
  yk = ground (arith, once y);
  all = λ p. omega (arith, once p);
}

pub Apart-Distinct :
    (d : Side) (cx cy : Bool) (x y : Ptr) (a b e : Tree) (k : Place)
    → Distinct (build d cx x a (build d cy y b e)) k
    → Apart x y a b e k
Apart-Distinct d cx cy x y a b e k once =
    Apart-numbers x y a b e k λ p.
      omega (arith, once p, count-build d cx x a (build d cy y b e) p, count-build d cy y b e p)

pub ne_of_count : (p q : Ptr) (a : Tree) → 0 < count p a → count q a ≡ 0 → p ≢ q
ne_of_count p q a i z = λ e. ground arith
