-- ===== src/RbTree/Rotation.antt =====
-- A rotation of the memory is a rotation of the tree that it holds.
pub mod Turn
pub mod Shape
use mtcp_lua.Base.{
  ap, ℕ, ◌+◌, ◌≤◌, ◌<◌, ◌≡◌, ◌≢◌, refl, Bool, arith, ◌==◌, if◌then◌else◌, ==_of_eq, ==_of_ne,
}
use mathlib.Core.Path.{subst, sym, ◌∙◌}
use mtcp_lua.RbTree.{
  Ptr, Side, left, right, opposite, Store, child, set_child, set_parent, update, adopt,
  replace_link, rotate,
}
use mtcp_lua.RbTree.Shape.{
  Tree, leaf, node, build, ptr, count, Place, count_place, parent_at, Distinct, Holds, HoldsAt,
}
use mtcp_lua.RbTree.Frames.{Agree, Holds-frame, Holds-adopted, HoldsAt-frame}
use mtcp_lua.RbTree.Links.{
  link_at, link_at-parent, link_at-red, link_at-key, link_at-lefts, link_at-rights, ne-ptr,
  link_at-HoldsAt, replace_link-at,
}

pub adopt-parent :
    (s q p : Ptr) (t : Store) (r : Ptr) → r ≢ q → (adopt s q p t).parent r ≡ t.parent r
unfolding adopt
adopt-parent s q p t r h = ground arith

pub adopt-sentinel : (s q p : Ptr) (t : Store) → (adopt s q p t).parent s ≡ t.parent s
unfolding adopt
adopt-sentinel s q p t = ground arith

pub adopt_self : (s q p : Ptr) (t : Store) → q ≢ s → (adopt s q p t).parent q ≡ p
unfolding adopt
adopt_self s q p t h = ground arith

-- `adopt` writes only parents.
pub adopt_rest :
    (s q p : Ptr) (t : Store)
    → let u = adopt s q p t in
      (u.root ≡ t.root)
      × (u.key ≡ t.key)
      × (u.lefts ≡ t.lefts)
      × (u.rights ≡ t.rights)
      × (u.red ≡ t.red)
unfolding adopt
adopt_rest s q p t = ground arith

-- The rotated memory, with the tests of the code decided.
module _ (s over : Ptr) (d : Side) (x y q : Ptr) (k : Place) (t : Store) where
  pub before_link : Store
  before_link = set_parent y (parent_at over k) (adopt s q x (set_child (opposite d) x q t))

  pub rotated : Store
  unfolding before_link
  rotated = set_parent x y (set_child d y x (link_at k y before_link))

-- An address that does not occur in a tree keeps its parent when the tree is adopted.
pub adopt_outside :
    (s p : Ptr) (b : Tree) (t : Store) (r : Ptr)
    → count r b ≡ 0
    → (adopt s (ptr s b) p t).parent r ≡ t.parent r
unfolding adopt
adopt_outside s p leaf t r h = ground arith
adopt_outside s p (node c q l e) t r h = ground arith

-- The fields of the rotated memory.
module _ (s over : Ptr) (x y q : Ptr) (k : Place) (t : Store) where
  pub rotated-red : (d : Side) → (rotated s over d x y q k t).red ≡ t.red
  unfolding rotated before_link
  rotated-red left = link_at-red k y _ ∙ (adopt_rest s q x (set_child right x q t)).4
  rotated-red right = link_at-red k y _ ∙ (adopt_rest s q x (set_child left x q t)).4

  pub rotated-key : (d : Side) → (rotated s over d x y q k t).key ≡ t.key
  unfolding rotated before_link
  rotated-key left = link_at-key k y _ ∙ (adopt_rest s q x (set_child right x q t)).1
  rotated-key right = link_at-key k y _ ∙ (adopt_rest s q x (set_child left x q t)).1

  pub rotated-parent :
      (d : Side) (p : Ptr)
      → (rotated s over d x y q k t).parent p ≡ (
          if p == x
          then y
          else if p == y
          then parent_at over k
          else (adopt s q x (set_child (opposite d) x q t)).parent p)
  unfolding rotated before_link
  rotated-parent left p = rw link_at-parent
  rotated-parent right p = rw link_at-parent

  -- The field on side `d` changes at `y`, the other field at `x`.
  pub rotated-child :
      (d : Side) (p : Ptr)
      → count_place p k ≡ 0
      → (child d (rotated s over d x y q k t) p ≡ (if p == y then x else child d t p))
        × (child (opposite d) (rotated s over d x y q k t) p
            ≡ (if p == x then q else child (opposite d) t p))
  unfolding rotated before_link
  rotated-child left p h =
      let r = adopt_rest s q x (set_child right x q t) in
      let b = before_link s over left x y q k t in
      (rw (link_at-lefts k y b p h, r.2), rw (link_at-rights k y b p h, r.3))
  rotated-child right p h =
      let r = adopt_rest s q x (set_child left x q t) in
      let b = before_link s over right x y q k t in
      (rw (link_at-rights k y b p h, r.3), rw (link_at-lefts k y b p h, r.2))

module _ (s over : Ptr) (x y : Ptr) (b : Tree) (k : Place) (t : Store) where
  pub before_link-HoldsAt :
      (d : Side)
      → count_place x k ≡ 0
      → count_place y k ≡ 0
      → ((p : Ptr) → count p b + count_place p k ≤ 1)
      → HoldsAt s over t x k
      → HoldsAt s over (before_link s over d x y (ptr s b) k t) x k
  unfolding before_link
  before_link-HoldsAt d nx ny once hk =
      HoldsAt-frame s t (before_link s over d x y (ptr s b) k t) over x k (spare d) (root d) hk
    where
      root : (d : Side) → (before_link s over d x y (ptr s b) k t).root ≡ t.root
      root left = (adopt_rest s (ptr s b) x (set_child right x (ptr s b) t)).0
      root right = (adopt_rest s (ptr s b) x (set_child left x (ptr s b) t)).0

      spare :
          (d : Side) (p : Ptr)
          → 0 < count_place p k
          → Agree t (before_link s over d x y (ptr s b) k t) p
      spare left p i =
          let u = set_child right x (ptr s b) t in
          let r = adopt_rest s (ptr s b) x u in
          let px : p ≢ x = (λ e. ground arith) in
          let py : p ≢ y = (λ e. ground arith) in
          let o = adopt_outside s x b u p (omega (arith, once p)) in
          record {
            lefts = ground (arith, r.2);
            rights = ap (λ (f : Ptr → Ptr). f p) r.3 ∙ ground arith;
            parent = ground arith;
            red = ap (λ (f : Ptr → Bool). f p) r.4;
          }
      spare right p i =
          let u = set_child left x (ptr s b) t in
          let r = adopt_rest s (ptr s b) x u in
          let px : p ≢ x = (λ e. ground arith) in
          let py : p ≢ y = (λ e. ground arith) in
          let o = adopt_outside s x b u p (omega (arith, once p)) in
          record {
            lefts = ap (λ (f : Ptr → Ptr). f p) r.2 ∙ ground arith;
            rights = ap (λ (f : Ptr → Ptr). f p) r.3;
            parent = ground arith;
            red = ap (λ (f : Ptr → Bool). f p) r.4;
          }

  pub rotate-rotated :
      (d : Side)
      → x ≢ s
      → x ≢ y
      → x ≢ ptr s b
      → count_place x k ≡ 0
      → count_place y k ≡ 0
      → ((p : Ptr) → count p b + count_place p k ≤ 1)
      → t.parent x ≡ parent_at over k
      → child (opposite d) t x ≡ y
      → child d t y ≡ ptr s b
      → HoldsAt s over t x k
      → rotate s d x t ≡ rotated s over d x y (ptr s b) k t
  unfolding rotated rotate before_link
  rotate-rotated left ns ne nb nx ny once e0 e1 e2 hk =
      let e3 = adopt-parent s (ptr s b) x (set_child right x (ptr s b) t) x nb ∙ e0 in
      let e4 =
        replace_link-at s over x y k (before_link s over left x y (ptr s b) k t) ns nx
          (ground arith) (before_link-HoldsAt left nx ny once hk) in
      rw (e1, e2, e3, e4)
  rotate-rotated right ns ne nb nx ny once e0 e1 e2 hk =
      let e3 = adopt-parent s (ptr s b) x (set_child left x (ptr s b) t) x nb ∙ e0 in
      let e4 =
        replace_link-at s over x y k (before_link s over right x y (ptr s b) k t) ns nx
          (ground arith) (before_link-HoldsAt right nx ny once hk) in
      rw (e1, e2, e3, e4)
