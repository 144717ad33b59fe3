-- ===== src/RbTree/Deletion/Hangs.antt =====
-- A place whose tree may be empty: the sentinel's parent leads up all the same.
use mathlib.Core.Path.{subst}
use mtcp_lua.Base.{ap, ◌≡◌, sym, ◌∙◌, Bool}
use mtcp_lua.RbTree.{Ptr, Side, opposite, Store, rotate}
use mtcp_lua.RbTree.Shape.{Tree, leaf, node, build, ptr, Place, under, parent_at, HoldsAt}
use mtcp_lua.RbTree.Frames.{ptr-build}
use mtcp_lua.RbTree.Focus.{
  IsAt, recolor, build-opposite, open_at, up, down, turn, recolor-IsAt, rotate-IsAt,
}
use mtcp_lua.RbTree.Rotation.Shape.{rotate-sentinel}

-- `x` is at the place, and its address leads up.
pub record Hangs (s over : Ptr) (t : Store) (x : Tree) (k : Place) : Type 0 where
  pub at : IsAt s over t x k
  pub link : t.parent (ptr s x) ≡ parent_at over k

module _ (s over : Ptr) where
  -- Only the sentinel's parent has to be watched.
  pub hang :
      (t u : Store) (x : Tree) (k k' : Place)
      → Hangs s over t x k
      → IsAt s over u x k'
      → parent_at over k ≡ parent_at over k'
      → u.parent s ≡ t.parent s
      → Hangs s over u x k'
  hang t u leaf k k' z at e same = record { at = at; link = same ∙ z.link ∙ e }
  hang t u (node c p l r) k k' z at e same = record { at = at; link = at.holds.1 }

  pub hang_node :
      (t : Store) (d : Side) (c : Bool) (p : Ptr) (a b : Tree) (k : Place)
      → IsAt s over t (build d c p a b) k
      → Hangs s over t (build d c p a b) k
  hang_node t d c p a b k z = record {
    at = z;
    link = ap t.parent (ptr-build s d c p a b) ∙ (open_at s over t d c p a b k z).1;
  }

  -- Changing the colour of the sibling, from the place of the other child.
  pub recolor_sibling :
      (t : Store) (x : Tree) (d : Side) (c : Bool) (p : Ptr) (e : Side) (cq cq' : Bool) (q : Ptr)
      (a b : Tree) (k : Place)
      → IsAt s over t x (under d c p (build e cq q a b) k)
      → IsAt s over (recolor q cq' t) x (under d c p (build e cq' q a b) k)
  recolor_sibling t x d c p e cq cq' q a b k z =
      let w = build e cq q a b in
      let w' = build e cq' q a b in
      let z1 =
        turn s over t (build d c p x w) (build (opposite d) c p w x) k (build-opposite d c p x w)
          (up s over t d c p x w k z) in
      let u = recolor q cq' t in
      let z2 =
        recolor-IsAt s over t e cq cq' q a b (under (opposite d) c p x k)
          (down s over t (opposite d) c p w x k z1) in
      let z3 = up s over u (opposite d) c p w' x k z2 in
      down s over u d c p x w' k (
        turn s over u (build (opposite d) c p w' x) (build d c p x w') k
          (sym (build-opposite d c p x w')) z3)

  -- Changing the colour of the parent.
  pub recolor_parent :
      (t : Store) (x : Tree) (d : Side) (c c' : Bool) (p : Ptr) (w : Tree) (k : Place)
      → IsAt s over t x (under d c p w k)
      → IsAt s over (recolor p c' t) x (under d c' p w k)
  recolor_parent t x d c c' p w k z =
      down s over (recolor p c' t) d c' p x w k
        (recolor-IsAt s over t d c c' p x w k (up s over t d c p x w k z))

  pub rotate_at-sentinel :
      (t : Store) (d : Side) (cx cy : Bool) (x y : Ptr) (a b e : Tree) (k : Place)
      → IsAt s over t (build d cx x a (build d cy y b e)) k
      → (rotate s d x t).parent s ≡ t.parent s
  rotate_at-sentinel t d cx cy x y a b e k z =
      rotate-sentinel s over cx cy x y a b e k t d z.once z.holds
        (subst (λ v. HoldsAt s over t v k) (ptr-build s d cx x a (build d cy y b e)) z.around)

  -- Rotating the sibling, from the place of the other child.
  pub rotate_sibling :
      (t : Store) (x : Tree) (d : Side) (c : Bool) (p : Ptr) (e : Side) (cx cy : Bool) (q m : Ptr)
      (a b f : Tree) (k : Place)
      → IsAt s over t x (under d c p (build e cx q a (build e cy m b f)) k)
      → IsAt s over (rotate s e q t) x (under d c p (build e cy m (build e cx q a b) f) k)
        × ((rotate s e q t).key ≡ t.key)
        × ((rotate s e q t).parent s ≡ t.parent s)
  rotate_sibling t x d c p e cx cy q m a b f k z =
      let w = build e cx q a (build e cy m b f) in
      let w' = build e cy m (build e cx q a b) f in
      let z1 =
        turn s over t (build d c p x w) (build (opposite d) c p w x) k (build-opposite d c p x w)
          (up s over t d c p x w k z) in
      let u = rotate s e q t in
      let z2 = down s over t (opposite d) c p w x k z1 in
      let (z3, keys) = rotate-IsAt s over t e cx cy q m a b f (under (opposite d) c p x k) z2 in
      let z4 = up s over u (opposite d) c p w' x k z3 in
      (
        down s over u d c p x w' k (
            turn s over u (build (opposite d) c p w' x) (build d c p x w') k
              (sym (build-opposite d c p x w')) z4),
        keys,
        rotate_at-sentinel t e cx cy q m a b f (under (opposite d) c p x k) z2,
      )
