-- ===== src/RbTree/Deletion/Place.antt =====
-- `subst` takes the place of `node` in the memory.
use mtcp_lua.Base.{
  ap, ◌+◌, ◌≤◌, ◌≡◌, refl, sym, ◌∙◌, Bool, arith, ◌==◌, ==_of_eq, ==_of_ne, eq_of_==, Bool-cases,
  inl, inr,
}
use mtcp_lua.RbTree.{Ptr, Store, adopt, replace_link, take_place}
use mtcp_lua.RbTree.Shape.{
  Tree, node, ptr, one_if, count, Place, count_place, parent_at, Holds, HoldsAt,
}
use mtcp_lua.RbTree.Frames.{Holds-adopted, HoldsAt-frame}
use mtcp_lua.RbTree.Links.{
  link_at-parent, link_at-red, link_at-lefts, link_at-rights, link_at-HoldsAt, replace_link-at,
}
use mtcp_lua.RbTree.Rotation.{adopt_rest}
use mtcp_lua.RbTree.Focus.{IsAt, ne_of_count, ne_of_place}
use mtcp_lua.RbTree.Deletion.Placed.{
  Ready, copied, linked, placed, placed_lefts, placed_rights, placed_red, placed_root, same,
  parent_in_left, parent_in_right, parent_outside, parent_left, parent_right,
}

module _ (s over : Ptr) (t : Store) (n m par : Ptr) (c : Bool) (l r : Tree) (k : Place) where
  abbrev u : Store
  u = placed s over t n m l r k

  copied-HoldsAt : Ready s over t n m par c l r k → HoldsAt s over (copied s over t n m l r k) n k
  unfolding copied
  copied-HoldsAt z =
      HoldsAt-frame s t (copied s over t n m l r k) over n k
        (λ p i.
          let ne = ne_of_place p m k i z.mk in
          record {
            lefts = rw (==_of_ne p m ne);
            rights = rw (==_of_ne p m ne);
            parent = rw (==_of_ne p m ne);
            red = rw (==_of_ne p m ne);
          })
        refl z.hk

  around : Ready s over t n m par c l r k → HoldsAt s over u m k
  around z =
      HoldsAt-frame s (linked s over t n m l r k) u over m k
        (λ p i. record {
          lefts = ap (λ (f : Ptr → Ptr). f p) (placed_lefts s over t n m l r k);
          rights = ap (λ (f : Ptr → Ptr). f p) (placed_rights s over t n m l r k);
          parent =
              parent_outside s over t n m l r k p (omega (arith, z.once p))
                (omega (arith, z.once p));
          red = ap (λ (f : Ptr → Bool). f p) (placed_red s over t n m l r k ∙ linked_red);
        })
        (placed_root s over t n m l r k)
        (unfold linked in
          link_at-HoldsAt s over n m k (copied s over t n m l r k) (λ p. omega (arith, z.once p))
            (copied-HoldsAt z))
    where
      linked_red : (copied s over t n m l r k).red ≡ (linked s over t n m l r k).red
      linked_red = unfold linked in sym (link_at-red k m (copied s over t n m l r k))

  sub_left : Ready s over t n m par c l r k → Holds s u m l
  sub_left z =
      Holds-adopted s t u n m l (λ p. omega (arith, z.once p)) (parent_left s over t n m l r k)
        (λ p i. same s over t n m l r k p (ne_of_count p m l i z.ml) (omega (arith, z.once p)))
        (λ p i ne.
          parent_in_left s over t n m l r k p (ne_of_count p m l i z.ml) ne
            (omega (arith, z.once p)))
        z.hl

  sub_right : Ready s over t n m par c l r k → Holds s u m r
  sub_right z =
      Holds-adopted s t u par m r (λ p. omega (arith, z.once p)) (parent_right s over t n m l r k)
        (λ p i. same s over t n m l r k p (ne_of_count p m r i z.mr) (omega (arith, z.once p)))
        (λ p i ne.
          parent_in_right s over t n m l r k p (ne_of_count p m r i z.mr) ne
            (omega (arith, z.once p)))
        z.hr

  once_placed :
      Ready s over t n m par c l r k
      → (p : Ptr) → one_if (p == m) + count p l + count p r + count_place p k ≤ 1
  once_placed z p = elim (Bool-cases (p == m)) [
    | inl e ↦ rw (e, eq_of_== p m e, z.ml, z.mr, z.mk) (omega arith)
    | inr e ↦ rw e (omega (arith, z.once p))
  ]

  -- `m` stands where `n` stood.
  pub placed-IsAt : Ready s over t n m par c l r k → IsAt s over u (node c m l r) k
  placed-IsAt z = record {
    holds = (z.ms, up_m, left_m, right_m, red_m, sub_left z, sub_right z);
    around = around z;
    once = once_placed z;
    black =
        ap (λ (f : Ptr → Bool). f s) (placed_red s over t n m l r k)
        ∙ unfold copied in rw (==_of_ne s m (λ e. z.ms (sym e))) z.black;
  }
    where
      up_m : u.parent m ≡ parent_at over k
      up_m =
          parent_outside s over t n m l r k m z.ml z.mr
          ∙ unfold linked copied in (rw (link_at-parent, ==_of_eq m m refl) z.parent)

      left_m : u.lefts m ≡ ptr s l
      left_m =
          ap (λ (f : Ptr → Ptr). f m) (placed_lefts s over t n m l r k)
          ∙ unfold linked copied in
            (link_at-lefts k m (copied s over t n m l r k) m z.mk ∙ rw (==_of_eq m m refl) z.lefts)

      right_m : u.rights m ≡ ptr s r
      right_m =
          ap (λ (f : Ptr → Ptr). f m) (placed_rights s over t n m l r k)
          ∙ unfold linked copied in
            (link_at-rights k m (copied s over t n m l r k) m z.mk
              ∙ rw (==_of_eq m m refl) z.rights)

      red_m : u.red m ≡ c
      red_m =
          ap (λ (f : Ptr → Bool). f m) (placed_red s over t n m l r k)
          ∙ unfold copied in rw (==_of_eq m m refl) z.red

  placed_fields :
      Ready s over t n m par c l r k
      → replace_link n m (copied s over t n m l r k) ≡ linked s over t n m l r k
  unfolding linked
  placed_fields z =
      replace_link-at s over n m k (copied s over t n m l r k) z.ns z.nk
        (unfold copied in rw (==_of_ne n m z.nm) z.parent) (copied-HoldsAt z)

  linked_left : Ready s over t n m par c l r k → (linked s over t n m l r k).lefts m ≡ ptr s l
  unfolding linked copied
  linked_left z =
      link_at-lefts k m (copied s over t n m l r k) m z.mk ∙ rw (==_of_eq m m refl) z.lefts

  linked_right :
      Ready s over t n m par c l r k
      → (adopt s (ptr s l) m (linked s over t n m l r k)).rights m ≡ ptr s r
  linked_right z =
      ap (λ (f : Ptr → Ptr). f m) ((adopt_rest s (ptr s l) m (linked s over t n m l r k)).3)
      ∙ unfold linked copied in
        (link_at-rights k m (copied s over t n m l r k) m z.mk ∙ rw (==_of_eq m m refl) z.rights)

  pub take_place-placed : Ready s over t n m par c l r k → take_place s m n t ≡ u
  unfolding take_place placed copied
  take_place-placed z =
      ap (λ (x : Store). adopt s ((adopt s (x.lefts m) m x).rights m) m (adopt s (x.lefts m) m x))
        (placed_fields z)
      ∙ ap
          (λ (a : Ptr).
            adopt s ((adopt s a m (linked s over t n m l r k)).rights m) m
              (adopt s a m (linked s over t n m l r k)))
          (linked_left z)
      ∙ ap (λ (b : Ptr). adopt s b m (adopt s (ptr s l) m (linked s over t n m l r k)))
          (linked_right z)
