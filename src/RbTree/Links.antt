-- ===== src/RbTree/Links.antt =====
-- `replace_link` redirects the link that leads to a place.
use mtcp_lua.Base.{◌+◌, ◌≤◌, ◌<◌, ◌≡◌, ◌≢◌, refl, Bool, arith, ==_of_eq, ==_of_ne}
use mathlib.Core.Path.{sym, ◌∙◌}
use mtcp_lua.RbTree.{
  Ptr, Side, left, right, Store, set_child, set_root, replace_link, side_in_parent,
}
use mtcp_lua.RbTree.Shape.{
  Tree, leaf, node, ptr, count, Place, top, under, count_place, parent_at, HoldsAt,
}
use mtcp_lua.RbTree.Frames.{Agree, Holds-frame, HoldsAt-frame}

-- The link of the memory that leads to a place is set.
pub link_at : Place → Ptr → Store → Store
link_at top new t = set_root new t
link_at (under d c q v k) new t = set_child d q new t

pub link_at-parent : (k : Place) (new : Ptr) (t : Store) → (link_at k new t).parent ≡ t.parent
unfolding link_at
link_at-parent top new t = refl
link_at-parent (under left c q v k) new t = refl
link_at-parent (under right c q v k) new t = refl

pub link_at-red : (k : Place) (new : Ptr) (t : Store) → (link_at k new t).red ≡ t.red
unfolding link_at
link_at-red top new t = refl
link_at-red (under left c q v k) new t = refl
link_at-red (under right c q v k) new t = refl

pub link_at-key : (k : Place) (new : Ptr) (t : Store) → (link_at k new t).key ≡ t.key
unfolding link_at
link_at-key top new t = refl
link_at-key (under left c q v k) new t = refl
link_at-key (under right c q v k) new t = refl

pub link_at-lefts :
    (k : Place) (new : Ptr) (t : Store) (p : Ptr)
    → count_place p k ≡ 0
    → (link_at k new t).lefts p ≡ t.lefts p
unfolding link_at
link_at-lefts top new t p h = refl
link_at-lefts (under left c q v k) new t p h = ground arith
link_at-lefts (under right c q v k) new t p h = refl

pub link_at-rights :
    (k : Place) (new : Ptr) (t : Store) (p : Ptr)
    → count_place p k ≡ 0
    → (link_at k new t).rights p ≡ t.rights p
unfolding link_at
link_at-rights top new t p h = refl
link_at-rights (under left c q v k) new t p h = refl
link_at-rights (under right c q v k) new t p h = ground arith

-- The address at a tree's root is not one that does not occur in the tree.
pub ne-ptr : (s p : Ptr) (v : Tree) → p ≢ s → count p v ≡ 0 → p ≢ ptr s v
ne-ptr s p leaf ne h = ne
ne-ptr s p (node c q l r) ne h = λ e. ground arith

module _ (s over : Ptr) where
  -- Above a place that is not the root stands the root.
  pub root-mem :
      (x : Ptr) (d : Side) (c : Bool) (q : Ptr) (v : Tree) (k : Place) (t : Store)
      → HoldsAt s over t q k
      → 0 < count_place t.root (under d c q v k)
  root-mem x d c q v top t h = ground arith
  root-mem x d c q v (under d' c' q' v' k) t h = omega (arith, root-mem q d' c' q' v' k t h.6)

  pub link_at-HoldsAt :
      (old new : Ptr) (k : Place) (t : Store)
      → ((p : Ptr) → count_place p k ≤ 1)
      → HoldsAt s over t old k
      → HoldsAt s over (link_at k new t) new k
  unfolding link_at
  link_at-HoldsAt old new top t once h = refl
  link_at-HoldsAt old new (under left c q v k) t once h =
      let u = set_child left q new t in
      let spare = (λ (p : Ptr) (i : 0 < count p v + count_place p k).
        let a : Agree t u p = record {
          lefts = ground (arith, once p);
          rights = refl;
          parent = refl;
          red = refl;
        } in
        a) in
      (
        h.0,
        ground arith,
        h.2,
        h.3,
        h.4,
        Holds-frame s t u q v (λ p i. spare p (omega arith)) h.5,
        HoldsAt-frame s t u over q k (λ p i. spare p (omega arith)) refl h.6,
      )
  link_at-HoldsAt old new (under right c q v k) t once h =
      let u = set_child right q new t in
      let spare = (λ (p : Ptr) (i : 0 < count p v + count_place p k).
        let a : Agree t u p = record {
          lefts = refl;
          rights = ground (arith, once p);
          parent = refl;
          red = refl;
        } in
        a) in
      (
        h.0,
        ground arith,
        h.2,
        h.3,
        h.4,
        Holds-frame s t u q v (λ p i. spare p (omega arith)) h.5,
        HoldsAt-frame s t u over q k (λ p i. spare p (omega arith)) refl h.6,
      )

  -- The chain of tests in the code finds the link that leads to the place.
  pub replace_link-at :
      (old new : Ptr) (k : Place) (t : Store)
      → old ≢ s
      → count_place old k ≡ 0
      → t.parent old ≡ parent_at over k
      → HoldsAt s over t old k
      → replace_link old new t ≡ link_at k new t
  unfolding link_at replace_link
  replace_link-at old new top t ne out e h = rw (==_of_eq old t.root (sym h))
  replace_link-at old new (under left c q v k) t ne out e h =
      let m = root-mem old left c q v k t h.6 in
      let far : old ≢ t.root = (λ r. ground arith) in
      let hit : old ≡ t.lefts q = sym h.1 in
      rw (==_of_ne old t.root far, e, ==_of_eq old (t.lefts q) hit)
  replace_link-at old new (under right c q v k) t ne out e h =
      let m = root-mem old right c q v k t h.6 in
      let far : old ≢ t.root = (λ r. ground arith) in
      let miss : old ≢ t.lefts q = (λ r. ne-ptr s old v ne (omega arith) (r ∙ h.2)) in
      rw (==_of_ne old t.root far, e, ==_of_ne old (t.lefts q) miss)

  -- The link that the code sets below the root.
  pub side-link_at :
      (m new : Ptr) (d : Side) (c : Bool) (p : Ptr) (w : Tree) (k : Place) (t : Store)
      → m ≢ s
      → count m w ≡ 0
      → t.parent m ≡ p
      → HoldsAt s over t m (under d c p w k)
      → set_child (side_in_parent m t) (t.parent m) new t ≡ link_at (under d c p w k) new t
  unfolding link_at side_in_parent
  side-link_at m new left c p w k t ne out e h = rw (e, ==_of_eq m (t.lefts p) (sym h.1))
  side-link_at m new right c p w k t ne out e h =
      let miss : m ≢ t.lefts p = (λ r. ne-ptr s m w ne out (r ∙ h.2)) in
      rw (e, ==_of_ne m (t.lefts p) miss)
