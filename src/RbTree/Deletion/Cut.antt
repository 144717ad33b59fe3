-- ===== src/RbTree/Deletion/Cut.antt =====
-- A node with at most one child is cut out of the memory: its child takes its place.
use mathlib.Core.Path.{subst}
use mtcp_lua.Base.{ap, ◌+◌, ◌<◌, ◌≡◌, ◌≢◌, refl, sym, ◌∙◌, Bool, false, arith, ==_of_eq, ==_of_ne}
use mtcp_lua.RbTree.{Ptr, Side, Store, set_parent, clear_node}
use mtcp_lua.RbTree.Shape.{
  Tree, leaf, node, build, ptr, one_if, count, Place, top, under, count_place, parent_at, Distinct,
  Holds, HoldsAt,
}
use mtcp_lua.RbTree.Frames.{
  Agree, Holds-frame, Holds-adopted, HoldsAt-frame, count-build, ptr-build,
}
use mtcp_lua.RbTree.Links.{
  link_at, link_at-parent, link_at-red, link_at-key, link_at-lefts, link_at-rights, link_at-HoldsAt,
  ne-ptr,
}
use mtcp_lua.RbTree.Focus.{IsAt, open_at, ne_of_count, ne_of_place}
use mtcp_lua.RbTree.Deletion.Hangs.{Hangs}

-- The sentinel is no node.
pub count-sentinel : (s : Ptr) (t : Store) (par : Ptr) (x : Tree) → Holds s t par x → count s x ≡ 0
count-sentinel s t par leaf h = refl
count-sentinel s t par (node c q l r) h =
    let ne : s ≢ q = (λ e. h.0 (sym e)) in
    omega
      (arith, ap one_if (==_of_ne s q ne), count-sentinel s t q l h.5, count-sentinel s t q r h.6)

pub count_place-sentinel :
    (s over : Ptr) (t : Store) (x : Ptr) (k : Place) → HoldsAt s over t x k → count_place s k ≡ 0
count_place-sentinel s over t x top h = refl
count_place-sentinel s over t x (under d c q w k) h =
    let ne : s ≢ q = (λ e. h.0 (sym e)) in
    omega (
      arith,
      ap one_if (==_of_ne s q ne),
      count-sentinel s t q w h.5,
      count_place-sentinel s over t q k h.6,
    )

-- The child `y` of a node has taken its place, and has the parent `v`.
pub record Cut (s over v : Ptr) (t u : Store) (y : Tree) (k : Place) : Type 0 where
  pub holds : Holds s u v y
  pub around : HoldsAt s over u (ptr s y) k
  pub once : Distinct y k
  pub black : u.red s ≡ false
  pub link : u.parent (ptr s y) ≡ v
  pub parents : (p : Ptr) → p ≢ ptr s y → u.parent p ≡ t.parent p
  pub keys : u.key ≡ t.key

-- The two assignments of the code.
abbrev pub cut : Ptr → Ptr → Tree → Place → Store → Store
cut s v y k t = set_parent (ptr s y) v (link_at k (ptr s y) t)

module _ (s over v : Ptr) (t : Store) (d : Side) (c : Bool) (m : Ptr) (y : Tree) (k : Place) where
  pub cut-Cut : IsAt s over t (build d c m y leaf) k → Cut s over v t (cut s v y k t) y k
  cut-Cut z = record {
    holds =
        Holds-adopted s t u m v y (λ p. omega (arith, once p)) (λ _. here)
          (λ p i. inside p (omega (arith, once p))) (λ p i ne. parents p ne)
          (open_at s over t d c m y leaf k z).5;
    around =
        HoldsAt-frame s (link_at k (ptr s y) t) u over (ptr s y) k
          (λ p i. record {
            lefts = refl;
            rights = refl;
            parent = rw (==_of_ne p (ptr s y) (apart p i));
            red = refl;
          })
          refl (link_at-HoldsAt s over m (ptr s y) k t (λ p. omega (arith, once p)) at_m);
    once = once;
    black = ap (λ (f : Ptr → Bool). f s) (link_at-red k (ptr s y) t) ∙ z.black;
    link = here;
    parents = parents;
    keys = link_at-key k (ptr s y) t;
  }
    where
      u : Store
      u = cut s v y k t

      once : Distinct y k
      once p = omega (arith, z.once p, count-build d c m y leaf p)

      here : u.parent (ptr s y) ≡ v
      here = rw (==_of_eq (ptr s y) (ptr s y) refl)

      parents : (p : Ptr) → p ≢ ptr s y → u.parent p ≡ t.parent p
      parents p ne = rw (==_of_ne p (ptr s y) ne, link_at-parent)

      inside :
          (p : Ptr)
          → count_place p k ≡ 0
          → (u.lefts p ≡ t.lefts p) × (u.rights p ≡ t.rights p) × (u.red p ≡ t.red p)
      inside p o = (
        link_at-lefts k (ptr s y) t p o,
        link_at-rights k (ptr s y) t p o,
        ap (λ (f : Ptr → Bool). f p) (link_at-red k (ptr s y) t),
      )

      at_m : HoldsAt s over t m k
      at_m = subst (λ q. HoldsAt s over t q k) (ptr-build s d c m y leaf) z.around

      apart : (p : Ptr) → 0 < count_place p k → p ≢ ptr s y
      apart p i =
          ne-ptr s p y (λ e. ground (arith, count_place-sentinel s over t m k at_m))
            (omega (arith, once p))

module _ (s over : Ptr) where
  -- Clearing the fields of a node outside the tree.
  pub clear-IsAt :
      (n : Ptr) (t : Store) (x : Tree) (k : Place)
      → n ≢ s
      → count n x + count_place n k ≡ 0
      → IsAt s over t x k
      → IsAt s over (clear_node n t) x k
  unfolding clear_node
  clear-IsAt n t x k ns out z =
      let u = clear_node n t in
      let spare = (λ (p : Ptr) (ne : p ≢ n).
        let a : Agree t u p = record {
          lefts = rw (==_of_ne p n ne);
          rights = rw (==_of_ne p n ne);
          parent = rw (==_of_ne p n ne);
          red = refl;
        } in
        a) in
      record {
        holds =
            Holds-frame s t u (parent_at over k) x
              (λ p i. spare p (ne_of_count p n x i (omega (arith, out)))) z.holds;
        around =
            HoldsAt-frame s t u over (ptr s x) k
              (λ p i. spare p (ne_of_place p n k i (omega (arith, out)))) refl z.around;
        once = z.once;
        black = z.black;
      }

  pub clear-Hangs :
      (n : Ptr) (t : Store) (x : Tree) (k : Place)
      → n ≢ s
      → count n x + count_place n k ≡ 0
      → Hangs s over t x k
      → Hangs s over (clear_node n t) x k
  clear-Hangs n t x k ns out z = record {
    at = clear-IsAt n t x k ns out z.at;
    link =
        unfold clear_node in
        rw (==_of_ne (ptr s x) n (λ e. ne-ptr s n x ns (omega (arith, out)) (sym e))) z.link;
  }
