-- ===== src/RbTree/Frames.antt =====
-- What a memory holds survives the changes that spare it.
use mtcp_lua.Base.{◌+◌, ◌≤◌, ◌<◌, ◌≡◌, ◌≢◌, refl, Bool, arith, ◌==◌}
use mtcp_lua.RbTree.{Ptr, Side, left, right, opposite, Store, child}
use mtcp_lua.RbTree.Shape.{
  Tree, leaf, node, build, ptr, one_if, count, Place, top, under, count_place, Holds, HoldsAt,
}

-- The two memories agree on the links and the colour of a node.
pub record Agree (t u : Store) (p : Ptr) : Type 0 where
  pub lefts : u.lefts p ≡ t.lefts p
  pub rights : u.rights p ≡ t.rights p
  pub parent : u.parent p ≡ t.parent p
  pub red : u.red p ≡ t.red p

module _ (s : Ptr) (t u : Store) where
  pub Holds-frame :
      (par : Ptr) (x : Tree)
      → ((p : Ptr) → 0 < count p x → Agree t u p)
      → Holds s t par x
      → Holds s u par x
  Holds-frame par leaf same h = tt
  Holds-frame par (node c q l r) same h =
      let here = same q (ground arith) in
      let hl = Holds-frame q l (λ p i. same p (omega arith)) h.5 in
      let hr = Holds-frame q r (λ p i. same p (omega arith)) h.6 in (h.0, cc, cc, cc, cc, hl, hr)

  -- As before, but the root of the subtree gets another parent.
  pub Holds-adopted :
      (par par' : Ptr) (x : Tree)
      → ((p : Ptr) → count p x ≤ 1)
      → (ptr s x ≢ s → u.parent (ptr s x) ≡ par')
      → ((p : Ptr)
          → 0 < count p x
          → (u.lefts p ≡ t.lefts p) × (u.rights p ≡ t.rights p) × (u.red p ≡ t.red p))
      → ((p : Ptr) → 0 < count p x → p ≢ ptr s x → u.parent p ≡ t.parent p)
      → Holds s t par x
      → Holds s u par' x
  Holds-adopted par par' leaf once up same parents h = tt
  Holds-adopted par par' (node c q l r) once up same parents h =
      let here = same q (ground arith) in
      let inside = (λ (p : Ptr) (i : 0 < count p l + count p r).
        let e = same p (omega arith) in
        let ne : p ≢ q = (λ e. ground (arith, once q)) in
        let up' : u.parent p ≡ t.parent p = parents p (omega arith) ne in
        let a : Agree t u p = record { lefts = e.0; rights = e.1; parent = up'; red = e.2 } in a) in
      let hl = Holds-frame q l (λ p i. inside p (omega arith)) h.5 in
      let hr = Holds-frame q r (λ p i. inside p (omega arith)) h.6 in
      (h.0, up h.0, cc, cc, cc, hl, hr)

  pub HoldsAt-frame :
      (over x : Ptr) (k : Place)
      → ((p : Ptr) → 0 < count_place p k → Agree t u p)
      → u.root ≡ t.root
      → HoldsAt s over t x k
      → HoldsAt s over u x k
  HoldsAt-frame over x top same root h = cc
  HoldsAt-frame over x (under left c q v k) same root h =
      let here = same q (ground arith) in
      let hv = Holds-frame q v (λ p i. same p (omega arith)) h.5 in
      let hk = HoldsAt-frame over q k (λ p i. same p (omega arith)) root h.6 in
      (h.0, cc, cc, cc, cc, hv, hk)
  HoldsAt-frame over x (under right c q v k) same root h =
      let here = same q (ground arith) in
      let hv = Holds-frame q v (λ p i. same p (omega arith)) h.5 in
      let hk = HoldsAt-frame over q k (λ p i. same p (omega arith)) root h.6 in
      (h.0, cc, cc, cc, cc, hv, hk)

-- A node read from either side.
module _ (s : Ptr) (t : Store) where
  abbrev pub HoldsNode : Side → Ptr → Bool → Ptr → Tree → Tree → Type 0
  HoldsNode d par c p a b =
      (p ≢ s)
      × (t.parent p ≡ par)
      × (child d t p ≡ ptr s a)
      × (child (opposite d) t p ≡ ptr s b)
      × (t.red p ≡ c)
      × Holds s t p a
      × Holds s t p b

  pub open_build :
      (d : Side) (par : Ptr) (c : Bool) (p : Ptr) (a b : Tree)
      → Holds s t par (build d c p a b)
      → HoldsNode d par c p a b
  open_build left par c p a b h = h
  open_build right par c p a b h = (h.0, h.1, h.3, h.2, h.4, h.6, h.5)

  pub close_build :
      (d : Side) (par : Ptr) (c : Bool) (p : Ptr) (a b : Tree)
      → HoldsNode d par c p a b
      → Holds s t par (build d c p a b)
  close_build left par c p a b h = h
  close_build right par c p a b h = (h.0, h.1, h.3, h.2, h.4, h.6, h.5)

pub count-build :
    (d : Side) (c : Bool) (q : Ptr) (a b : Tree) (p : Ptr)
    → count p (build d c q a b) ≡ one_if (p == q) + count p a + count p b
count-build left c q a b p = refl
count-build right c q a b p = omega arith

pub ptr-build : (s : Ptr) (d : Side) (c : Bool) (q : Ptr) (a b : Tree) → ptr s (build d c q a b) ≡ q
ptr-build s left c q a b = refl
ptr-build s right c q a b = refl
