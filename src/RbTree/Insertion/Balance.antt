-- ===== src/RbTree/Insertion/Balance.antt =====
-- An insertion keeps the red-black conditions.
use mtcp_lua.Base.{ℕ, zero, suc, ◌≡◌, inl, inr, refl, true, false, Bool-cases}
use mtcp_lua.RbTree.{Ptr, Side, left, right, InsertPt, goes_left}
use mtcp_lua.RbTree.Shape.{Tree, leaf, node, build, Place, top, under, plug}
use mtcp_lua.RbTree.Focus.{is_red}
use mtcp_lua.RbTree.Balance.{Balanced, BalancedAt, Fits, build_black, is_red-build, plug-Balanced}
use mtcp_lua.RbTree.Insertion.Fix.{blacken, lift, insert_fix}
use mtcp_lua.RbTree.Insertion.Attach.{descend, descend-left, descend-right}
use mtcp_lua.RbTree.Insertion.Whole.{insert_tree}

pub blacken-Balanced :
    (x : Tree) (h : ℕ)
    → Balanced x h
    → (h' : ℕ) × Balanced (blacken x) h' × (is_red (blacken x) ≡ false)
blacken-Balanced leaf h b = (h, b, refl)
blacken-Balanced (node true p l r) h b = (suc h, (b.2, b.3), refl)
blacken-Balanced (node false p l r) h b = (h, b, refl)

-- The subtree after the rotations is black, and has the black height of the one before.
lift-Balanced :
    (d d' : Side) (n p g : Ptr) (a b w u : Tree) (h : ℕ)
    → Balanced (node true n a b) h
    → is_red w ≡ false
    → Balanced w h
    → is_red u ≡ false
    → Balanced u h
    → Balanced (lift d d' p g (node true n a b) w u) (suc h)
      × (is_red (lift d d' p g (node true n a b) w u) ≡ false)
lift-Balanced left left n p g a b w u h x rw' bw ru bu = ((x, (rw', ru, bw, bu)), refl)
lift-Balanced right right n p g a b w u h x rw' bw ru bu = (((ru, rw', bu, bw), x), refl)
lift-Balanced right left n p g a b w u h x rw' bw ru bu =
    (((rw', x.0, bw, x.2), (x.1, ru, x.3, bu)), refl)
lift-Balanced left right n p g a b w u h x rw' bw ru bu =
    (((ru, x.0, bu, x.2), (x.1, rw', x.3, bw)), refl)

lift_up :
    (d d' : Side) (n p g : Ptr) (a b w u : Tree) (k : Place) (h : ℕ)
    → Balanced (node true n a b) h
    → is_red u ≡ false
    → BalancedAt (under d true p w (under d' false g u k)) h
    → (h' : ℕ) × Balanced (plug (lift d d' p g (node true n a b) w u) k) h'
lift_up d d' n p g a b w u k h x ru s =
    let (bal, black) = lift-Balanced d d' n p g a b w u h x s.0 s.1 ru s.3.0 in
    plug-Balanced (lift d d' p g (node true n a b) w u) k (suc h) (inl black) bal s.3.1

insert_fix-Balanced :
    (n : Ptr) (a b : Tree) (k : Place) (h : ℕ)
    → Balanced (node true n a b) h
    → BalancedAt k h
    → (h' : ℕ) × Balanced (insert_fix (node true n a b) k) h'
unfolding insert_fix
insert_fix-Balanced n a b top h x s = (h, x)
insert_fix-Balanced n a b (under d false p w k) h x s =
    plug-Balanced (node true n a b) (under d false p w k) h (inr refl) x s
insert_fix-Balanced n a b (under d true p w top) h x s = cc
insert_fix-Balanced n a b (under d true p w (under d' true g u k)) h x s = cc
insert_fix-Balanced n a b (under d true p w (under d' false g leaf k)) h x s =
    lift_up d d' n p g a b w leaf k h x refl s
insert_fix-Balanced n a b (under d true p w (under d' false g (node false q ua ub) k)) h x s =
    lift_up d d' n p g a b w (node false q ua ub) k h x refl s
insert_fix-Balanced n a b (under d true p w (under left false g (node true q ua ub) k)) h x s =
    insert_fix-Balanced g (build d false p (node true n a b) w) (node false q ua ub) k (suc h)
      (
        is_red-build d false p (node true n a b) w,
        refl,
        build_black d p (node true n a b) w h x s.1,
        (s.3.0.2, s.3.0.3),
      )
      s.3.1
insert_fix-Balanced n a b (under d true p w (under right false g (node true q ua ub) k)) h x s =
    insert_fix-Balanced g (node false q ua ub) (build d false p (node true n a b) w) k (suc h)
      (
        refl,
        is_red-build d false p (node true n a b) w,
        (s.3.0.2, s.3.0.3),
        build_black d p (node true n a b) w h x s.1,
      )
      s.3.1

module _ (i : InsertPt) (key : Ptr → ℕ) (v : ℕ) where
  descend-BalancedAt :
      (x : Tree) (k : Place) (h : ℕ)
      → Fits x k
      → Balanced x h
      → BalancedAt k h
      → BalancedAt (descend i key v x k) 0
  descend-BalancedAt leaf k zero f b s = unfold descend in s
  descend-BalancedAt leaf k (suc h) f b s = absurd b
  descend-BalancedAt (node false p l r) k zero f b s = absurd b
  descend-BalancedAt (node false p l r) k (suc h) f b s =
      elim (Bool-cases (goes_left i v (key p))) [
        | inl e ↦
            rw (descend-left i key v false p l r k e)
              (descend-BalancedAt l (under left false p r k) h (inr refl) b.0 (b.1, s))
        | inr e ↦
            rw (descend-right i key v false p l r k e)
              (descend-BalancedAt r (under right false p l k) h (inr refl) b.1 (b.0, s))
      ]
  descend-BalancedAt (node true p l r) k h (inl e) b s = cc
  descend-BalancedAt (node true p l r) k h (inr f) b s = elim (Bool-cases (goes_left i v (key p))) [
    | inl e ↦
        rw (descend-left i key v true p l r k e)
          (descend-BalancedAt l (under left true p r k) h (inl b.0) b.2 (b.1, b.3, f, s))
    | inr e ↦
        rw (descend-right i key v true p l r k e)
          (descend-BalancedAt r (under right true p l k) h (inl b.1) b.3 (b.0, b.2, f, s))
  ]

  -- After an insertion the tree keeps the red-black rules, and its root is black.
  pub insert_tree-Balanced :
      (n : Ptr) (x : Tree) (h : ℕ)
      → is_red x ≡ false
      → Balanced x h
      → (h' : ℕ) × Balanced (insert_tree i key v n x) h'
        × (is_red (insert_tree i key v n x) ≡ false)
  unfolding insert_tree
  insert_tree-Balanced n leaf h black b = (1, (tt, tt), refl)
  insert_tree-Balanced n (node c p l r) h black b =
      let k = descend i key v (node c p l r) top in
      let (h', b') =
        insert_fix-Balanced n leaf leaf k 0 (refl, refl, tt, tt)
          (descend-BalancedAt (node c p l r) top h (inl black) b tt) in
      blacken-Balanced (insert_fix (node true n leaf leaf) k) h' b'
