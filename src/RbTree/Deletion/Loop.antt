-- ===== src/RbTree/Deletion/Loop.antt =====
-- The loop of `rbtree_delete` ends, and restores the red-black rules.
use mathlib.Core.Path.{subst}
use mathlib.Core.List.{append_assoc}
use mtcp_lua.Base.{ℕ, suc, ◌≡◌, ◌⊎◌, inl, inr, refl, sym, ◌∙◌, Bool, true, false, Bool-cases}
use mtcp_lua.RbTree.{Ptr, Side, left, right, opposite, Store, push_black, finish_round, raise_near}
use mtcp_lua.RbTree.Shape.{Tree, leaf, node, build, ptr, Place, under, plug, inorder}
use mtcp_lua.RbTree.Frames.{ptr-build}
use mtcp_lua.RbTree.Focus.{IsAt, recolor, up, plug-IsAt, is_red}
use mtcp_lua.RbTree.Balance.{
  Balanced, BalancedAt, Fits, build_red, build_black, is_red-build, plug-Balanced,
}
use mtcp_lua.RbTree.Order.{inorder-plug_eq}
use mtcp_lua.RbTree.Deletion.Hangs.{Hangs, recolor_sibling}
use mtcp_lua.RbTree.Deletion.Round.{finish_round-IsAt, raise_near-at}
use mtcp_lua.RbTree.Deletion.Push.{push_black-both, push_black-far, push_black-near, sibling-at}
use mtcp_lua.RbTree.Deletion.Goal.{
  inorder-far, pick, as-build, Repaired, bump, Fits-of, build-bump, inorder-color, inorder-build,
  stop_root, stop_red, resume,
}

Balanced-sub :
    (d : Side) (p : Ptr) (a b : Tree) (h : ℕ)
    → Balanced (build d true p a b) h
    → (is_red a ≡ false) × (is_red b ≡ false) × Balanced a h × Balanced b h
Balanced-sub left p a b h z = z
Balanced-sub right p a b h z = (z.1, z.0, z.3, z.2)

-- A red tree, taken apart from side `d` on.
red_parts :
    (d : Side) (x : Tree)
    → is_red x ≡ true
    → (r : Ptr) × (a : Tree) × (b : Tree) × (x ≡ build d true r a b)
red_parts d leaf e = cc
red_parts d (node false r a b) e = cc
red_parts d (node true r a b) e = (r, pick d a b, pick (opposite d) a b, as-build d true r a b)

-- The rest of the loop after the second half of a round, with a black sibling.
module _ (s over : Ptr) (t : Store) (x : Tree) (d : Side) (c : Bool) (p q : Ptr) (k : Place)
    (h fuel : ℕ) where
  abbrev pub Next : Tree → Tree → Type 0
  Next na fa =
      let next = push_black s d (ptr s x) t in
      Repaired s over (suc fuel) next.1 next.0
        (inorder (plug (build d c p x (build d false q na fa)) k))
      × (next.0.key ≡ t.key)

  pushed :
      (na fa : Tree) (t' : Store) (y : Tree)
      → push_black s d (ptr s x) t ≡ (t', t'.root)
      → IsAt s over t' y k
      → Balanced y (bump c (suc h))
      → Fits y k
      → BalancedAt k (bump c (suc h))
      → inorder y ≡ inorder (build d c p x (build d false q na fa))
      → t'.key ≡ t.key
      → Next na fa
  pushed na fa t' y run z b f bk same keys =
      let (h', b') = plug-Balanced y k (bump c (suc h)) f b bk in
      let r = stop_root s over fuel t' (plug y k) h' (plug-IsAt s over t' y k z) b' in
      let xs = inorder (plug (build d c p x (build d false q na fa)) k) in
      rw run (
        resume (suc fuel) t'.root t' xs refl refl
            (inorder-plug_eq y (build d c p x (build d false q na fa)) k same) r,
        keys,
      )

  pushed_far :
      (r : Ptr) (na ra rb : Tree)
      → Hangs s over t x (under d c p (build d false q na (build d true r ra rb)) k)
      → Balanced x h
      → Balanced na h
      → Balanced (build d true r ra rb) h
      → BalancedAt (under d c p (build d false q na (build d true r ra rb)) k) (suc h)
      → Next na (build d true r ra rb)
  pushed_far r na ra rb z bx bn bf bk =
      let fa = build d true r ra rb in
      let fa' = build d false r ra rb in
      let t' = finish_round s d (ptr s x) q t in
      let (z', keys) = finish_round-IsAt s over t x d c p q k r na ra rb z in
      let y = build d c q (build d false p x na) fa' in
      let (f, bk') =
        Fits-of c y d p (build d false q na fa) k (suc h)
          (is_red-build d c q (build d false p x na) fa') bk in
      let sub = Balanced-sub d r ra rb h bf in
      pushed na fa t' y (push_black-far s over t x d c p q na fa k z (is_red-build d true r ra rb))
        z'
        (build-bump d c q (build d false p x na) fa' (suc h) (is_red-build d false p x na)
          (is_red-build d false r ra rb) (build_black d p x na h bx bn)
          (build_black d r ra rb h sub.2 sub.3))
        f bk'
        (inorder-far d c p q x na fa'
          ∙ inorder-build d c p x x (build d false q na fa') (build d false q na fa) refl
              (inorder-build d false q na na fa' fa refl (inorder-color d false true r ra rb)))
        keys

  pushed_near :
      (m : Ptr) (ma mb fa : Tree)
      → Hangs s over t x (under d c p (build d false q (build d true m ma mb) fa) k)
      → is_red fa ≡ false
      → Balanced x h
      → Balanced (build d true m ma mb) h
      → Balanced fa h
      → BalancedAt (under d c p (build d false q (build d true m ma mb) fa) k) (suc h)
      → Next (build d true m ma mb) fa
  pushed_near m ma mb fa z rf bx bn bf bk =
      let na = build d true m ma mb in
      let w = build d false q na fa in
      let w' = build d false m ma (build d true q mb fa) in
      let (z1, keys1) = raise_near-at s over t x d c p q k m ma mb fa z rf in
      let t1 = raise_near s d q t in
      let e =
        sibling-at s over t1 x d c p w' k z1 ∙ ptr-build s d false m ma (build d true q mb fa) in
      let t' = finish_round s d (ptr s x) m t1 in
      let (z', keys) = finish_round-IsAt s over t1 x d c p m k q ma mb fa z1 in
      let y = build d c m (build d false p x ma) (build d false q mb fa) in
      let (f, bk') =
        Fits-of c y d p w k (suc h)
          (is_red-build d c m (build d false p x ma) (build d false q mb fa)) bk in
      let sub = Balanced-sub d m ma mb h bn in
      pushed na fa t' y
        (push_black-near s over t x d c p q na fa k m z (is_red-build d true m ma mb) e) z'
        (build-bump d c m (build d false p x ma) (build d false q mb fa) (suc h)
          (is_red-build d false p x ma) (is_red-build d false q mb fa)
          (build_black d p x ma h bx sub.2) (build_black d q mb fa h sub.3 bf))
        f bk' (near d) (keys ∙ keys1)
    where
      near :
          (d : Side)
          → inorder (build d c m (build d false p x ma) (build d false q mb fa))
            ≡ inorder (build d c p x (build d false q (build d true m ma mb) fa))
      near left = simp append_assoc
      near right = simp append_assoc

  pub pushed_red :
      (na fa : Tree)
      → Hangs s over t x (under d c p (build d false q na fa) k)
      → Balanced x h
      → Balanced na h
      → Balanced fa h
      → BalancedAt (under d c p (build d false q na fa) k) (suc h)
      → (is_red na ≡ true) × (is_red fa ≡ false) ⊎ (is_red fa ≡ true)
      → Next na fa
  pushed_red na fa z bx bn bf bk (inr rf) =
      let (r, ra, rb, e) = red_parts d fa rf in
      subst
        (λ f.
          Hangs s over t x (under d c p (build d false q na f) k)
          → Balanced f h
          → BalancedAt (under d c p (build d false q na f) k) (suc h)
          → Next na f)
        (sym e) (λ z' bf' bk'. pushed_far r na ra rb z' bx bn bf' bk') z bf bk
  pushed_red na fa z bx bn bf bk (inl (rn, rf)) =
      let (m, ma, mb, e) = red_parts d na rn in
      subst
        (λ n.
          Hangs s over t x (under d c p (build d false q n fa) k)
          → Balanced n h
          → BalancedAt (under d c p (build d false q n fa) k) (suc h)
          → Next n fa)
        (sym e) (λ z' bn' bk'. pushed_near m ma mb fa z' rf bx bn' bf bk') z bn bk

-- With a red parent the rest of the loop does no further round.
module _ (s over : Ptr) (t : Store) (x : Tree) (d : Side) (p q : Ptr) (k : Place) (h fuel : ℕ) where
  pushed_black :
      (na fa : Tree)
      → Hangs s over t x (under d true p (build d false q na fa) k)
      → Balanced x h
      → Balanced na h
      → Balanced fa h
      → BalancedAt (under d true p (build d false q na fa) k) (suc h)
      → is_red na ≡ false
      → is_red fa ≡ false
      → Next s over t x d true p q k h fuel na fa
  pushed_black na fa z bx bn bf bk rn rf =
      let t' = recolor q true t in
      let w' = build d true q na fa in
      let z1 = recolor_sibling s over t x d true p d false true q na fa k z.at in
      let z2 = up s over t' d true p x w' k z1 in
      let r = stop_red s over fuel t' d p x w' k h z2 bx (build_red d q na fa h rn rf bn bf) bk.3 in
      let xs = inorder (plug (build d true p x (build d false q na fa)) k) in
      let same =
        inorder-plug_eq (build d true p x w') (build d true p x (build d false q na fa)) k (
          inorder-build d true p x x w' (build d false q na fa) refl
            (inorder-color d true false q na fa)) in
      rw (push_black-both s over t x d true p q na fa k z rn rf)
        (resume (suc fuel) p t' xs refl refl same r, refl)

  pub pushed_any :
      (na fa : Tree)
      → Hangs s over t x (under d true p (build d false q na fa) k)
      → Balanced x h
      → Balanced na h
      → Balanced fa h
      → BalancedAt (under d true p (build d false q na fa) k) (suc h)
      → Next s over t x d true p q k h fuel na fa
  pushed_any na fa z bx bn bf bk = elim (Bool-cases (is_red fa)) [
    | inl e ↦ pushed_red s over t x d true p q k h fuel na fa z bx bn bf bk (inr e)
    | inr e ↦ elim (Bool-cases (is_red na)) [
      | inl e' ↦ pushed_red s over t x d true p q k h fuel na fa z bx bn bf bk (inl (e', e))
      | inr e' ↦ pushed_black na fa z bx bn bf bk e' e
    ]
  ]
