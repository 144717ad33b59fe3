-- ===== src/RbTree/Deletion/Lift.antt =====
-- The node of the loop of `rbtree_delete` within its tree, and the round that lifts it.
use mtcp_lua.Base.{
  ℕ, suc, ap, ◌+◌, ◌≤◌, ◌<◌, ◌≡◌, ◌≢◌, refl, sym, ◌∙◌, Bool, true, false, arith, ==_of_eq, ==_of_ne,
}
use mtcp_lua.RbTree.{
  Ptr, Side, left, right, Store, push_black, delete_round, side_in_parent, delete_loop,
}
use mtcp_lua.RbTree.Shape.{
  Tree, leaf, node, build, ptr, count, Place, top, under, plug, inorder, count_place, HoldsAt,
}
use mtcp_lua.RbTree.Frames.{open_build, ptr-build, count-build}
use mtcp_lua.RbTree.Links.{root-mem}
use mtcp_lua.RbTree.Focus.{IsAt, recolor, up, is_red, red-ptr}
use mtcp_lua.RbTree.Balance.{Balanced, BalancedAt, build_red, build_black, is_red-build}
use mtcp_lua.RbTree.Order.{inorder-plug_eq}
use mtcp_lua.RbTree.Insertion.Loop.{depth}
use mtcp_lua.RbTree.Deletion.Hangs.{Hangs, hang_node, recolor_sibling}
use mtcp_lua.RbTree.Deletion.Push.{turn_black, push_black-both}
use mtcp_lua.RbTree.Deletion.Loop.{Next}
use mtcp_lua.RbTree.Deletion.Goal.{Repaired, resume, go_on, inorder-build, inorder-color}

parted :
    (n r : Ptr) (x : Tree) (k : Place)
    → 0 < count n x
    → 0 < count_place r k
    → count n x + count_place n k ≤ 1
    → n ≢ r
parted n r x k i j h = λ e. ground arith

module _ (s over : Ptr) (t : Store) where
  -- Below the root, the address of a place is not the root's.
  root-ne_sentinel : (y : Ptr) (k : Place) → y ≢ s → HoldsAt s over t y k → t.root ≢ s
  root-ne_sentinel y top ne h = λ e. ne (sym h ∙ e)
  root-ne_sentinel y (under d c p w k) ne h = root-ne_sentinel p k h.0 h.6

  pub below :
      (x : Tree) (d : Side) (c : Bool) (p : Ptr) (w : Tree) (k : Place)
      → IsAt s over t x (under d c p w k)
      → ptr s x ≢ t.root
  below leaf d c p w k z = λ e. root-ne_sentinel p k z.around.0 z.around.6 (sym e)
  below (node c' n a b) d c p w k z =
      parted n t.root (node c' n a b) (under d c p w k) (ground arith)
        (root-mem s over n d c p w k t z.around.6) (z.once n)

  apart :
      (x : Tree) (d e : Side) (c cq : Bool) (p q : Ptr) (a b : Tree) (k : Place)
      → IsAt s over t x (under d c p (build e cq q a b) k)
      → ptr s x ≢ q
  apart leaf d e c cq p q a b k z = λ r. (open_build s t e p cq q a b z.around.5).0 (sym r)
  apart (node c' n x y) d e c cq p q a b k z =
      λ r. ground (arith, z.once n, count-build e cq q a b n)

  side-at :
      (x : Tree) (d e : Side) (c cq : Bool) (p q : Ptr) (a b : Tree) (k : Place)
      → Hangs s over t x (under d c p (build e cq q a b) k)
      → side_in_parent (ptr s x) t ≡ d
  unfolding side_in_parent
  side-at x left e c cq p q a b k z =
      rw (z.link, ==_of_eq (ptr s x) (t.lefts p) (sym z.at.around.1))
  side-at x right e c cq p q a b k z =
      let far = apart x right e c cq p q a b k z.at in
      rw (z.link, z.at.around.2, ptr-build s e cq q a b, ==_of_ne (ptr s x) q far)

  -- A round begins.
  pub start :
      (x : Tree) (d e : Side) (c cq : Bool) (p q : Ptr) (a b : Tree) (k : Place) (fuel : ℕ)
      → Hangs s over t x (under d c p (build e cq q a b) k)
      → is_red x ≡ false
      → let next = delete_round s d (ptr s x) t in
        delete_loop s (suc fuel) (ptr s x) t ≡ delete_loop s fuel next.1 next.0
  start x d e c cq p q a b k fuel z r =
      let next = delete_round s d (ptr s x) t in
      go_on s over fuel (ptr s x) next.1 t next.0 d (below x d c p (build e cq q a b) k z.at)
        (red-ptr s over t p x z.at.black z.at.holds ∙ r) (side-at x d e c cq p q a b k z) refl

-- The loop at a place, for the recursion.
abbrev pub LoopAt : Ptr → Ptr → Place → Type 0
LoopAt s over k =
    (x : Tree) (t : Store) (h fuel : ℕ)
    → Hangs s over t x k
    → Balanced x h
    → BalancedAt k (suc h)
    → suc (depth k) < fuel
    → Repaired s over fuel (ptr s x) t (inorder (plug x k))

module _ (s over : Ptr) (t : Store) (x : Tree) (d : Side) (c : Bool) (p q : Ptr) (k : Place)
    (h fuel : ℕ) where
  -- From the second half of the round to the whole.
  pub through :
      (na fa : Tree)
      → Hangs s over t x (under d c p (build d false q na fa) k)
      → is_red x ≡ false
      → Next s over t x d c p q k h fuel na fa
      → Repaired s over
          (suc (suc fuel))
          (ptr s x)
          t
          (inorder (plug (build d c p x (build d false q na fa)) k))
  through na fa z r n =
      let w = build d false q na fa in
      let e : delete_round s d (ptr s x) t ≡ push_black s d (ptr s x) t =
        unfold delete_round in
        ap (push_black s d (ptr s x))
          (turn_black s over t x d c p w k z (is_red-build d false q na fa)) in
      let xs = inorder (plug (build d c p x w) k) in
      resume (suc (suc fuel)) (ptr s x) t xs
        (start s over t x d d c false p q na fa k (suc fuel) z r
          ∙ ap (λ (v : Store × Ptr). delete_loop s (suc fuel) v.1 v.0) e)
        n.1 refl n.0

module _ (s over : Ptr) (t : Store) (x : Tree) (d : Side) (p q : Ptr) (k : Place) (h fuel : ℕ) where
  -- The parent is black, and so are the sibling and its children: the next round is at the parent.
  pub lift_black :
      (na fa : Tree)
      → LoopAt s over k
      → Hangs s over t x (under d false p (build d false q na fa) k)
      → is_red x ≡ false
      → Balanced x h
      → Balanced na h
      → Balanced fa h
      → BalancedAt (under d false p (build d false q na fa) k) (suc h)
      → depth k ≤ fuel
      → is_red na ≡ false
      → is_red fa ≡ false
      → Repaired s over
          (suc (suc (suc fuel)))
          (ptr s x)
          t
          (inorder (plug (build d false p x (build d false q na fa)) k))
  lift_black na fa rec z r bx bn bf bk enough rn rf =
      let t' = recolor q true t in
      let w = build d false q na fa in
      let w' = build d true q na fa in
      let y = build d false p x w' in
      let z1 =
        up s over t' d false p x w' k
          (recolor_sibling s over t x d false p d false true q na fa k z.at) in
      let r1 =
        rec y t' (suc h) (suc (suc fuel)) (hang_node s over t' d false p x w' k z1)
          (build_black d p x w' h bx (build_red d q na fa h rn rf bn bf)) bk.1 (omega arith) in
      let e : delete_round s d (ptr s x) t ≡ (t', p) =
        unfold delete_round in
        ap (push_black s d (ptr s x))
          (turn_black s over t x d false p w k z (is_red-build d false q na fa))
        ∙ push_black-both s over t x d false p q na fa k z rn rf in
      let same =
        inorder-plug_eq y (build d false p x w) k
          (inorder-build d false p x x w' w refl (inorder-color d true false q na fa)) in
      let run =
        start s over t x d d false false p q na fa k (suc (suc fuel)) z r
        ∙ ap (λ (v : Store × Ptr). delete_loop s (suc (suc fuel)) v.1 v.0) e
        ∙ ap (λ v. delete_loop s (suc (suc fuel)) v t') (sym (ptr-build s d false p x w')) in
      resume (suc (suc (suc fuel))) (ptr s x) t (inorder (plug (build d false p x w) k)) run refl
        same r1
