-- ===== src/RbTree/Deletion/Repair.antt =====
-- The whole loop of `rbtree_delete`.
use mathlib.Core.Path.{subst}
use mathlib.Core.List.{append_assoc}
use mtcp_lua.Base.{
  ℕ, zero, suc, ap, ◌≤◌, ◌<◌, ◌≡◌, inl, inr, refl, ◌∙◌, Bool, true, false, arith, Bool-cases,
}
use mtcp_lua.RbTree.{
  Ptr, Side, left, right, Store, turn_sibling, push_black, delete_round, delete_loop,
}
use mtcp_lua.RbTree.Shape.{Tree, leaf, node, build, ptr, Place, top, under, plug, inorder}
use mtcp_lua.RbTree.Focus.{is_red}
use mtcp_lua.RbTree.Balance.{Balanced, BalancedAt, build_black, is_red-build}
use mtcp_lua.RbTree.Order.{inorder-plug_eq}
use mtcp_lua.RbTree.Insertion.Loop.{depth}
use mtcp_lua.RbTree.Deletion.Hangs.{Hangs}
use mtcp_lua.RbTree.Deletion.Push.{turn_red}
use mtcp_lua.RbTree.Deletion.Loop.{pushed_red, pushed_any}
use mtcp_lua.RbTree.Deletion.Goal.{Repaired, resume, stop_root, stop_red}
use mtcp_lua.RbTree.Deletion.Lift.{start, LoopAt, through, lift_black}

-- A black sibling.
black_sibling :
    (s over : Ptr) (t : Store) (x : Tree) (d : Side) (c : Bool) (p q : Ptr) (k : Place) (h fuel : ℕ)
    (na fa : Tree)
    → LoopAt s over k
    → Hangs s over t x (under d c p (build d false q na fa) k)
    → is_red x ≡ false
    → Balanced x h
    → Balanced na h
    → Balanced fa h
    → BalancedAt (under d c p (build d false q na fa) k) (suc h)
    → depth k ≤ fuel
    → Repaired s over
        (suc (suc (suc fuel)))
        (ptr s x)
        t
        (inorder (plug (build d c p x (build d false q na fa)) k))
black_sibling s over t x d true p q k h fuel na fa rec z r bx bn bf bk enough =
    through s over t x d true p q k h (suc fuel) na fa z r
      (pushed_any s over t x d p q k h (suc fuel) na fa z bx bn bf bk)
black_sibling s over t x d false p q k h fuel na fa rec z r bx bn bf bk enough =
    elim (Bool-cases (is_red fa)) [
      | inl ef ↦
          through s over t x d false p q k h (suc fuel) na fa z r
            (pushed_red s over t x d false p q k h (suc fuel) na fa z bx bn bf bk (inr ef))
      | inr ef ↦ elim (Bool-cases (is_red na)) [
        | inl en ↦
            through s over t x d false p q k h (suc fuel) na fa z r
              (pushed_red s over t x d false p q k h (suc fuel) na fa z bx bn bf bk (inl (en, ef)))
        | inr en ↦ lift_black s over t x d p q k h fuel na fa rec z r bx bn bf bk enough en ef
      ]
    ]

inorder-turned :
    (d : Side) (c : Bool) (p q : Ptr) (x na fa : Tree)
    → inorder (build d false q (build d true p x na) fa)
      ≡ inorder (build d c p x (build d true q na fa))
inorder-turned left c p q x na fa = simp append_assoc
inorder-turned right c p q x na fa = simp append_assoc

-- A red sibling, whose near child is the black node `m`.
red_sibling :
    (s over : Ptr) (t : Store) (x : Tree) (d : Side) (p q m : Ptr) (k : Place) (h fuel : ℕ)
    (ma mb fa : Tree)
    → Hangs s over t x (under d false p (build d true q (build d false m ma mb) fa) k)
    → is_red x ≡ false
    → Balanced x h
    → Balanced ma h
    → Balanced mb h
    → Balanced fa (suc h)
    → BalancedAt k (suc (suc h))
    → Repaired s over
        (suc (suc (suc fuel)))
        (ptr s x)
        t
        (inorder (plug (build d false p x (build d true q (build d false m ma mb) fa)) k))
red_sibling s over t x d p q m k h fuel ma mb fa z r bx ba bb bf bk =
    let na = build d false m ma mb in
    let w = build d true q na fa in
    let t' = turn_sibling s d (ptr s x) t in
    let (z', keys) = turn_red s over t x d false p q na fa k z in
    let k' = under d false q fa k in
    let b : BalancedAt (under d true p na k') (suc h) =
      (is_red-build d false m ma mb, build_black d m ma mb h ba bb, refl, (bf, bk)) in
    let n = pushed_any s over t' x d p m k' h (suc fuel) ma mb z' bx ba bb b in
    let e : delete_round s d (ptr s x) t ≡ push_black s d (ptr s x) t' =
      unfold delete_round in refl in
    let run =
      start s over t x d d false true p q na fa k (suc (suc fuel)) z r
      ∙ ap (λ (v : Store × Ptr). delete_loop s (suc (suc fuel)) v.1 v.0) e in
    resume (suc (suc (suc fuel))) (ptr s x) t (inorder (plug (build d false p x w) k)) run
      (n.1 ∙ keys)
      (inorder-plug_eq (build d false q (build d true p x na) fa) (build d false p x w) k
        (inorder-turned d false p q x na fa))
      n.0

-- A round at a black `x`, for each shape of the sibling `w`.
round_Repaired :
    (s over : Ptr) (t : Store) (x : Tree) (d : Side) (c : Bool) (p : Ptr) (w : Tree) (k : Place)
    (h fuel : ℕ)
    → LoopAt s over k
    → Hangs s over t x (under d c p w k)
    → is_red x ≡ false
    → Balanced x h
    → BalancedAt (under d c p w k) (suc h)
    → depth k ≤ fuel
    → Repaired s over (suc (suc (suc fuel))) (ptr s x) t (inorder (plug (build d c p x w) k))
round_Repaired s over t x d true p leaf k h fuel rec z r bx bk en = absurd bk.1
round_Repaired s over t x d false p leaf k h fuel rec z r bx bk en = absurd bk.0
round_Repaired s over t x left true p (node false q l y) k h fuel rec z r bx bk en =
    black_sibling s over t x left true p q k h fuel l y rec z r bx bk.1.0 bk.1.1 bk en
round_Repaired s over t x left false p (node false q l y) k h fuel rec z r bx bk en =
    black_sibling s over t x left false p q k h fuel l y rec z r bx bk.0.0 bk.0.1 bk en
round_Repaired s over t x right true p (node false q l y) k h fuel rec z r bx bk en =
    black_sibling s over t x right true p q k h fuel y l rec z r bx bk.1.1 bk.1.0 bk en
round_Repaired s over t x right false p (node false q l y) k h fuel rec z r bx bk en =
    black_sibling s over t x right false p q k h fuel y l rec z r bx bk.0.1 bk.0.0 bk en
round_Repaired s over t x d true p (node true q l y) k h fuel rec z r bx bk en = cc
round_Repaired s over t x left false p (node true q (node false m a b) y) k h fuel rec z r bx bk
      en =
    red_sibling s over t x left p q m k h fuel a b y z r bx bk.0.2.0 bk.0.2.1 bk.0.3 bk.1
round_Repaired s over t x left false p (node true q (node true m a b) y) k h fuel rec z r bx bk en =
    cc
round_Repaired s over t x left false p (node true q leaf y) k h fuel rec z r bx bk en =
    absurd bk.0.2
round_Repaired s over t x right false p (node true q l (node false m a b)) k h fuel rec z r bx bk
      en =
    red_sibling s over t x right p q m k h fuel b a l z r bx bk.0.3.1 bk.0.3.0 bk.0.2 bk.1
round_Repaired s over t x right false p (node true q l (node true m a b)) k h fuel rec z r bx bk
      en =
    cc
round_Repaired s over t x right false p (node true q l leaf) k h fuel rec z r bx bk en =
    absurd bk.0.3

black_Repaired :
    (s over : Ptr) (t : Store) (x : Tree) (d : Side) (c : Bool) (p : Ptr) (w : Tree) (k : Place)
    (h fuel : ℕ)
    → LoopAt s over k
    → Hangs s over t x (under d c p w k)
    → is_red x ≡ false
    → Balanced x h
    → BalancedAt (under d c p w k) (suc h)
    → suc (suc (depth k)) < fuel
    → Repaired s over fuel (ptr s x) t (inorder (plug (build d c p x w) k))
black_Repaired s over t x d c p w k h zero rec z r bx bk en = absurd (omega arith)
black_Repaired s over t x d c p w k h (suc zero) rec z r bx bk en = absurd (omega arith)
black_Repaired s over t x d c p w k h (suc (suc zero)) rec z r bx bk en = absurd (omega arith)
black_Repaired s over t x d c p w k h (suc (suc (suc fuel))) rec z r bx bk en =
    round_Repaired s over t x d c p w k h fuel rec z r bx bk (omega arith)

-- From a tree whose paths meet one black node less than its place asks for, the loop ends with the
-- red-black rules restored and the order of the nodes kept. Two rounds more than the place is deep
-- are enough.
pub delete_loop_Repaired : (s over : Ptr) (k : Place) → LoopAt s over k
delete_loop_Repaired s over top x t h zero z b bk en = absurd (omega arith)
delete_loop_Repaired s over top x t h (suc fuel) z b bk en =
    subst (λ n. Repaired s over (suc fuel) n t (inorder x)) z.at.around
      (stop_root s over fuel t x h z.at b)
delete_loop_Repaired s over (under d c p w k) (node true n a b) t h zero z bx bk en =
    absurd (omega arith)
delete_loop_Repaired s over (under d c p w k) (node true n a b) t h (suc fuel) z bx bk en =
    stop_red s over fuel t left n a b (under d c p w k) h z.at bx.2 bx.3 bk
delete_loop_Repaired s over (under d c p w k) leaf t h fuel z b bk en =
    black_Repaired s over t leaf d c p w k h fuel (delete_loop_Repaired s over k) z refl b bk en
delete_loop_Repaired s over (under d c p w k) (node false n l y) t h fuel z b bk en =
    black_Repaired s over t (node false n l y) d c p w k h fuel (delete_loop_Repaired s over k) z
      refl b bk en
