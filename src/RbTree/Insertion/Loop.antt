-- ===== src/RbTree/Insertion/Loop.antt =====
-- The loop of `rbtree_insert` ends, and does to the tree what `insert_fix` says.
use mtcp_lua.Base.{
  ℕ, zero, suc, ap, ◌<◌, ◌≡◌, ◌≢◌, refl, sym, ◌∙◌, Bool, true, false, not, ◌&&◌, some, arith, ◌==◌,
  ==_of_eq, ==_of_ne,
}
use mtcp_lua.RbTree.{
  Ptr, Side, left, right, opposite, Store, rotate, insert_round, parent_side, insert_loop,
}
use mtcp_lua.RbTree.Shape.{Tree, leaf, node, build, count, Place, top, under, plug}
use mtcp_lua.RbTree.Frames.{open_build, count-build}
use mtcp_lua.RbTree.Links.{root-mem}
use mtcp_lua.RbTree.Focus.{IsAt, recolor, open_at, up, turn, plug-IsAt, is_red}
use mtcp_lua.RbTree.Insertion.Fix.{lift, insert_fix}
use mtcp_lua.RbTree.Insertion.Round.{
  recolored, lifted, parent_side-at, insert_round-recolored, insert_round-outer, inner_rotated,
  insert_round-inner,
}

abbrev pub depth : Place → ℕ
depth top = 0
depth (under d c p w k) = suc (depth k)

-- The root of the surroundings, if there are any, is black.
abbrev pub RootBlack : Place → Type 0
RootBlack top = Unit
RootBlack (under d c p w top) = c ≡ false
RootBlack (under d c p w (under d' c' g u k)) = RootBlack (under d' c' g u k)

RootBlack-above :
    (d : Side) (c : Bool) (p : Ptr) (w : Tree) (k : Place)
    → RootBlack (under d c p w k)
    → RootBlack k
RootBlack-above d c p w top h = tt
RootBlack-above d c p w (under d' c' g u k) h = h

-- The loop, run on `fuel`, ends with a memory that holds `x`, and no key has changed.
abbrev pub Ends : Ptr → Ptr → ℕ → Ptr → Store → Tree → Type 0
Ends s over fuel n t x =
    (t' : Store) × (insert_loop s fuel n t ≡ some t') × IsAt s over t' x top × (t'.key ≡ t.key)

module _ (s over : Ptr) where
  stop :
      (fuel : ℕ) (n : Ptr) (t : Store)
      → (not (n == t.root) && t.red (t.parent n)) ≡ false
      → insert_loop s (suc fuel) n t ≡ some t
  unfolding insert_loop
  stop fuel n t h = rw h

  go_on :
      (fuel : ℕ) (n n' : Ptr) (t t' : Store) (d : Side)
      → n ≢ t.root
      → t.red (t.parent n) ≡ true
      → parent_side n t ≡ d
      → insert_round s d n t ≡ (t', n')
      → insert_loop s (suc fuel) n t ≡ insert_loop s fuel n' t'
  unfolding insert_loop
  go_on fuel n n' t t' d far red side next = rw (==_of_ne n t.root far, red, side, next)

  stop-black :
      (fuel : ℕ) (n : Ptr) (t : Store)
      → t.red (t.parent n) ≡ false
      → insert_loop s (suc fuel) n t ≡ some t
  stop-black fuel n t h = stop fuel n t (ground arith)

  below_root :
      (t : Store) (n : Ptr) (x w : Tree) (d : Side) (c : Bool) (p : Ptr) (k : Place)
      → 0 < count n x
      → IsAt s over t x (under d c p w k)
      → n ≢ t.root
  below_root t n x w d c p k i z =
      λ e. ground (arith, root-mem s over n d c p w k t z.around.6, z.once n)

  -- After a lift the loop stops at once.
  lifted_Ends :
      (fuel : ℕ) (t t' : Store) (n n' m g : Ptr) (d : Side) (a b u y : Tree) (k : Place)
      → insert_loop s (suc (suc fuel)) n t ≡ insert_loop s (suc fuel) n' t'
      → IsAt s over t' (build d false m a (build d true g b u)) k
      → t'.parent n' ≡ m
      → t'.key ≡ t.key
      → y ≡ build d false m a (build d true g b u)
      → Ends s over (suc (suc fuel)) n t (plug y k)
  lifted_Ends fuel t t' n n' m g d a b u y k e z up' keys same =
      let o = open_at s over t' d false m a (build d true g b u) k z in
      (
        t',
        e ∙ stop-black fuel n' t' (ap t'.red up' ∙ o.4),
        plug-IsAt s over t' y k
            (turn s over t' (build d false m a (build d true g b u)) y k (sym same) z),
        keys,
      )

  insert_loop_outer :
      (fuel : ℕ) (d : Side) (t : Store) (c : Bool) (n p g : Ptr) (a b w u : Tree) (k : Place)
      → IsAt s over t (node true n a b) (under d true p w (under d c g u k))
      → is_red u ≡ false
      → Ends s over (suc (suc fuel)) n t (plug (lift d d p g (node true n a b) w u) k)
  insert_loop_outer fuel d t c n p g a b w u k z black =
      let x = node true n a b in
      let far = below_root t n x w d true p (under d c g u k) (ground arith) z in
      let red : t.red (t.parent n) ≡ true = ap t.red z.holds.1 ∙ z.around.3 in
      let r = lifted s over t d c true p g x w u k (
        up s over t d c g (build d true p x w) u k
          (up s over t d true p x w (under d c g u k) z)) in
      let t' = rotate s (opposite d) g (recolor g true (recolor p false t)) in
      let o = open_at s over t' d false p x (build d true g w u) k r.0 in
      lifted_Ends fuel t t' n n p g d x w u (lift d d p g x w u) k
        (go_on (suc fuel) n n t t' d far red (parent_side-at s over t d d c true n p g a b w u k z)
          (insert_round-outer s over t d c n p g a b w u k z black))
        r.0 o.5.1 r.1 (same d)
    where
      same :
          (d : Side)
          → lift d d p g (node true n a b) w u
            ≡ build d false p (node true n a b) (build d true g w u)
      same left = refl
      same right = refl

  insert_loop_inner :
      (fuel : ℕ) (e : Side) (t : Store) (c : Bool) (n p g : Ptr) (a b w u : Tree) (k : Place)
      → IsAt s over t (build e true n a b) (under (opposite e) true p w (under e c g u k))
      → is_red u ≡ false
      → Ends s over
          (suc (suc fuel))
          n
          t
          (plug (build e false n (build e true p w a) (build e true g b u)) k)
  insert_loop_inner fuel e t c n p g a b w u k z black =
      let x = build e true n a b in
      let h = open_at s over t e true n a b (under (opposite e) true p w (under e c g u k)) z in
      let far =
        below_root t n x w (opposite e) true p (under e c g u k)
          (ground (arith, count-build e true n a b n)) z in
      let red : t.red (t.parent n) ≡ true = ap t.red h.1 ∙ z.around.3 in
      let (z1, keys1) = inner_rotated s over t e c n p g a b w u k z in
      let t1 = rotate s e p t in
      let (z2, keys2) =
        lifted s over t1 e c true n g (build e true p w a) b u k
          (up s over t1 e c g (build e true n (build e true p w a) b) u k z1) in
      let t' = rotate s (opposite e) g (recolor g true (recolor n false t1)) in
      let o = open_at s over t' e false n (build e true p w a) (build e true g b u) k z2 in
      let o2 = open_build s t' e n true p w a o.5 in
      lifted_Ends fuel t t' n p n g e (build e true p w a) b u
        (build e false n (build e true p w a) (build e true g b u)) k
        (go_on (suc fuel) n p t t' e far red (side z)
          (insert_round-inner s over t e c n p g a b w u k z black))
        z2 o2.1 (keys2 ∙ keys1) refl
    where
      side :
          IsAt s over t (build e true n a b) (under (opposite e) true p w (under e c g u k))
          → parent_side n t ≡ e
      side = side_at e
        where
          side_at :
              (e : Side)
              → IsAt s over t (build e true n a b) (under (opposite e) true p w (under e c g u k))
              → parent_side n t ≡ e
          side_at left = parent_side-at s over t right left c true n p g a b w u k
          side_at right = parent_side-at s over t left right c true n p g b a w u k

  -- The four ways in which `node`, its parent and its grandparent can hang, with a black uncle.
  insert_loop_lift :
      (fuel : ℕ) (d d' : Side) (t : Store) (c : Bool) (n p g : Ptr) (a b w u : Tree) (k : Place)
      → IsAt s over t (node true n a b) (under d true p w (under d' c g u k))
      → is_red u ≡ false
      → Ends s over (suc (suc fuel)) n t (plug (lift d d' p g (node true n a b) w u) k)
  insert_loop_lift fuel left left t c n p g a b w u k =
      insert_loop_outer fuel left t c n p g a b w u k
  insert_loop_lift fuel right right t c n p g a b w u k =
      insert_loop_outer fuel right t c n p g a b w u k
  insert_loop_lift fuel right left t c n p g a b w u k =
      insert_loop_inner fuel left t c n p g a b w u k
  insert_loop_lift fuel left right t c n p g a b w u k =
      insert_loop_inner fuel right t c n p g b a w u k

  root_stop : (fuel : ℕ) (n : Ptr) (t : Store) → t.root ≡ n → insert_loop s (suc fuel) n t ≡ some t
  root_stop fuel n t e = stop fuel n t (rw (==_of_eq n t.root (sym e)))

  -- After three changes of colour the loop goes on at the grandparent.
  recolored_Ends :
      (fuel : ℕ) (d d' : Side) (t t' : Store) (c : Bool) (n p g q : Ptr) (a b w ua ub y : Tree)
      (k : Place)
      → IsAt s over t (node true n a b) (under d true p w (under d' c g (node true q ua ub) k))
      → t' ≡ recolor g true (recolor q false (recolor p false t))
      → t'.key ≡ t.key
      → Ends s over fuel g t' y
      → Ends s over (suc fuel) n t y
  recolored_Ends fuel d d' t t' c n p g q a b w ua ub y k z e keys (v, run, at, same) =
      let u = node true q ua ub in
      let far = below_root t n (node true n a b) w d true p (under d' c g u k) (ground arith) z in
      let red : t.red (t.parent n) ≡ true = ap t.red z.holds.1 ∙ z.around.3 in
      (
        v,
        go_on fuel n g t t' d' far red (parent_side-at s over t d d' c true n p g a b w u k z) (
              insert_round-recolored s over t d d' c n p g a b w k q ua ub z
              ∙ ap (λ (x : Store). (x, g)) (sym e))
            ∙ run,
        at,
        same ∙ keys,
      )

  -- With enough fuel the loop ends, from every place of a red node.
  pub insert_loop_Ends :
      (fuel : ℕ) (t : Store) (n : Ptr) (a b : Tree) (k : Place)
      → depth k < fuel
      → RootBlack k
      → IsAt s over t (node true n a b) k
      → Ends s over fuel n t (insert_fix (node true n a b) k)
  unfolding insert_fix
  insert_loop_Ends zero t n a b k h rb z = absurd (omega arith)
  insert_loop_Ends (suc fuel) t n a b top h rb z = (t, root_stop fuel n t z.around, z, refl)
  insert_loop_Ends (suc fuel) t n a b (under d false p w k) h rb z = (
    t,
    stop-black fuel n t (ap t.red z.holds.1 ∙ z.around.3),
    plug-IsAt s over t (node true n a b) (under d false p w k) z,
    refl,
  )
  insert_loop_Ends (suc fuel) t n a b (under d true p w top) h rb z = cc
  insert_loop_Ends (suc zero) t n a b (under d true p w (under d' c g u k)) h rb z =
      absurd (omega arith)
  insert_loop_Ends (suc (suc fuel)) t n a b (under d true p w (under d' c g leaf k)) h rb z =
      insert_loop_lift fuel d d' t c n p g a b w leaf k z refl
  insert_loop_Ends (suc (suc fuel)) t n a b (under d true p w (under d' c g (node false q ua ub) k))
        h rb z =
      insert_loop_lift fuel d d' t c n p g a b w (node false q ua ub) k z refl
  insert_loop_Ends (suc (suc fuel)) t n a b
        (under d true p w (under left c g (node true q ua ub) k)) h rb z =
      let t' = recolor g true (recolor q false (recolor p false t)) in
      let u' = node false q ua ub in
      let x' = build d false p (node true n a b) w in
      recolored_Ends (suc fuel) d left t t' c n p g q a b w ua ub (insert_fix (node true g x' u') k)
        k z refl refl
        (insert_loop_Ends (suc fuel) t' g x' u' k (omega arith)
          (RootBlack-above left c g (node true q ua ub) k rb)
          (recolored s over t d left c p g q (node true n a b) w ua ub k z))
  insert_loop_Ends (suc (suc fuel)) t n a b
        (under d true p w (under right c g (node true q ua ub) k)) h rb z =
      let t' = recolor g true (recolor q false (recolor p false t)) in
      let u' = node false q ua ub in
      let x' = build d false p (node true n a b) w in
      recolored_Ends (suc fuel) d right t t' c n p g q a b w ua ub
        (insert_fix (node true g u' x') k) k z refl refl
        (insert_loop_Ends (suc fuel) t' g u' x' k (omega arith)
          (RootBlack-above right c g (node true q ua ub) k rb)
          (recolored s over t d right c p g q (node true n a b) w ua ub k z))
