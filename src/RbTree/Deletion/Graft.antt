-- ===== src/RbTree/Deletion/Graft.antt =====
-- A place within a subtree of a place.
use mathlib.Core.List.{append_assoc, append-nil}
use mtcp_lua.Base.{
  ℕ, zero, suc, ◌+◌, ◌≤◌, ◌<◌, ◌≡◌, inl, inr, refl, sym, ap, ◌∙◌, Bool, true, false, List, ◌∷◌,
  ◌++◌, arith,
}
use mtcp_lua.RbTree.{Ptr, Side, left, right, Store}
use mtcp_lua.RbTree.Shape.{Tree, node, build, count, inorder, Place, top, under, plug, count_place}
use mtcp_lua.RbTree.Frames.{count-build}
use mtcp_lua.RbTree.Focus.{IsAt, is_red, up, down}
use mtcp_lua.RbTree.Balance.{Balanced, BalancedAt, Fits, is_red-build, red_at}
use mtcp_lua.RbTree.Order.{before, after}
use mtcp_lua.RbTree.Insertion.Attach.{height}
use mtcp_lua.RbTree.Insertion.Loop.{depth}

-- The place `j` of a subtree, when that stands at the place `k`.
unfoldable pub graft : Place → Place → Place
graft top k = k
graft (under d c p w j) k = under d c p w (graft j k)

pub plug-graft : (x : Tree) (j k : Place) → plug x (graft j k) ≡ plug (plug x j) k
unfolding graft
plug-graft x top k = refl
plug-graft x (under d c p w j) k = plug-graft (build d c p x w) j k

pub graft-top : (j : Place) → graft j top ≡ j
unfolding graft
graft-top top = refl
graft-top (under d c p w j) = ap (under d c p w) (graft-top j)

pub count_place-graft :
    (q : Ptr) (j k : Place) → count_place q (graft j k) ≡ count_place q j + count_place q k
unfolding graft
count_place-graft q top k = omega arith
count_place-graft q (under d c p w j) k = omega (arith, count_place-graft q j k)

pub count-plug : (q : Ptr) (x : Tree) (j : Place) → count q (plug x j) ≡ count q x + count_place q j
count-plug q x top = omega arith
count-plug q x (under d c p w j) =
    omega (arith, count-plug q (build d c p x w) j, count-build d c p x w q)

pub before-graft : (j k : Place) → before (graft j k) ≡ before k ++ before j
unfolding graft
before-graft top k = sym (append-nil (before k))
before-graft (under left c p w j) k = before-graft j k
before-graft (under right c p w j) k = rw (before-graft j k) (simp append_assoc)

pub after-graft : (j k : Place) → after (graft j k) ≡ after j ++ after k
unfolding graft
after-graft top k = refl
after-graft (under left c p w j) k =
    rw (after-graft j k)
      (ap (λ (xs : List Ptr). p ∷ xs) (sym (append_assoc (inorder w) (after j) (after k))))
after-graft (under right c p w j) k = after-graft j k

pub depth-graft : (j k : Place) → depth (graft j k) ≡ depth j + depth k
unfolding graft
depth-graft top k = omega arith
depth-graft (under d c p w j) k = omega (arith, depth-graft j k)

-- The black height at a place does not depend on which node stands above.
pub BalancedAt-renamed :
    (j k : Place) (d : Side) (c : Bool) (n m : Ptr) (w : Tree) (h : ℕ)
    → BalancedAt (graft j (under d c n w k)) h
    → BalancedAt (graft j (under d c m w k)) h
unfolding graft
BalancedAt-renamed top k d true n m w h b = b
BalancedAt-renamed top k d false n m w h b = b
BalancedAt-renamed (under e false p v j) k d c n m w h b =
    (b.0, BalancedAt-renamed j k d c n m w (suc h) b.1)
BalancedAt-renamed (under e true p v j) k d c n m w h b =
    (b.0, b.1, red_at-renamed j ∙ b.2, BalancedAt-renamed j k d c n m w h b.3)
  where
    red_at-renamed :
        (j : Place) → red_at (graft j (under d c m w k)) ≡ red_at (graft j (under d c n w k))
    red_at-renamed top = refl
    red_at-renamed (under e c' p v j) = refl

module _ (s over : Ptr) (t : Store) where
  pub up_all : (x : Tree) (j k : Place) → IsAt s over t x (graft j k) → IsAt s over t (plug x j) k
  unfolding graft
  up_all x top k z = z
  up_all x (under d c p w j) k z =
      up_all (build d c p x w) j k (up s over t d c p x w (graft j k) z)

  pub down_all : (x : Tree) (j k : Place) → IsAt s over t (plug x j) k → IsAt s over t x (graft j k)
  unfolding graft
  down_all x top k z = z
  down_all x (under d c p w j) k z =
      down s over t d c p x w (graft j k) (down_all (build d c p x w) j k z)

-- The parts of a tree that keeps the rules keep them.
pub open_balance :
    (x : Tree) (k : Place) (h : ℕ)
    → Balanced (plug x k) h
    → is_red (plug x k) ≡ false
    → (h' : ℕ) × Balanced x h' × BalancedAt k h' × Fits x k
open_balance x top h b r = (h, b, tt, inl r)
open_balance x (under d c p w k) h b r =
    let (h', bx, bk, fits) = open_balance (build d c p x w) k h b r in open_frame d c h' bx bk fits
  where
    red_build :
        (d : Side) (h : ℕ)
        → Balanced (build d true p x w) h
        → (is_red x ≡ false) × (is_red w ≡ false) × Balanced x h × Balanced w h
    red_build left h b = b
    red_build right h b = (b.1, b.0, b.3, b.2)

    black_build :
        (d : Side) (h : ℕ) → Balanced (build d false p x w) (suc h) → Balanced x h × Balanced w h
    black_build left h b = b
    black_build right h b = (b.1, b.0)

    black_zero : (d : Side) → Balanced (build d false p x w) 0 → ⊥
    black_zero left b = b
    black_zero right b = b

    black_above : (d : Side) → Fits (build d true p x w) k → red_at k ≡ false
    black_above d (inl e) = absurd (cc (is_red-build d true p x w))
    black_above d (inr e) = e

    open_frame :
        (d : Side) (c : Bool) (h : ℕ)
        → Balanced (build d c p x w) h
        → BalancedAt k h
        → Fits (build d c p x w) k
        → (h' : ℕ) × Balanced x h' × BalancedAt (under d c p w k) h' × Fits x (under d c p w k)
    open_frame d true h b bk fits =
        let (rx, rw', bx, bw) = red_build d h b in
        (h, bx, (rw', bw, black_above d fits, bk), inl rx)
    open_frame d false zero b bk fits = absurd (black_zero d b)
    open_frame d false (suc h) b bk fits =
        let (bx, bw) = black_build d h b in (h, bx, (bw, bk), inr refl)

pub depth-le-height : (x : Tree) (k : Place) → height x + depth k ≤ height (plug x k)
depth-le-height x top = omega arith
depth-le-height x (under d c p w k) = omega (arith, depth-le-height (build d c p x w) k, lower d)
  where
    lower : (d : Side) → height x + 1 ≤ height (build d c p x w)
    lower left = unfold height in ground arith
    lower right = unfold height in ground arith

-- A node of a tree is not as deep as the tree is high.
pub depth-lt-height :
    (c : Bool) (p : Ptr) (l r : Tree) (k : Place) → depth k < height (plug (node c p l r) k)
depth-lt-height c p l r k =
    let high : 1 ≤ height (node c p l r) = unfold height in ground arith in
    omega (arith, high, depth-le-height (node c p l r) k)

pub height-below :
    (c : Bool) (p : Ptr) (l r : Tree) (k : Place) → height r < height (plug (node c p l r) k)
height-below c p l r k =
    let high : height r + 1 ≤ height (node c p l r) = unfold height in ground arith in
    omega (arith, high, depth-le-height (node c p l r) k)
