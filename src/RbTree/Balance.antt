-- ===== src/RbTree/Balance.antt =====
-- The red-black conditions on a tree, and the height that they allow.
use mtcp_lua.Base.{
  ℕ, zero, suc, ◌+◌, ◌*◌, ◌^◌, ◌≤◌, ◌≡◌, ◌⊎◌, inl, inr, refl, Bool, true, false, arith,
}
use native.Mathlib.Nat.{pow-suc}
use mtcp_lua.RbTree.{Ptr, Side, left, right}
use mtcp_lua.RbTree.Shape.{Tree, leaf, node, build, Place, top, under, plug, one_if}
use mtcp_lua.RbTree.Focus.{is_red}
use mtcp_lua.RbTree.Insertion.Attach.{height}

-- Every path down to an empty tree meets `h` black nodes, and no red node has a red child.
abbrev pub Balanced : Tree → ℕ → Type 0
Balanced leaf zero = Unit
Balanced leaf (suc h) = ⊥
Balanced (node true p l r) h = (is_red l ≡ false) × (is_red r ≡ false) × Balanced l h × Balanced r h
Balanced (node false p l r) zero = ⊥
Balanced (node false p l r) (suc h) = Balanced l h × Balanced r h

-- Whether a red node at the place breaks a rule; the root counts as such a place.
abbrev pub red_at : Place → Bool
red_at top = true
red_at (under d c p w k) = c

-- The surroundings keep the rules for a tree of black height `h` at the place.
abbrev pub BalancedAt : Place → ℕ → Type 0
BalancedAt top h = Unit
BalancedAt (under d true p w k) h =
    (is_red w ≡ false) × Balanced w h × (red_at k ≡ false) × BalancedAt k h
BalancedAt (under d false p w k) h = Balanced w h × BalancedAt k (suc h)

abbrev pub Fits : Tree → Place → Type 0
Fits x k = (is_red x ≡ false) ⊎ (red_at k ≡ false)

pub build_red :
    (d : Side) (p : Ptr) (a b : Tree) (h : ℕ)
    → is_red a ≡ false
    → is_red b ≡ false
    → Balanced a h
    → Balanced b h
    → Balanced (build d true p a b) h
build_red left p a b h ra rb ha hb = (ra, rb, ha, hb)
build_red right p a b h ra rb ha hb = (rb, ra, hb, ha)

pub build_black :
    (d : Side) (p : Ptr) (a b : Tree) (h : ℕ)
    → Balanced a h
    → Balanced b h
    → Balanced (build d false p a b) (suc h)
build_black left p a b h ha hb = (ha, hb)
build_black right p a b h ha hb = (hb, ha)

pub is_red-build : (d : Side) (c : Bool) (p : Ptr) (a b : Tree) → is_red (build d c p a b) ≡ c
is_red-build left c p a b = refl
is_red-build right c p a b = refl

pub plug-Balanced :
    (x : Tree) (k : Place) (h : ℕ)
    → Fits x k
    → Balanced x h
    → BalancedAt k h
    → (h' : ℕ) × Balanced (plug x k) h'
plug-Balanced x top h f b s = (h, b)
plug-Balanced x (under d true p w k) h (inl black) b s =
    plug-Balanced (build d true p x w) k h (inr s.2) (build_red d p x w h black s.0 b s.1) s.3
plug-Balanced x (under d true p w k) h (inr e) b s = cc
plug-Balanced x (under d false p w k) h f b s =
    plug-Balanced (build d false p x w) k (suc h) (inl (is_red-build d false p x w))
      (build_black d p x w h b s.0) s.1

unfoldable pub size : Tree → ℕ
size leaf = 0
size (node c p l r) = suc (size l + size r)

-- A tree that keeps the rules is at most twice as high as its black height, and one more for a
-- red root.
pub height-le : (x : Tree) (h : ℕ) → Balanced x h → height x ≤ 2 * h + one_if (is_red x)
unfolding height
height-le leaf zero b = omega arith
height-le leaf (suc h) b = absurd b
height-le (node true p l r) h b = ground (arith, height-le l h b.2, height-le r h b.3)
height-le (node false p l r) zero b = absurd b
height-le (node false p l r) (suc h) b =
    ground (arith, height-le l h b.0, height-le r h b.1, one_if-le (is_red l), one_if-le (is_red r))
  where
    one_if-le : (c : Bool) → one_if c ≤ 1
    one_if-le true = omega arith
    one_if-le false = omega arith

-- The nodes of a tree of black height `h` are at least 2 ^ h - 1.
pub pow-le-size : (x : Tree) (h : ℕ) → Balanced x h → 2 ^ h ≤ size x + 1
unfolding size
pow-le-size leaf zero b = omega arith
pow-le-size leaf (suc h) b = absurd b
pow-le-size (node true p l r) h b = omega (arith, pow-le-size l h b.2)
pow-le-size (node false p l r) zero b = absurd b
pow-le-size (node false p l r) (suc h) b =
    rw pow-suc (omega (arith, pow-le-size l h b.0, pow-le-size r h b.1))
