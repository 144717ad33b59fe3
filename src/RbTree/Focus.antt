-- ===== src/RbTree/Focus.antt =====
-- A memory that holds a tree, seen from a place in it: moving the place, changing a colour and
-- rotating keep this view.
use mtcp_lua.Base.{◌+◌, ◌<◌, ◌≡◌, ◌≢◌, refl, Bool, false, arith, ap, sym, ◌∙◌}
use mathlib.Core.Path.{subst}
use mtcp_lua.RbTree.{Ptr, Side, left, right, opposite, Store, child, update, rotate}
use mtcp_lua.RbTree.Shape.{
  Tree, leaf, node, build, ptr, count, Place, top, under, plug, count_place, parent_at, Distinct,
  Holds, HoldsAt,
}
use mtcp_lua.RbTree.Frames.{
  Agree, HoldsNode, open_build, close_build, count-build, ptr-build, Holds-frame, HoldsAt-frame,
}
use mtcp_lua.RbTree.Rotation.Shape.{rotate_lem}

-- The memory `t` holds the tree `x` at the place `k`, no address occurs twice, and the sentinel
-- is black.
pub record IsAt (s over : Ptr) (t : Store) (x : Tree) (k : Place) : Type 0 where
  pub holds : Holds s t (parent_at over k) x
  pub around : HoldsAt s over t (ptr s x) k
  pub once : Distinct x k
  pub black : t.red s ≡ false

-- The memory holds the tree `x` from the root on. The parent of the root is not read by the code,
-- and may have any value.
abbrev pub IsTree : Ptr → Store → Tree → Type 0
IsTree s t x = (over : Ptr) × IsAt s over t x top

abbrev pub recolor : Ptr → Bool → Store → Store
recolor q c t = record t { red = update t.red q c }

abbrev pub is_red : Tree → Bool
is_red leaf = false
is_red (node c p l r) = c

pub build-opposite :
    (d : Side) (c : Bool) (p : Ptr) (a b : Tree) → build d c p a b ≡ build (opposite d) c p b a
build-opposite left c p a b = refl
build-opposite right c p a b = refl

pub ne_of_count : (p q : Ptr) (x : Tree) → 0 < count p x → count q x ≡ 0 → p ≢ q
ne_of_count p q x i z = λ e. ground arith

pub ne_of_place : (p q : Ptr) (k : Place) → 0 < count_place p k → count_place q k ≡ 0 → p ≢ q
ne_of_place p q k i z = λ e. ground arith

module _ (s over : Ptr) (t : Store) where
  pub open_at :
      (d : Side) (c : Bool) (p : Ptr) (a b : Tree) (k : Place)
      → IsAt s over t (build d c p a b) k
      → HoldsNode s t d (parent_at over k) c p a b
  open_at d c p a b k z = open_build s t d (parent_at over k) c p a b z.holds

  pub up :
      (d : Side) (c : Bool) (p : Ptr) (x w : Tree) (k : Place)
      → IsAt s over t x (under d c p w k)
      → IsAt s over t (build d c p x w) k
  up d c p x w k z =
      let hk = z.around in
      record {
        holds =
            close_build s t d (parent_at over k) c p x w
              (hk.0, hk.4, hk.1, hk.2, hk.3, z.holds, hk.5);
        around = rw ptr-build hk.6;
        once = λ r. omega (arith, z.once r, count-build d c p x w r);
        black = z.black;
      }

  pub down :
      (d : Side) (c : Bool) (p : Ptr) (x w : Tree) (k : Place)
      → IsAt s over t (build d c p x w) k
      → IsAt s over t x (under d c p w k)
  down d c p x w k z =
      let h = open_at d c p x w k z in
      record {
        holds = h.5;
        around = (
          h.0,
          h.2,
          h.3,
          h.4,
          h.1,
          h.6,
          subst (λ y. HoldsAt s over t y k) (ptr-build s d c p x w) z.around,
        );
        once = λ r. omega (arith, z.once r, count-build d c p x w r);
        black = z.black;
      }

  pub turn : (x y : Tree) (k : Place) → x ≡ y → IsAt s over t x k → IsAt s over t y k
  turn x y k e z = subst (λ v. IsAt s over t v k) e z

  pub recolor-IsAt :
      (d : Side) (c c' : Bool) (q : Ptr) (a b : Tree) (k : Place)
      → IsAt s over t (build d c q a b) k
      → IsAt s over (recolor q c' t) (build d c' q a b) k
  recolor-IsAt d c c' q a b k z = record {
    holds = close_build s u d (parent_at over k) c' q a b (
      h.0,
      h.1,
      same d a h.2,
      same (opposite d) b h.3,
      ground arith,
      part a na h.5,
      part b nb h.6,
    );
    around =
        HoldsAt-frame s t u over (ptr s (build d c' q a b)) k
          (λ p i. keep p (ne_of_place p q k i nk)) refl
          (subst (λ y. HoldsAt s over t y k) (ptr-build s d c q a b ∙ sym (ptr-build s d c' q a b))
            z.around);
    once = λ r. omega (arith, z.once r, count-build d c q a b r, count-build d c' q a b r);
    black = ground (arith, z.black);
  }
    where
      u : Store
      u = recolor q c' t

      h : HoldsNode s t d (parent_at over k) c q a b
      h = open_at d c q a b k z

      total : count q a + count q b + count_place q k ≡ 0
      total = ground (arith, z.once q, count-build d c q a b q)

      na : count q a ≡ 0
      na = omega (arith, total)

      nb : count q b ≡ 0
      nb = omega (arith, total)

      nk : count_place q k ≡ 0
      nk = omega (arith, total)

      keep : (p : Ptr) → p ≢ q → Agree t u p
      keep p ne = record { lefts = refl; rights = refl; parent = refl; red = ground arith }

      part : (x : Tree) → count q x ≡ 0 → Holds s t q x → Holds s u q x
      part x out = Holds-frame s t u q x λ p i. keep p (ne_of_count p q x i out)

      same : (d : Side) (x : Tree) → child d t q ≡ ptr s x → child d u q ≡ ptr s x
      same left x e = e
      same right x e = e

  pub rotate-IsAt :
      (d : Side) (cx cy : Bool) (x y : Ptr) (a b e : Tree) (k : Place)
      → IsAt s over t (build d cx x a (build d cy y b e)) k
      → IsAt s over (rotate s d x t) (build d cy y (build d cx x a b) e) k
        × ((rotate s d x t).key ≡ t.key)
  rotate-IsAt d cx cy x y a b e k z =
      let r =
        rotate_lem s over cx cy x y a b e k t d z.once z.holds
          (subst (λ v. HoldsAt s over t v k) (ptr-build s d cx x a (build d cy y b e)) z.around) in
      (
        record {
          holds = r.0;
          around =
              subst (λ v. HoldsAt s over (rotate s d x t) v k)
                (sym (ptr-build s d cy y (build d cx x a b) e)) r.1;
          once = λ p. omega (
            arith,
            z.once p,
            count-build d cx x a (build d cy y b e) p,
            count-build d cy y b e p,
            count-build d cy y (build d cx x a b) e p,
            count-build d cx x a b p,
          );
          black = ap (λ (f : Ptr → Bool). f s) r.2 ∙ z.black;
        },
        r.3,
      )

  pub red-ptr :
      (par : Ptr) (u : Tree) → t.red s ≡ false → Holds s t par u → t.red (ptr s u) ≡ is_red u
  red-ptr par leaf black h = black
  red-ptr par (node c p l r) black h = h.4

  -- The whole tree, from the root.
  pub plug-IsAt : (x : Tree) (k : Place) → IsAt s over t x k → IsAt s over t (plug x k) top
  plug-IsAt x top z = z
  plug-IsAt x (under d c q w k) z = plug-IsAt (build d c q x w) k (up d c q x w k z)
