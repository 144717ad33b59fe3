-- ===== src/RbTree/Insertion/Attach.antt =====
-- The place that the descent of an insertion reaches, and the new node hung up there.
use Prim.Native.Nat.{max}
use mtcp_lua.Base.{
  ℕ, suc, ◌+◌, ◌≤◌, ◌≡◌, ◌≢◌, refl, Bool, true, false, arith, ◌==◌, eq_of_==, Bool-cases, inl, inr,
}
use mtcp_lua.RbTree.{Ptr, Side, left, right, opposite, Store, InsertPt, child, goes_left, attach}
use mtcp_lua.RbTree.Shape.{
  Tree, leaf, node, ptr, one_if, count, Place, under, count_place, parent_at,
}
use mtcp_lua.RbTree.Frames.{Agree, Holds-frame, HoldsAt-frame}
use mtcp_lua.RbTree.Focus.{IsAt, ne_of_count, ne_of_place}

-- The place at which a node with key `v` is hung, by the test `i`, below the place `k` of `x`.
unfoldable pub descend : InsertPt → (Ptr → ℕ) → ℕ → Tree → Place → Place
descend i key v leaf k = k
descend i key v (node c p l r) k = elim (goes_left i v (key p)) [
  | true ↦ descend i key v l (under left c p r k)
  | false ↦ descend i key v r (under right c p l k)
]

module _ (i : InsertPt) (key : Ptr → ℕ) (v : ℕ) (c : Bool) (p : Ptr) (l r : Tree) (k : Place) where
  pub descend-left :
      goes_left i v (key p) ≡ true
      → descend i key v (node c p l r) k ≡ descend i key v l (under left c p r k)
  unfolding descend
  descend-left e = rw (e, descend)

  pub descend-right :
      goes_left i v (key p) ≡ false
      → descend i key v (node c p l r) k ≡ descend i key v r (under right c p l k)
  unfolding descend
  descend-right e = rw (e, descend)

unfoldable pub height : Tree → ℕ
height leaf = 0
height (node c p l r) = suc (max (height l) (height r))

pub once_new :
    (n q : Ptr) (k : Place)
    → count_place n k ≡ 0
    → count_place q k ≤ 1
    → one_if (q == n) + 0 + 0 + count_place q k ≤ 1
once_new n q k fresh h = elim (Bool-cases (q == n)) [
  | inl e ↦ rw (e, eq_of_== q n e, fresh) (omega arith)
  | inr e ↦ rw e (omega arith)
]

-- The new node at its place.
module _ (s over : Ptr) (n : Ptr) (ns : n ≢ s) where
  pub attach-IsAt :
      (d : Side) (c : Bool) (p : Ptr) (w : Tree) (k : Place) (t : Store)
      → count_place n (under d c p w k) ≡ 0
      → IsAt s over t leaf (under d c p w k)
      → IsAt s over (attach s d p n t) (node true n leaf leaf) (under d c p w k)
  unfolding attach
  attach-IsAt d c p w k t fresh z =
      let hk = z.around in
      record {
        holds = (ns, parent_new d, left_new d, right_new d, red_new d, tt, tt);
        around = (
          hk.0,
          link d,
          other d hk.2,
          colour d hk.3,
          over_p d hk.4,
          Holds-frame s t u p w (λ q i. keep d q (ne_of_count q n w i nw) (ne_of_count q p w i pw))
              hk.5,
          HoldsAt-frame s t u over p k
              (λ q i. keep d q (ne_of_place q n k i nk) (ne_of_place q p k i pk)) (root_same d)
              hk.6,
        );
        once = λ q. once q;
        black = black_same d;
      }
    where
      u : Store
      u = attach s d p n t

      nw : count n w ≡ 0
      nw = omega (arith, fresh)

      nk : count_place n k ≡ 0
      nk = omega (arith, fresh)

      np : n ≢ p
      np = λ e. ground arith

      pw : count p w ≡ 0
      pw = ground (arith, z.once p)

      pk : count_place p k ≡ 0
      pk = ground (arith, z.once p)

      once :
          (q : Ptr) → one_if (q == n) + 0 + 0 + (one_if (q == p) + count q w + count_place q k) ≤ 1
      once q = once_new n q (under d c p w k) fresh (omega (arith, z.once q))

      parent_new : (d : Side) → (attach s d p n t).parent n ≡ p
      parent_new left = ground arith
      parent_new right = ground arith

      left_new : (d : Side) → (attach s d p n t).lefts n ≡ s
      left_new left = ground arith
      left_new right = ground arith

      right_new : (d : Side) → (attach s d p n t).rights n ≡ s
      right_new left = ground arith
      right_new right = ground arith

      red_new : (d : Side) → (attach s d p n t).red n ≡ true
      red_new left = ground arith
      red_new right = ground arith

      link : (d : Side) → child d (attach s d p n t) p ≡ n
      link left = ground arith
      link right = ground arith

      other :
          (d : Side)
          → child (opposite d) t p ≡ ptr s w
          → child (opposite d) (attach s d p n t) p ≡ ptr s w
      other left h = ground arith
      other right h = ground arith

      colour : (d : Side) → t.red p ≡ c → (attach s d p n t).red p ≡ c
      colour left h = ground arith
      colour right h = ground arith

      over_p :
          (d : Side)
          → t.parent p ≡ parent_at over k
          → (attach s d p n t).parent p ≡ parent_at over k
      over_p left h = ground arith
      over_p right h = ground arith

      root_same : (d : Side) → (attach s d p n t).root ≡ t.root
      root_same left = refl
      root_same right = refl

      black_same : (d : Side) → (attach s d p n t).red s ≡ false
      black_same left = ground (arith, z.black)
      black_same right = ground (arith, z.black)

      keep : (d : Side) (q : Ptr) → q ≢ n → q ≢ p → Agree t (attach s d p n t) q
      keep left q qn qp = record {
        lefts = ground arith;
        rights = ground arith;
        parent = ground arith;
        red = ground arith;
      }
      keep right q qn qp = record {
        lefts = ground arith;
        rights = ground arith;
        parent = ground arith;
        red = ground arith;
      }
