-- ===== src/RbTree/Walks.antt =====
-- What `rbtree_find` finds and `rbtree_traverse` prints in a memory that holds a tree.
use native.Mathlib.Decide.{dec_lt}
use mathlib.Core.Path.{subst}
use mtcp_lua.Base.{
  ℕ, zero, suc, ap, ◌+◌, ◌*◌, ◌^◌, ◌≤◌, ◌<◌, ◌≡◌, ◌⊎◌, refl, sym, ◌∙◌, Bool, true, false, some,
  List, [], ◌∷◌, ◌++◌, arith, ltb, ◌==◌, length, eq_of_==, Bool-cases, inl, inr,
}
use mtcp_lua.RbTree.{Ptr, null, Store, find_from, rbtree_find}
use mtcp_lua.RbTree.Shape.{Tree, leaf, node, ptr, one_if, count, inorder, Holds}
use mtcp_lua.RbTree.Order.{All, Sorted, Sorted-left, Sorted-right, Sorted-below}
use mtcp_lua.RbTree.Sequence.{occurs, occurs-inorder, Represents, height-lt}
use mtcp_lua.RbTree.Insertion.Attach.{height}

pub All-occurs : (P : Ptr → Type 0) (p : Ptr) (ps : List Ptr) → All P ps → 0 < occurs p ps → P p
All-occurs P p [] a i = absurd (omega (arith, i))
All-occurs P p (q ∷ ps) a i = elim (Bool-cases (p == q)) [
  | inl e ↦ subst P (sym (eq_of_== p q e)) a.0
  | inr e ↦ All-occurs P p ps a.1 (omega (arith, i, ap one_if e))
]

module _ (f : Ptr → ℕ) (n : Ptr) (l r : Tree) (p : Ptr) (so : Sorted f (inorder l ++ n ∷ inorder r))
    (i : 0 < one_if (p == n) + count p l + count p r) where
  -- A node with a smaller value than the root's is on the left, one with a greater on the right.
  left_side : f p < f n → 0 < count p l
  left_side lt = elim (dec_lt 0 (count p l)) [ yes j ↦ j | no z ↦ absurd (not_here (eq_or z) lt) ]
    where
      eq_or : ¬ (0 < count p l) → (p ≡ n) ⊎ (0 < count p r)
      eq_or z = ground (arith, i)

      not_here : (p ≡ n) ⊎ (0 < count p r) → f p < f n → ⊥
      not_here (inl e) lt = omega (arith, ap f e, lt)
      not_here (inr j) lt = omega (
        arith,
        lt,
        All-occurs (λ q. f n ≤ f q) p (inorder r) (Sorted-right f (inorder l) (n ∷ inorder r) so).0
            (omega (arith, j, occurs-inorder p r)),
      )

  right_side : f n < f p → 0 < count p r
  right_side lt = elim (dec_lt 0 (count p r)) [ yes j ↦ j | no z ↦ absurd (not_here (eq_or z) lt) ]
    where
      eq_or : ¬ (0 < count p r) → (p ≡ n) ⊎ (0 < count p l)
      eq_or z = ground (arith, i)

      not_here : (p ≡ n) ⊎ (0 < count p l) → f n < f p → ⊥
      not_here (inl e) lt = omega (arith, ap f e, lt)
      not_here (inr j) lt = omega (
        arith,
        lt,
        All-occurs (λ q. f q ≤ f n) p (inorder l) (Sorted-below f (inorder l) n (inorder r) so)
            (omega (arith, j, occurs-inorder p l)),
      )

count_self : (c : Bool) (n : Ptr) (l r : Tree) → 0 < count n (node c n l r)
count_self c n l r = ground arith

lt_of_test : (a b : ℕ) → ltb a b ≡ true → a < b
lt_of_test a b e = ground arith

same_of_tests : (a b : ℕ) → ltb a b ≡ false → ltb b a ≡ false → b ≡ a
same_of_tests a b e e' = ground arith

-- What a search from a node of the tree finds.
abbrev pub Finds : ℕ → ℕ → Ptr → Store → Tree → Type 0
Finds fuel key p t x =
    (q : Ptr) × (find_from fuel key p t ≡ some q) × (0 < count q x) × (t.key q ≡ key)

find_from-Holds :
    (s : Ptr) (t : Store) (par : Ptr) (x : Tree) (fuel key p : ℕ)
    → Holds s t par x
    → count null x ≡ 0
    → Sorted t.key (inorder x)
    → 0 < count p x
    → t.key p ≡ key
    → height x ≤ fuel
    → Finds fuel key (ptr s x) t x
unfolding find_from height
find_from-Holds s t par leaf fuel key p h nn so i e high = absurd (omega (arith, i))
find_from-Holds s t par (node c n l r) zero key p h nn so i e high = absurd (omega (arith, high))
find_from-Holds s t par (node c n l r) (suc fuel) key p h nn so i e high =
    elim (Bool-cases (ltb key (t.key n))) [
      | inl lt ↦
          let (q, run, j, k) =
            find_from-Holds s t n l fuel key p h.5 (omega (arith, nn))
              (Sorted-left t.key (inorder l) (n ∷ inorder r) so)
              (left_side t.key n l r p so i (omega (arith, e, lt_of_test key (t.key n) lt))) e
              (omega (arith, high)) in
          (q, rw (full, lt, h.2) run, omega (arith, j), k)
      | inr ge ↦ elim (Bool-cases (ltb (t.key n) key)) [
        | inl lt ↦
            let (q, run, j, k) =
              find_from-Holds s t n r fuel key p h.6 (omega (arith, nn))
                (Sorted-right t.key (inorder l) (n ∷ inorder r) so).1
                (right_side t.key n l r p so i (omega (arith, e, lt_of_test (t.key n) key lt))) e
                (omega (arith, high)) in
            (q, rw (full, ge, lt, h.3) run, omega (arith, j), k)
        | inr le ↦
            (n, rw (full, ge, le) refl, count_self c n l r, same_of_tests key (t.key n) ge le)
      ]
    ]
  where
    full : (n == null) ≡ false
    full = ground (arith, nn)

-- In a tree that is ordered by its keys and has fewer than `2 ^ m - 1` nodes, none of them at the
-- address 0, `rbtree_find` for the key of a node ends within `2 * m` rounds with a node of the
-- tree that has this key.
pub rbtree_find-Represents :
    (s p m fuel : ℕ) (t : Store) (ps : List Ptr)
    → Represents t.key s t ps
    → occurs null ps ≡ 0
    → 0 < occurs p ps
    → length ps + 1 < 2 ^ m
    → 2 * m ≤ fuel
    → (q : Ptr) × (rbtree_find fuel (t.key p) t ≡ some q) × (0 < occurs q ps) × (t.key q ≡ t.key p)
unfolding rbtree_find
rbtree_find-Represents s p m fuel t ps r nn i few enough =
    let z = r.is_tree.1 in
    let (q, run, j, k) =
      find_from-Holds s t r.is_tree.0 r.tree fuel (t.key p) p z.holds
        (omega (arith, nn, occurs-inorder null r.tree, ap (occurs null) r.nodes))
        (subst (λ qs. Sorted t.key qs) (sym r.nodes) r.sorted)
        (omega (arith, i, occurs-inorder p r.tree, ap (occurs p) r.nodes)) refl
        (omega (arith, height-lt t.key s t ps m r few, enough)) in
    (
      q,
      ap (λ v. find_from fuel (t.key p) v t) z.around ∙ run,
      omega (arith, j, occurs-inorder q r.tree, ap (occurs q) r.nodes),
      k,
    )
