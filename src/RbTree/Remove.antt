-- ===== src/RbTree/Remove.antt =====
-- The removal of a node from a sequence, and from the order of the nodes of a tree.
use mathlib.Core.List.{append_assoc}
use mtcp_lua.Base.{
  ℕ, ap, ◌+◌, ◌≤◌, ◌<◌, ◌≡◌, refl, ◌∙◌, Bool, List, [], ◌∷◌, ◌++◌, arith, ◌==◌, if◌then◌else◌,
  ==_of_eq, Bool-cases, inl, inr, length,
}
use mtcp_lua.RbTree.{Ptr, left, right}
use mtcp_lua.RbTree.Shape.{Tree, node, one_if, count, Place, top, under, plug, inorder, count_place}
use mtcp_lua.RbTree.Order.{All, Sorted, before, after, inorder-plug}
use mtcp_lua.RbTree.Sequence.{occurs, occurs-append, occurs-inorder}

-- A sequence without the first occurrence of a node.
unfoldable pub remove : Ptr → List Ptr → List Ptr
remove n [] = []
remove n (p ∷ ps) = if n == p then ps else p ∷ remove n ps

pub remove-append :
    (n : Ptr) (xs ys : List Ptr) → occurs n xs ≡ 0 → remove n (xs ++ n ∷ ys) ≡ xs ++ ys
unfolding remove
remove-append n [] ys o = rw (==_of_eq n n refl)
remove-append n (x ∷ xs) ys o = ground (arith, remove-append n xs ys)

pub length-remove :
    (n : Ptr) (ps : List Ptr) → 0 < occurs n ps → length (remove n ps) + 1 ≡ length ps
unfolding remove
length-remove n [] i = absurd (omega (arith, i))
length-remove n (p ∷ ps) i = elim (Bool-cases (n == p)) [
  | inl e ↦ rw e (omega arith)
  | inr e ↦ rw e (omega (arith, length-remove n ps (omega (arith, i, ap one_if e))))
]

All-remove : (P : Ptr → Type 0) (n : Ptr) (ps : List Ptr) → All P ps → All P (remove n ps)
unfolding remove
All-remove P n [] a = tt
All-remove P n (p ∷ ps) a = elim (Bool-cases (n == p)) [
  | inl e ↦ rw e a.1
  | inr e ↦ rw e (a.0, All-remove P n ps a.1)
]

pub remove-Sorted : (f : Ptr → ℕ) (n : Ptr) (ps : List Ptr) → Sorted f ps → Sorted f (remove n ps)
unfolding remove
remove-Sorted f n [] h = tt
remove-Sorted f n (p ∷ ps) h = elim (Bool-cases (n == p)) [
  | inl e ↦ rw e h.1
  | inr e ↦ rw e (All-remove (λ q. f p ≤ f q) n ps h.0, remove-Sorted f n ps h.1)
]

occurs-before : (n : Ptr) (k : Place) → occurs n (before k) ≤ count_place n k
occurs-before n top = omega arith
occurs-before n (under left c p w k) = omega (arith, occurs-before n k)
occurs-before n (under right c p w k) = omega (
  arith,
  occurs-before n k,
  occurs-append n (before k ++ inorder w) (p ∷ []),
  occurs-append n (before k) (inorder w),
  occurs-inorder n w,
)

-- The nodes of a tree without the one at a place.
pub remove-plug :
    (n : Ptr) (c : Bool) (l r : Tree) (k : Place)
    → count n l + count_place n k ≡ 0
    → remove n (inorder (plug (node c n l r) k)) ≡ before k ++ (inorder l ++ inorder r) ++ after k
remove-plug n c l r k out =
    let none_before : occurs n (before k ++ inorder l) ≡ 0 =
      omega (
        arith,
        out,
        occurs-before n k,
        occurs-append n (before k) (inorder l),
        occurs-inorder n l,
      ) in
    let split : inorder (plug (node c n l r) k)
        ≡ before k ++ inorder l ++ n ∷ (inorder r ++ after k) =
      inorder-plug (node c n l r) k ∙ simp append_assoc in
    ap (remove n) split
    ∙ remove-append n (before k ++ inorder l) (inorder r ++ after k) none_before
    ∙ simp append_assoc
