-- ===== src/RbTree/Shape.antt =====
-- Trees of addresses with their colours, places in them, and what it means that a memory holds one.
use mtcp_lua.Base.{ℕ, ◌+◌, ◌≤◌, ◌≡◌, ◌≢◌, Bool, true, false, List, [], ◌∷◌, ◌++◌, ◌==◌}
use mtcp_lua.RbTree.{Ptr, Side, left, right, opposite, Store, child}

pub data Tree : Type 0 where
  leaf : Tree
  node : Bool → Ptr → Tree → Tree → Tree

-- The node with `a` on side `d` and `b` on the other side.
abbrev pub build : Side → Bool → Ptr → Tree → Tree → Tree
build left c p a b = node c p a b
build right c p a b = node c p b a

-- The address that stands for a tree: the sentinel's for the empty one.
abbrev pub ptr : Ptr → Tree → Ptr
ptr s leaf = s
ptr s (node c p l r) = p

abbrev pub one_if : Bool → ℕ
one_if true = 1
one_if false = 0

-- How often an address occurs.
abbrev pub count : Ptr → Tree → ℕ
count p leaf = 0
count p (node c q l r) = one_if (p == q) + count p l + count p r

-- The addresses from left to right.
abbrev pub inorder : Tree → List Ptr
inorder leaf = []
inorder (node c p l r) = inorder l ++ p ∷ inorder r

-- A place in a tree: `under d c p u k` hangs on side `d` of the node `p` of colour `c`, whose other
-- child is `u` and which stands at the place `k`.
pub data Place : Type 0 where
  top : Place
  under : Side → Bool → Ptr → Tree → Place → Place

abbrev pub plug : Tree → Place → Tree
plug x top = x
plug x (under d c p u k) = plug (build d c p x u) k

abbrev pub count_place : Ptr → Place → ℕ
count_place p top = 0
count_place p (under d c q u k) = one_if (p == q) + count p u + count_place p k

-- The parent that a node at the place has; `over` is what the root's field holds.
abbrev pub parent_at : Ptr → Place → Ptr
parent_at over top = over
parent_at over (under d c p u k) = p

-- No address occurs twice in a tree and its surroundings.
abbrev pub Distinct : Tree → Place → Type 0
Distinct x k = (p : Ptr) → count p x + count_place p k ≤ 1

module _ (s : Ptr) where
  -- The memory holds the tree `x`, under the parent `par`.
  abbrev pub Holds : Store → Ptr → Tree → Type 0
  Holds t par leaf = Unit
  Holds t par (node c p l r) =
      (p ≢ s)
      × (t.parent p ≡ par)
      × (t.lefts p ≡ ptr s l)
      × (t.rights p ≡ ptr s r)
      × (t.red p ≡ c)
      × Holds t p l
      × Holds t p r

  -- The memory holds the surroundings `k` of a place, and leads to `x` there.
  abbrev pub HoldsAt : Ptr → Store → Ptr → Place → Type 0
  HoldsAt over t x top = t.root ≡ x
  HoldsAt over t x (under d c p u k) =
      (p ≢ s)
      × (child d t p ≡ x)
      × (child (opposite d) t p ≡ ptr s u)
      × (t.red p ≡ c)
      × (t.parent p ≡ parent_at over k)
      × Holds t p u
      × HoldsAt over t p k
