-- ===== src/RbTree/Memory.antt =====
-- `struct rbtree_node`, `struct rbtree` and the macros and inline functions of rbtree.h.
use mtcp_lua.Base.{ℕ, zero, suc, Bool, true, false, Option, none, some, ◌==◌, if◌then◌else◌}

abbrev pub Ptr : Type 0
Ptr = ℕ

abbrev pub null : Ptr
null = 0

pub data Side : Type 0 where
  left : Side
  right : Side

abbrev pub opposite : Side → Side
opposite left = right
opposite right = left

pub record Store : Type 0 where
  pub root : Ptr
  pub key : Ptr → ℕ
  pub lefts : Ptr → Ptr
  pub rights : Ptr → Ptr
  pub parent : Ptr → Ptr
  pub red : Ptr → Bool

-- The function that the tree's `insert` pointer names.
pub data InsertPt : Type 0 where
  insert_value : InsertPt
  insert_timer_value : InsertPt

abbrev pub update {ℓ} : {A : Type ℓ} → (Ptr → A) → Ptr → A → Ptr → A
update f p v q = if q == p then v else f q

-- `p->left` and `p->right`.
abbrev pub child : Side → Store → Ptr → Ptr
child left t p = t.lefts p
child right t p = t.rights p

abbrev pub set_child : Side → Ptr → Ptr → Store → Store
set_child left p q t = record t { lefts = update t.lefts p q }
set_child right p q t = record t { rights = update t.rights p q }

abbrev pub set_parent : Ptr → Ptr → Store → Store
set_parent p q t = record t { parent = update t.parent p q }

abbrev pub set_key : Ptr → ℕ → Store → Store
set_key p k t = record t { key = update t.key p k }

abbrev pub set_root : Ptr → Store → Store
set_root p t = record t { root = p }

abbrev pub rbtree_red : Ptr → Store → Store
rbtree_red p t = record t { red = update t.red p true }

abbrev pub rbtree_black : Ptr → Store → Store
rbtree_black p t = record t { red = update t.red p false }

abbrev pub rbtree_copy_color : Ptr → Ptr → Store → Store
rbtree_copy_color p q t = record t { red = update t.red p (t.red q) }

-- `rbtree_init`: the sentinel is black and is the root.
unfoldable pub rbtree_init : Ptr → Store → Store
rbtree_init s t = set_root s (rbtree_black s t)

-- `rbtree_min`, with a bound on the rounds of its loop.
unfoldable pub rbtree_min : Ptr → ℕ → Store → Ptr → Option Ptr
rbtree_min s zero t p = none
rbtree_min s (suc fuel) t p =
    let rest = rbtree_min s fuel t (t.lefts p) in if t.lefts p == s then some p else rest
