-- ===== src/RbTree/Deletion/Goal.antt =====
-- What the loop at the end of `rbtree_delete` reaches, and the rounds after which it stops.
use mathlib.Core.List.{append_assoc}
use mtcp_lua.Base.{
  ℕ, suc, ◌≡◌, ◌≢◌, inl, inr, refl, ◌∙◌, Bool, true, false, not, ◌&&◌, some, List, arith, ◌==◌,
  ==_of_eq, ==_of_ne,
}
use mtcp_lua.RbTree.{
  Ptr, Side, left, right, opposite, Store, rbtree_black, delete_round, side_in_parent, delete_loop,
}
use mtcp_lua.RbTree.Shape.{Tree, node, build, Place, top, under, plug, inorder}
use mtcp_lua.RbTree.Focus.{IsAt, open_at, recolor-IsAt, plug-IsAt, is_red}
use mtcp_lua.RbTree.Balance.{
  Balanced, BalancedAt, Fits, build_red, build_black, is_red-build, plug-Balanced,
}
use mtcp_lua.RbTree.Order.{inorder-plug_eq}
use mtcp_lua.RbTree.Insertion.Fix.{blacken}
use mtcp_lua.RbTree.Insertion.Whole.{blacken-IsAt}
use mtcp_lua.RbTree.Insertion.Balance.{blacken-Balanced}
use mtcp_lua.RbTree.Insertion.Order.{inorder-blacken}

-- The children of a node, from side `d` on.
abbrev pub pick : Side → Tree → Tree → Tree
pick left l r = l
pick right l r = r

pub as-build :
    (d : Side) (c : Bool) (p : Ptr) (l r : Tree)
    → node c p l r ≡ build d c p (pick d l r) (pick (opposite d) l r)
as-build left c p l r = refl
as-build right c p l r = refl

-- The loop, run on `fuel`, ends with a memory that holds a red-black tree with a black root and
-- the nodes `xs` in order; no key has changed.
pub record Repaired (s over : Ptr) (fuel : ℕ) (temp : Ptr) (t : Store) (xs : List Ptr)
    : Type 0 where
  pub store : Store
  pub tree : Tree
  pub height : ℕ
  pub run : delete_loop s fuel temp t ≡ some store
  pub at : IsAt s over store tree top
  pub nodes : inorder tree ≡ xs
  pub balanced : Balanced tree height
  pub black : is_red tree ≡ false
  pub keys : store.key ≡ t.key

-- The black height above a node of colour `c`.
abbrev pub bump : Bool → ℕ → ℕ
bump true h = h
bump false h = suc h

-- The subtree of a place whose root has the colour of the one before.
pub Fits-of :
    (c : Bool) (x : Tree) (d : Side) (p : Ptr) (w : Tree) (k : Place) (h : ℕ)
    → is_red x ≡ c
    → BalancedAt (under d c p w k) h
    → Fits x k × BalancedAt k (bump c h)
Fits-of true x d p w k h e b = (inr b.2, b.3)
Fits-of false x d p w k h e b = (inl e, b.1)

pub build-bump :
    (d : Side) (c : Bool) (p : Ptr) (a b : Tree) (h : ℕ)
    → is_red a ≡ false
    → is_red b ≡ false
    → Balanced a h
    → Balanced b h
    → Balanced (build d c p a b) (bump c h)
build-bump d true p a b h ra rb ba bb = build_red d p a b h ra rb ba bb
build-bump d false p a b h ra rb ba bb = build_black d p a b h ba bb

pub plug-black :
    (x : Tree) (k : Place) (h : ℕ) → Fits x k → BalancedAt k h → is_red (plug x k) ≡ false
plug-black x top h (inl e) b = e
plug-black x top h (inr e) b = cc
plug-black x (under d true p w k) h f b = plug-black (build d true p x w) k h (inr b.2) b.3
plug-black x (under d false p w k) h f b =
    plug-black (build d false p x w) k (suc h) (inl (is_red-build d false p x w)) b.1

pub inorder-far :
    (d : Side) (c : Bool) (p q : Ptr) (x na fa : Tree)
    → inorder (build d c q (build d false p x na) fa)
      ≡ inorder (build d c p x (build d false q na fa))
inorder-far left c p q x na fa = simp append_assoc
inorder-far right c p q x na fa = simp append_assoc

pub inorder-color :
    (d : Side) (c c' : Bool) (p : Ptr) (a b : Tree)
    → inorder (build d c p a b) ≡ inorder (build d c' p a b)
inorder-color left c c' p a b = refl
inorder-color right c c' p a b = refl

pub inorder-build :
    (d : Side) (c : Bool) (p : Ptr) (a a' b b' : Tree)
    → inorder a ≡ inorder a'
    → inorder b ≡ inorder b'
    → inorder (build d c p a b) ≡ inorder (build d c p a' b')
inorder-build left c p a a' b b' e f = rw (e, f)
inorder-build right c p a a' b b' e f = rw (e, f)

module _ (s over : Ptr) where
  stop :
      (fuel : ℕ) (n : Ptr) (t : Store)
      → (not (n == t.root) && not (t.red n)) ≡ false
      → delete_loop s (suc fuel) n t ≡ some (rbtree_black n t)
  unfolding delete_loop
  stop fuel n t h = rw h

  pub go_on :
      (fuel : ℕ) (n n' : Ptr) (t t' : Store) (d : Side)
      → n ≢ t.root
      → t.red n ≡ false
      → side_in_parent n t ≡ d
      → delete_round s d n t ≡ (t', n')
      → delete_loop s (suc fuel) n t ≡ delete_loop s fuel n' t'
  unfolding delete_loop
  go_on fuel n n' t t' d far red side next = rw (==_of_ne n t.root far, red, side, next)

  -- At the root the loop stops.
  pub stop_root :
      (fuel : ℕ) (t : Store) (x : Tree) (h : ℕ)
      → IsAt s over t x top
      → Balanced x h
      → Repaired s over (suc fuel) t.root t (inorder x)
  stop_root fuel t x h z b =
      let (h', b', r) = blacken-Balanced x h b in
      record {
        store = rbtree_black t.root t;
        tree = blacken x;
        height = h';
        run = stop fuel t.root t (rw (==_of_eq t.root t.root refl));
        at = blacken-IsAt s over t x z;
        nodes = inorder-blacken x;
        balanced = b';
        black = r;
        keys = refl;
      }

  -- At a red node the loop stops, and the node turns black.
  pub stop_red :
      (fuel : ℕ) (t : Store) (d : Side) (p : Ptr) (a b : Tree) (k : Place) (h : ℕ)
      → IsAt s over t (build d true p a b) k
      → Balanced a h
      → Balanced b h
      → BalancedAt k (suc h)
      → Repaired s over (suc fuel) p t (inorder (plug (build d true p a b) k))
  stop_red fuel t d p a b k h z ba bb bk =
      let x = build d false p a b in
      let f = inl (is_red-build d false p a b) in
      let (h', b') = plug-Balanced x k (suc h) f (build_black d p a b h ba bb) bk in
      record {
        store = rbtree_black p t;
        tree = plug x k;
        height = h';
        run = stop fuel p t (rw ((open_at s over t d true p a b k z).4) (ground arith));
        at = plug-IsAt s over (rbtree_black p t) x k (recolor-IsAt s over t d true false p a b k z);
        nodes = inorder-plug_eq x (build d true p a b) k (inorder-color d false true p a b);
        balanced = b';
        black = plug-black x k (suc h) f bk;
        keys = refl;
      }

module _ {s over : Ptr} {fuel : ℕ} {n : Ptr} {t : Store} {xs : List Ptr} where
  -- What holds of the rest of the run holds of the run.
  pub resume :
      (fuel' : ℕ) (n' : Ptr) (t' : Store) (ys : List Ptr)
      → delete_loop s fuel' n' t' ≡ delete_loop s fuel n t
      → t.key ≡ t'.key
      → xs ≡ ys
      → Repaired s over fuel n t xs
      → Repaired s over fuel' n' t' ys
  resume fuel' n' t' ys e keys same r = record {
    store = r.store;
    tree = r.tree;
    height = r.height;
    run = e ∙ r.run;
    at = r.at;
    nodes = r.nodes ∙ same;
    balanced = r.balanced;
    black = r.black;
    keys = r.keys ∙ keys;
  }
