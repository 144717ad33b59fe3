-- ===== src/RbTree/Deletion/Way.antt =====
-- The way to a node of a tree, and to its first node.
use native.Mathlib.Decide.{dec_lt}
use mtcp_lua.Base.{
  ◌+◌, ◌<◌, ◌≡◌, inl, inr, refl, ap, ◌∙◌, Bool, false, [], arith, ◌==◌, Bool-cases, eq_of_==,
}
use mtcp_lua.RbTree.{Ptr, left, right}
use mtcp_lua.RbTree.Shape.{Tree, leaf, node, one_if, count, Place, top, under, plug}
use mtcp_lua.RbTree.Order.{before}
use mtcp_lua.RbTree.Minimum.{leftmost}
use mtcp_lua.RbTree.Deletion.Graft.{graft, plug-graft, before-graft}

-- The way to a node of the tree.
pub record Found (n : Ptr) (x : Tree) (k : Place) : Type 0 where
  pub color : Bool
  pub lower_left : Tree
  pub lower_right : Tree
  pub place : Place
  pub same : plug (node color n lower_left lower_right) place ≡ plug x k

pub find : (n : Ptr) (x : Tree) (k : Place) → 0 < count n x → Found n x k
find n leaf k i = absurd (omega (arith, i))
find n (node c q a b) k i = elim (Bool-cases (n == q)) [
  | inl e ↦ record {
    color = c;
    lower_left = a;
    lower_right = b;
    place = k;
    same = ap (λ (r : Ptr). plug (node c r a b) k) (eq_of_== n q e);
  }
  | inr e ↦ elim (dec_lt 0 (count n a)) [
    | yes i ↦
        let r = find n a (under left c q b k) i in
        record {
          color = r.color;
          lower_left = r.lower_left;
          lower_right = r.lower_right;
          place = r.place;
          same = r.same;
        }
    | no z ↦
        let r = find n b (under right c q a k) (rest e z i) in
        record {
          color = r.color;
          lower_left = r.lower_left;
          lower_right = r.lower_right;
          place = r.place;
          same = r.same;
        }
  ]
]
  where
    rest :
        (n == q) ≡ false
        → ¬ (0 < count n a)
        → 0 < one_if (n == q) + count n a + count n b
        → 0 < count n b
    rest e z i = omega (arith, ap one_if e)

-- The way to the first node of a subtree.
pub record Lowest (p : Ptr) (x : Tree) : Type 0 where
  pub color : Bool
  pub upper : Tree
  pub place : Place
  pub same : plug (node color p leaf upper) place ≡ x
  pub first : before place ≡ []

pub lowest : (c : Bool) (q : Ptr) (a b : Tree) → Lowest (leftmost q a) (node c q a b)
unfolding leftmost
lowest c q leaf b = record { color = c; upper = b; place = top; same = refl; first = refl }
lowest c q (node c' q' a' b') b = widen (lowest c' q' a' b')
  where
    widen :
        Lowest (leftmost q' a') (node c' q' a' b')
        → Lowest (leftmost q' a') (node c q (node c' q' a' b') b)
    widen r = record {
      color = r.color;
      upper = r.upper;
      place = graft r.place (under left c q b top);
      same =
          plug-graft (node r.color (leftmost q' a') leaf r.upper) r.place (under left c q b top)
          ∙ ap (λ (x : Tree). node c q x b) r.same;
      first = before-graft r.place (under left c q b top) ∙ r.first;
    }
