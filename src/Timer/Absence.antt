-- ===== src/Timer/Absence.antt =====
-- Sequences without a node, and the queue in two worlds that agree on its nodes.
use mathlib.Core.Path.{subst, fun_ext}
use mtcp_lua.Base.{
  ℕ, ◌+◌, ◌≤◌, ◌<◌, ◌≡◌, ◌≢◌, refl, sym, ap, ◌∙◌, List, [], ◌∷◌, arith, ltb, ◌==◌, length, ==_of_eq,
  ==_of_ne, eq_of_==, Bool-cases, inl, inr,
}
use mtcp_lua.RbTree.{Ptr, Store, update}
use mtcp_lua.RbTree.Shape.{one_if}
use mtcp_lua.RbTree.Order.{All, Sorted, insert_sorted}
use mtcp_lua.RbTree.Sequence.{occurs, occurs-inorder, Represents}
use mtcp_lua.RbTree.Remove.{remove}
use mtcp_lua.RbTree.Deletion.Cut.{count-sentinel}
use mtcp_lua.Timer.{Timers}
use mtcp_lua.Timer.Queue.{Queued}

pub occurs-remove : (n p : Ptr) (ps : List Ptr) → p ≢ n → occurs p (remove n ps) ≡ occurs p ps
unfolding remove
occurs-remove n p [] ne = refl
occurs-remove n p (q ∷ ps) ne = elim (Bool-cases (n == q)) [
  | inl e ↦ rw e (ground (arith, e))
  | inr e ↦ rw e (omega (arith, occurs-remove n p ps ne))
]

pub occurs-remove_self :
    (n : Ptr) (ps : List Ptr) → 0 < occurs n ps → occurs n (remove n ps) + 1 ≡ occurs n ps
unfolding remove
occurs-remove_self n [] i = absurd (omega (arith, i))
occurs-remove_self n (q ∷ ps) i = elim (Bool-cases (n == q)) [
  | inl e ↦ rw e (omega arith)
  | inr e ↦
      rw e (omega (arith, occurs-remove_self n ps (omega (arith, i, ap one_if e)), ap one_if e))
]

module _ (f : Ptr → ℕ) (s : Ptr) (t : Store) (ps : List Ptr) where
  -- No address occurs twice in the sequence.
  pub occurs-le_one : (p : Ptr) → Represents f s t ps → occurs p ps ≤ 1
  occurs-le_one p r =
      omega (arith, r.is_tree.1.once p, occurs-inorder p r.tree, ap (occurs p) r.nodes)

  -- The sentinel does not occur.
  pub occurs-sentinel : Represents f s t ps → occurs s ps ≡ 0
  occurs-sentinel r = omega (
    arith,
    count-sentinel s t r.is_tree.0 r.tree r.is_tree.1.holds,
    occurs-inorder s r.tree,
    ap (occurs s) r.nodes,
  )

pub remove-insert_sorted :
    (f : Ptr → ℕ) (n : Ptr) (v : ℕ) (ps : List Ptr)
    → occurs n ps ≡ 0
    → remove n (insert_sorted f n v ps) ≡ ps
unfolding remove insert_sorted
remove-insert_sorted f n v [] o = rw (==_of_eq n n refl) refl
remove-insert_sorted f n v (p ∷ ps) o = elim (Bool-cases (ltb v (f p))) [
  | inl e ↦ rw (e, ==_of_eq n n refl) refl
  | inr e ↦
      let ne : n ≢ p = (λ r. ground (arith, o)) in
      rw (e, ==_of_ne n p ne)
        (ap (λ (qs : List Ptr). p ∷ qs) (remove-insert_sorted f n v ps (omega (arith, o))))
]

pub length-insert_sorted :
    (f : Ptr → ℕ) (n : Ptr) (v : ℕ) (ps : List Ptr)
    → length (insert_sorted f n v ps) ≡ length ps + 1
unfolding insert_sorted
length-insert_sorted f n v [] = refl
length-insert_sorted f n v (p ∷ ps) = ground (arith, length-insert_sorted f n v ps)

-- Two values that agree on the nodes of a sequence sort it alike.
All-agree :
    (f g : Ptr → ℕ) (a : ℕ) (ps : List Ptr)
    → ((p : Ptr) → 0 < occurs p ps → f p ≡ g p)
    → All (λ p. a ≤ f p) ps
    → All (λ p. a ≤ g p) ps
All-agree f g a [] e h = tt
All-agree f g a (p ∷ ps) e h =
    (omega (arith, e p (ground arith), h.0), All-agree f g a ps (λ q i. e q (omega (arith, i))) h.1)

Sorted-agree :
    (f g : Ptr → ℕ) (ps : List Ptr)
    → ((p : Ptr) → 0 < occurs p ps → f p ≡ g p)
    → Sorted f ps
    → Sorted g ps
Sorted-agree f g [] e h = tt
Sorted-agree f g (p ∷ ps) e h = (
  subst (λ a. All (λ q. a ≤ g q) ps) (e p (ground arith))
      (All-agree f g (f p) ps (λ q i. e q (omega (arith, i))) h.0),
  Sorted-agree f g ps (λ q i. e q (omega (arith, i))) h.1,
)

pub Queued-agree :
    (base : ℕ) (f g : Ptr → ℕ) (s : Ptr) (w : Timers) (ps : List Ptr)
    → ((p : Ptr) → 0 < occurs p ps → f p ≡ g p)
    → Queued base f s w ps
    → Queued base g s w ps
Queued-agree base f g s w ps e z =
    let r = z.sorted in
    record {
      sorted = record {
        tree = r.tree;
        black_height = r.black_height;
        is_tree = r.is_tree;
        balanced = r.balanced;
        black = r.black;
        nodes = r.nodes;
        sorted = Sorted-agree f g ps e r.sorted;
      };
      value = λ p i. sym (e p i) ∙ z.value p i;
      word = z.word;
      window = λ p i. omega (arith, e p i, z.window p i);
    }

pub update_twice {ℓ} :
    {A : Type ℓ} (f : Ptr → A) (p : Ptr) (a b : A) → update (update f p a) p b ≡ update f p b
update_twice f p a b =
    fun_ext λ q. elim (Bool-cases (q == p)) [ inl e ↦ rw e refl | inr e ↦ rw e refl ]

pub update_same {ℓ} : {A : Type ℓ} (f : Ptr → A) (p : Ptr) (a : A) → f p ≡ a → update f p a ≡ f
update_same f p a h = fun_ext λ q. elim (Bool-cases (q == p)) [
  | inl e ↦ rw e (sym h ∙ ap f (sym (eq_of_== q p e)))
  | inr e ↦ rw e refl
]
