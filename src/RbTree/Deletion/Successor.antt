-- ===== src/RbTree/Deletion/Successor.antt =====
-- `rbtree_delete` of a node with two children: the next node takes its place.
use mtcp_lua.Base.{
  ℕ, ap, ◌+◌, ◌≤◌, ◌≡◌, ◌≢◌, ◌⊎◌, inl, inr, refl, sym, ◌∙◌, Bool, false, arith, ◌==◌, ==_of_eq,
  ==_of_ne,
}
use mtcp_lua.RbTree.{Ptr, Side, right, Store, unlink, take_place, move_temp}
use mtcp_lua.RbTree.Shape.{
  Tree, leaf, node, ptr, one_if, count, Place, top, under, plug, count_place, Holds, HoldsAt,
}
use mtcp_lua.RbTree.Links.{link_at, link_at-parent, side-link_at}
use mtcp_lua.RbTree.Focus.{IsAt}
use mtcp_lua.RbTree.Deletion.Lift.{below}
use mtcp_lua.RbTree.Deletion.Placed.{Ready}
use mtcp_lua.RbTree.Deletion.Graft.{graft, count-plug, count_place-graft, up_all}
use mtcp_lua.RbTree.Deletion.Cut.{Cut, cut, cut-Cut}
use mtcp_lua.RbTree.Deletion.Finish.{end_of, unlink_other}

-- The parent that the code gives to the child of the successor `m`, which stands at the place `j`
-- of the right subtree.
abbrev pub hook : Ptr → Place → Ptr
hook m top = m
hook m (under d c q w j) = q

module _ (s over : Ptr) (fuel : ℕ) (t : Store) (n m : Ptr) (cm : Bool) (y : Tree) where
  -- The run of the code up to the last test, for the successor `m` under the node `q`.
  unlink_at :
      (v : Ptr) (e : Side) (ce : Bool) (q : Ptr) (w : Tree) (k : Place)
      → IsAt s over t (node cm m leaf y) (under e ce q w k)
      → m ≢ n
      → ((q ≡ n) × (v ≡ m)) ⊎ ((q ≢ n) × (v ≡ q))
      → unlink s fuel n m (ptr s y) t
        ≡ end_of s fuel n (ptr s y) cm (take_place s m n (cut s v y (under e ce q w k) t))
  unlink_at v e ce q w k z far which =
      let j = under e ce q w k in
      let t1 = link_at j (ptr s y) t in
      unlink_other s fuel n (ptr s y) m t t1 (below s over t (node cm m leaf y) e ce q w k z) far
        (side-link_at s over m (ptr s y) e ce q w k t z.holds.0 out z.holds.1 z.around)
      ∙ ap
          (λ (b : Bool).
            end_of s fuel n (ptr s y) b (take_place s m n (move_temp (ptr s y) m n t1)))
          z.holds.4
      ∙ ap (λ (u : Store). end_of s fuel n (ptr s y) cm (take_place s m n u)) (moved which)
    where
      out : count m w ≡ 0
      out = ground (arith, z.once m)

      t2 : Store
      t2 = link_at (under e ce q w k) (ptr s y) t

      up_m : t2.parent m ≡ q
      up_m = ap (λ (f : Ptr → Ptr). f m) (link_at-parent (under e ce q w k) (ptr s y) t) ∙ z.holds.1

      moved :
          ((q ≡ n) × (v ≡ m)) ⊎ ((q ≢ n) × (v ≡ q))
          → move_temp (ptr s y) m n t2 ≡ cut s v y (under e ce q w k) t
      moved (inl (e1, e2)) = unfold move_temp in rw (up_m, ==_of_eq q n e1, e2) refl
      moved (inr (e1, e2)) = unfold move_temp in rw (up_m, ==_of_ne q n e1, e2) refl

module _ (s over : Ptr) (t : Store) (c : Bool) (n : Ptr) (l : Tree) (k : Place) (cm : Bool)
    (m : Ptr) (y : Tree) where
  -- The successor stands at the place `j` of the right subtree.
  abbrev pub Below : Place → Type 0
  Below j = IsAt s over t (node cm m leaf y) (graft j (under right c n l k))

  abbrev pub cut_at : Place → Store
  cut_at j = cut s (hook m j) y (graft j (under right c n l k)) t

  pub once_in :
      (j : Place)
      → Below j
      → (p : Ptr)
      → one_if (p == m)
          + count p y
          + count_place p j
          + one_if (p == n)
          + count p l
          + count_place p k
        ≤ 1
  once_in j z p = omega (arith, z.once p, count_place-graft p j (under right c n l k))

  parted : (j : Place) → Below j → m ≢ n
  parted j z = λ e. ground (arith, once_in j z m)

  pub run :
      (fuel : ℕ) (j : Place)
      → Below j
      → unlink s fuel n m (ptr s y) t ≡ end_of s fuel n (ptr s y) cm (take_place s m n (cut_at j))
  unfolding graft
  run fuel top z =
      unlink_at s over fuel t n m cm y m right c n l k z (parted top z) (inl (refl, refl))
  run fuel (under e ce q w j) z =
      unlink_at s over fuel t n m cm y q e ce q w (graft j (under right c n l k)) z
        (parted (under e ce q w j) z)
        (inr ((λ r. ground (arith, once_in (under e ce q w j) z q)), refl))

  pub severed :
      (j : Place) → Below j → Cut s over (hook m j) t (cut_at j) y (graft j (under right c n l k))
  severed j z = cut-Cut s over (hook m j) t right cm m y (graft j (under right c n l k)) z

  ready_of :
      (j : Place) (par : Ptr)
      → Below j
      → (cut_at j).red s ≡ false
      → HoldsAt s over (cut_at j) (ptr s (plug y j)) (under right c n l k)
      → Holds s (cut_at j) par (plug y j)
      → Ready s over (cut_at j) n m par c l (plug y j) k
  ready_of j par z black ha hp = record {
    ns = ha.0;
    ms = z.holds.0;
    nm = λ e. parted j z (sym e);
    lefts = ha.2;
    rights = ha.1;
    parent = ha.4;
    red = ha.3;
    black = black;
    hl = ha.5;
    hr = hp;
    hk = ha.6;
    nk = ground (arith, once_in j z n);
    ml = ground (arith, once_in j z m);
    mr = ground (arith, once_in j z m, count-plug m y j);
    mk = ground (arith, once_in j z m);
    once = λ p. omega (arith, once_in j z p, count-plug p y j);
  }

  pub ready : (j : Place) → Below j → (par : Ptr) × Ready s over (cut_at j) n m par c l (plug y j) k
  unfolding graft
  ready top z = let r = severed top z in (m, ready_of top m z r.black r.around r.holds)
  ready (under e ce q w j) z =
      let i = under e ce q w j in
      let r = severed i z in
      let a : IsAt s over (cut_at i) y (graft i (under right c n l k)) = record {
        holds = r.holds;
        around = r.around;
        once = r.once;
        black = r.black;
      } in
      let b = up_all s over (cut_at i) y i (under right c n l k) a in
      (n, ready_of i n z b.black b.around b.holds)
