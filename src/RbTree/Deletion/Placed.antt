-- ===== src/RbTree/Deletion/Placed.antt =====
-- The memory after the successor has been put into the removed node's place.
use mtcp_lua.Base.{ap, ◌+◌, ◌≤◌, ◌≡◌, ◌≢◌, sym, ◌∙◌, Bool, false, arith, ==_of_ne}
use mtcp_lua.RbTree.{Ptr, Store, update, adopt}
use mtcp_lua.RbTree.Shape.{Tree, ptr, count, Place, count_place, parent_at, Holds, HoldsAt}
use mtcp_lua.RbTree.Links.{
  link_at, link_at-parent, link_at-red, link_at-key, link_at-lefts, link_at-rights,
}
use mtcp_lua.RbTree.Rotation.{adopt-parent, adopt_self, adopt-sentinel, adopt_rest, adopt_outside}

adopt_keeps : (s q p : Ptr) (t : Store) (r : Ptr) → t.parent r ≡ p → (adopt s q p t).parent r ≡ p
unfolding adopt
adopt_keeps s q p t r e = ground arith

-- What is known when `m` takes the place of `n`, whose subtrees are `l` and `r`; the parent of `r`
-- may be any.
pub record Ready (s over : Ptr) (t : Store) (n m par : Ptr) (c : Bool) (l r : Tree) (k : Place)
    : Type 0 where
  pub ns : n ≢ s
  pub ms : m ≢ s
  pub nm : n ≢ m
  pub lefts : t.lefts n ≡ ptr s l
  pub rights : t.rights n ≡ ptr s r
  pub parent : t.parent n ≡ parent_at over k
  pub red : t.red n ≡ c
  pub black : t.red s ≡ false
  pub hl : Holds s t n l
  pub hr : Holds s t par r
  pub hk : HoldsAt s over t n k
  pub nk : count_place n k ≡ 0
  pub ml : count m l ≡ 0
  pub mr : count m r ≡ 0
  pub mk : count_place m k ≡ 0
  pub once : (p : Ptr) → count p l + count p r + count_place p k ≤ 1

module _ (s over : Ptr) (t : Store) (n m : Ptr) (l r : Tree) (k : Place) where
  -- The fields of `n` copied to `m`.
  unfoldable pub copied : Store
  copied = record t {
    lefts = update t.lefts m (t.lefts n);
    rights = update t.rights m (t.rights n);
    parent = update t.parent m (t.parent n);
    red = update t.red m (t.red n);
  }

  unfoldable pub linked : Store
  linked = link_at k m copied

  unfoldable pub placed : Store
  placed = adopt s (ptr s r) m (adopt s (ptr s l) m linked)

  pub placed_lefts : placed.lefts ≡ linked.lefts
  unfolding placed
  placed_lefts =
      (adopt_rest s (ptr s r) m (adopt s (ptr s l) m linked)).2
      ∙ (adopt_rest s (ptr s l) m linked).2

  pub placed_rights : placed.rights ≡ linked.rights
  unfolding placed
  placed_rights =
      (adopt_rest s (ptr s r) m (adopt s (ptr s l) m linked)).3
      ∙ (adopt_rest s (ptr s l) m linked).3

  pub placed_red : placed.red ≡ copied.red
  unfolding placed linked
  placed_red =
      (adopt_rest s (ptr s r) m (adopt s (ptr s l) m linked)).4
      ∙ (adopt_rest s (ptr s l) m linked).4
      ∙ link_at-red k m copied

  pub placed_root : placed.root ≡ linked.root
  unfolding placed
  placed_root =
      (adopt_rest s (ptr s r) m (adopt s (ptr s l) m linked)).0
      ∙ (adopt_rest s (ptr s l) m linked).0

  pub placed_key : placed.key ≡ t.key
  unfolding placed linked copied
  placed_key =
      (adopt_rest s (ptr s r) m (adopt s (ptr s l) m linked)).1
      ∙ (adopt_rest s (ptr s l) m linked).1
      ∙ link_at-key k m copied

  -- A node other than `m`, outside the surroundings.
  pub same :
      (p : Ptr)
      → p ≢ m
      → count_place p k ≡ 0
      → (placed.lefts p ≡ t.lefts p) × (placed.rights p ≡ t.rights p) × (placed.red p ≡ t.red p)
  same p ne out = (
    ap (λ (f : Ptr → Ptr). f p) placed_lefts
        ∙ unfold linked in (link_at-lefts k m copied p out ∙ unfold copied in rw (==_of_ne p m ne)),
    ap (λ (f : Ptr → Ptr). f p) placed_rights
        ∙ unfold linked in
          (link_at-rights k m copied p out ∙ unfold copied in rw (==_of_ne p m ne)),
    ap (λ (f : Ptr → Bool). f p) placed_red ∙ unfold copied in rw (==_of_ne p m ne),
  )

  linked_parent : (p : Ptr) → p ≢ m → linked.parent p ≡ t.parent p
  unfolding linked copied
  linked_parent p ne = rw (link_at-parent, ==_of_ne p m ne)

  pub parent_in_left :
      (p : Ptr) → p ≢ m → p ≢ ptr s l → count p r ≡ 0 → placed.parent p ≡ t.parent p
  unfolding placed
  parent_in_left p ne nl out =
      adopt_outside s m r (adopt s (ptr s l) m linked) p out
      ∙ adopt-parent s (ptr s l) m linked p nl
      ∙ linked_parent p ne

  pub parent_in_right :
      (p : Ptr) → p ≢ m → p ≢ ptr s r → count p l ≡ 0 → placed.parent p ≡ t.parent p
  unfolding placed
  parent_in_right p ne nr out =
      adopt-parent s (ptr s r) m (adopt s (ptr s l) m linked) p nr
      ∙ adopt_outside s m l linked p out
      ∙ linked_parent p ne

  pub parent_outside : (p : Ptr) → count p l ≡ 0 → count p r ≡ 0 → placed.parent p ≡ linked.parent p
  unfolding placed
  parent_outside p ol or' =
      adopt_outside s m r (adopt s (ptr s l) m linked) p or' ∙ adopt_outside s m l linked p ol

  pub placed_sentinel : m ≢ s → placed.parent s ≡ t.parent s
  unfolding placed
  placed_sentinel ne =
      adopt-sentinel s (ptr s r) m (adopt s (ptr s l) m linked)
      ∙ adopt-sentinel s (ptr s l) m linked
      ∙ linked_parent s (λ e. ne (sym e))

  pub parent_left : ptr s l ≢ s → placed.parent (ptr s l) ≡ m
  unfolding placed
  parent_left ne =
      adopt_keeps s (ptr s r) m (adopt s (ptr s l) m linked) (ptr s l)
        (adopt_self s (ptr s l) m linked ne)

  pub parent_right : ptr s r ≢ s → placed.parent (ptr s r) ≡ m
  unfolding placed
  parent_right ne = adopt_self s (ptr s r) m (adopt s (ptr s l) m linked) ne
