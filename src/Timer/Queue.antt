-- ===== src/Timer/Queue.antt =====
-- What the timers of event_timer.h promise: a queue in the order of the times.
use mathlib.Core.Path.{subst}
use mtcp_lua.Base.{
  ℕ, ◌+◌, ◌-◌, ◌*◌, ◌^◌, ◌%◌, ◌≤◌, ◌<◌, ◌≡◌, ◌≢◌, refl, sym, ap, ◌∙◌, true, false, some, List, [],
  ◌∷◌, arith, ltb, leb, ◌==◌, if◌then◌else◌, length, ==_of_eq, ==_of_ne, Bool-cases, ◌⊎◌, inl, inr,
}
use mtcp_lua.Base.Int.{pos, pos_part, ltb_ℤ, signed64, sub64}
use mtcp_lua.RbTree.{Ptr, Store, insert_timer_value, update, set_key}
use mtcp_lua.RbTree.Shape.{Tree, one_if}
use mtcp_lua.RbTree.Frames.{Holds-frame}
use mtcp_lua.RbTree.Focus.{IsTree}
use mtcp_lua.RbTree.Order.{All, insert_sorted}
use mtcp_lua.RbTree.Sequence.{
  occurs, Represents, KeyOrder, rbtree_insert-Represents, goes_left-insert_timer_value,
}
use mtcp_lua.RbTree.Minimum.{rbtree_min-Represents, root-sentinel}
use mtcp_lua.Timer.{
  Timers, event_add_timer, event_find_timer, find_answer, insert_timer, with_tree, is_due,
  timer_infinite,
}

-- The events `ps` wait in the tree. The value of each is its time, counted from `base`, and no time
-- is more than half the range of a word behind `base`.
pub record Queued (base : ℕ) (f : Ptr → ℕ) (s : Ptr) (w : Timers) (ps : List Ptr) : Type 0 where
  pub sorted : Represents f s w.tree ps
  pub value : (p : Ptr) → 0 < occurs p ps → f p ≡ sub64 (w.tree.key p) base
  pub word : (p : Ptr) → 0 < occurs p ps → w.tree.key p < 2 ^ 64
  pub window : (p : Ptr) → 0 < occurs p ps → f p < 2 ^ 63

-- No link or colour depends on a key.
set_key-IsTree : (s n k : ℕ) (t : Store) (x : Tree) → IsTree s t x → IsTree s (set_key n k t) x
set_key-IsTree s n k t x (over, z) = (
  over,
  record {
    holds =
        Holds-frame s t (set_key n k t) over x
          (λ p i. record { lefts = refl; rights = refl; parent = refl; red = refl }) z.holds;
    around = z.around;
    once = z.once;
    black = z.black;
  },
)

set_key-Represents :
    (f : Ptr → ℕ) (s n k : ℕ) (t : Store) (ps : List Ptr)
    → Represents f s t ps
    → Represents f s (set_key n k t) ps
set_key-Represents f s n k t ps r = record {
  tree = r.tree;
  black_height = r.black_height;
  is_tree = set_key-IsTree s n k t r.tree r.is_tree;
  balanced = r.balanced;
  black = r.black;
  nodes = r.nodes;
  sorted = r.sorted;
}

pub occurs-insert_sorted :
    (f : Ptr → ℕ) (n v p : ℕ) (ps : List Ptr)
    → occurs p (insert_sorted f n v ps) ≡ one_if (p == n) + occurs p ps
unfolding insert_sorted
occurs-insert_sorted f n v p [] = refl
occurs-insert_sorted f n v p (q ∷ ps) = elim (Bool-cases (ltb v (f q))) [
  | inl e ↦ rw e refl
  | inr e ↦ rw e (omega (arith, occurs-insert_sorted f n v p ps))
]

module _ (base : ℕ) (f : Ptr → ℕ) (s : Ptr) (w : Timers) (ps : List Ptr) where
  key_order :
      (ev key : ℕ)
      → base < 2 ^ 64
      → Queued base f s w ps
      → key < 2 ^ 64
      → f ev ≡ sub64 key base
      → f ev < 2 ^ 63
      → occurs ev ps ≡ 0
      → KeyOrder insert_timer_value (update w.tree.key ev key) f ev ps
  key_order ev key hb z hk e win fresh p i =
      rw (==_of_eq ev ev refl, ==_of_ne p ev ne, e, z.value p i)
        (goes_left-insert_timer_value base key (w.tree.key p) hb hk (z.word p i)
          (omega (arith, e, win)) (omega (arith, z.value p i, z.window p i)))
    where
      ne : p ≢ ev
      ne h = ground (arith, subst (λ (x : Ptr). 0 < occurs x ps) h i)

  -- `event_add_timer` for an event whose timer is not set, in a queue of fewer than `2 ^ m - 1`
  -- events, ends within `2 * m` rounds of each loop, with the event in the queue behind every event
  -- that is not later, its key the time `timer` milliseconds from now, and its flag set. No other
  -- key, flag or `timedout` changes.
  pub event_add_timer-Queued :
      (now ev timer m fuel : ℕ)
      → base < 2 ^ 64
      → Queued base f s w ps
      → w.timer_set ev ≡ false
      → ev ≢ s
      → occurs ev ps ≡ 0
      → f ev ≡ sub64 ((now + timer) % 2 ^ 64) base
      → f ev < 2 ^ 63
      → length ps + 1 < 2 ^ m
      → 2 * m ≤ fuel
      → (w' : Timers) × (event_add_timer s fuel now ev timer w ≡ some w')
        × Queued base f s w' (insert_sorted f ev (f ev) ps)
        × (w'.tree.key ≡ update w.tree.key ev ((now + timer) % 2 ^ 64))
        × (w'.timer_set ≡ update w.timer_set ev true)
        × (w'.timedout ≡ w.timedout)
  unfolding event_add_timer insert_timer with_tree
  event_add_timer-Queued now ev timer m fuel hb z off ns fresh e win few enough =
      let key : ℕ = (now + timer) % 2 ^ 64 in
      let hk : key < 2 ^ 64 = omega arith in
      let (t', run, rep, keys) =
        rbtree_insert-Represents insert_timer_value f s ev m fuel (set_key ev key w.tree) ps
          (set_key-Represents f s ev key w.tree ps z.sorted) ns fresh
          (key_order ev key hb z hk e win fresh) few enough in
      (
        record { tree = t'; timer_set = update w.timer_set ev true; timedout = w.timedout },
        rw off (ap (with_tree ev true w) run),
        queued t' rep keys,
        keys,
        refl,
        refl,
      )
    where
      inside :
          (p : Ptr)
          → 0 < occurs p (insert_sorted f ev (f ev) ps)
          → (p ≡ ev) ⊎ ((p ≢ ev) × (0 < occurs p ps))
      inside p i = ground (arith, occurs-insert_sorted f ev (f ev) p ps)

      queued :
          (t' : Store)
          → Represents f s t' (insert_sorted f ev (f ev) ps)
          → t'.key ≡ update w.tree.key ev ((now + timer) % 2 ^ 64)
          → Queued base f s
              (record { tree = t'; timer_set = update w.timer_set ev true; timedout = w.timedout })
              (insert_sorted f ev (f ev) ps)
      queued t' rep keys = record {
        sorted = rep;
        value = λ p i. elim (inside p i) [
          | inl h ↦ rw (keys, h, ==_of_eq ev ev refl) e
          | inr h ↦ rw (keys, ==_of_ne p ev h.0) (z.value p h.1)
        ];
        word = λ p i. elim (inside p i) [
          | inl h ↦ rw (keys, h, ==_of_eq ev ev refl) (omega arith)
          | inr h ↦ rw (keys, ==_of_ne p ev h.0) (z.word p h.1)
        ];
        window = λ p i. elim (inside p i) [ inl h ↦ rw h win | inr h ↦ z.window p h.1 ];
      }

remaining :
    (base now key : ℕ)
    → base < 2 ^ 64
    → now < 2 ^ 64
    → key < 2 ^ 64
    → sub64 now base < 2 ^ 63
    → sub64 key base < 2 ^ 63
    → (if ltb_ℤ (pos 0) (signed64 (sub64 key now)) then pos_part (signed64 (sub64 key now)) else 0)
      ≡ sub64 key base - sub64 now base
remaining base now key hb hn hk wn wk = ground arith

pub due :
    (base now key : ℕ)
    → base < 2 ^ 64
    → now < 2 ^ 64
    → key < 2 ^ 64
    → sub64 now base < 2 ^ 63
    → sub64 key base < 2 ^ 63
    → is_due now key ≡ leb (sub64 key base) (sub64 now base)
due base now key hb hn hk wn wk = ground arith

-- The time from `n` to the first of the events, both counted from a base time.
abbrev pub first_wait : (Ptr → ℕ) → ℕ → List Ptr → ℕ
first_wait f n [] = timer_infinite
first_wait f n (p ∷ ps) = f p - n

-- In a queue of fewer than `2 ^ m - 1` events `event_find_timer` answers within `2 * m` rounds.
-- Without events it answers `TIMER_INFINITE`; else the milliseconds from now to the first
-- event's time, 0 when that is past, and no event is due sooner.
pub event_find_timer-Queued :
    (base : ℕ) (f : Ptr → ℕ) (s : Ptr) (w : Timers) (ps : List Ptr) (now m fuel : ℕ)
    → Queued base f s w ps
    → base < 2 ^ 64
    → now < 2 ^ 64
    → sub64 now base < 2 ^ 63
    → length ps + 1 < 2 ^ m
    → 2 * m ≤ fuel
    → (event_find_timer s fuel now w ≡ some (first_wait f (sub64 now base) ps))
      × ((q : Ptr) → 0 < occurs q ps → first_wait f (sub64 now base) ps ≤ f q - sub64 now base)
unfolding event_find_timer find_answer
event_find_timer-Queued base f s w [] now m fuel z hb hn wn few enough = (
  rw (==_of_eq w.tree.root s ((root-sentinel f s w.tree [] z.sorted).1 refl)) refl,
  λ q i. absurd (omega (arith, i)),
)
event_find_timer-Queued base f s w (p ∷ qs) now m fuel z hb hn wn few enough =
    let ne : w.tree.root ≢ s = (λ h. cons_nil ((root-sentinel f s w.tree (p ∷ qs) z.sorted).0 h)) in
    let here : 0 < occurs p (p ∷ qs) = ground arith in
    let e = z.value p here in
    (
      rw
          (
            ==_of_ne w.tree.root s ne,
            rbtree_min-Represents f s p m fuel w.tree qs z.sorted few enough,
          )
          (ap some (
            remaining base now (w.tree.key p) hb hn (z.word p here) wn
              (omega (arith, e, z.window p here))
            ∙ rw (sym e) refl)),
      λ q i. omega (arith, least q qs i z.sorted.sorted.0),
    )
  where
    cons_nil : p ∷ qs ≡ [] → ⊥
    cons_nil h = cc

    least : (q : Ptr) (xs : List Ptr) → 0 < occurs q (p ∷ xs) → All (λ x. f p ≤ f x) xs → f p ≤ f q
    least q [] i a = ground arith
    least q (x ∷ xs) i a = ground (arith, least q xs, a)
