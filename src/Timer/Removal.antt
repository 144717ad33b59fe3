-- ===== src/Timer/Removal.antt =====
-- `event_del_timer`, and `event_add_timer` for an event whose timer is set.
use mathlib.Core.Path.{subst}
use mtcp_lua.Base.{
  ℕ, ◌+◌, ◌*◌, ◌^◌, ◌%◌, ◌≤◌, ◌<◌, ◌≡◌, ◌≢◌, refl, ap, ◌∙◌, Bool, true, false, some, List, arith,
  length, ==_of_eq, ==_of_ne,
}
use mtcp_lua.Base.Int.{pos, ltb_ℤ, sub64}
use mtcp_lua.RbTree.{Ptr, update}
use mtcp_lua.RbTree.Order.{insert_sorted}
use mtcp_lua.RbTree.Sequence.{occurs}
use mtcp_lua.RbTree.Remove.{remove, length-remove}
use mtcp_lua.RbTree.Deletion.Whole.{rbtree_delete-Represents}
use mtcp_lua.Timer.{Timers, event_add_timer, event_del_timer, with_tree, abs_int, timer_lazy_delay}
use mtcp_lua.Timer.Queue.{Queued, event_add_timer-Queued, occurs-insert_sorted}
use mtcp_lua.Timer.Absence.{
  update_same, update_twice, occurs-remove, occurs-remove_self, occurs-le_one, occurs-sentinel,
  remove-insert_sorted, length-insert_sorted, Queued-agree,
}

module _ (base : ℕ) (f : Ptr → ℕ) (s : Ptr) (w : Timers) (ps : List Ptr) where
  -- `event_del_timer` for an event of a queue of fewer than `2 ^ m - 1` events ends when each loop
  -- may run `2 * m` rounds, with the event out of the queue, the others in the same order, its key
  -- 0, and its flag reset. No other key, flag or `timedout` changes.
  pub event_del_timer-Queued :
      (ev m fuel : ℕ)
      → Queued base f s w ps
      → 0 < occurs ev ps
      → length ps + 1 < 2 ^ m
      → 2 * m ≤ fuel
      → (w' : Timers) × (event_del_timer s fuel ev w ≡ some w')
        × Queued base f s w' (remove ev ps)
        × (occurs ev (remove ev ps) ≡ 0)
        × (w'.tree.key ≡ update w.tree.key ev 0)
        × (w'.timer_set ≡ update w.timer_set ev false)
        × (w'.timedout ≡ w.timedout)
  unfolding event_del_timer with_tree
  event_del_timer-Queued ev m fuel z i few enough =
      let (t', run, rep, keys) =
        rbtree_delete-Represents f s ev m fuel w.tree ps z.sorted i few enough in
      (
        record { tree = t'; timer_set = update w.timer_set ev false; timedout = w.timedout },
        ap (with_tree ev false w) run,
        record {
          sorted = rep;
          value = λ p j. rw (keys, ==_of_ne p ev (other p j)) (z.value p (old p j));
          word = λ p j. rw (keys, ==_of_ne p ev (other p j)) (z.word p (old p j));
          window = λ p j. z.window p (old p j);
        },
        gone,
        keys,
        refl,
        refl,
      )
    where
      gone : occurs ev (remove ev ps) ≡ 0
      gone = omega (arith, occurs-le_one f s w.tree ps ev z.sorted, occurs-remove_self ev ps i)

      other : (p : Ptr) → 0 < occurs p (remove ev ps) → p ≢ ev
      other p j e = ground (arith, subst (λ (q : Ptr). 0 < occurs q (remove ev ps)) e j, gone)

      old : (p : Ptr) → 0 < occurs p (remove ev ps) → 0 < occurs p ps
      old p j = omega (arith, j, occurs-remove ev p ps (other p j))

  -- `event_add_timer` for an event whose timer is set to a time that is, in the low 32 bits of the
  -- difference, less than 300 ms from the new one leaves everything as it is.
  pub event_add_timer-lazy :
      (now ev timer fuel : ℕ)
      → w.timer_set ev ≡ true
      → ltb_ℤ (abs_int (sub64 ((now + timer) % 2 ^ 64) (w.tree.key ev))) (pos timer_lazy_delay)
        ≡ true
      → event_add_timer s fuel now ev timer w ≡ some w
  unfolding event_add_timer
  event_add_timer-lazy now ev timer fuel on near = rw (on, near) refl

  -- For an event of the queue whose timer is set to another time, `event_add_timer` ends, when the
  -- queue has fewer than `2 ^ m - 1` events and each loop may run `2 * m` rounds. The event then
  -- stands in the queue at its new time, behind every event that is not later, and no
  -- longer at the old one.
  pub event_add_timer-moved :
      (g : Ptr → ℕ) (now ev timer m fuel : ℕ)
      → base < 2 ^ 64
      → Queued base f s w ps
      → w.timer_set ev ≡ true
      → 0 < occurs ev ps
      → ltb_ℤ (abs_int (sub64 ((now + timer) % 2 ^ 64) (w.tree.key ev))) (pos timer_lazy_delay)
        ≡ false
      → ((p : Ptr) → p ≢ ev → f p ≡ g p)
      → g ev ≡ sub64 ((now + timer) % 2 ^ 64) base
      → g ev < 2 ^ 63
      → length ps + 1 < 2 ^ m
      → 2 * m ≤ fuel
      → (w' : Timers) × (event_add_timer s fuel now ev timer w ≡ some w')
        × Queued base g s w' (insert_sorted g ev (g ev) (remove ev ps))
        × (w'.tree.key ≡ update w.tree.key ev ((now + timer) % 2 ^ 64))
        × (w'.timer_set ≡ w.timer_set)
        × (w'.timedout ≡ w.timedout)
  event_add_timer-moved g now ev timer m fuel hb z on i far same e win few enough =
      let (w1, run1, z1, out, keys1, set1, timedout1) =
        event_del_timer-Queued ev m fuel z i few enough in
      let off : w1.timer_set ev ≡ false =
        ap (λ (h : Ptr → Bool). h ev) set1 ∙ rw (==_of_eq ev ev refl) refl in
      let ns : ev ≢ s = (λ r. ground (
        arith,
        occurs-sentinel f s w.tree ps z.sorted,
        subst (λ (q : Ptr). 0 < occurs q ps) r i,
      )) in
      let z2 =
        Queued-agree base f g s w1 (remove ev ps)
          (λ p j.
            same p (λ r. ground (arith, out, subst (λ (q : Ptr). 0 < occurs q (remove ev ps)) r j)))
          z1 in
      let (w2, run2, z3, keys2, set2, timedout2) =
        event_add_timer-Queued base g s w1 (remove ev ps) now ev timer m fuel hb z2 off ns out e win
          (omega (arith, few, length-remove ev ps i)) enough in
      (
        w2,
        moved_run w1 on far run1 off ∙ run2,
        z3,
        keys2
            ∙ ap (λ (k : Ptr → ℕ). update k ev ((now + timer) % 2 ^ 64)) keys1
            ∙ update_twice w.tree.key ev 0 ((now + timer) % 2 ^ 64),
        set2
            ∙ ap (λ (k : Ptr → Bool). update k ev true) set1
            ∙ update_twice w.timer_set ev false true
            ∙ update_same w.timer_set ev true on,
        timedout2 ∙ timedout1,
      )
    where
      moved_run :
          (w1 : Timers)
          → w.timer_set ev ≡ true
          → ltb_ℤ (abs_int (sub64 ((now + timer) % 2 ^ 64) (w.tree.key ev))) (pos timer_lazy_delay)
            ≡ false
          → event_del_timer s fuel ev w ≡ some w1
          → w1.timer_set ev ≡ false
          → event_add_timer s fuel now ev timer w ≡ event_add_timer s fuel now ev timer w1
      moved_run w1 on far run1 off = unfold event_add_timer in rw (on, far, run1, off) refl

module _ (base : ℕ) (f : Ptr → ℕ) (s : Ptr) (w : Timers) (ps : List Ptr) where
  -- A timer that is added and then deleted leaves the queue as it was: in a queue of fewer than
  -- `2 ^ m - 2` events, with `2 * m` rounds for each loop, `event_add_timer` for an event whose timer
  -- is not set and then `event_del_timer` both end, the events wait in the same order as before, the
  -- flags and all keys but the event's are as before, and the event's key is 0.
  pub event_add_timer-event_del_timer :
      (now ev timer m fuel : ℕ)
      → base < 2 ^ 64
      → Queued base f s w ps
      → w.timer_set ev ≡ false
      → ev ≢ s
      → occurs ev ps ≡ 0
      → f ev ≡ sub64 ((now + timer) % 2 ^ 64) base
      → f ev < 2 ^ 63
      → length ps + 2 < 2 ^ m
      → 2 * m ≤ fuel
      → (w1 : Timers) × (w2 : Timers) × (event_add_timer s fuel now ev timer w ≡ some w1)
        × (event_del_timer s fuel ev w1 ≡ some w2)
        × Queued base f s w2 ps
        × (w2.tree.key ≡ update w.tree.key ev 0)
        × (w2.timer_set ≡ w.timer_set)
        × (w2.timedout ≡ w.timedout)
  event_add_timer-event_del_timer now ev timer m fuel hb z off ns fresh e win few enough =
      let (w1, run1, z1, keys1, set1, out1) =
        event_add_timer-Queued base f s w ps now ev timer m fuel hb z off ns fresh e win
          (omega (arith, few)) enough in
      let (w2, run2, z2, gone, keys2, set2, out2) =
        event_del_timer-Queued base f s w1 (insert_sorted f ev (f ev) ps) ev m fuel z1
          (ground (arith, occurs-insert_sorted f ev (f ev) ev ps))
          (omega (arith, few, length-insert_sorted f ev (f ev) ps)) enough in
      (
        w1,
        w2,
        run1,
        run2,
        subst (λ qs. Queued base f s w2 qs) (remove-insert_sorted f ev (f ev) ps fresh) z2,
        keys2
            ∙ ap (λ (k : Ptr → ℕ). update k ev 0) keys1
            ∙ update_twice w.tree.key ev ((now + timer) % 2 ^ 64) 0,
        set2
            ∙ ap (λ (k : Ptr → Bool). update k ev false) set1
            ∙ update_twice w.timer_set ev true false
            ∙ update_same w.timer_set ev false off,
        out2 ∙ out1,
      )
