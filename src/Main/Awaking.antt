-- ===== src/Main/Awaking.antt =====
-- A thread that sleeps is resumed when its time has come.
use mathlib.Core.Path.{subst}
use mtcp_lua.Base.{
  ℕ, ◌+◌, ◌*◌, ◌^◌, ◌≤◌, ◌<◌, ◌≡◌, ◌≢◌, refl, sym, ap, ◌∙◌, arith, true, Option, some, List, [],
  ◌∷◌, leb, ◌==◌, length, eq_of_==, Bool-cases, inl, inr,
}
use mtcp_lua.Base.Int.{pos, sub64}
use mtcp_lua.RbTree.{Ptr, null}
use mtcp_lua.RbTree.Shape.{one_if}
use mtcp_lua.RbTree.Order.{Sorted, insert_sorted}
use mtcp_lua.RbTree.Sequence.{occurs}
use mtcp_lua.RbTree.Walks.{All-occurs}
use mtcp_lua.Timer.{Timers}
use mtcp_lua.Timer.Queue.{Queued, occurs-insert_sorted}
use mtcp_lua.Timer.Absence.{length-insert_sorted}
use mtcp_lua.Timer.Expiry.{Due, Expired, budget, due_of, fire_all, event_expire_timers-Due}
use mtcp_lua.Socket.{Call, Answers, yields, World}
use mtcp_lua.Socket.Contract.Arming.{Admits}
use mtcp_lua.Socket.Contract.Waking.{world_of_eq}
use mtcp_lua.Main.{sleep, sleeping, expire}
use mtcp_lua.Main.Sleeping.{sleep-yields}

-- Every event whose time has come is among the due ones.
occurs-due_of :
    (f : Ptr → ℕ) (n p : ℕ) (ps : List Ptr)
    → Sorted f ps
    → 0 < occurs p ps
    → f p ≤ n
    → 0 < occurs p (due_of f n ps)
occurs-due_of f n p [] so i le = absurd (omega (arith, i))
occurs-due_of f n p (q ∷ ps) so i le = elim (Bool-cases (p == q)) [
  | inl e ↦
      let soon : leb (f q) n ≡ true = at_most (f q) n (omega (arith, le, ap f (eq_of_== p q e))) in
      rw (soon, e) (omega arith)
  | inr e ↦
      let j : 0 < occurs p ps = omega (arith, i, ap one_if e) in
      let above = All-occurs (λ r. f q ≤ f r) p ps so.0 j in
      let soon : leb (f q) n ≡ true = at_most (f q) n (omega (arith, le, above)) in
      rw soon (omega (arith, occurs-due_of f n p ps so.1 j le))
]
  where
    at_most : (a b : ℕ) → a ≤ b → leb a b ≡ true
    at_most a b h = ground arith

length-due_of : (f : Ptr → ℕ) (n : ℕ) (ps : List Ptr) → length (due_of f n ps) ≤ length ps
length-due_of f n [] = omega arith
length-due_of f n (q ∷ ps) = elim (Bool-cases (leb (f q) n)) [
  | inl e ↦ rw e (omega (arith, length-due_of f n ps))
  | inr e ↦ rw e (omega arith)
]

abbrev pub world_timers : World → Timers
world_timers w = w.timers

abbrev pub put_world_timers : Timers → World → World
put_world_timers ts w = record w { timers = ts }

budget-due_of :
    (c : ℕ) (f : Ptr → ℕ) (n : ℕ) (ps : List Ptr) → budget c (due_of f n ps) ≤ budget c ps
budget-due_of c f n [] = omega arith
budget-due_of c f n (q ∷ ps) = elim (Bool-cases (leb (f q) n)) [
  | inl e ↦ rw e (omega (arith, budget-due_of c f n ps))
  | inr e ↦ rw e (omega arith)
]

module _ (answers : Answers) (base : ℕ) (f : Ptr → ℕ) (s : Ptr) (m fuel : ℕ) (ps : List Ptr)
    (ctx : Ptr) (reported : ℕ → List Ptr) (run : Ptr → World → Option World) where
  -- A thread has called `sleep` for `n` seconds, which has left the world `w'`. When the loop of
  -- the thread expires the timers at a later clock, not before the sleeping thread's time, all due
  -- events are handled, the earliest first, the event of the sleeping thread among them, and none
  -- is due afterwards. A handler is assumed to return, to take no due event out of the queue and to
  -- set no timer that is due at once; it may set its own timer again, and others, so that there are
  -- up to `c` more events; there is room for those below `2 ^ m - 1`.
  pub sleep-resumed :
      (n now c : ℕ) (w w' : World) (cs : List Call)
      → n * 1000 < 2 ^ 31
      → ctx ≢ null
      → Admits base f s m fuel (sleeping ctx w).timers ps ctx (answers.clock w.calls) (n * 1000)
      → length ps + 1 + budget c (insert_sorted f ctx (f ctx) ps) + 1 < 2 ^ m
      → length ps + 2 ≤ fuel
      → sleep answers s fuel ctx 1 (pos n) w ≡ some (yields, w')
      → answers.clock cs ≡ now
      → now < 2 ^ 64
      → sub64 now base < 2 ^ 63
      → f ctx ≤ sub64 now base
      → ((ev : Ptr) (v : World) (ds : List Ptr) (k : ℕ) (d : Due base now s v.timers ds k)
          → Expired s ev v.timers d.events
          → k + c + 1 < 2 ^ m
          → (v' : World) × (run ev v ≡ some v') × Due base now s v'.timers ds (k + c))
      → (w2 : World) × (ds : List Ptr) × (k : ℕ) × (expire answers s fuel reported run
            (some (record w' { calls = cs }))
          ≡ some w2)
        × (fire_all world_timers put_world_timers s fuel now run ds
              (some (record w' { calls = cs }))
            ≡ some w2)
        × (0 < occurs ctx ds)
        × Due base now s w2.timers [] k
  unfolding expire
  sleep-resumed n now c w w' cs small ne a few rounds slept clock word near late keeps =
      let (w0, run0, q, key, set, out, event, handler) =
        sleep-yields answers base f s m fuel ps ctx n w small ne a in
      let same : w0 ≡ w' = world_of_eq yields yields w0 w' (sym run0 ∙ slept) in
      let qs = insert_sorted f ctx (f ctx) ps in
      let ds = due_of f (sub64 now base) qs in
      let q' : Queued base f s w'.timers qs =
        subst (λ (v : World). Queued base f s v.timers qs) same q in
      let d : Due base now s w'.timers ds (length qs) = record {
        value = f;
        events = qs;
        queued = q';
        size = omega arith;
        head = refl;
      } in
      let (w2, ran, all, rest) =
        event_expire_timers-Due world_timers put_world_timers s fuel now run base m c a.base_word
          word near a.enough (λ ts v. refl) keeps ds fuel (length qs) (record w' { calls = cs }) d
          (omega (
            arith,
            few,
            budget-due_of c f (sub64 now base) qs,
            length-insert_sorted f ctx (f ctx) ps,
          ))
          (omega (
            arith,
            rounds,
            length-due_of f (sub64 now base) qs,
            length-insert_sorted f ctx (f ctx) ps,
          )) in
      (
        w2,
        ds,
        length qs + budget c ds,
        rw clock ran,
        all,
        occurs-due_of f (sub64 now base) ctx qs q'.sorted.sorted
            (ground (arith, occurs-insert_sorted f ctx (f ctx) ctx ps)) late,
        rest,
      )
