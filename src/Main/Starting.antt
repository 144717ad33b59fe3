-- ===== src/Main/Starting.antt =====
-- The state in which a thread enters its loop.
use mtcp_lua.Base.{
  ℕ, ◌+◌, ◌%◌, ◌^◌, ◌<◌, ◌≡◌, ◌≢◌, refl, ap, ◌∙◌, arith, Bool, true, false, some, [], ◌∷◌, ==_of_eq,
}
use mtcp_lua.Base.Int.{sub64}
use mtcp_lua.RbTree.{Ptr, Store, rbtree_init}
use mtcp_lua.RbTree.Shape.{leaf}
use mtcp_lua.RbTree.Order.{insert_sorted}
use mtcp_lua.RbTree.Sequence.{Represents}
use mtcp_lua.Timer.{Timers, event_timer_init}
use mtcp_lua.Timer.Queue.{Queued, event_add_timer-Queued}
use mtcp_lua.Socket.{Answers, World, timer_handler, with_timers}
use mtcp_lua.Main.{vm_init, init_timers, sleeping}

empty-Represents :
    (f : Ptr → ℕ) (s : Ptr) (t : Store) → t.root ≡ s → t.red s ≡ false → Represents f s t []
empty-Represents f s t e b = record {
  tree = leaf;
  black_height = 0;
  is_tree = (0, record { holds = tt; around = e; once = λ p. omega arith; black = b });
  balanced = tt;
  black = refl;
  nodes = refl;
  sorted = tt;
}

-- `event_timer_init` makes the queue empty, whatever the memory held.
pub event_timer_init-Queued :
    (base : ℕ) (f : Ptr → ℕ) (s : Ptr) (w : Timers) → Queued base f s (event_timer_init s w) []
unfolding event_timer_init rbtree_init
event_timer_init-Queued base f s w = record {
  sorted = empty-Represents f s (event_timer_init s w).tree refl (rw (==_of_eq s s refl) refl);
  value = λ p i. absurd (omega (arith, i));
  word = λ p i. absurd (omega (arith, i));
  window = λ p i. absurd (omega (arith, i));
}

-- After `event_timer_init` and `mtcp_lua_vm_init`, from any memory, the queue holds just the event of
-- the first Lua thread, due at once, with the handler that resumes it. Two rounds are enough.
pub vm_init-Queued :
    (answers : Answers) (s ctx : Ptr) (w : World)
    → ctx ≢ s
    → answers.clock w.calls < 2 ^ 64
    → (w' : World) × (vm_init answers s 2 ctx (init_timers s w) ≡ some w')
      × Queued (answers.clock w.calls) (λ p. 0) s w'.timers (ctx ∷ [])
      × (w'.timers.tree.key ctx ≡ answers.clock w.calls)
      × (w'.timers.timer_set ctx ≡ true)
      × (w'.ev_data ctx ≡ ctx)
      × (w'.ev_handler ctx ≡ timer_handler)
unfolding vm_init insert_sorted
vm_init-Queued answers s ctx w ne word =
    let w1 : World = sleeping ctx (init_timers s w) in
    let start = event_timer_init-Queued (answers.clock w.calls) (λ p. 0) s w.timers in
    let queue : Queued (answers.clock w.calls) (λ p. 0) s w1.timers [] = record {
      sorted = start.sorted;
      value = start.value;
      word = start.word;
      window = start.window;
    } in
    let (ts, run, q, keys, sets, outs) =
      event_add_timer-Queued (answers.clock w.calls) (λ p. 0) s w1.timers [] (answers.clock w.calls)
        ctx 0 1 2 word queue (rw (==_of_eq ctx ctx refl) refl) ne refl
        (now_is_base (answers.clock w.calls) word) (omega arith) (omega arith) (omega arith) in
    (
      record w1 { timers = ts },
      ap (with_timers w1) run,
      q,
      ap (λ (g : Ptr → ℕ). g ctx) keys
          ∙ rw (==_of_eq ctx ctx refl) (now_is_key (answers.clock w.calls) word),
      ap (λ (g : Ptr → Bool). g ctx) sets ∙ rw (==_of_eq ctx ctx refl) refl,
      rw (==_of_eq ctx ctx refl) refl,
      rw (==_of_eq ctx ctx refl) refl,
    )
  where
    now_is_base : (n : ℕ) → n < 2 ^ 64 → 0 ≡ sub64 ((n + 0) % 2 ^ 64) n
    now_is_base n h = ground arith

    now_is_key : (n : ℕ) → n < 2 ^ 64 → (n + 0) % 2 ^ 64 ≡ n
    now_is_key n h = ground arith
