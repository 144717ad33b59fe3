-- ===== src/Main/Threads/Isolation.antt =====
-- A spawned thread disturbs neither the other threads nor the queue of timers.
use mtcp_lua.Base.{ℕ, ◌<◌, ◌≡◌, ◌≢◌, refl, sym, ap, arith, List, ==_of_ne}
use mathlib.Core.Path.{subst}
use mtcp_lua.RbTree.{Ptr, Store}
use mtcp_lua.RbTree.Shape.{Tree, count}
use mtcp_lua.RbTree.Frames.{Holds-frame}
use mtcp_lua.RbTree.Focus.{IsTree, ne_of_count}
use mtcp_lua.RbTree.Sequence.{occurs, occurs-inorder}
use mtcp_lua.Timer.Queue.{Queued}
use mtcp_lua.Socket.{World}
use mtcp_lua.Main.Threads.{Threads, zero_node, zero_event}

zero_node-IsTree :
    (s n : ℕ) (t : Store) (x : Tree)
    → n ≢ s
    → count n x ≡ 0
    → IsTree s t x
    → IsTree s (zero_node n t) x
zero_node-IsTree s n t x ns out (over, z) = (
  over,
  record {
    holds =
        Holds-frame s t (zero_node n t) over x
          (λ p i.
            let ne = ne_of_count p n x i out in
            record {
              lefts = rw (==_of_ne p n ne) refl;
              rights = rw (==_of_ne p n ne) refl;
              parent = rw (==_of_ne p n ne) refl;
              red = rw (==_of_ne p n ne) refl;
            })
          z.holds;
    around = z.around;
    once = z.once;
    black = rw (==_of_ne s n (λ e. ns (sym e))) z.black;
  },
)

pub zero_event-Queued :
    (base : ℕ) (f : Ptr → ℕ) (s n : ℕ) (w : World) (ps : List Ptr)
    → n ≢ s
    → occurs n ps ≡ 0
    → Queued base f s w.timers ps
    → Queued base f s (zero_event n w).timers ps
zero_event-Queued base f s n w ps ns out z =
    let r = z.sorted in
    record {
      sorted = record {
        tree = r.tree;
        black_height = r.black_height;
        is_tree =
            zero_node-IsTree s n w.timers.tree r.tree ns
              (omega (arith, out, occurs-inorder n r.tree, ap (occurs n) r.nodes)) r.is_tree;
        balanced = r.balanced;
        black = r.black;
        nodes = r.nodes;
        sorted = r.sorted;
      };
      value = λ p i. rw (==_of_ne p n (other p i)) (z.value p i);
      word = λ p i. rw (==_of_ne p n (other p i)) (z.word p i);
      window = z.window;
    }
  where
    other : (p : Ptr) → 0 < occurs p ps → p ≢ n
    other p i e = ground (arith, out, subst (λ (q : Ptr). 0 < occurs q ps) e i)
