-- ===== src/Tests/Main.antt =====
-- The threads: two cores, a sleep of two seconds, and a loop without events.
use mtcp_lua.Base.{
  ℕ, ◌<◌, ◌≡◌, refl, arith, true, false, Option, none, some, List, [], ◌∷◌, length, ◌==◌,
  if◌then◌else◌, ==_of_eq, ==_of_ne,
}
use mtcp_lua.Base.Int.{pos}
use mtcp_lua.RbTree.Order.{insert_sorted}
use mtcp_lua.Timer.Queue.{Queued}
use mtcp_lua.Socket.{
  Call, mtcp_socket, Answers, Outcome, World, with_timers, run_recv_handler, yields, timer_handler,
  no_handler, fresh_socket,
}
use mtcp_lua.Socket.Contract.Arming.{Admits}
use mtcp_lua.Main.{sleep, delay_of, sleeping, expire, thread_loop}
use mtcp_lua.Main.{vm_init, init_timers}
use mtcp_lua.Main.Starting.{vm_init-Queued}
use mtcp_lua.Log.{initial_log}
use mtcp_lua.Main.Program.{System, level_flag, main}
use mtcp_lua.Main.Ends.{EndOk, main-EndOk}
use mtcp_lua.Main.Threads.{LuaApi, Status, lua_errrun, Threads, set_up}
use mtcp_lua.Main.Sleeping.{sleep-yields}
use mtcp_lua.Main.Rounds.{rounds, exit_with, thread_loop-exits}
use mtcp_lua.RbTree.{
  Ptr, update, rbtree_insert, insert_at, insert_loop, insert_round, goes_left, side_of, attach,
  rebalance, blacken_root, parent_side, rotate,
}
use mtcp_lua.RbTree.Sequence.{occurs}
use mtcp_lua.Timer.{event_add_timer, insert_timer, with_tree}
use mtcp_lua.Timer.Expiry.{Due, Expired, fire_all}
use mtcp_lua.Timer.Rearming.{event_add_timer-Due}
use mtcp_lua.Socket.Contract.Expiring.{expired-timers}
use mathlib.Core.Path.{subst}
use mtcp_lua.Base.{ap, sym, ◌+◌, ◌^◌, Bool-cases, inl, inr}
use mtcp_lua.Main.Awaking.{world_timers, put_world_timers, sleep-resumed}
use mtcp_lua.Tests.Data.{waiting, times, waiting-Queued}

abbrev quiet : Answers
quiet = record {
  result = λ cs. pos 0;
  errno = λ cs. 0;
  buffer = λ cs. [];
  so_error = λ cs. 0;
  clock = λ cs. 25;
  inet_pton_ok = λ h. true;
  inet_pton_address = λ h. 1;
}

abbrev resting : World
resting = record {
  timers = waiting;
  sockets = λ p. fresh_socket;
  ev_data = λ p. 0;
  ev_handler = λ p. no_handler;
  calls = [];
}

abbrev two_cores : System
two_cores = record {
  log_file = pos 3;
  mtcp_ready = true;
  cpus = 4;
  configured = 2;
  created = λ i. true;
}

main-EndOk_example : EndOk two_cores (main (level_flag (pos 5) ∷ []) 1 two_cores initial_log)
main-EndOk_example = main-EndOk (level_flag (pos 5) ∷ []) 1 two_cores

admits : Admits 0 (times 2025) 1 2 4 (sleeping 3 resting).timers (2 ∷ []) 3 25 2000
admits = record {
  base_word = omega arith;
  queue = record {
    sorted = (waiting-Queued 2025).sorted;
    value = (waiting-Queued 2025).value;
    word = (waiting-Queued 2025).word;
    window = (waiting-Queued 2025).window;
  };
  off = refl;
  ns = omega arith;
  fresh = refl;
  value = refl;
  window = omega arith;
  few = omega arith;
  enough = omega arith;
}

sleep-yields_example :
    (w' : World) × (sleep quiet 1 4 3 1 (pos 2) resting ≡ some (yields, w'))
    × Queued 0 (times 2025) 1 w'.timers (insert_sorted (times 2025) 3 2025 (2 ∷ []))
    × (w'.timers.tree.key 3 ≡ 2025)
    × (w'.timers.timer_set 3 ≡ true)
    × (w'.timers.timedout 3 ≡ false)
    × (w'.ev_data 3 ≡ 3)
    × (w'.ev_handler 3 ≡ timer_handler)
sleep-yields_example =
    sleep-yields quiet 0 (times 2025) 1 2 4 (2 ∷ []) 3 2 resting (omega arith) (omega arith) admits

thread_loop-exits_example :
    thread_loop quiet 1 4 (λ i. []) (λ ev w. some w) 10 0 (some resting)
    ≡ exit_with quiet 1 4
        (λ i. [])
        (λ ev w. some w)
        5
        (rounds quiet 1 4 (λ i. []) (λ ev w. some w) 9 0 (some resting))
thread_loop-exits_example = thread_loop-exits quiet 1 4 (λ i. []) (λ ev w. some w) resting

vm_init-Queued_example :
    (w' : World) × (vm_init quiet 1 2 3 (init_timers 1 resting) ≡ some w')
    × Queued 25 (λ p. 0) 1 w'.timers (3 ∷ [])
    × (w'.timers.tree.key 3 ≡ 25)
    × (w'.timers.timer_set 3 ≡ true)
    × (w'.ev_data 3 ≡ 3)
    × (w'.ev_handler 3 ≡ timer_handler)
vm_init-Queued_example = vm_init-Queued quiet 1 3 resting (omega arith) (omega arith)

-- The clock stands at 25 until there is a call, and then at 3000.
abbrev clock_of : List Call → ℕ
clock_of cs = if length cs == 0 then 25 else 3000

abbrev passing : Answers
passing = record quiet { clock = clock_of }

-- The event 2 waits in `recv`; any other thread sleeps again, for a second.
world_after : Option (Outcome × World) → Option World
world_after none = none
world_after (some r) = some r.1

abbrev handling : Ptr → World → Option World
handling ev w =
    if ev == 2
    then world_after (run_recv_handler passing 1 6 3 (λ l. l) ev w)
    else with_timers w (event_add_timer 1 6 3000 ev 1000 w.timers)

handling-Due :
    (ev : Ptr) (v : World) (ds : List Ptr) (k : ℕ) (d : Due 0 3000 1 v.timers ds k)
    → Expired 1 ev v.timers d.events
    → k + 1 + 1 < 2 ^ 3
    → (v' : World) × (handling ev v ≡ some v') × Due 0 3000 1 v'.timers ds (k + 1)
unfolding world_after
handling-Due ev v ds k d x few = elim (Bool-cases (ev == 2)) [
  | inl e ↦
      let (o, v', ran, same) = expired-timers passing 1 6 3 (λ l. l) ev v x.timedout in
      (
        v',
        rw e (ap world_after ran),
        record {
          value = d.value;
          events = d.events;
          queued = subst (λ ts. Queued 0 d.value 1 ts d.events) (sym same) d.queued;
          size = omega (arith, d.size);
          head = d.head;
        },
      )
  | inr e ↦
      let (ts, ran, d') =
        event_add_timer-Due 0 3000 3 1 6 ev 1000 v.timers ds k (omega arith) (omega arith)
          (omega arith) (omega arith) d x few in
      (record v { timers = ts }, rw e (ap (λ o. with_timers v o) ran), d')
]

-- After the thread 3 has called `sleep`.
slept : World
unfolding sleep delay_of event_add_timer insert_timer with_tree rbtree_insert insert_at insert_loop
    insert_round goes_left side_of attach rebalance blacken_root parent_side rotate
slept = elim (sleep passing 1 6 3 1 (pos 2) resting) [ some r ↦ r.1 | none ↦ resting ]

roomy : Admits 0 (times 2025) 1 3 6 (sleeping 3 resting).timers (2 ∷ []) 3 25 2000
roomy = record {
  base_word = admits.base_word;
  queue = admits.queue;
  off = admits.off;
  ns = admits.ns;
  fresh = admits.fresh;
  value = admits.value;
  window = admits.window;
  few = omega arith;
  enough = omega arith;
}

abbrev woken : World
woken = record slept { calls = mtcp_socket ∷ [] }

sleep-resumed_example :
    (w2 : World) × (ds : List Ptr) × (k : ℕ) × (expire passing 1 6 (λ i. []) handling (some woken)
      ≡ some w2)
    × (fire_all world_timers put_world_timers 1 6 3000 handling ds (some woken) ≡ some w2)
    × (0 < occurs 3 ds)
    × Due 0 3000 1 w2.timers [] k
unfolding slept sleep delay_of event_add_timer insert_timer with_tree rbtree_insert insert_at
    insert_loop insert_round goes_left side_of attach rebalance blacken_root parent_side rotate
    insert_sorted
sleep-resumed_example =
    sleep-resumed passing 0 (times 2025) 1 3 6 (2 ∷ []) 3 (λ i. []) handling 2 3000 1 resting slept
      (mtcp_socket ∷ []) (omega arith) (omega arith) roomy (omega arith) (omega arith) refl refl
      (omega arith) (omega arith) (omega arith) handling-Due

-- A Lua state is a table of contexts and one of the values on top of the stacks.
abbrev Table : Type 0
Table = (Ptr → Ptr) × (Ptr → ℕ)

abbrev table_api : LuaApi Table
table_api = record {
  get_ctx = λ l g. g.0 l;
  set_ctx = λ l v g. (update g.0 l v, g.1);
  new_state = λ l co g. (update g.0 co (g.0 l), g.1);
  has_text = λ l g. true;
  xmove = λ l co g. (g.0, update (update g.1 l 0) co (g.1 l));
  top = λ l g. g.1 l;
  get_set = λ l v g. rw (==_of_eq l l refl) refl;
  get_other = λ l co v k g ne. rw (==_of_ne k co ne) refl;
  top_set = λ k co v g. refl;
  top_xmove = λ l co g ne. rw (==_of_eq co co refl) refl;
  top_new = λ k l co g ne. refl;
}

abbrev failing : Ptr → ℕ → Threads Table → Option (Status × Threads Table)
failing vm narg t = some (lua_errrun, t)

-- The state 7 has the function 77 on top of its stack.
abbrev one_thread : Threads Table
one_thread = record {
  world = resting;
  lua = (λ l. 2, λ l. if l == 7 then 77 else 0);
  contexts = λ c. record { main = 8; vm = 7; co_ref = pos 1 };
  printed = [];
}

abbrev before_resume : Threads Table
before_resume =
    set_up table_api failing 2 5 9 (pos 3)
      (record one_thread { lua = table_api.xmove 7 9 (table_api.new_state 7 9 one_thread.lua) })
