-- ===== src/Tests/Waking.antt =====
-- The handlers of the sockets: the event 2 waits for the socket 9; the thread 3 calls `recv`.
use mtcp_lua.Base.{
  ℕ, ◌≡◌, refl, arith, false, true, Option, none, some, List, [], ◌∷◌, ◌==◌, if◌then◌else◌, ltb,
  length, ◌≤◌,
}
use mtcp_lua.Base.Int.{ℤ, pos, negsuc, pos_part}
use mtcp_lua.RbTree.{Ptr, null}
use mtcp_lua.Timer.{event_del_timer, fire}
use mtcp_lua.Socket.Contract.Expiring.{timers_in, put_timers_in, fire-recv}
use mtcp_lua.Timer.Queue.{Queued}
use mtcp_lua.Socket.{
  Call, mtcp_socket, mtcp_setsock_nonblock, mtcp_connect, mtcp_getsockopt, mtcp_write, mtcp_read,
  mtcp_close, mtcp_epoll_ctl, os_close, Answers, Outcome, yields, resumes, finishes, boolean, text,
  bytes, connect_successful, no_handler, SocketCtx, World, fresh_socket, run_connect_handler,
  run_recv_handler, recv, nil_value, recv_timedout, ctl_del, no_events,
}
use mtcp_lua.Socket.Contract.Arming.{Admits}
use mtcp_lua.Socket.Contract.Waking.{
  Awaited, Woken, connect_handler-resumes, connect_handler-forgets, recv-recv_handler,
}
use mtcp_lua.Tests.Data.{waiting, times, waiting-Queued}

-- A read of 1024 bytes after at most `n` calls gets two bytes, any other read nothing; all else
-- succeeds.
abbrev reading : ℕ → ℕ → List Call → ℤ
reading n size cs =
    if size == 1024 then (if ltb n (length cs) then negsuc 0 else pos 2) else negsuc 0

abbrev result_of : ℕ → List Call → ℤ
result_of n [] = pos 0
result_of n (mtcp_socket ∷ cs) = pos 7
result_of n (mtcp_setsock_nonblock a ∷ cs) = pos 0
result_of n (mtcp_connect a ∷ cs) = negsuc 0
result_of n (mtcp_getsockopt a ∷ cs) = pos 0
result_of n (mtcp_write a b ∷ cs) = pos (length b)
result_of n (mtcp_read a b ∷ cs) = reading n b (mtcp_read a b ∷ cs)
result_of n (mtcp_close a ∷ cs) = pos 0
result_of n (mtcp_epoll_ctl op event a ev ∷ cs) = pos 0
result_of n (os_close a ∷ cs) = pos 0

abbrev answering : ℕ → ℕ → Answers
answering n err = record {
  result = result_of n;
  errno = λ cs. 11;
  buffer = λ cs. 65 ∷ 66 ∷ [];
  so_error = λ cs. err;
  clock = λ cs. 25;
  inet_pton_ok = λ h. true;
  inet_pton_address = λ h. 1;
}

abbrev socket : SocketCtx
socket = record fresh_socket { fd = pos 7; connected = 1; active = 1; vm = 3; vm_ctx = 3 }

abbrev world : World
world = record {
  timers = waiting;
  sockets = λ p. socket;
  ev_data = λ p. 9;
  ev_handler = λ p. no_handler;
  calls = [];
}

awaited : Awaited 0 (times 6025) 1 2 4 world (2 ∷ []) 2 9
awaited = record {
  queue = waiting-Queued 6025;
  inside = omega arith;
  few = omega arith;
  enough = omega arith;
  in_time = refl;
  data_set = refl;
}

connect_handler-resumes_example :
    Woken
      (answering 2 0)
      0
      (times 6025)
      1
      2
      4
      (2 ∷ [])
      2
      9
      (run_connect_handler (answering 2 0) 1 4 2 world)
      (resumes 3 (boolean true ∷ text connect_successful ∷ []))
      (λ w'. (w'.sockets 9).connected ≡ 1)
connect_handler-resumes_example =
    connect_handler-resumes (answering 2 0) 0 (times 6025) 1 2 4 (2 ∷ []) 2 9 world awaited refl

connect_handler-forgets_example :
    Woken
      (answering 2 111)
      0
      (times 6025)
      1
      2
      4
      (2 ∷ [])
      2
      9
      (run_connect_handler (answering 2 111) 1 4 2 world)
      finishes
      (λ w'. w'.sockets ≡ world.sockets)
connect_handler-forgets_example =
    connect_handler-forgets (answering 2 111) 0 (times 6025) 1 2 4 (2 ∷ []) 2 9 world 111 awaited
      refl (omega arith)

two_at_most : (n size : ℕ) (cs : List Call) → pos_part (reading n size cs) ≤ 2
two_at_most n size cs = ground arith

admits : Admits 0 (times 6025) 1 2 4 waiting (2 ∷ []) 3 25 6000
admits = record {
  base_word = omega arith;
  queue = waiting-Queued 6025;
  off = refl;
  ns = omega arith;
  fresh = refl;
  value = refl;
  window = omega arith;
  few = omega arith;
  enough = omega arith;
}

world_of : Option (Outcome × World) → World
world_of (some r) = r.1
world_of none = world

-- After the thread 3 has called `recv`, and two more readings will succeed.
yielded : World
unfolding world_of recv mtcp_lua.Timer.event_add_timer mtcp_lua.Timer.insert_timer
    mtcp_lua.Timer.with_tree mtcp_lua.RbTree.rbtree_insert mtcp_lua.RbTree.insert_at
    mtcp_lua.RbTree.insert_loop mtcp_lua.RbTree.insert_round mtcp_lua.RbTree.goes_left
    mtcp_lua.RbTree.side_of mtcp_lua.RbTree.attach mtcp_lua.RbTree.rebalance
    mtcp_lua.RbTree.blacken_root mtcp_lua.RbTree.parent_side mtcp_lua.RbTree.rotate
    mtcp_lua.Socket.epoll_ctl
yielded = world_of (recv (answering 4 0) 1 4 5 3 9 1 world)

abbrev sent : List ℕ
sent = 65 ∷ 66 ∷ 65 ∷ 66 ∷ []

recv-recv_handler_example :
    (w2 : World) × (run_recv_handler (answering 4 0) 1 4 3 (λ l. l) 3 yielded
      ≡ some (resumes 5 (bytes sent ∷ []), w2))
    × Queued 0 (times 6025) 1 w2.timers (2 ∷ [])
    × (w2.timers.timer_set 3 ≡ false)
unfolding yielded world_of recv mtcp_lua.Timer.event_add_timer mtcp_lua.Timer.insert_timer
    mtcp_lua.Timer.with_tree mtcp_lua.RbTree.rbtree_insert mtcp_lua.RbTree.insert_at
    mtcp_lua.RbTree.insert_loop mtcp_lua.RbTree.insert_round mtcp_lua.RbTree.goes_left
    mtcp_lua.RbTree.side_of mtcp_lua.RbTree.attach mtcp_lua.RbTree.rebalance
    mtcp_lua.RbTree.blacken_root mtcp_lua.RbTree.parent_side mtcp_lua.RbTree.rotate
    mtcp_lua.Socket.epoll_ctl
recv-recv_handler_example =
    recv-recv_handler (answering 4 0) 0 (times 6025) 1 2 4 (2 ∷ []) 3 9 5 world yielded (λ l. l)
      (pos 7) 2 3 refl refl refl admits (omega arith) refl refl
      (λ cs. two_at_most 4 1024 (mtcp_read (pos 7) 1024 ∷ cs)) (refl, (refl, refl)) refl refl
      (omega arith) (omega arith)

fire-recv_example :
    (w2 : World) × (fire timers_in put_timers_in 1 4 6025
        (λ ev r. run_recv_handler (answering 4 0) 1 4 3 (λ l. l) ev r.1)
        3
        (yields, yielded)
        (event_del_timer 1 4 3 yielded.timers)
      ≡ some (resumes 5 (nil_value ∷ text recv_timedout ∷ []), w2))
    × Queued 0 (times 6025) 1 w2.timers (2 ∷ [])
    × (w2.timers.timer_set 3 ≡ false)
    × (w2.calls ≡ mtcp_epoll_ctl ctl_del no_events (yielded.sockets 9).fd null ∷ yielded.calls)
unfolding yielded world_of recv mtcp_lua.Timer.event_add_timer mtcp_lua.Timer.insert_timer
    mtcp_lua.Timer.with_tree mtcp_lua.RbTree.rbtree_insert mtcp_lua.RbTree.insert_at
    mtcp_lua.RbTree.insert_loop mtcp_lua.RbTree.insert_round mtcp_lua.RbTree.goes_left
    mtcp_lua.RbTree.side_of mtcp_lua.RbTree.attach mtcp_lua.RbTree.rebalance
    mtcp_lua.RbTree.blacken_root mtcp_lua.RbTree.parent_side mtcp_lua.RbTree.rotate
    mtcp_lua.Socket.epoll_ctl
fire-recv_example =
    fire-recv (answering 4 0) 0 (times 6025) 1 2 4 (2 ∷ []) 3 9 5 world yielded (λ l. l) 3 6025 refl
      refl refl admits (omega arith) refl
