-- ===== src/Tests/Socket.antt =====
-- The sockets: the thread 3 works on the socket 9, and the event 2 waits.
use mtcp_lua.Base.{
  ℕ, ◌≤◌, ◌≡◌, refl, arith, true, false, some, List, [], ◌∷◌, if◌then◌else◌, ltb, length,
}
use mtcp_lua.Base.Int.{ℤ, pos, negsuc, pos_part}
use mtcp_lua.RbTree.Order.{insert_sorted}
use mtcp_lua.Timer.Queue.{Queued}
use mtcp_lua.Socket.{
  EpollOp, ctl_add, ctl_del, ctl_mod, is_zero, Call, mtcp_socket, mtcp_setsock_nonblock,
  mtcp_connect, mtcp_getsockopt, mtcp_write, mtcp_read, mtcp_close, mtcp_epoll_ctl, os_close,
  Answers, yields, no_handler, connect_handler, recv_handler, SocketCtx, World, fresh_socket,
  connect, recv, close, gather,
}
use mtcp_lua.Socket.Contract.Listing.{Consistent, Registrar, registers}
use mtcp_lua.Socket.Contract.Registration.{
  done, then_step, connect_step, close_step, Steps-Consistent,
}
use mtcp_lua.Socket.Contract.Arming.{Waits, Admits}
use mtcp_lua.Socket.Contract.Waiting.{connect-Waits, recv-Waits}
use mtcp_lua.Socket.Contract.Reading.{gather-contents}
use mtcp_lua.Tests.Data.{waiting, times, waiting-Queued}

-- A reading after at most `n` calls gets two bytes, and any other nothing. A connection is in
-- progress; all else succeeds.
abbrev reading : ℕ → List Call → ℤ
reading n cs = if ltb n (length cs) then negsuc 0 else pos 2

-- A registration of a negative number fails.
abbrev epoll_answer : EpollOp → ℤ → ℤ
epoll_answer ctl_del a = pos 0
epoll_answer ctl_add (pos a) = pos 0
epoll_answer ctl_mod (pos a) = pos 0
epoll_answer ctl_add (negsuc a) = negsuc 0
epoll_answer ctl_mod (negsuc a) = negsuc 0

abbrev result_of : ℕ → List Call → ℤ
result_of n [] = pos 0
result_of n (mtcp_socket ∷ cs) = pos 7
result_of n (mtcp_setsock_nonblock a ∷ cs) = pos 0
result_of n (mtcp_connect a ∷ cs) = negsuc 0
result_of n (mtcp_getsockopt a ∷ cs) = pos 0
result_of n (mtcp_write a b ∷ cs) = pos (length b)
result_of n (mtcp_read a b ∷ cs) = reading n (mtcp_read a b ∷ cs)
result_of n (mtcp_close a ∷ cs) = pos 0
result_of n (mtcp_epoll_ctl op event a ev ∷ cs) = epoll_answer op a
result_of n (os_close a ∷ cs) = pos 0

abbrev answering : ℕ → ℕ → Answers
answering n e = record {
  result = result_of n;
  errno = λ cs. e;
  buffer = λ cs. 65 ∷ 66 ∷ [];
  so_error = λ cs. 0;
  clock = λ cs. 25;
  inet_pton_ok = λ h. true;
  inet_pton_address = λ h. 1;
}

abbrev world : SocketCtx → List Call → World
world c cs = record {
  timers = waiting;
  sockets = λ p. c;
  ev_data = λ p. 0;
  ev_handler = λ p. no_handler;
  calls = cs;
}

abbrev open_socket_ctx : ℕ → SocketCtx
open_socket_ctx active = record fresh_socket {
  fd = pos 7;
  connected = 1;
  active = active;
  vm = 3;
  vm_ctx = 3;
}

admits : Admits 0 (times 6025) 1 2 4 waiting (2 ∷ []) 3 25 6000
admits = record {
  base_word = omega arith;
  queue = waiting-Queued 6025;
  off = refl;
  ns = omega arith;
  fresh = refl;
  value = refl;
  window = omega arith;
  few = omega arith;
  enough = omega arith;
}

connect-Waits_example :
    (w' : World) × (connect (answering 0 115) 1 4 5 3 9 3 [] (pos 80) (world fresh_socket [])
      ≡ some (yields, w'))
    × Waits w' 5 3 9 connect_handler
    × Queued 0 (times 6025) 1 w'.timers (insert_sorted (times 6025) 3 6025 (2 ∷ []))
    × ((w'.sockets 9).active ≡ 1)
    × ((w'.sockets 9).fd ≡ pos 7)
connect-Waits_example =
    connect-Waits (answering 0 115) 0 (times 6025) 1 2 4 (2 ∷ []) 5 3 9 (world fresh_socket []) []
      80 7 refl refl (omega arith) refl refl refl refl refl admits

recv-Waits_example :
    (w' : World) × (recv (answering 0 11) 1 4 5 3 9 1 (world (open_socket_ctx 1) [])
      ≡ some (yields, w'))
    × Waits w' 5 3 9 recv_handler
    × Queued 0 (times 6025) 1 w'.timers (insert_sorted (times 6025) 3 6025 (2 ∷ []))
recv-Waits_example =
    recv-Waits (answering 0 11) 0 (times 6025) 1 2 4 (2 ∷ []) 5 3 9 (world (open_socket_ctx 1) [])
      refl refl refl admits

two_at_most : (n : ℕ) (cs : List Call) → pos_part (reading n cs) ≤ 2
two_at_most n cs = ground arith

gather-contents_example :
    gather (answering 2 11) 1 4 3 9 [] 0 (world (open_socket_ctx 1) [])
    ≡ some (record {
      content = 65 ∷ 66 ∷ 65 ∷ 66 ∷ [];
      sum = 4;
      last = negsuc 0;
      world =
          world
            (open_socket_ctx 1)
            (mtcp_read (pos 7) 1024 ∷ mtcp_read (pos 7) 1024 ∷ mtcp_read (pos 7) 1024 ∷ []);
    })
gather-contents_example =
    gather-contents (answering 2 11) 1 4 9 (pos 7) 2 3 (world (open_socket_ctx 1) []) refl
      (λ cs. two_at_most 2 (mtcp_read (pos 7) 1024 ∷ cs)) (refl, (refl, refl)) (omega arith)

-- After `connect` of a new socket.
abbrev waiting_world :
    (w' : World) × (connect (answering 0 115) 1 4 5 3 9 3 [] (pos 80) (world fresh_socket [])
      ≡ some (yields, w'))
    × Waits w' 5 3 9 connect_handler
    × Queued 0 (times 6025) 1 w'.timers (insert_sorted (times 6025) 3 6025 (2 ∷ []))
    × ((w'.sockets 9).active ≡ 1)
    × ((w'.sockets 9).fd ≡ pos 7)
waiting_world =
    connect-Waits (answering 0 115) 0 (times 6025) 1 2 4 (2 ∷ []) 5 3 9 (world fresh_socket []) []
      80 7 refl refl (omega arith) refl refl refl refl refl admits

refuses : (op : EpollOp) → registers op ≡ true → is_zero (epoll_answer op (negsuc 0)) ≡ false
refuses ctl_add e = refl
refuses ctl_mod e = refl
refuses ctl_del e = cc

answering-Registrar : Registrar (answering 0 115)
answering-Registrar = record {
  removes = λ fd event ev cs e. refl;
  refuses = λ op event ev cs e. refuses op e;
}

Steps-Consistent_example :
    Consistent (answering 0 115) 9 ((close (answering 0 115) 1 4 9 waiting_world.0).1)
Steps-Consistent_example =
    let start = world fresh_socket [] in
    let w = waiting_world.0 in
    Steps-Consistent (answering 0 115) answering-Registrar 1 4 9 start
      ((close (answering 0 115) 1 4 9 w).1)
      (then_step start w ((close (answering 0 115) 1 4 9 w).1)
        (then_step start start w (done start)
          (connect_step 5 3 3 [] (pos 80) yields start w refl refl waiting_world.1))
        (close_step w))
      refl
