-- ===== src/Socket/Contract/Connecting.antt =====
-- `connect` keeps the flag `active` true to mTCP's record.
use mtcp_lua.Base.{
  ℕ, ◌≡◌, refl, ◌∙◌, false, not, ◌&&◌, ◌||◌, Option, none, some, List, ◌∷◌, ◌==◌, ==_of_eq,
  Bool-cases, inl, inr, arith,
}
use mtcp_lua.Base.Int.{ℤ, pos, negsuc, ltb_ℤ}
use mtcp_lua.RbTree.{Ptr}
use mtcp_lua.Timer.{Timers}
use mtcp_lua.Socket.{
  ctl_add, epollout, mtcp_socket, mtcp_setsock_nonblock, mtcp_connect, mtcp_close, Answers, World,
  put, call, is_minus_one, is_zero, is_negative, einprogress, eagain, epoll_ctl, effective_op,
  mtcp_epoll_ctl, close_helper, close_current, set_event, with_timers, yield_on, connect_handler,
  port_number, await_connect, connect_fd, open_socket, connect,
}
use mtcp_lua.Socket.Contract.Listing.{
  Registrar, minus_one, same_fd, same_fd_refl, listed, Consistent, epoll_ctl-Consistent,
  close_helper-Consistent, Kept,
}

module _ (answers : Answers) (laws : Registrar answers) (s fuel : ℕ) (sctx : Ptr) where
  -- The socket is not registered, and neither are the descriptor that `mtcp_socket` answers and -1.
  pub record Connectable (w : World) : Type 0 where
    pub inactive : (w.sockets sctx).active ≡ 0
    pub unlisted : listed answers (w.sockets sctx).fd w.calls ≡ false
    pub no_minus_one : listed answers (negsuc 0) w.calls ≡ false

  consistent : (w : World) → Connectable w → Consistent answers sctx w
  consistent w z = rw z.inactive z.unlisted

  -- `mtcp_epoll_ctl` has refused to register the socket.
  refused :
      (ctx : Ptr) (w : World)
      → Connectable w
      → (epoll_ctl answers s fuel sctx ctl_add epollout ctx w).0 ≡ false
      → Connectable ((epoll_ctl answers s fuel sctx ctl_add epollout ctx w).1)
  unfolding epoll_ctl
  refused ctx w z =
      let c = w.sockets sctx in
      let op = effective_op answers s fuel ctl_add c.active in
      elim (Bool-cases (is_zero (answers.result (mtcp_epoll_ctl op epollout c.fd ctx ∷ w.calls)))) [
        | inl e ↦ rw e (λ h. absurd (ground (arith, h)))
        | inr e ↦ rw e (λ h. record {
          inactive = z.inactive;
          unlisted = rw (same_fd_refl c.fd, e) z.unlisted;
          no_minus_one = elim (Bool-cases (same_fd (negsuc 0) c.fd)) [
            | inl e' ↦ rw (e', e) z.no_minus_one
            | inr e' ↦ rw e' z.no_minus_one
          ];
        })
      ]

  closed : (w : World) → Connectable w → Connectable (close_helper answers s fuel sctx w)
  unfolding close_helper
  closed w z = elim (Bool-cases (is_minus_one (w.sockets sctx).fd)) [
    | inl e ↦ rw e z
    | inr e ↦
        rw (e, z.inactive)
          (record {
            inactive = z.inactive;
            unlisted = rw (same_fd_refl (w.sockets sctx).fd) refl;
            no_minus_one = minus_one answers laws (mtcp_close (w.sockets sctx).fd ∷ w.calls);
          })
  ]

  timed :
      (w : World) (o : Option Timers)
      → Consistent answers sctx w
      → Kept answers s fuel sctx (yield_on (with_timers w o))
  timed w none h = tt
  timed w (some ts) h = h

  await_connect-Kept :
      (ctx : Ptr) (w : World)
      → Connectable w
      → Kept answers s fuel sctx (await_connect answers s fuel ctx sctx w)
  unfolding await_connect
  await_connect-Kept ctx w z =
      let r = epoll_ctl answers s fuel sctx ctl_add epollout ctx w in
      elim (Bool-cases r.0) [
        | inl e ↦ rw e (
            timed r.1 _
              (epoll_ctl-Consistent answers s fuel sctx ctl_add epollout ctx w (consistent w z)))
        | inr e ↦
            let c = closed r.1 (refused ctx w z e) in
            rw (e, ==_of_eq sctx sctx refl, c.inactive) c.no_minus_one
      ]

  connect_fd-Kept :
      (l ctx : Ptr) (fd : ℤ) (w : World)
      → Connectable w
      → listed answers fd w.calls ≡ false
      → Kept answers s fuel sctx (connect_fd answers s fuel l ctx sctx fd w)
  unfolding connect_fd
  connect_fd-Kept l ctx fd w z new =
      let w1 : World = call (mtcp_connect fd) w in
      let z1 : Connectable w1 = record {
        inactive = z.inactive;
        unlisted = z.unlisted;
        no_minus_one = z.no_minus_one;
      } in
      let c = w.sockets sctx in
      let err = answers.errno w1.calls in
      let w2 : World =
        set_event ctx sctx connect_handler
          (put sctx (record c { fd = fd; vm = l; vm_ctx = ctx }) w1) in
      let z2 : Connectable w2 = record {
        inactive = rw (==_of_eq sctx sctx refl) z.inactive;
        unlisted = rw (==_of_eq sctx sctx refl) new;
        no_minus_one = z.no_minus_one;
      } in
      elim (Bool-cases (is_zero (answers.result w1.calls))) [
        | inl e ↦ rw (e, ==_of_eq sctx sctx refl, z.inactive) new
        | inr e ↦ elim (Bool-cases (not (err == einprogress) && not (err == eagain))) [
          | inl e' ↦
              rw (e, e') (close_helper-Consistent answers s fuel sctx laws w1 (consistent w1 z1))
          | inr e' ↦ rw (e, e') (await_connect-Kept ctx w2 z2)
        ]
      ]

  open_socket-Kept :
      (l ctx : Ptr) (w : World)
      → Connectable w
      → listed answers (answers.result (mtcp_socket ∷ w.calls)) w.calls ≡ false
      → Kept answers s fuel sctx (open_socket answers s fuel l ctx sctx w)
  unfolding open_socket
  open_socket-Kept l ctx w z new =
      let fd = answers.result (mtcp_socket ∷ w.calls) in
      let w2 : World = call (mtcp_setsock_nonblock fd) (call mtcp_socket w) in
      let z2 : Connectable w2 = record {
        inactive = z.inactive;
        unlisted = z.unlisted;
        no_minus_one = z.no_minus_one;
      } in
      elim (Bool-cases (is_negative fd)) [
        | inl e ↦ rw e (consistent w z)
        | inr e ↦ elim (Bool-cases (is_negative (answers.result w2.calls))) [
          | inl e' ↦ rw (e, e') (consistent w z)
          | inr e' ↦ rw (e, e') (connect_fd-Kept l ctx fd w2 z2 new)
        ]
      ]

  current : (w : World) → Connectable w → Connectable (close_current answers s fuel sctx w)
  current w z = elim (Bool-cases (is_minus_one (w.sockets sctx).fd)) [
    | inl e ↦ rw e z
    | inr e ↦
        rw e
          (record { inactive = z.inactive; unlisted = z.unlisted; no_minus_one = z.no_minus_one })
  ]

  current-listed :
      (w : World) (fd : ℤ)
      → listed answers fd (close_current answers s fuel sctx w).calls ≡ listed answers fd w.calls
  current-listed w fd = elim (Bool-cases (is_minus_one (w.sockets sctx).fd)) [
    | inl e ↦ rw e refl
    | inr e ↦ rw e refl
  ]

  -- The descriptor that `mtcp_socket` answers in `connect`.
  abbrev pub next_fd : World → ℤ
  next_fd w = answers.result (mtcp_socket ∷ (close_current answers s fuel sctx w).calls)

  -- `connect` of a socket that is not registered.
  pub connect-Kept :
      (l ctx : Ptr) (argc : ℕ) (host : List ℕ) (port : ℤ) (w : World)
      → (w.sockets sctx).active ≡ 0
      → listed answers (next_fd w) w.calls ≡ false
      → Consistent answers sctx w
      → Kept answers s fuel sctx (connect answers s fuel l ctx sctx argc host port w)
  unfolding connect
  connect-Kept l ctx argc host port w off new h =
      let w1 = close_current answers s fuel sctx w in
      let z = current w (record {
        inactive = off;
        unlisted = h ∙ rw off refl;
        no_minus_one = minus_one answers laws w.calls;
      }) in
      let named : (a p : ℕ)
          → Connectable (
              put sctx (record (w1.sockets sctx) { sockaddr = record { address = a; port = p } })
                w1) =
        λ a p. record {
          inactive = rw (==_of_eq sctx sctx refl) z.inactive;
          unlisted = rw (==_of_eq sctx sctx refl) z.unlisted;
          no_minus_one = z.no_minus_one;
        } in
      let a = answers.inet_pton_address host in
      elim (Bool-cases (argc == 3)) [
        | inr e ↦ rw e h
        | inl e ↦ elim (Bool-cases (answers.inet_pton_ok host)) [
          | inr e1 ↦ rw (e, e1) (consistent _ (named 0 0))
          | inl e1 ↦ elim (Bool-cases (ltb_ℤ port (pos 0) || ltb_ℤ (pos 65535) port)) [
            | inl e2 ↦ rw (e, e1, e2) (consistent _ (named a 0))
            | inr e2 ↦
                rw (e, e1, e2)
                  (open_socket-Kept l ctx _ (named a (port_number port))
                    (current-listed w (next_fd w) ∙ new))
          ]
        ]
      ]
