-- ===== src/Socket/Contract/Listing.antt =====
-- mTCP's record of the registered sockets, and the flag `active` of a socket against it.
use mtcp_lua.Base.{
  ℕ, zero, suc, ◌≡◌, refl, ◌∙◌, Bool, true, false, not, ◌&&◌, Option, none, some, List, [], ◌∷◌,
  ◌==◌, if◌then◌else◌, ==_of_eq, ==_of_ne, arith, Bool-cases, inl, inr,
}
use mtcp_lua.Base.Int.{ℤ, pos, negsuc}
use mtcp_lua.RbTree.{Ptr, null}
use mtcp_lua.Socket.{
  EpollOp, ctl_add, ctl_del, ctl_mod, Interest, no_events, Call, mtcp_socket, mtcp_setsock_nonblock,
  mtcp_connect, mtcp_getsockopt, mtcp_write, mtcp_read, mtcp_close, mtcp_epoll_ctl, os_close,
  Answers, Outcome, World, is_zero, is_minus_one, epoll_ctl, effective_op, active_after,
  close_helper,
}

abbrev pub same_fd : ℤ → ℤ → Bool
same_fd (pos m) (pos n) = m == n
same_fd (negsuc m) (negsuc n) = m == n
same_fd (pos m) (negsuc n) = false
same_fd (negsuc m) (pos n) = false

pub same_fd_refl : (z : ℤ) → same_fd z z ≡ true
same_fd_refl (pos n) = ==_of_eq n n refl
same_fd_refl (negsuc n) = ==_of_eq n n refl

abbrev pub registers : EpollOp → Bool
registers ctl_add = true
registers ctl_del = false
registers ctl_mod = true

module _ (answers : Answers) where
  -- Whether the last call for `fd` that closed it, or with `mtcp_epoll_ctl` succeeded, registered it.
  abbrev pub listed : ℤ → List Call → Bool
  listed fd [] = false
  listed fd (mtcp_epoll_ctl op event fd' ev ∷ cs) =
      if same_fd fd fd' && is_zero (answers.result (mtcp_epoll_ctl op event fd' ev ∷ cs))
      then registers op
      else listed fd cs
  listed fd (mtcp_socket ∷ cs) = listed fd cs
  listed fd (mtcp_setsock_nonblock a ∷ cs) = listed fd cs
  listed fd (mtcp_connect a ∷ cs) = listed fd cs
  listed fd (mtcp_getsockopt a ∷ cs) = listed fd cs
  listed fd (mtcp_write a b ∷ cs) = listed fd cs
  listed fd (mtcp_read a b ∷ cs) = listed fd cs
  listed fd (mtcp_close a ∷ cs) = if same_fd fd a then false else listed fd cs
  listed fd (os_close a ∷ cs) = listed fd cs

  -- The flag of the socket tells whether it is registered.
  abbrev pub Consistent : Ptr → World → Type 0
  Consistent sctx w = listed ((w.sockets sctx).fd) w.calls ≡ not ((w.sockets sctx).active == 0)

  -- What mTCP promises of `mtcp_epoll_ctl`: a registered descriptor can be removed, and -1, which is
  -- no descriptor, is not registered.
  pub record Registrar : Type 0 where
    pub removes :
        (fd : ℤ) (event : Interest) (ev : Ptr) (cs : List Call)
        → listed fd cs ≡ true
        → is_zero (answers.result (mtcp_epoll_ctl ctl_del event fd ev ∷ cs)) ≡ true
    pub refuses :
        (op : EpollOp) (event : Interest) (ev : Ptr) (cs : List Call)
        → registers op ≡ true
        → is_zero (answers.result (mtcp_epoll_ctl op event (negsuc 0) ev ∷ cs)) ≡ false

  pub minus_one : Registrar → (cs : List Call) → listed (negsuc 0) cs ≡ false
  minus_one laws [] = refl
  minus_one laws (mtcp_epoll_ctl op event fd ev ∷ cs) =
      registered op fd (laws.refuses op event ev cs) (minus_one laws cs)
    where
      registered :
          (op : EpollOp) (fd : ℤ)
          → (registers op ≡ true
              → is_zero (answers.result (mtcp_epoll_ctl op event (negsuc 0) ev ∷ cs)) ≡ false)
          → listed (negsuc 0) cs ≡ false
          → listed (negsuc 0) (mtcp_epoll_ctl op event fd ev ∷ cs) ≡ false
      registered op (pos a) denied h = h
      registered op (negsuc (suc a)) denied h = rw (==_of_ne 0 (suc a) (λ e. omega (arith, e))) h
      registered op (negsuc zero) denied h = elim (Bool-cases (registers op)) [
        | inl e ↦ rw (denied e) h
        | inr e ↦
            elim (Bool-cases
              (is_zero (answers.result (mtcp_epoll_ctl op event (negsuc 0) ev ∷ cs)))) [
                | inl z ↦ rw z e
                | inr z ↦ rw z h
              ]
      ]
  minus_one laws (mtcp_close (pos a) ∷ cs) = minus_one laws cs
  minus_one laws (mtcp_close (negsuc a) ∷ cs) = elim (Bool-cases (0 == a)) [
    | inl e ↦ rw e refl
    | inr e ↦ rw e (minus_one laws cs)
  ]
  minus_one laws (mtcp_socket ∷ cs) = minus_one laws cs
  minus_one laws (mtcp_setsock_nonblock a ∷ cs) = minus_one laws cs
  minus_one laws (mtcp_connect a ∷ cs) = minus_one laws cs
  minus_one laws (mtcp_getsockopt a ∷ cs) = minus_one laws cs
  minus_one laws (mtcp_write a b ∷ cs) = minus_one laws cs
  minus_one laws (mtcp_read a b ∷ cs) = minus_one laws cs
  minus_one laws (os_close a ∷ cs) = minus_one laws cs

  module _ (s fuel : ℕ) (sctx : Ptr) where
    flag :
        (op : EpollOp) (a : ℕ)
        → registers (effective_op answers s fuel op a)
          ≡ not (active_after answers s fuel (effective_op answers s fuel op a) == 0)
    flag ctl_add a = elim (Bool-cases (a == 0)) [ inl e ↦ rw e refl | inr e ↦ rw e refl ]
    flag ctl_del a = refl
    flag ctl_mod a = refl

    -- `mtcp_lua_epoll_ctl` keeps the flag of the socket true to mTCP's record, for every operation,
    -- whether the call succeeds or fails.
    pub epoll_ctl-Consistent :
        (op : EpollOp) (event : Interest) (ev : Ptr) (w : World)
        → Consistent sctx w
        → Consistent sctx ((epoll_ctl answers s fuel sctx op event ev w).1)
    unfolding epoll_ctl
    epoll_ctl-Consistent op event ev w h =
        let c = w.sockets sctx in
        let op' = effective_op answers s fuel op c.active in
        elim (Bool-cases (is_zero (answers.result (mtcp_epoll_ctl op' event c.fd ev ∷ w.calls)))) [
          | inl e ↦ rw (e, ==_of_eq sctx sctx refl, same_fd_refl c.fd, e) (flag op c.active)
          | inr e ↦ rw (e, same_fd_refl c.fd, e) h
        ]

    -- A socket that is registered is removed before it is closed.
    pub close_helper-Consistent :
        Registrar
        → (w : World) → Consistent sctx w
        → Consistent sctx (close_helper answers s fuel sctx w)
    unfolding close_helper epoll_ctl
    close_helper-Consistent laws w h =
        let c = w.sockets sctx in
        elim (Bool-cases (is_minus_one c.fd)) [
          | inl e ↦ rw e h
          | inr e ↦ elim (Bool-cases (c.active == 0)) [
            | inl e' ↦ rw (e, e', same_fd_refl c.fd, e') refl
            | inr e' ↦
                let removed = laws.removes c.fd no_events null w.calls (h ∙ rw e' refl) in
                rw (e, e', removed, ==_of_eq sctx sctx refl, same_fd_refl c.fd) refl
          ]
        ]

    -- Whether an operation that ends leaves the socket consistent.
    abbrev pub Kept : Option (Outcome × World) → Type 0
    Kept none = Unit
    Kept (some r) = Consistent sctx r.1
