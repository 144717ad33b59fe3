-- ===== src/Socket/Contract/Registration.antt =====
-- The flag `active` of a socket over all its operations.
use mathlib.Core.Path.{subst}
use mtcp_lua.Base.{ℕ, ◌≡◌, false, not, ◌&&◌, some, List, ◌==◌, Bool-cases, inl, inr}
use mtcp_lua.Base.Int.{ℤ}
use mtcp_lua.RbTree.{Ptr, null}
use mtcp_lua.Socket.{
  Answers, Outcome, World, is_minus_one, connect, close, send, recv, run_connect_handler,
  settimeout, run_recv_handler,
}
use mtcp_lua.Socket.Contract.Listing.{Registrar, listed, Consistent, close_helper-Consistent, Kept}
use mtcp_lua.Socket.Contract.Connecting.{next_fd, connect-Kept}
use mtcp_lua.Socket.Contract.Handling.{
  send-Consistent, settimeout-Consistent, recv-Kept, handler-Kept, recv_handler-Kept,
}

module _ (answers : Answers) (laws : Registrar answers) (s fuel : ℕ) (sctx : Ptr) where
  -- `close` keeps the flag true to the record.
  pub close-Consistent :
      (w : World)
      → Consistent answers sctx w
      → Consistent answers sctx ((close answers s fuel sctx w).1)
  unfolding close
  close-Consistent w h =
      elim (Bool-cases
        (not (is_minus_one (w.sockets sctx).fd) && ((w.sockets sctx).vm_ctx == null))) [
          | inl e ↦ rw e h
          | inr e ↦ rw e (close_helper-Consistent answers s fuel sctx laws w h)
        ]

  -- One operation on the socket, or one of its handlers.
  pub data Step : World → World → Type 0 where
    send_step :
        (argc : ℕ) (content : List ℕ) (w : World)
        → Step w ((send answers s fuel sctx argc content w).1)
    close_step : (w : World) → Step w ((close answers s fuel sctx w).1)
    settimeout_step :
        (argc : ℕ) (timeout : ℤ) (w : World) → Step w ((settimeout sctx argc timeout w).1)
    recv_step :
        (l ctx : Ptr) (argc : ℕ) (o : Outcome) (w w' : World)
        → recv answers s fuel l ctx sctx argc w ≡ some (o, w')
        → Step w w'
    connect_handler_step :
        (ev : Ptr) (o : Outcome) (w w' : World)
        → w.ev_data ev ≡ sctx
        → run_connect_handler answers s fuel ev w ≡ some (o, w')
        → Step w w'
    recv_handler_step :
        (k : ℕ) (ctx_of : Ptr → Ptr) (ev : Ptr) (o : Outcome) (w w' : World)
        → w.ev_data ev ≡ sctx
        → run_recv_handler answers s fuel k ctx_of ev w ≡ some (o, w')
        → Step w w'
    connect_step :
        (l ctx : Ptr) (argc : ℕ) (host : List ℕ) (port : ℤ) (o : Outcome) (w w' : World)
        → (w.sockets sctx).active ≡ 0
        → listed answers (next_fd answers laws s fuel sctx w) w.calls ≡ false
        → connect answers s fuel l ctx sctx argc host port w ≡ some (o, w')
        → Step w w'

  pub data Steps : World → World → Type 0 where
    done : (w : World) → Steps w w
    then_step : (w w1 w2 : World) → Steps w w1 → Step w1 w2 → Steps w w2

  Step-Consistent :
      (w w' : World) → Step w w' → Consistent answers sctx w → Consistent answers sctx w'
  Step-Consistent w w' (send_step argc content w0) h =
      send-Consistent answers s fuel sctx argc content w h
  Step-Consistent w w' (close_step w0) h = close-Consistent w h
  Step-Consistent w w' (settimeout_step argc timeout w0) h =
      settimeout-Consistent answers s fuel sctx argc timeout w h
  Step-Consistent w w' (recv_step l ctx argc o w0 w0' e) h =
      subst (Kept answers s fuel sctx) e (recv-Kept answers s fuel sctx l ctx argc w h)
  Step-Consistent w w' (connect_handler_step ev o w0 w0' d e) h =
      subst (Kept answers s fuel sctx) e (handler-Kept answers s fuel sctx ev w d h)
  Step-Consistent w w' (recv_handler_step k ctx_of ev o w0 w0' d e) h =
      subst (Kept answers s fuel sctx) e (recv_handler-Kept answers s fuel sctx k ctx_of ev w d h)
  Step-Consistent w w' (connect_step l ctx argc host port o w0 w0' off new e) h =
      subst (Kept answers s fuel sctx) e
        (connect-Kept answers laws s fuel sctx l ctx argc host port w off new h)

  -- Every sequence of `send`, `recv`, `settimeout`, `close`, the two handlers, and `connect` at a time
  -- when the socket is not registered and gets a descriptor that is not, keeps the flag `active` of a
  -- socket true to mTCP's record, with all outcomes and all answers of mTCP that let a registered
  -- descriptor be removed and never register -1: `active` is nonzero exactly when the last
  -- call for the socket's descriptor that closed it, or with `mtcp_epoll_ctl` succeeded, registered it.
  pub Steps-Consistent :
      (w w' : World) → Steps w w' → Consistent answers sctx w → Consistent answers sctx w'
  Steps-Consistent w w' (done w0) h = h
  Steps-Consistent w w' (then_step w0 w1 w2 ss st) h =
      Step-Consistent w1 w' st (Steps-Consistent w w1 ss h)
