-- ===== src/Socket/Contract/Limits.antt =====
-- The limits of the timeouts, kept by every operation.
use mtcp_lua.Base.{
  ℕ, ◌<◌, ◌≤◌, ◌≡◌, refl, true, false, ◌||◌, [], ◌∷◌, arith, ◌==◌, ==_of_eq, Bool-cases, inl, inr,
}
use mtcp_lua.Base.Int.{ℤ, pos, negsuc, ltb_ℤ, leb_ℤ}
use mtcp_lua.RbTree.{Ptr}
use mtcp_lua.Socket.{SocketCtx, World, raises, returns, exceed_limit, boolean, settimeout}

abbrev pub InLimits : ℤ → Type 0
InLimits t = (n : ℕ) × (t ≡ pos n) × (0 < n) × (n ≤ 600000)

abbrev pub TimeoutsOk : SocketCtx → Type 0
TimeoutsOk c = InLimits c.connect_timeout × InLimits c.read_timeout × InLimits c.write_timeout

accepted : (t : ℤ) → InLimits t → (leb_ℤ t (pos 0) || ltb_ℤ (pos 600000) t) ≡ false
accepted t (n, e, lo, hi) = rw e (ground arith)

in_limits : (t : ℤ) → (leb_ℤ t (pos 0) || ltb_ℤ (pos 600000) t) ≡ false → InLimits t
in_limits (pos n) e = (n, refl, ground arith, ground arith)
in_limits (negsuc n) e = ground arith

refused : (t : ℤ) → ¬ InLimits t → (leb_ℤ t (pos 0) || ltb_ℤ (pos 600000) t) ≡ true
refused t h = elim (Bool-cases (leb_ℤ t (pos 0) || ltb_ℤ (pos 600000) t)) [
  | inl e ↦ e
  | inr e ↦ absurd (h (in_limits t e))
]

-- `settimeout` with two arguments and a time between 1 and 600000 milliseconds returns true and sets
-- all three timeouts of the socket to it.
pub settimeout-InLimits :
    (sctx : Ptr) (timeout : ℤ) (w : World)
    → InLimits timeout
    → ((settimeout sctx 2 timeout w).0 ≡ returns (boolean true ∷ []))
      × (((settimeout sctx 2 timeout w).1.sockets sctx).connect_timeout ≡ timeout)
      × (((settimeout sctx 2 timeout w).1.sockets sctx).read_timeout ≡ timeout)
      × (((settimeout sctx 2 timeout w).1.sockets sctx).write_timeout ≡ timeout)
unfolding settimeout
settimeout-InLimits sctx timeout w z =
    rw (accepted timeout z, ==_of_eq sctx sctx refl) (refl, refl, refl, refl)

-- `settimeout` with two arguments and any other time raises an error and changes nothing.
pub settimeout-raises :
    (sctx : Ptr) (timeout : ℤ) (w : World)
    → ¬ InLimits timeout
    → settimeout sctx 2 timeout w ≡ (raises exceed_limit, w)
unfolding settimeout
settimeout-raises sctx timeout w h = rw (refused timeout h) refl

-- `settimeout` keeps the timeouts of every socket within the limits, whatever its arguments.
pub settimeout-TimeoutsOk :
    (sctx p : Ptr) (argc : ℕ) (timeout : ℤ) (w : World)
    → ((q : Ptr) → TimeoutsOk (w.sockets q))
    → TimeoutsOk ((settimeout sctx argc timeout w).1.sockets p)
unfolding settimeout
settimeout-TimeoutsOk sctx p argc timeout w h = elim (Bool-cases (argc == 2)) [
  | inr e ↦ rw e (h p)
  | inl e ↦ elim (Bool-cases (leb_ℤ timeout (pos 0) || ltb_ℤ (pos 600000) timeout)) [
    | inl e' ↦ rw (e, e') (h p)
    | inr e' ↦
        let z = in_limits timeout e' in
        elim (Bool-cases (p == sctx)) [
          | inl q ↦ rw (e, e', q) (z, z, z)
          | inr q ↦ rw (e, e', q) (h p)
        ]
  ]
]
