-- ===== src/Wget/Accounting.antt =====
-- The counters of a thread agree, and no more connections are open or started than it may have.
use mtcp_lua.Base.{
  ℕ, zero, suc, ◌+◌, ◌-◌, ◌≤◌, ◌<◌, ◌≡◌, ◌⊎◌, inl, inr, refl, ◌∙◌, arith, true, false, not, ◌&&◌,
  ◌==◌, ltb, Bool-cases,
}
use mtcp_lua.Base.Int.{pos, ltb_ℤ}
use mtcp_lua.Wget.{
  ThreadContext, Network, Creation, exits, fails, creates, Progress, exited, aborted, starved,
  continues, create_connection, wanting, after_creation, fill, close_after, close_connection,
}

-- Every started connection is open or done, and the limits are kept.
pub record Accounted (concurrency : ℕ) (ctx : ThreadContext) : Type 0 where
  pub sum : ctx.started ≡ ctx.pending + ctx.done
  pub within : ctx.started ≤ ctx.target
  pub few : ctx.pending ≤ concurrency

-- What the loop leaves: unless the process exits, the counters agree, `done` is as before, and the
-- thread stops or has as many connections as it may open.
abbrev pub Filled : ℕ → ThreadContext → Progress → Type 0
Filled concurrency ctx exited = Unit
Filled concurrency ctx aborted = ⊥
Filled concurrency ctx starved = ⊥
Filled concurrency ctx (continues c) =
    Accounted concurrency c
    × (c.done ≡ ctx.done)
    × (c.target ≡ ctx.target)
    × ((c.stop ≡ true) ⊎ ((c.pending ≡ concurrency) ⊎ (c.started ≡ c.target)))

module _ (net : Network) (concurrency : ℕ) where
  -- What an attempt changes in the counters.
  abbrev Tried : ThreadContext → Creation → Type 0
  Tried ctx exits = Unit
  Tried ctx (fails c) =
      (c.started ≡ ctx.started)
      × (c.pending ≡ ctx.pending)
      × (c.done ≡ ctx.done)
      × (c.target ≡ ctx.target)
  Tried ctx (creates c) =
      (c.started ≡ suc ctx.started)
      × (c.pending ≡ suc ctx.pending)
      × (c.done ≡ ctx.done)
      × (c.target ≡ ctx.target)

  create_connection-Tried :
      (ctx : ThreadContext) → Tried ctx (create_connection net concurrency ctx)
  unfolding create_connection
  create_connection-Tried ctx = elim (Bool-cases (ltb_ℤ (net.socket ctx.attempts) (pos 0))) [
    | inl e ↦ rw e (refl, refl, refl, refl)
    | inr e ↦ elim (Bool-cases (ltb_ℤ (net.setsock_nonblock ctx.attempts) (pos 0))) [
      | inl e' ↦ rw (e, e') tt
      | inr e' ↦
          elim (Bool-cases
            (ltb_ℤ (net.connect ctx.attempts) (pos 0) && not (net.errno ctx.attempts == 115))) [
              | inl e'' ↦ rw (e, e', e'') (refl, refl, refl, refl)
              | inr e'' ↦ rw (e, e', e'') (refl, refl, refl, refl)
            ]
    ]
  ]

  passed_on :
      (ctx c : ThreadContext) (r : Progress)
      → c.done ≡ ctx.done
      → c.target ≡ ctx.target
      → Filled concurrency c r
      → Filled concurrency ctx r
  passed_on ctx c exited d g h = tt
  passed_on ctx c aborted d g h = h
  passed_on ctx c starved d g h = h
  passed_on ctx c (continues c') d g h = (h.0, h.1 ∙ d, h.2 ∙ g, h.3)

  after :
      (k : ℕ) (ctx : ThreadContext) (c : Creation)
      → Tried ctx c
      → Accounted concurrency ctx
      → ctx.pending < concurrency
      → ctx.started < ctx.target
      → ctx.target - ctx.started < suc k
      → ((c : ThreadContext)
          → Accounted concurrency c
          → c.target - c.started < k
          → Filled concurrency c (fill net concurrency k c))
      → Filled concurrency ctx (after_creation net concurrency (fill net concurrency k) c)
  unfolding after_creation
  after k ctx exits z a p q enough rec = tt
  after k ctx (fails c) z a p q enough rec = (
    record {
      sum = omega (arith, z.0, z.1, z.2, a.sum);
      within = omega (arith, z.0, z.3, a.within);
      few = omega (arith, z.1, a.few);
    },
    z.2,
    z.3,
    inl refl,
  )
  after k ctx (creates c) z a p q enough rec = passed_on ctx c (fill net concurrency k c) z.2 z.3 (
      rec c
        (record {
          sum = omega (arith, z.0, z.1, z.2, a.sum);
          within = omega (arith, z.0, z.3, q);
          few = omega (arith, z.1, p);
        })
        (omega (arith, z.0, z.3, q, enough)))

  enough_open : (p n q m : ℕ) → (ltb p n && ltb q m) ≡ false → p ≤ n → q ≤ m → (p ≡ n) ⊎ (q ≡ m)
  enough_open p n q m e h1 h2 = ground arith

  room : (p n q m : ℕ) → (ltb p n && ltb q m) ≡ true → (p < n) × (q < m)
  room p n q m e = (ground arith, ground arith)

  -- The loop that opens connections ends within one round more than the thread may still start.
  pub fill-Filled :
      (fuel : ℕ) (ctx : ThreadContext)
      → Accounted concurrency ctx
      → ctx.target - ctx.started < fuel
      → Filled concurrency ctx (fill net concurrency fuel ctx)
  unfolding fill wanting
  fill-Filled zero ctx a enough = absurd (omega (arith, enough))
  fill-Filled (suc k) ctx a enough =
      elim (Bool-cases (ltb ctx.pending concurrency && ltb ctx.started ctx.target)) [
        | inr e ↦ rw e (
          a,
          refl,
          refl,
          inr (enough_open ctx.pending concurrency ctx.started ctx.target e a.few a.within),
        )
        | inl e ↦
            let (p, q) = room ctx.pending concurrency ctx.started ctx.target e in
            rw e (
              after k ctx (create_connection net concurrency ctx) (create_connection-Tried ctx) a p
                q enough (λ c. fill-Filled k c))
      ]

  -- `CloseConnection` with an open connection, when the counters agree and its loop may run one round
  -- more than the thread may still start connections, ends without failing its assertion. Unless
  -- the process exits for a socket that cannot be made nonblocking, one connection more is done, the
  -- counters agree again and keep the limits, and the thread stops for a failed attempt or has as
  -- many connections open, or started, as it may.
  pub close_connection-Filled :
      (fuel : ℕ) (ctx : ThreadContext)
      → Accounted concurrency ctx
      → 0 < ctx.pending
      → ctx.target - ctx.started < fuel
      → Filled concurrency
          (record ctx { done = suc ctx.done })
          (close_connection net concurrency fuel ctx)
  unfolding close_connection close_after
  close_connection-Filled fuel ctx a some_open enough = at_count ctx.pending refl some_open
    where
      at_count :
          (p : ℕ)
          → ctx.pending ≡ p
          → 0 < p
          → Filled concurrency
              (record ctx { done = suc ctx.done })
              (close_after net concurrency fuel p ctx)
      at_count zero e h = absurd (omega (arith, h))
      at_count (suc p) e h =
          passed_on (record ctx { done = suc ctx.done })
            (record ctx { pending = p; done = suc ctx.done })
            (fill net concurrency fuel (record ctx { pending = p; done = suc ctx.done })) refl refl
            (fill-Filled fuel (record ctx { pending = p; done = suc ctx.done })
              (record {
                sum = omega (arith, e, a.sum);
                within = a.within;
                few = omega (arith, e, a.few);
              })
              enough)
