-- ===== src/Wget.antt =====
-- mtcp_lua.c: the accounting of the connections of one thread of the download client.
--
-- The answers of mTCP to the `i`-th attempt at a connection are a parameter.
pub mod Accounting
pub mod Reading
pub mod Events
pub mod Run
pub mod Statistics
pub mod Program
use mtcp_lua.Base.{ℕ, zero, suc, ◌+◌, Bool, true, false, not, ◌&&◌, ◌==◌, if◌then◌else◌, ltb}
use mtcp_lua.Base.Int.{ℤ, pos, negsuc, ltb_ℤ}

-- The counters of `struct thread_context`, the counters `connects`, `errors` and `completes` of its
-- statistics, the thread's flag in `done`, and the number of attempts so far.
pub record ThreadContext : Type 0 where
  pub target : ℕ
  pub started : ℕ
  pub done : ℕ
  pub pending : ℕ
  pub connects : ℕ
  pub errors : ℕ
  pub incompletes : ℕ
  pub stat_errors : ℕ
  pub completes : ℕ
  pub stop : Bool
  pub attempts : ℕ

pub record Network : Type 0 where
  pub socket : ℕ → ℤ
  pub setsock_nonblock : ℕ → ℤ
  pub connect : ℕ → ℤ
  pub errno : ℕ → ℕ

-- How `CreateConnection` ends: the process exits, it returns -1, or it returns the socket.
pub data Creation : Type 0 where
  exits : Creation
  fails : ThreadContext → Creation
  creates : ThreadContext → Creation

-- How a loop or `CloseConnection` ends; `starved` when the loop runs out of rounds.
pub data Progress : Type 0 where
  exited : Progress
  aborted : Progress
  starved : Progress
  continues : ThreadContext → Progress

module _ (net : Network) (concurrency : ℕ) where
  -- `CreateConnection`
  unfoldable pub create_connection : ThreadContext → Creation
  create_connection ctx =
      let i = ctx.attempts in
      let tried = record ctx { attempts = suc i } in
      if ltb_ℤ (net.socket i) (pos 0)
      then fails tried
      else if ltb_ℤ (net.setsock_nonblock i) (pos 0)
      then exits
      else if ltb_ℤ (net.connect i) (pos 0) && not (net.errno i == 115)
      then fails tried
      else creates (record tried {
        started = suc ctx.started;
        pending = suc ctx.pending;
        connects = suc ctx.connects;
      })

  -- `while (ctx->pending < concurrency && ctx->started < ctx->target)`
  unfoldable pub wanting : ThreadContext → Bool
  wanting ctx = ltb ctx.pending concurrency && ltb ctx.started ctx.target

  unfoldable pub after_creation : (ThreadContext → Progress) → Creation → Progress
  after_creation rest exits = exited
  after_creation rest (fails ctx) = continues (record ctx { stop = true })
  after_creation rest (creates ctx) = rest ctx

  -- The loop that opens connections, with a bound on its rounds.
  unfoldable pub fill : ℕ → ThreadContext → Progress
  fill zero ctx = starved
  fill (suc k) ctx =
      let next = after_creation (fill k) (create_connection ctx) in
      if wanting ctx then next else continues ctx

  -- `CloseConnection`; the counter `pending` is an `int`, and the assertion is on its sign.
  unfoldable pub close_after : ℕ → ℕ → ThreadContext → Progress
  close_after fuel zero ctx = aborted
  close_after fuel (suc p) ctx = fill fuel (record ctx { pending = p; done = suc ctx.done })

  unfoldable pub close_connection : ℕ → ThreadContext → Progress
  close_connection fuel ctx = close_after fuel ctx.pending ctx
