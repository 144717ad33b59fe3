-- ===== src/Main/Cores.antt =====
-- The threads that `main` starts, against the guard of `thread_entry` and the arrays.
use mtcp_lua.Base.{ℕ, zero, suc, ◌+◌, ◌≤◌, ◌<◌, ◌≡◌, refl, arith, true, length}
use mtcp_lua.Base.Int.{pos}
use mtcp_lua.RbTree.Order.{All}
use mtcp_lua.Main.{max_core_limit, core_limit, num_cores, start_from, started_cores, core_accepted}

abbrev pub InBounds : ℕ → Type 0
InBounds core = (core < max_core_limit) × (core_accepted (pos core) ≡ true)

pub accepted : (core : ℕ) → core < 16 → core_accepted (pos core) ≡ true
unfolding core_accepted
accepted core h = ground arith

bounded : (i k : ℕ) → i + k ≤ 16 → All InBounds (start_from i k)
unfolding start_from
bounded i zero h = tt
bounded i (suc k) h =
    ((omega (arith, h), accepted i (omega (arith, h))), bounded (suc i) k (omega (arith, h)))

pub few :
    (cpus configured : ℕ)
    → (num_cores cpus configured ≤ 16)
      × (num_cores cpus configured ≤ configured)
      × (num_cores cpus configured ≤ cpus)
unfolding num_cores core_limit
few cpus configured = (ground arith, ground arith, ground arith)

length-start_from : (i k : ℕ) → length (start_from i k) ≡ k
unfolding start_from
length-start_from i zero = refl
length-start_from i (suc k) = omega (arith, length-start_from (suc i) k)

-- Whatever the numbers of CPUs and of configured cores, every core that `main` starts a thread for
-- passes the guard of `thread_entry` and is an index of the arrays of 16 contexts and threads. No
-- more threads start than there are CPUs or configured cores.
pub started_cores-InBounds :
    (cpus configured : ℕ)
    → All InBounds (started_cores cpus configured)
      × (length (started_cores cpus configured) ≤ cpus)
      × (length (started_cores cpus configured) ≤ configured)
unfolding started_cores
started_cores-InBounds cpus configured =
    let (a, b, c) = few cpus configured in
    let n = length-start_from 0 (num_cores cpus configured) in
    (
      bounded 0 (num_cores cpus configured) (omega (arith, a)),
      omega (arith, n, c),
      omega (arith, n, b),
    )
