-- ===== src/Wget/Statistics/Averages.antt =====
-- The averages and maxima of the response times.
use native.Mathlib.Nat.{div-le_of_le-mul, mul-le-mul_left}
use mtcp_lua.Base.{
  ℕ, suc, ◌+◌, ◌*◌, ◌/◌, ◌%◌, ◌^◌, ◌≤◌, ◌<◌, ◌≡◌, refl, ap, some, List, [], ◌∷◌, arith, ltb, ◌==◌,
  if◌then◌else◌, length, Bool-cases, inl, inr, ==_of_ne,
}
use mtcp_lua.RbTree.Order.{All}
use mtcp_lua.Wget.Statistics.{
  WgetStat, no_stat, add64, Timeval, tdiff, note_response, Totals, avg_resp_time, larger, add_stat,
  sum_stats, Printed, printed, no_totals, print_stats,
}

-- The sum of the response times is at most that of so many times the longest.
abbrev pub Bounded : WgetStat → Type 0
Bounded st = st.sum_resp_time ≤ st.completes * st.max_resp_time

bounded_step :
    (sum c m d : ℕ)
    → sum ≤ c * m
    → c + 1 < 2 ^ 64
    → (sum + d) % 2 ^ 64 ≤ (c + 1) % 2 ^ 64 * (if ltb m d then d else m)
bounded_step sum c m d b few = elim (Bool-cases (ltb m d)) [
  | inl e ↦
      let lt : m ≤ d = ground arith in
      let up : c * m ≤ c * d = mul-le-mul_left c lt in
      let one : (c + 1) * d ≡ c * d + d = omega arith in
      let small : (c + 1) % 2 ^ 64 ≡ c + 1 = omega arith in
      let wrap : (sum + d) % 2 ^ 64 ≤ sum + d = omega arith in
      rw (e, small, one) (omega (arith, b, up, wrap))
  | inr e ↦
      let le : d ≤ m = ground arith in
      let one : (c + 1) * m ≡ c * m + m = omega arith in
      let small : (c + 1) % 2 ^ 64 ≡ c + 1 = omega arith in
      let wrap : (sum + d) % 2 ^ 64 ≤ sum + d = omega arith in
      rw (e, small, one) (omega (arith, b, le, wrap))
]

-- A download keeps this, as long as the counter of downloads does not run over.
pub note_response-Bounded :
    (t_start t_end : Timeval) (st : WgetStat)
    → Bounded st
    → st.completes + 1 < 2 ^ 64
    → Bounded (note_response t_start t_end st)
unfolding note_response
note_response-Bounded t_start t_end st b few =
    bounded_step st.sum_resp_time st.completes st.max_resp_time (tdiff t_start t_end) b few

avg-le_max : (st : WgetStat) → Bounded st → avg_resp_time st ≤ st.max_resp_time
avg-le_max st b = elim (Bool-cases (st.completes == 0)) [
  | inl e ↦ rw e (omega arith)
  | inr e ↦ rw e (div-le_of_le-mul st.completes b)
]

-- The sum of a counter over the cores.
abbrev pub sum_of : (WgetStat → ℕ) → List WgetStat → ℕ
sum_of f [] = 0
sum_of f (st ∷ sts) = f st + sum_of f sts

larger-left : (a b : ℕ) → a ≤ larger a b
larger-left a b = ground arith

larger-right : (a b : ℕ) → b ≤ larger a b
larger-right a b = ground arith

-- What the loop of `PrintStats` leaves in the maximum and in the sum of the averages.
sum_stats-max :
    (sts : List WgetStat) (total : Totals)
    → All Bounded sts
    → let r = sum_stats sts total in
      (total.stat.max_resp_time ≤ r.0.stat.max_resp_time)
      × All (λ st. st.max_resp_time ≤ r.0.stat.max_resp_time) sts
      × (r.0.total_resp_time ≤ total.total_resp_time + length sts * r.0.stat.max_resp_time)
unfolding sum_stats
sum_stats-max [] total a = (omega arith, tt, omega arith)
sum_stats-max (st ∷ sts) total a =
    let next = add_stat total st in
    let h = sum_stats-max sts next a.1 in
    let m = (sum_stats sts next).0.stat.max_resp_time in
    let up = larger-left total.stat.max_resp_time st.max_resp_time in
    let mine = larger-right total.stat.max_resp_time st.max_resp_time in
    let avg = avg-le_max st a.0 in
    let wrap : next.total_resp_time ≤ total.total_resp_time + avg_resp_time st = omega arith in
    let one : (length sts + 1) * m ≡ length sts * m + m = omega arith in
    (
      omega (arith, up, h.0),
      (omega (arith, mine, h.0), h.1),
      omega (arith, wrap, h.2, avg, mine, h.0, one),
    )

-- The totals of the four counters that are printed.
abbrev pub Sums : List WgetStat → Totals → Totals → Type 0
Sums sts total r =
    (r.stat.connects ≡ (total.stat.connects + sum_of (λ st. st.connects) sts) % 2 ^ 64)
    × (r.stat.reads ≡ (total.stat.reads + sum_of (λ st. st.reads) sts) % 2 ^ 64)
    × (r.stat.writes ≡ (total.stat.writes + sum_of (λ st. st.writes) sts) % 2 ^ 64)
    × (r.stat.completes ≡ (total.stat.completes + sum_of (λ st. st.completes) sts) % 2 ^ 64)

abbrev Words : Totals → Type 0
Words total =
    (total.stat.connects < 2 ^ 64)
    × (total.stat.reads < 2 ^ 64)
    × (total.stat.writes < 2 ^ 64)
    × (total.stat.completes < 2 ^ 64)

regroup : (a b c r : ℕ) → r ≡ (add64 a b + c) % 2 ^ 64 → r ≡ (a + (b + c)) % 2 ^ 64
regroup a b c r e = omega (arith, e)

sum_stats-Sums :
    (sts : List WgetStat) (total : Totals) → Words total → Sums sts total (sum_stats sts total).0
unfolding sum_stats
sum_stats-Sums [] total w =
    (omega (arith, w.0), omega (arith, w.1), omega (arith, w.2), omega (arith, w.3))
sum_stats-Sums (st ∷ sts) total w =
    let r = (sum_stats sts (add_stat total st)).0.stat in
    let h =
      sum_stats-Sums sts (add_stat total st) (omega arith, omega arith, omega arith, omega arith) in
    (
      regroup total.stat.connects st.connects (sum_of (λ x. x.connects) sts) r.connects h.0,
      regroup total.stat.reads st.reads (sum_of (λ x. x.reads) sts) r.reads h.1,
      regroup total.stat.writes st.writes (sum_of (λ x. x.writes) sts) r.writes h.2,
      regroup total.stat.completes st.completes (sum_of (λ x. x.completes) sts) r.completes h.3,
    )

sum_stats-cleared :
    (sts : List WgetStat) (total : Totals)
    → All (λ st. st ≡ no_stat) (sum_stats sts total).1
      × (length (sum_stats sts total).1 ≡ length sts)
unfolding sum_stats
sum_stats-cleared [] total = (tt, refl)
sum_stats-cleared (st ∷ sts) total =
    let h = sum_stats-cleared sts (add_stat total st) in ((refl, h.0), ap suc h.1)

-- For at least one core, on each of which the sum of the response times is at most as many times the
-- longest as there were downloads, `PrintStats` prints the sums of the cores' counters, modulo
-- 2 ^ 64 and the sizes in megabytes; the average that it prints is not greater than the maximum, and
-- no core's longest time is; and it clears every core's statistics.
pub print_stats-Sums :
    (sts : List WgetStat)
    → All Bounded sts
    → 0 < length sts
    → (p : Printed) × (rest : List WgetStat) × (print_stats sts ≡ some (p, rest))
      × (p.connect ≡ sum_of (λ st. st.connects) sts % 2 ^ 64)
      × (p.read ≡ sum_of (λ st. st.reads) sts % 2 ^ 64 / 1024 / 1024)
      × (p.write ≡ sum_of (λ st. st.writes) sts % 2 ^ 64 / 1024 / 1024)
      × (p.completes ≡ sum_of (λ st. st.completes) sts % 2 ^ 64)
      × (p.avg ≤ p.max)
      × All (λ st. st.max_resp_time ≤ p.max) sts
      × All (λ st. st ≡ no_stat) rest
      × (length rest ≡ length sts)
unfolding print_stats
print_stats-Sums sts a some_core =
    let r = sum_stats sts no_totals in
    let sums = sum_stats-Sums sts no_totals (omega arith, omega arith, omega arith, omega arith) in
    let top = sum_stats-max sts no_totals a in
    let zeros = sum_stats-cleared sts no_totals in
    (
      printed (length sts) r.0,
      r.1,
      rw (==_of_ne (length sts) 0 (λ e. omega (arith, e, some_core))) refl,
      omega (arith, sums.0),
      ap (λ n. n / 1024 / 1024) (omega (arith, sums.1)),
      ap (λ n. n / 1024 / 1024) (omega (arith, sums.2)),
      omega (arith, sums.3),
      div-le_of_le-mul (length sts) (omega (arith, top.2)),
      top.1,
      zeros.0,
      zeros.1,
    )
