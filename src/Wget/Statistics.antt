-- ===== src/Wget/Statistics.antt =====
-- The statistics of mtcp_lua.c: the times and sizes that `DownloadComplete` notes, and `PrintStats`.
-- The text that is printed is left out, except the numbers in it.
pub mod Averages
use mtcp_lua.Base.{
  ℕ, zero, suc, ◌+◌, ◌-◌, ◌*◌, ◌/◌, ◌%◌, ◌^◌, Bool, Option, none, some, List, [], ◌∷◌, ◌==◌,
  if◌then◌else◌, ltb, length,
}
use mtcp_lua.Base.Int.{ℤ, pos, negsuc, signed32, sub64}

-- `struct wget_stat`
pub record WgetStat : Type 0 where
  pub waits : ℕ
  pub events : ℕ
  pub connects : ℕ
  pub reads : ℕ
  pub writes : ℕ
  pub completes : ℕ
  pub errors : ℕ
  pub timedout : ℕ
  pub sum_resp_time : ℕ
  pub max_resp_time : ℕ

abbrev pub no_stat : WgetStat
no_stat = record {
  waits = 0;
  events = 0;
  connects = 0;
  reads = 0;
  writes = 0;
  completes = 0;
  errors = 0;
  timedout = 0;
  sum_resp_time = 0;
  max_resp_time = 0;
}

-- 64-bit addition.
abbrev pub add64 : ℕ → ℕ → ℕ
add64 a b = (a + b) % 2 ^ 64

-- `struct timeval`
pub record Timeval : Type 0 where
  pub sec : ℕ
  pub usec : ℕ

-- The difference of two times in microseconds, as a 64-bit number.
abbrev pub tdiff : Timeval → Timeval → ℕ
tdiff t_start t_end =
    add64 (sub64 t_end.sec t_start.sec * 1000000 % 2 ^ 64) (sub64 t_end.usec t_start.usec)

-- The statistics after a download.
unfoldable pub note_response : Timeval → Timeval → WgetStat → WgetStat
note_response t_start t_end st =
    let d = tdiff t_start t_end in
    record st {
      completes = add64 st.completes 1;
      sum_resp_time = add64 st.sum_resp_time d;
      max_resp_time = if ltb st.max_resp_time d then d else st.max_resp_time;
    }

-- An `int` as the 64-bit number that it is compared with.
abbrev pub word_of_int : ℤ → ℕ
word_of_int (pos n) = n
word_of_int (negsuc n) = 2 ^ 64 - suc n

abbrev pub is_zero : ℤ → Bool
is_zero (pos n) = n == 0
is_zero (negsuc n) = Bool.false

-- The global `response_size` after a download of `recv` bytes, and whether a mismatch is printed.
unfoldable pub note_size : ℕ → ℤ → ℤ × Bool
note_size recv response_size =
    if is_zero response_size
    then (signed32 (recv % 2 ^ 32), Bool.false)
    else (response_size, if recv == word_of_int response_size then Bool.false else Bool.true)

-- What the loop of `PrintStats` adds up.
pub record Totals : Type 0 where
  pub stat : WgetStat
  pub total_resp_time : ℕ

abbrev pub avg_resp_time : WgetStat → ℕ
avg_resp_time st = if st.completes == 0 then 0 else st.sum_resp_time / st.completes

abbrev pub larger : ℕ → ℕ → ℕ
larger a b = if ltb a b then b else a

abbrev pub add_stat : Totals → WgetStat → Totals
add_stat total st = record {
  stat = record {
    waits = add64 total.stat.waits st.waits;
    events = add64 total.stat.events st.events;
    connects = add64 total.stat.connects st.connects;
    reads = add64 total.stat.reads st.reads;
    writes = add64 total.stat.writes st.writes;
    completes = add64 total.stat.completes st.completes;
    errors = add64 total.stat.errors st.errors;
    timedout = add64 total.stat.timedout st.timedout;
    sum_resp_time = total.stat.sum_resp_time;
    max_resp_time = larger total.stat.max_resp_time st.max_resp_time;
  };
  total_resp_time = add64 total.total_resp_time (avg_resp_time st);
}

-- The loop of `PrintStats` over the cores: the totals, and the statistics left.
unfoldable pub sum_stats : List WgetStat → Totals → Totals × List WgetStat
sum_stats [] total = (total, [])
sum_stats (st ∷ sts) total = let r = sum_stats sts (add_stat total st) in (r.0, no_stat ∷ r.1)

-- The numbers of the printed line; the sizes in megabytes.
pub record Printed : Type 0 where
  pub connect : ℕ
  pub read : ℕ
  pub write : ℕ
  pub completes : ℕ
  pub avg : ℕ
  pub max : ℕ

abbrev pub printed : ℕ → Totals → Printed
printed cores total = record {
  connect = total.stat.connects;
  read = total.stat.reads / 1024 / 1024;
  write = total.stat.writes / 1024 / 1024;
  completes = total.stat.completes;
  avg = total.total_resp_time / cores;
  max = total.stat.max_resp_time;
}

abbrev pub no_totals : Totals
no_totals = record { stat = no_stat; total_resp_time = 0 }

-- `PrintStats`; without cores it divides by zero.
unfoldable pub print_stats : List WgetStat → Option (Printed × List WgetStat)
print_stats sts =
    let r = sum_stats sts no_totals in
    if length sts == 0 then none else some (printed (length sts) r.0, r.1)
