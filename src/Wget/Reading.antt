-- ===== src/Wget/Reading.antt =====
-- `HandleReadEvent` and `DownloadComplete` of mtcp_lua.c. `fio` is never set, so nothing is stored in
-- files; the times are left out. The counts of bytes are taken to stay below 2 ^ 64. `find_http_header` and `http_header_long_val`, which are not in the
-- repository, are parameters, as are the answers of the `i`-th `mtcp_read`.
pub mod Counting
pub mod Ending
use mtcp_lua.Base.{
  ℕ, zero, suc, ◌+◌, ◌-◌, ◌*◌, ◌%◌, ◌^◌, Bool, true, false, not, ◌&&◌, ◌==◌, if◌then◌else◌, ltb,
  leb,
}
use mtcp_lua.Base.Int.{ℤ, pos, negsuc, pos_part}
use mtcp_lua.Wget.{
  ThreadContext, Network, Progress, exited, aborted, starved, continues, close_connection,
}

pub record Reader : Type 0 where
  pub read : ℕ → ℤ
  pub errno : ℕ → ℕ
  pub find_http_header : ℕ → ℕ → ℕ
  pub content_length : ℕ → ℕ

-- The fields of `struct wget_vars` that count, and the counter `reads` of the thread.
pub record WgetVars : Type 0 where
  pub headerset : Bool
  pub resp_len : ℕ
  pub header_len : ℕ
  pub file_len : ℕ
  pub recv : ℕ
  pub reads : ℕ

abbrev pub http_header_len : ℕ
http_header_len = 1024

-- How the loop ends: without a header, or with a last `rd`; `count` is the number of reads.
pub data ReadEnd : Type 0 where
  no_header : WgetVars → ReadEnd
  ended : ℤ → ℕ → WgetVars → ReadEnd
  out_of_rounds : ReadEnd

-- `wv->header_len && (wv->recv >= wv->header_len + wv->file_len)`, with the sum in 64 bits.
abbrev pub is_complete : WgetVars → Bool
is_complete v = not (v.header_len == 0) && leb ((v.header_len + v.file_len) % 2 ^ 64) v.recv

-- What is done after the loop; `unfinished` when the loop has run out of rounds.
pub data Verdict : Type 0 where
  keeps_open : Verdict
  download_complete : Verdict
  incomplete : Verdict
  fails_to_read : Verdict
  lacks_header : Verdict
  unfinished : Verdict

abbrev pub min_of : ℕ → ℕ → ℕ
min_of a b = if ltb a b then a else b

-- `DownloadComplete` after `CloseConnection`.
abbrev pub completed : Progress → Progress
completed exited = exited
completed aborted = aborted
completed starved = starved
completed (continues ctx) = continues (record ctx { completes = suc ctx.completes })

module _ (r : Reader) where
  -- The first bytes of a response, up to the search for the end of the header.
  abbrev pub with_response : ℕ → ℕ → WgetVars → WgetVars
  with_response i rd v =
      let len = v.resp_len + min_of rd (http_header_len - v.resp_len) in
      record v { reads = v.reads + rd; resp_len = len; header_len = r.find_http_header i len }

  -- The end of a round with `rd` bytes to count; `next` is the rest of the loop.
  abbrev pub count_bytes : (WgetVars → ReadEnd) → ℕ → ℕ → WgetVars → ReadEnd
  count_bytes next i rd v =
      let v1 = record v { recv = v.recv + rd } in
      let rest = next v1 in
      if is_complete v1
      then ended (pos rd) (suc i) v1
      else if rd == 0
      then ended (pos 0) (suc i) v1
      else rest

  -- The branch for a response whose header is not complete.
  unfoldable pub first_bytes : (WgetVars → ReadEnd) → ℕ → ℕ → WgetVars → ReadEnd
  first_bytes next i rd v =
      let v1 = with_response i rd v in
      let body = v1.resp_len - v1.header_len in
      let v2 = record v1 {
        file_len = r.content_length i;
        headerset = true;
        recv = v1.recv + (rd + 2 ^ 32 - body) % 2 ^ 32;
      } in
      let found = count_bytes next i body v2 in
      if v1.header_len == 0 then no_header (record v1 { recv = v1.recv + rd }) else found

  abbrev pub one_read : (WgetVars → ReadEnd) → ℕ → ℤ → WgetVars → ReadEnd
  one_read next i (negsuc n) v = ended (negsuc n) (suc i) v
  one_read next i (pos zero) v = ended (pos 0) (suc i) v
  one_read next i (pos (suc n)) v =
      if v.headerset
      then count_bytes next i (suc n) (record v { reads = v.reads + suc n })
      else first_bytes next i (suc n) v

  -- The loop of `HandleReadEvent`, with a bound on its rounds.
  unfoldable pub read_loop : ℕ → ℕ → WgetVars → ReadEnd
  read_loop zero i v = out_of_rounds
  read_loop (suc k) i v = one_read (read_loop k (suc i)) i (r.read i) v

  -- The tests after the loop.
  unfoldable pub verdict : ReadEnd → Verdict
  verdict out_of_rounds = unfinished
  verdict (no_header v) = lacks_header
  verdict (ended (negsuc n) i v) = if r.errno i == 11 then keeps_open else fails_to_read
  verdict (ended (pos zero) i v) = if is_complete v then download_complete else incomplete
  verdict (ended (pos (suc n)) i v) = if is_complete v then download_complete else keeps_open

module _ (r : Reader) (net : Network) (concurrency fuel : ℕ) where
  -- The counters and `CloseConnection`, by the verdict.
  unfoldable pub conclude : ThreadContext → Verdict → Progress
  conclude ctx unfinished = starved
  conclude ctx keeps_open = continues ctx
  conclude ctx download_complete = completed (close_connection net concurrency fuel ctx)
  conclude ctx incomplete =
      close_connection net concurrency fuel
        (record ctx { stat_errors = suc ctx.stat_errors; incompletes = suc ctx.incompletes })
  conclude ctx fails_to_read =
      close_connection net concurrency fuel
        (record ctx { stat_errors = suc ctx.stat_errors; errors = suc ctx.errors })
  conclude ctx lacks_header =
      close_connection net concurrency fuel
        (record ctx { stat_errors = suc ctx.stat_errors; errors = suc ctx.errors })

  -- `HandleReadEvent`, whose reads are those from the `i`-th on, at most `k`.
  unfoldable pub handle_read_event : ℕ → ℕ → WgetVars → ThreadContext → Progress
  handle_read_event k i v ctx = conclude ctx (verdict r (read_loop r k i v))
