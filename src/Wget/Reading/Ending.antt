-- ===== src/Wget/Reading/Ending.antt =====
-- The loop of `HandleReadEvent` ends when a read answers nothing.
use mtcp_lua.Base.{
  ℕ, zero, suc, ◌+◌, ◌-◌, ◌%◌, ◌^◌, ◌<◌, ◌≡◌, refl, ap, ◌∙◌, arith, Bool, true, false, ◌==◌,
  if◌then◌else◌,
}
use mtcp_lua.Base.Int.{ℤ, pos, negsuc}
use mtcp_lua.Wget.Reading.{
  Reader, WgetVars, ReadEnd, no_header, ended, out_of_rounds, is_complete, Verdict, keeps_open,
  download_complete, incomplete, fails_to_read, lacks_header, unfinished, with_response,
  count_bytes, first_bytes, one_read, read_loop, verdict,
}

-- One of the first `k` reads answers nothing, as the data that mTCP has received is finite.
abbrev pub RunsDry : Reader → ℕ → Type 0
RunsDry r k = (j : ℕ) × (j < k) × ((n : ℕ) → r.read j ≡ pos n → n ≡ 0)

abbrev pub Ends : ReadEnd → Type 0
Ends (no_header v) = Unit
Ends (ended z i v) = Unit
Ends out_of_rounds = ⊥

abbrev pub Settled : Verdict → Type 0
Settled keeps_open = Unit
Settled download_complete = Unit
Settled incomplete = Unit
Settled fails_to_read = Unit
Settled lacks_header = Unit
Settled unfinished = ⊥

if_Ends : (b : Bool) (x y : ReadEnd) → Ends x → Ends y → Ends (if b then x else y)
if_Ends true x y hx hy = hx
if_Ends false x y hx hy = hy

if_Settled : (b : Bool) (x y : Verdict) → Settled x → Settled y → Settled (if b then x else y)
if_Settled true x y hx hy = hx
if_Settled false x y hx hy = hy

module _ (r : Reader) where
  counted :
      (next : WgetVars → ReadEnd) (i rd : ℕ) (v : WgetVars)
      → ((v' : WgetVars) → Ends (next v'))
      → Ends (count_bytes r next i rd v)
  counted next i rd v rec =
      let v1 : WgetVars = record v { recv = v.recv + rd } in
      if_Ends (is_complete v1) (ended (pos rd) (suc i) v1) _ tt
        (if_Ends (rd == 0) (ended (pos 0) (suc i) v1) (next v1) tt (rec v1))

  first_bytes-Ends :
      (next : WgetVars → ReadEnd) (i rd : ℕ) (v : WgetVars)
      → ((v' : WgetVars) → Ends (next v'))
      → Ends (first_bytes r next i rd v)
  unfolding first_bytes
  first_bytes-Ends next i rd v rec =
      let v1 = with_response r i rd v in
      let body = v1.resp_len - v1.header_len in
      let v2 : WgetVars = record v1 {
        file_len = r.content_length i;
        headerset = true;
        recv = v1.recv + (rd + 2 ^ 32 - body) % 2 ^ 32;
      } in
      if_Ends (v1.header_len == 0) (no_header (record v1 { recv = v1.recv + rd }))
        (count_bytes r next i body v2) tt (counted next i body v2 rec)

  one_read-Ends :
      (next : WgetVars → ReadEnd) (i : ℕ) (z : ℤ) (v : WgetVars)
      → ((v' : WgetVars) → Ends (next v'))
      → Ends (one_read r next i z v)
  one_read-Ends next i (negsuc n) v rec = tt
  one_read-Ends next i (pos zero) v rec = tt
  one_read-Ends next i (pos (suc n)) v rec =
      let v1 : WgetVars = record v { reads = v.reads + suc n } in
      if_Ends v.headerset (count_bytes r next i (suc n) v1) (first_bytes r next i (suc n) v)
        (counted next i (suc n) v1 rec) (first_bytes-Ends next i (suc n) v rec)

  dry_read :
      (next : WgetVars → ReadEnd) (i : ℕ) (z : ℤ) (v : WgetVars)
      → ((n : ℕ) → z ≡ pos n → n ≡ 0)
      → Ends (one_read r next i z v)
  dry_read next i (negsuc n) v stop = tt
  dry_read next i (pos zero) v stop = tt
  dry_read next i (pos (suc n)) v stop = absurd (not_zero (stop (suc n) refl))
    where
      not_zero : suc n ≡ 0 → ⊥
      not_zero h = omega (arith, h)

  -- The loop ends when it may run more rounds than there are reads up to one without data.
  pub read_loop-Ends :
      (j k i : ℕ) (v : WgetVars)
      → ((n : ℕ) → r.read (i + j) ≡ pos n → n ≡ 0)
      → j < k
      → Ends (read_loop r k i v)
  unfolding read_loop
  read_loop-Ends j zero i v stop enough = absurd (omega (arith, enough))
  read_loop-Ends zero (suc k) i v stop enough =
      dry_read (read_loop r k (suc i)) i (r.read i) v (λ n h. stop n (ap r.read (plus_zero i) ∙ h))
    where
      plus_zero : (i : ℕ) → i + 0 ≡ i
      plus_zero i = omega arith
  read_loop-Ends (suc j) (suc k) i v stop enough =
      one_read-Ends (read_loop r k (suc i)) i (r.read i) v (λ v'.
        read_loop-Ends j k (suc i) v' (λ n h. stop n (ap r.read (plus_suc i j) ∙ h))
          (omega (arith, enough)))
    where
      plus_suc : (i j : ℕ) → i + suc j ≡ suc i + j
      plus_suc i j = omega arith

  verdict-Settled : (e : ReadEnd) → Ends e → Settled (verdict r e)
  unfolding verdict
  verdict-Settled (no_header v) h = tt
  verdict-Settled out_of_rounds h = h
  verdict-Settled (ended (negsuc n) i v) h =
      if_Settled (r.errno i == 11) keeps_open fails_to_read tt tt
  verdict-Settled (ended (pos zero) i v) h =
      if_Settled (is_complete v) download_complete incomplete tt tt
  verdict-Settled (ended (pos (suc n)) i v) h =
      if_Settled (is_complete v) download_complete keeps_open tt tt

  -- The verdict on a reading of at most `k` rounds.
  pub read_loop-Settled :
      (k : ℕ) (v : WgetVars) → RunsDry r k → Settled (verdict r (read_loop r k 0 v))
  read_loop-Settled k v d =
      verdict-Settled (read_loop r k 0 v)
        (read_loop-Ends d.0 k 0 v (λ n h. d.2 n (ap r.read (from_zero d.0) ∙ h)) d.1)
    where
      from_zero : (j : ℕ) → j ≡ 0 + j
      from_zero j = omega arith
