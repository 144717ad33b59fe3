-- ===== src/Wget/Reading/Counting.antt =====
-- Where the loop of `HandleReadEvent` ends, and what it has counted by then.
use mtcp_lua.Base.{
  ℕ, zero, suc, ◌+◌, ◌%◌, ◌^◌, ◌≤◌, ◌<◌, ◌≡◌, Bool, true, false, not, ◌&&◌, leb, ◌==◌, ◌⊎◌,
}
use mtcp_lua.Base.Int.{ℤ, pos, pos_part}
use mtcp_lua.Wget.Reading.{Reader, WgetVars, ReadEnd, no_header, ended, out_of_rounds, is_complete}

-- A header ends within the response, and no read answers more than fits the buffer of 8192 bytes.
pub record Sound (r : Reader) : Type 0 where
  pub header : (i len : ℕ) → r.find_http_header i len ≤ len
  pub fits : (i n : ℕ) → r.read i ≡ pos n → n ≤ 8192

-- Nothing is gathered of a response before its header is found.
abbrev pub Unread : WgetVars → Type 0
Unread v = v.headerset ≡ false → v.resp_len ≡ 0

-- The bytes of `n` reads from the `i`-th on.
abbrev pub total : Reader → ℕ → ℕ → ℕ
total r i zero = 0
total r i (suc n) = pos_part (r.read i) + total r (suc i) n

-- A loop from the `i`-th read on ended with `z` in the variables `v'`, after `n` reads and one more.
pub record Stops (r : Reader) (i : ℕ) (v : WgetVars) (z : ℤ) (v' : WgetVars) (n : ℕ) : Type 0 where
  pub recv : v'.recv ≡ v.recv + total r i (suc n)
  pub reads : v'.reads ≡ v.reads + total r i (suc n)
  pub full : (p : ℕ) → p < n → 0 < pos_part (r.read (i + p))
  pub before :
      (p : ℕ) → p < n → is_complete (record v' { recv = v.recv + total r i (suc p) }) ≡ false
  pub fixed : v.headerset ≡ true → (v'.header_len ≡ v.header_len) × (v'.file_len ≡ v.file_len)
  pub reason :
      (pos_part (r.read (i + n)) ≡ 0)
      ⊎ ((is_complete v' ≡ true)
          ⊎ ((n ≡ 0) × (v.headerset ≡ false) × (z ≡ pos 0) × (v'.header_len ≡ v'.resp_len)))

-- The end of the loop from the `i`-th read and the variables `v` on.
abbrev pub EndsAt : Reader → ℕ → WgetVars → ReadEnd → Type 0
EndsAt r i v (no_header v') =
    (v.headerset ≡ false)
    × (r.find_http_header i v'.resp_len ≡ 0)
    × (0 < pos_part (r.read i))
    × (v'.recv ≡ v.recv + pos_part (r.read i))
    × (v'.reads ≡ v.reads + pos_part (r.read i))
EndsAt r i v (ended z c v') = (n : ℕ) × (c ≡ i + suc n) × Stops r i v z v' n
EndsAt r i v out_of_rounds = ⊥

-- The test of `is_complete` on its three numbers.
abbrev covers : ℕ → ℕ → ℕ → Bool
covers h f n = not (h == 0) && leb ((h + f) % 2 ^ 64) n

module _ (r : Reader) (i : ℕ) (v v1 : WgetVars) where
  -- What one read of some bytes leaves.
  record After : Type 0 where
    some_bytes : 0 < pos_part (r.read i)
    recv : v1.recv ≡ v.recv + pos_part (r.read i)
    reads : v1.reads ≡ v.reads + pos_part (r.read i)
    found : v1.headerset ≡ true
    fixed : v.headerset ≡ true → (v1.header_len ≡ v.header_len) × (v1.file_len ≡ v.file_len)
