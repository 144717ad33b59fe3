-- ===== src/Dpdk/Mask.antt =====
-- What the text of a core mask stands for.
use mtcp_lua.Base.{
  ℕ, zero, suc, ◌+◌, ◌-◌, ◌*◌, ◌/◌, ◌%◌, ◌^◌, ◌≤◌, ◌<◌, ◌≡◌, refl, sym, ap, ◌∙◌, arith, false, ◌||◌,
  some, List, [], ◌∷◌, ◌++◌, if◌then◌else◌, leb, length, length-append,
}
use native.Mathlib.Nat.{pow-suc}
use mtcp_lua.Base.Int.{pos, ltb_ℤ}
use mtcp_lua.Dpdk.{repeat, first_digit, core_mask_conv}

-- The value of a lower-case hexadecimal digit, and of a number written with them.
abbrev pub hex_digit : ℕ → ℕ
hex_digit c = if leb 97 c then c - 87 else c - 48

abbrev pub hex_value : ℕ → List ℕ → ℕ
hex_value acc [] = acc
hex_value acc (c ∷ cs) = hex_value (acc * 16 + hex_digit c) cs

nat_steps : (a p : ℕ) → (a * 16 + 15 + 1) * p ≡ (a + 1) * (p * 16)
nat_steps a p = grind arith

sixteen : (k : ℕ) → 2 ^ suc (suc (suc (suc k))) ≡ 2 ^ k * 16
sixteen k =
    let e1 = pow-suc 2 (suc (suc (suc k))) in
    let e2 = pow-suc 2 (suc (suc k)) in
    let e3 = pow-suc 2 (suc k) in let e4 = pow-suc 2 k in omega (arith, e1, e2, e3, e4)

times_sixteen : (a p : ℕ) → a * (p * 16) ≡ (a * p) * 16
times_sixteen a p = grind arith

hex_value-repeat : (n acc : ℕ) → hex_value acc (repeat n 102) + 1 ≡ (acc + 1) * 16 ^ n
hex_value-repeat zero acc = omega arith
hex_value-repeat (suc n) acc =
    hex_value-repeat n (acc * 16 + 15) ∙ rw (pow-suc 16 n) (nat_steps acc (16 ^ n))

length-repeat : (n c : ℕ) → length (repeat n c) ≡ n
length-repeat zero c = refl
length-repeat (suc n) c = omega (arith, length-repeat n c)

times_one : (a : ℕ) → a * 1 ≡ a
times_one a = omega arith

two_pow : (m q : ℕ) → 2 ^ m * 16 ^ q ≡ 2 ^ (m + 4 * q)
two_pow m zero = times_one (2 ^ m) ∙ ap (λ (x : ℕ). 2 ^ x) (omega arith)
two_pow m (suc q) =
    rw (pow-suc 16 q) (times_sixteen (2 ^ m) (16 ^ q))
    ∙ ap (λ (x : ℕ). x * 16) (two_pow m q)
    ∙ sym (sixteen (m + 4 * q))
    ∙ ap (λ (x : ℕ). 2 ^ x) (omega arith)

mask_value : (m q : ℕ) → m < 4 → hex_value 0 (first_digit m ++ repeat q 102) + 1 ≡ 2 ^ m * 16 ^ q
mask_value zero q h = hex_value-repeat q 0
mask_value (suc zero) q h = hex_value-repeat q 1
mask_value (suc (suc zero)) q h = hex_value-repeat q 3
mask_value (suc (suc (suc zero))) q h = hex_value-repeat q 7
mask_value (suc (suc (suc (suc m)))) q h = absurd (omega (arith, h))

first_length : (m : ℕ) → length (first_digit m) ≤ 1
first_length m = ground arith

-- For 2 to 128 cores `core_mask_conv` writes `0x` and the hexadecimal digits of the mask of the
-- first `n` cores, `2 ^ n - 1`; with the final zero the text fits its 64 bytes.
pub core_mask_conv-value :
    (n : ℕ)
    → 2 ≤ n
    → n ≤ 128
    → (digits : List ℕ) × (core_mask_conv (pos n) ≡ some (48 ∷ 120 ∷ digits))
      × (hex_value 0 digits + 1 ≡ 2 ^ n)
      × (length digits + 3 ≤ 64)
unfolding core_mask_conv
core_mask_conv-value n lo hi =
    let e : (ltb_ℤ (pos n) (pos 2) || ltb_ℤ (pos 128) (pos n)) ≡ false = in_range n lo hi in
    (
      first_digit (n % 4) ++ repeat (n / 4) 102,
      rw e refl,
      mask_value (n % 4) (n / 4) (omega arith)
          ∙ two_pow (n % 4) (n / 4)
          ∙ ap (λ (x : ℕ). 2 ^ x) (omega arith),
      omega (
        arith,
        length-append (first_digit (n % 4)) (repeat (n / 4) 102),
        length-repeat (n / 4) 102,
        first_length (n % 4),
      ),
    )
  where
    in_range :
        (n : ℕ) → 2 ≤ n → n ≤ 128 → (ltb_ℤ (pos n) (pos 2) || ltb_ℤ (pos 128) (pos n)) ≡ false
    in_range n lo hi = ground arith
