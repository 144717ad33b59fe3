-- ===== src/Dpdk/Setup.antt =====
-- What a set-up that succeeds has done.
use mathlib.Core.Path.{subst}
use mtcp_lua.Base.{
  ℕ, zero, suc, ◌+◌, ◌-◌, ◌%◌, ◌≤◌, ◌<◌, ◌≡◌, refl, sym, ap, ◌∙◌, arith, Bool, true, false, not,
  Option, none, some, List, [], ◌∷◌, if◌then◌else◌, Bool-cases, ◌⊎◌, inl, inr,
}
use mtcp_lua.Base.Int.{ℤ}
use mtcp_lua.Dpdk.{
  Nic, InitError, is_negative, is_zero, or_else, setup_rx, setup_tx, setup_port, setup_ports,
  core_confs, rx_queue_failed, tx_queue_failed, start_failed, configure_failed,
}

module _ (nic : Nic) where
  -- The port is configured, started, and all its queues are set up.
  pub record PortUp (rings port : ℕ) : Type 0 where
    pub configured : is_zero (nic.configure port rings rings) ≡ true
    pub rx : (q : ℕ) → q < rings → is_negative (nic.rx_queue_setup port q) ≡ false
    pub tx : (q : ℕ) → q < rings → is_negative (nic.tx_queue_setup port q) ≡ false
    pub started : is_negative (nic.start port) ≡ false

  some-none : {A : Type 0} {a : A} → some a ≡ none → ⊥
  some-none h = cc

  or_else-none : (a b : Option InitError) → or_else a b ≡ none → (a ≡ none) × (b ≡ none)
  or_else-none none b h = (refl, h)
  or_else-none (some e) b h = absurd (some-none h)

  if_none :
      (b : Bool) (e : InitError) (rest : Option InitError)
      → (if b then some e else rest) ≡ none
      → (b ≡ false) × (rest ≡ none)
  if_none true e rest h = absurd (some-none h)
  if_none false e rest h = (refl, h)

  zero_of : (z : ℤ) → not (is_zero z) ≡ false → is_zero z ≡ true
  zero_of z h = elim (Bool-cases (is_zero z)) [ inl e ↦ e | inr e ↦ cc ]

  later : (q i k : ℕ) → q ≤ i → i < q + suc k → (i ≡ q) ⊎ ((suc q ≤ i) × (i < suc q + k))
  later q i k lo hi = ground arith

  setup_rx-none :
      (port q k : ℕ)
      → setup_rx nic port q k ≡ none
      → (i : ℕ) → q ≤ i
      → i < q + k
      → is_negative (nic.rx_queue_setup port i) ≡ false
  unfolding setup_rx
  setup_rx-none port q zero h i lo hi = absurd (omega (arith, lo, hi))
  setup_rx-none port q (suc k) h i lo hi =
      let (e, h') =
        if_none (is_negative (nic.rx_queue_setup port q)) (rx_queue_failed port q)
          (setup_rx nic port (suc q) k) h in
      elim (later q i k lo hi) [
        | inl same ↦ rw same e
        | inr z ↦ setup_rx-none port (suc q) k h' i z.0 z.1
      ]

  setup_tx-none :
      (port q k : ℕ)
      → setup_tx nic port q k ≡ none
      → (i : ℕ) → q ≤ i
      → i < q + k
      → is_negative (nic.tx_queue_setup port i) ≡ false
  unfolding setup_tx
  setup_tx-none port q zero h i lo hi = absurd (omega (arith, lo, hi))
  setup_tx-none port q (suc k) h i lo hi =
      let (e, h') =
        if_none (is_negative (nic.tx_queue_setup port q)) (tx_queue_failed port q)
          (setup_tx nic port (suc q) k) h in
      elim (later q i k lo hi) [
        | inl same ↦ rw same e
        | inr z ↦ setup_tx-none port (suc q) k h' i z.0 z.1
      ]

  setup_port-none : (rings port : ℕ) → setup_port nic rings port ≡ none → PortUp rings port
  unfolding setup_port
  setup_port-none rings port h =
      let start : Option InitError =
        (if is_negative (nic.start port) then some (start_failed port) else none) in
      let (z, h1) =
        if_none (not (is_zero (nic.configure port rings rings))) (configure_failed port)
          (or_else (setup_rx nic port 0 rings) (or_else (setup_tx nic port 0 rings) start)) h in
      let (a, b) =
        or_else-none (setup_rx nic port 0 rings) (or_else (setup_tx nic port 0 rings) start) h1 in
      let (c, d) = or_else-none (setup_tx nic port 0 rings) start b in
      record {
        configured = zero_of (nic.configure port rings rings) z;
        rx = λ q i. setup_rx-none port 0 rings a q (omega arith) (omega (arith, i));
        tx = λ q i. setup_tx-none port 0 rings c q (omega arith) (omega (arith, i));
        started = (if_none (is_negative (nic.start port)) (start_failed port) none d).0;
      }

  -- When `ldpdk_init`'s loop over the ports from `first` on ends without an error, each of them is
  -- configured for `rings` queues each way, every one of those queues is set up, and it is started.
  pub setup_ports-PortUp :
      (rings first k : ℕ)
      → setup_ports nic rings first k ≡ none
      → (port : ℕ) → first ≤ port
      → port < first + k
      → PortUp rings port
  unfolding setup_ports
  setup_ports-PortUp rings first zero h port lo hi = absurd (omega (arith, lo, hi))
  setup_ports-PortUp rings first (suc k) h port lo hi =
      let (a, b) =
        or_else-none (setup_port nic rings first) (setup_ports nic rings (suc first) k) h in
      elim (later first port k lo hi) [
        | inl same ↦ subst (PortUp rings) (sym same) (setup_port-none rings first a)
        | inr z ↦ setup_ports-PortUp rings (suc first) k b port z.0 z.1
      ]

-- The `i`-th entry of a list.
abbrev pub get_elem? {ℓ} : {A : Type ℓ} → List A → ℕ → Option A
get_elem? [] i = none
get_elem? (x ∷ xs) zero = some x
get_elem? (x ∷ xs) (suc i) = get_elem? xs i

entry :
    (i k j : ℕ)
    → j < k
    → get_elem? (core_confs i k) j
      ≡ some (record { core_id = i + j; queue_id = (i + j + 255) % 256; port_id = 0 })
unfolding core_confs
entry i zero j h = absurd (omega (arith, h))
entry i (suc k) zero h = rw (add_zero i) refl
  where
    add_zero : (m : ℕ) → m + 0 ≡ m
    add_zero m = omega arith
entry i (suc k) (suc j) h = entry (suc i) k j (omega (arith, h)) ∙ rw (add_suc i j) refl
  where
    add_suc : (m n : ℕ) → suc m + n ≡ m + suc n
    add_suc m n = omega arith

-- For `n` cores `ldpdk_init` writes an entry for each core `i` from 1 to `n - 1`, with a queue of
-- its own among the `n - 1` queues that it sets up.
pub core_confs-queue :
    (n i : ℕ)
    → 2 ≤ n
    → n ≤ 128
    → 1 ≤ i
    → i < n
    → (get_elem? (core_confs 0 (suc n)) i
        ≡ some (record { core_id = i; queue_id = i - 1; port_id = 0 }))
      × (i - 1 < n - 1)
core_confs-queue n i lo hi one lt = (
  entry 0 (suc n) i (omega (arith, lt))
      ∙ ap (λ (q : ℕ). some (record { core_id = 0 + i; queue_id = q; port_id = 0 }))
          (queue i one (omega (arith, lt, hi)))
      ∙ ap (λ (c : ℕ). some (record { core_id = c; queue_id = i - 1; port_id = 0 })) (zero_add i),
  omega (arith, one, lt),
)
  where
    zero_add : (m : ℕ) → 0 + m ≡ m
    zero_add m = omega arith

    queue : (i : ℕ) → 1 ≤ i → i < 128 → (0 + i + 255) % 256 ≡ i - 1
    queue i lo hi = omega (arith, lo, hi)
