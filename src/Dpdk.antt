-- ===== src/Dpdk.antt =====
-- lconf.c: the set-up of DPDK for a number of cores.
--
-- The answers of DPDK are a parameter. `ldpdk_core_conf` is the list of its entries that the code
-- writes; its length in memory is DPDK's `RTE_MAX_LCORE`.
pub mod Mask
pub mod Setup
use mtcp_lua.Base.{
  ℕ, zero, suc, ◌+◌, ◌-◌, ◌/◌, ◌%◌, Bool, true, false, not, ◌||◌, Option, none, some, List, [], ◌∷◌,
  ◌++◌, ◌==◌, if◌then◌else◌, ltb,
}
use mtcp_lua.Base.Int.{ℤ, pos, negsuc, ltb_ℤ, pos_part}

abbrev pub repeat {ℓ} : {A : Type ℓ} → ℕ → A → List A
repeat zero x = []
repeat (suc n) x = x ∷ repeat n x

-- The digit that the `switch` writes.
abbrev pub first_digit : ℕ → List ℕ
first_digit m =
    if m == 1 then 49 ∷ [] else if m == 2 then 51 ∷ [] else if m == 3 then 55 ∷ [] else []

-- `core_mask_conv`: the text in `saved_core_mask`, up to its final zero, or `none` for -1.
unfoldable pub core_mask_conv : ℤ → Option (List ℕ)
core_mask_conv ncore =
    if ltb_ℤ ncore (pos 2) || ltb_ℤ (pos 128) ncore
    then none
    else some (48 ∷ 120 ∷ first_digit (pos_part ncore % 4) ++ repeat (pos_part ncore / 4) 102)

pub record Nic : Type 0 where
  pub eal_init : List ℕ → ℤ
  pub dev_count : ℕ
  pub pool_created : Bool
  pub configure : ℕ → ℕ → ℕ → ℤ
  pub rx_queue_setup : ℕ → ℕ → ℤ
  pub tx_queue_setup : ℕ → ℕ → ℤ
  pub start : ℕ → ℤ

pub data InitError : Type 0 where
  expected_one_argument : InitError
  invalid_core_num : InitError
  eal_init_failed : InitError
  mempool_failed : InitError
  configure_failed : ℕ → InitError
  rx_queue_failed : ℕ → ℕ → InitError
  tx_queue_failed : ℕ → ℕ → InitError
  start_failed : ℕ → InitError

-- `struct core_conf`; every entry has the one memory pool.
pub record CoreConf : Type 0 where
  pub core_id : ℕ
  pub queue_id : ℕ
  pub port_id : ℕ

pub data InitResult : Type 0 where
  failed : InitError → InitResult
  ready : List CoreConf → InitResult

abbrev pub is_negative : ℤ → Bool
is_negative (pos n) = false
is_negative (negsuc n) = true

abbrev pub is_zero : ℤ → Bool
is_zero (pos n) = n == 0
is_zero (negsuc n) = false

-- The first error of two parts.
abbrev pub or_else : Option InitError → Option InitError → Option InitError
or_else none b = b
or_else (some e) b = some e

module _ (nic : Nic) where
  -- The queues from `q` on, `k` of them.
  unfoldable pub setup_rx : ℕ → ℕ → ℕ → Option InitError
  setup_rx port q zero = none
  setup_rx port q (suc k) =
      let rest = setup_rx port (suc q) k in
      if is_negative (nic.rx_queue_setup port q) then some (rx_queue_failed port q) else rest

  unfoldable pub setup_tx : ℕ → ℕ → ℕ → Option InitError
  setup_tx port q zero = none
  setup_tx port q (suc k) =
      let rest = setup_tx port (suc q) k in
      if is_negative (nic.tx_queue_setup port q) then some (tx_queue_failed port q) else rest

  -- One port with `rings` queues each way.
  unfoldable pub setup_port : ℕ → ℕ → Option InitError
  setup_port rings port =
      if not (is_zero (nic.configure port rings rings))
      then some (configure_failed port)
      else or_else (setup_rx port 0 rings) (
          or_else (setup_tx port 0 rings)
            (if is_negative (nic.start port) then some (start_failed port) else none))

  -- The ports from `port` on, `k` of them.
  unfoldable pub setup_ports : ℕ → ℕ → ℕ → Option InitError
  setup_ports rings port zero = none
  setup_ports rings port (suc k) = or_else (setup_port rings port) (setup_ports rings (suc port) k)

-- The entries from `i` on, `k` of them; `queue_id` is a byte.
unfoldable pub core_confs : ℕ → ℕ → List CoreConf
core_confs i zero = []
core_confs i (suc k) =
    record { core_id = i; queue_id = (i + 255) % 256; port_id = 0 } ∷ core_confs (suc i) k

abbrev pub finish : ℕ → Option InitError → InitResult
finish ncore none = ready (core_confs 0 (suc ncore))
finish ncore (some e) = failed e

-- `ldpdk_init` from `rte_eal_init` on.
unfoldable pub start_eal : Nic → ℕ → Option (List ℕ) → InitResult
start_eal nic ncore none = failed invalid_core_num
start_eal nic ncore (some mask) =
    if is_negative (nic.eal_init mask)
    then failed eal_init_failed
    else if not nic.pool_created
    then failed mempool_failed
    else finish ncore (setup_ports nic (ncore - 1) 0 nic.dev_count)

-- `ldpdk_init`
unfoldable pub ldpdk_init : Nic → ℕ → ℤ → InitResult
ldpdk_init nic argc ncore =
    if not (argc == 1)
    then failed expected_one_argument
    else start_eal nic (pos_part ncore) (core_mask_conv ncore)
