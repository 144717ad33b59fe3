-- ===== src/Tests/Dpdk.antt =====
-- The set-up of DPDK at small numbers of cores.
use mtcp_lua.Base.{ℕ, ◌+◌, ◌^◌, ◌≤◌, ◌<◌, ◌≡◌, refl, arith, true, some, List, [], ◌∷◌, length}
use mtcp_lua.Base.Int.{pos}
use mtcp_lua.Dpdk.{
  Nic, core_mask_conv, setup_rx, setup_tx, setup_port, setup_ports, core_confs, ldpdk_init,
  start_eal, ready,
}
use mtcp_lua.Dpdk.Mask.{hex_value, core_mask_conv-value}
use mtcp_lua.Dpdk.Setup.{PortUp, setup_ports-PortUp, get_elem?, core_confs-queue}

abbrev obliging : Nic
obliging = record {
  eal_init = λ mask. pos 0;
  dev_count = 2;
  pool_created = true;
  configure = λ port rx tx. pos 0;
  rx_queue_setup = λ port q. pos 0;
  tx_queue_setup = λ port q. pos 0;
  start = λ port. pos 0;
}

mask_of_six : core_mask_conv (pos 6) ≡ some (48 ∷ 120 ∷ 51 ∷ 102 ∷ [])
unfolding core_mask_conv
mask_of_six = refl

init_two : ldpdk_init obliging 1 (pos 2) ≡ ready (core_confs 0 3)
unfolding ldpdk_init core_mask_conv start_eal setup_ports setup_port setup_rx setup_tx
init_two = refl

core_mask_conv-value_example :
    (digits : List ℕ) × (core_mask_conv (pos 6) ≡ some (48 ∷ 120 ∷ digits))
    × (hex_value 0 digits + 1 ≡ 2 ^ 6)
    × (length digits + 3 ≤ 64)
core_mask_conv-value_example = core_mask_conv-value 6 (omega arith) (omega arith)

setup_ports-PortUp_example : PortUp obliging 3 1
unfolding setup_ports setup_port setup_rx setup_tx
setup_ports-PortUp_example = setup_ports-PortUp obliging 3 0 2 refl 1 (omega arith) (omega arith)

core_confs-queue_example :
    (get_elem? (core_confs 0 9) 5 ≡ some (record { core_id = 5; queue_id = 4; port_id = 0 }))
    × (4 < 7)
core_confs-queue_example =
    core_confs-queue 8 5 (omega arith) (omega arith) (omega arith) (omega arith)
